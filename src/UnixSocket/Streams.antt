-- ===== src/UnixSocket/Streams.antt =====
-- The two streams of a socket, and the queue of its listener (kernel/unix_socket.c).
use mathlib.Core.Path.{subst}
use chaotix.Base.{
  ℕ, ◌^◌, ◌≤◌, ◌<◌, min, ◌≡◌, refl, sym, ap, ap₂, ◌∙◌, ◌⊎◌, inl, inr, Bool, true, false, not, some,
  List, [], ◌∷◌, ◌++◌, arith, leb, if◌then◌else◌, leb→le, Bool-cases, length, take, length-append,
  take-min,
}
use chaotix.Base.Outcome.{Errno, ok, err}
use chaotix.RingBuf
use chaotix.RingBuf.{RingBuf, IsValid, is_empty, is_full, contents, free_space}
use chaotix.RingBuf.Transfer.{Put, write-Put}
use chaotix.UnixSocket.{
  UnixSocket, is_client, get_buf_to_read, get_buf_to_write, store_write, unix_socket_write,
  Listener, enqueue_pending, unix_socket_connect,
}

-- What `x` writes reaches the other end, and nothing reaches `x` itself.
pub record Sent (socket : UnixSocket) (x y : ℕ) (src : List ℕ) (n : ℕ) (after : UnixSocket)
    : Type 0 where
  pub count : n ≡ min (length src) (free_space (get_buf_to_write socket x))
  pub arrives :
      contents (get_buf_to_read after y) ≡ contents (get_buf_to_read socket y) ++ take n src
  pub valid : IsValid (get_buf_to_read after y)
  pub own_stream : get_buf_to_read after x ≡ get_buf_to_read socket x
  pub same_ends : after.connector_fd ≡ socket.connector_fd

-- The ring that one end writes is the one that the other end reads.
peer :
    (socket : UnixSocket) (x y : ℕ)
    → is_client socket y ≡ not (is_client socket x)
    → get_buf_to_read socket y ≡ get_buf_to_write socket x
unfolding get_buf_to_read get_buf_to_write
peer socket x y h = go (is_client socket x) (is_client socket y) h
  where
    go :
        (s t : Bool)
        → t ≡ not s
        → (if t then socket.server_to_client_buf else socket.client_to_server_buf)
          ≡ (if s then socket.client_to_server_buf else socket.server_to_client_buf)
    go true true e = absurd (cc)
    go true false e = refl
    go false true e = refl
    go false false e = absurd (cc)

store-fd :
    (socket : UnixSocket) (x : ℕ) (b : RingBuf)
    → (store_write socket x b).connector_fd ≡ socket.connector_fd
store-fd socket x b = elim (Bool-cases (is_client socket x)) [ inl t ↦ simp t | inr t ↦ simp t ]

store-peer :
    (socket : UnixSocket) (x y : ℕ) (b : RingBuf)
    → is_client socket y ≡ not (is_client socket x)
    → get_buf_to_read (store_write socket x b) y ≡ b
unfolding get_buf_to_read
store-peer socket x y b h = elim (Bool-cases (is_client socket x)) [
  | inl t ↦ let u : is_client socket y ≡ false = h ∙ ap not t in simp (t, u)
  | inr t ↦ let u : is_client socket y ≡ true = h ∙ ap not t in simp (t, u)
]

store-own :
    (socket : UnixSocket) (x : ℕ) (b : RingBuf)
    → get_buf_to_read (store_write socket x b) x ≡ get_buf_to_read socket x
unfolding get_buf_to_read
store-own socket x b = elim (Bool-cases (is_client socket x)) [ inl t ↦ simp t | inr t ↦ simp t ]

-- A write at one end, whose outgoing ring is valid and not full, returns how many bytes fit; these stand,
-- in their order, behind what the other end has still to read, and what comes in at the own end is as before.
pub unix_socket_write-Sent :
    (socket : UnixSocket) (x y : ℕ) (src : List ℕ)
    → is_client socket y ≡ not (is_client socket x)
    → IsValid (get_buf_to_write socket x)
    → is_full (get_buf_to_write socket x) ≡ false
    → (n : ℕ) × (after : UnixSocket) × (unix_socket_write x src socket ≡ some (n, after))
      × Sent socket x y src n after
unfolding unix_socket_write
unix_socket_write-Sent socket x y src h v f =
    let b : RingBuf = get_buf_to_write socket x in
    let w : ℕ × RingBuf = RingBuf.write b src in
    let p : Put b src w = write-Put b src v f in
    let e : get_buf_to_read (store_write socket x w.1) y ≡ w.1 = store-peer socket x y w.1 h in
    (
      w.0,
      store_write socket x w.1,
      simp f,
      record {
        count = p.count;
        arrives =
            ap contents e
            ∙ p.bytes
            ∙ ap₂ (λ r s. contents r ++ s) (sym (peer socket x y h))
                (sym (take-min src (free_space b)) ∙ ap (λ k. take k src) (sym p.count));
        valid = subst IsValid (sym e) p.valid;
        own_stream = store-own socket x w.1;
        same_ends = store-fd socket x w.1;
      },
    )

-- The counter of a listener is the number of sockets that wait, and no more than the backlog.
pub record Counted (l : Listener) : Type 0 where
  pub counter : l.num_pending ≡ length l.pending
  pub bound : length l.pending ≤ l.backlog
  pub word : l.backlog < 2 ^ 32

-- A connection to a listener whose counter is right is refused just if the queue is as long as the
-- backlog; if not, the socket waits behind all others, and the counter is right again.
pub unix_socket_connect-Counted :
    (c : ℕ) (l : Listener)
    → Counted l
    → ((unix_socket_connect c l ≡ err Errno.econnrefused) × (length l.pending ≡ l.backlog))
      ⊎ ((after : Listener) × (unix_socket_connect c l ≡ ok after)
          × (after.pending ≡ l.pending ++ (c ∷ []))
          × Counted after)
unfolding unix_socket_connect enqueue_pending
unix_socket_connect-Counted c l v = elim (Bool-cases (leb l.backlog l.num_pending)) [
  | inl t ↦ inl (simp t, omega (arith, leb→le l.backlog l.num_pending t, v.counter, v.bound))
  | inr t ↦
      let lt : l.num_pending < l.backlog = ground arith in
      let n = length-append l.pending (c ∷ []) in
      inr (
        enqueue_pending c l,
        simp t,
        refl,
        record {
          counter = omega (arith, n, v.counter, lt, v.word);
          bound = omega (arith, n, v.counter, lt);
          word = v.word;
        },
      )
]
