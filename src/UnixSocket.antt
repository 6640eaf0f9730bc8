-- ===== src/UnixSocket.antt =====
-- kernel/unix_socket.c: stream sockets, a ring in each direction, and the queue of those that wait to be
-- accepted. A round of a loop runs with the ring's mutex held; `none` says that the loop goes round again.
-- A description and a socket are known by their addresses; the queue is the list in the order of `next`.
pub mod Streams
mod Tests
use chaotix.Base.{
  ℕ, zero, suc, ◌+◌, ◌-◌, ◌*◌, ◌/◌, ◌%◌, ◌^◌, ◌≤◌, ◌<◌, min, max, ◌≡◌, refl, sym, ap, ap₂, ◌∙◌, ◌≢◌,
  ◌↔◌, ◌⊎◌, inl, inr, Bool, true, false, not, ◌&&◌, ◌||◌, Option, none, some, List, [], ◌∷◌, ◌++◌,
  map, append-nil, append_assoc, arith, add-one, ltb, leb, ◌==◌, if◌then◌else◌, ltb→lt, leb→le,
  ==_iff, ==_refl, Bool-cases, Option-cases, all_less, all_less-holds, same, same-true, length,
  get_or, set, take, drop, replicate, length-append, length-set, get_or-set_self, get_or-set_ne,
  set_twice, set-get_or, take-nil, drop-nil, length-take, length-drop, take_all, take-append-drop,
  length-replicate, take-min,
}
use chaotix.Base.Outcome.{Errno, Outcome, ok, err, panic, asserting}
use chaotix.RingBuf
use chaotix.RingBuf.{RingBuf, is_empty, is_full}

pub record UnixSocket : Type 0 where
  pub server_to_client_buf : RingBuf
  pub client_to_server_buf : RingBuf
  pub connector_fd : Option ℕ

-- `socket->connector_fd == desc`.
abbrev pub is_client : UnixSocket → ℕ → Bool
is_client socket desc = elim socket.connector_fd [ none ↦ false | some c ↦ c == desc ]

unfoldable pub get_buf_to_read : UnixSocket → ℕ → RingBuf
get_buf_to_read socket desc =
    if is_client socket desc then socket.server_to_client_buf else socket.client_to_server_buf

unfoldable pub get_buf_to_write : UnixSocket → ℕ → RingBuf
get_buf_to_write socket desc =
    if is_client socket desc then socket.client_to_server_buf else socket.server_to_client_buf

-- The ring is changed in place.
abbrev pub store_read : UnixSocket → ℕ → RingBuf → UnixSocket
store_read socket desc b =
    if is_client socket desc
    then record socket { server_to_client_buf = b }
    else record socket { client_to_server_buf = b }

abbrev pub store_write : UnixSocket → ℕ → RingBuf → UnixSocket
store_write socket desc b =
    if is_client socket desc
    then record socket { client_to_server_buf = b }
    else record socket { server_to_client_buf = b }

unfoldable pub unix_socket_read : ℕ → ℕ → UnixSocket → Option (List ℕ × UnixSocket)
unfolding get_buf_to_read
unix_socket_read desc count socket =
    let b : RingBuf = get_buf_to_read socket desc in
    let r : List ℕ × RingBuf = RingBuf.read b count in
    if is_empty b then none else some (r.0, store_read socket desc r.1)

unfoldable pub unix_socket_write : ℕ → List ℕ → UnixSocket → Option (ℕ × UnixSocket)
unfolding get_buf_to_write
unix_socket_write desc src socket =
    let b : RingBuf = get_buf_to_write socket desc in
    let r : ℕ × RingBuf = RingBuf.write b src in
    if is_full b then none else some (r.0, store_write socket desc r.1)

-- The part of the socket that listens.
pub record Listener : Type 0 where
  pub pending : List ℕ
  pub num_pending : ℕ
  pub backlog : ℕ

unfoldable pub enqueue_pending : ℕ → Listener → Listener
enqueue_pending connector l = record l {
  pending = l.pending ++ (connector ∷ []);
  num_pending = (l.num_pending + 1) % 2 ^ 32;
}

-- The caller has waited for `num_pending` to be above 0; an empty queue would be read at NULL.
unfoldable pub deque_pending : Listener → Outcome (ℕ × Listener)
deque_pending l = elim l.pending [
  | [] ↦ panic
  | c ∷ rest ↦
      ok (c, record l { pending = rest; num_pending = (l.num_pending + (2 ^ 32 - 1)) % 2 ^ 32 })
]

-- `none` while nothing is pending.
unfoldable pub unix_socket_accept : Listener → Option (Outcome (ℕ × Listener))
unfolding deque_pending
unix_socket_accept l = if ltb 0 l.num_pending then some (deque_pending l) else none

unfoldable pub unix_socket_connect : ℕ → Listener → Outcome Listener
unfolding enqueue_pending
unix_socket_connect connector l =
    if leb l.backlog l.num_pending then err Errno.econnrefused else ok (enqueue_pending connector l)
