-- ===== src/UnixSocket/Tests.antt =====
-- A connected socket, to which its client writes (kernel/unix_socket.c).
use chaotix.Base.{ℕ, ◌≡◌, refl, false, some, [], ◌∷◌, arith, replicate, length-replicate}
use chaotix.RingBuf.{RingBuf, IsValid, is_full}
use chaotix.UnixSocket.{UnixSocket, get_buf_to_write, unix_socket_write}
use chaotix.UnixSocket.Streams.{Sent, unix_socket_write-Sent}

abbrev empty_ring : RingBuf
empty_ring = record { inner_buf = replicate 1024 0; write_idx = 0; read_idx = 0 }

-- The client has the description at 500.
abbrev connected : UnixSocket
connected = record {
  server_to_client_buf = empty_ring;
  client_to_server_buf = empty_ring;
  connector_fd = some 500;
}

outgoing-IsValid : IsValid (get_buf_to_write connected 500)
unfolding get_buf_to_write
outgoing-IsValid = record {
  block = length-replicate {A = ℕ} 1024 0;
  write_in = omega arith;
  read_in = omega arith;
}

outgoing_room : is_full (get_buf_to_write connected 500) ≡ false
unfolding get_buf_to_write is_full
outgoing_room = refl

unix_socket_write-Sent_example :
    (n : ℕ) × (after : UnixSocket) × (unix_socket_write 500 (1 ∷ 2 ∷ []) connected
      ≡ some (n, after))
    × Sent connected 500 600 (1 ∷ 2 ∷ []) n after
unix_socket_write-Sent_example =
    unix_socket_write-Sent connected 500 600 (1 ∷ 2 ∷ []) refl outgoing-IsValid outgoing_room
