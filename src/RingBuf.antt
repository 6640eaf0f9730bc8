-- ===== src/RingBuf.antt =====
-- kernel/ring_buf.c: the byte ring behind pipes, sockets and terminals.
-- One slot is always free, so that equal indices mean an empty ring.
-- The mutex of the struct is taken by the callers; see Fifo.antt and UnixSocket.antt.
mod Defs
pub mod Inv
pub mod Contents
pub mod Transfer
mod Tests
pub use Defs.{RingBuf, buf_capacity}
unfoldable pub use Defs.{init, is_empty, is_full, read, write, write_evicting_oldest}
pub use Inv.{IsValid, size, free_space}
pub use Contents.{contents}
