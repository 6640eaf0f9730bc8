-- ===== src/Vfs.antt =====
-- kernel/fs/vfs.c: path names, mount points and devices.
pub mod Components
pub mod Canonical
pub mod Idempotent
mod Tests
