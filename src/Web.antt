-- ===== src/Web.antt =====
-- pkg/web: who may reach the handlers of git and Git LFS over HTTP, and the handlers of Git LFS.
pub mod Decimal
pub mod Auth
pub mod Gate
pub mod Locks
pub mod Objects
pub mod Reads
