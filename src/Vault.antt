-- ===== src/Vault.antt =====
-- The compressing, encrypting virtual file system (vfs/vault): its on-disk format and allocator, and
-- the container that stores pages in it.
pub mod Alloc
pub mod Format
pub mod Rebuild
pub mod Wire
pub mod Validate
pub mod Disk
pub mod Container
