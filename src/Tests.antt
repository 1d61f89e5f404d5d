-- ===== src/Tests.antt =====
-- Runs of the definitions on small inputs, and the theorems applied to them.
mod Allocator
mod Superblocks
mod Opening
mod Locks
mod Snapshots
mod Statements
mod Caches
mod Sharing
mod Queries
mod Groups
mod Containers
