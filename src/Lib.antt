-- ===== src/Lib.antt =====
-- A verification library of the storage layer of this repository, a SQLite driver for Go.
--
-- SQLite itself runs as translated C code; what the repository adds below it are virtual file systems
-- (VFS), which store the pages of a database and arbitrate the locks of its handles. This library
-- models those parts, two caches and four helper packages:
--
-- - Vault: the container of the compressed and encrypted VFS, vfs/vault/format.go. A file is cut into
--   blocks; blocks 0 and 1 hold two copies of the superblock, which names a segment index, which
--   names the segments of the page directory, whose entries name the slots of the pages.
--   Vault/Format.antt has the records, Vault/Wire.antt their encodings and the choice between the two
--   superblocks, Vault/Validate.antt the checks on open (superblock.validate, validateDirectory),
--   Vault/Alloc.antt the allocator of blocks and Vault/Rebuild.antt its reconstruction on open
--   (rebuildAllocator). The free list is specified by how often it covers each block
--   (Vault/Alloc/Cover.antt) and by its shape (Vault/Alloc/Sorted.antt).
--   Vault/Container.antt and its children model the open container, vfs/vault/container.go:
--   Container/Store.antt the pages (storePage, readAt, writeAt, truncate), Container/Commit.antt the
--   directory and the commit (writeMetaExtent, writeDirectory, commit, sync), Container/Compact.antt a
--   relocation batch of vfs/vault/compact_online.go (relocateBatch, moveSlot), Container/Trim.antt the
--   trimming of vfs/vault/trim.go. Vault/Disk.antt is the file
--   below it, the interface `backing`: each write, sync or truncation takes the next entry of a list of outcomes, and
--   a write may stop after some bytes. The container is specified by the blocks in use, which nothing
--   writes (Container/Owned.antt, Container/Storing.antt), and by the array of pages that it shows
--   (Container/Shows.antt). The compression, the cipher, the digest and the signature are fields of
--   the configuration, with what is asked of them in the record `Lawful`.
-- - Lock: the in-process file lock of vfs/advisorylock.go, which the container's handles share.
-- - Shm, ShmGroups: the WAL lock table of vfs/shm.go, and the groups of files that share one.
-- - Pages: the page maps of vfs/internal/memio, and the loops over them in the in-memory VFSs.
-- - Mvcc: the snapshot VFS, vfs/mvcc/iomethods.go. A handle reads the snapshot that it captured with
--   SHARED; a writer buffers its pages and publishes them with xSync. The handles of a file and the
--   database that they share are a `System`, a call of SQLite on one of them a `step`.
-- - StmtCache: the cache of prepared statements of a connection, stmt_cache.go: a map from the trimmed
--   text to an entry, and the entries in order of use. Entries and list elements are known by number.
-- - PageCache: the bounded page cache of pcache/pcache.go. Pages are known by the address of their block.
-- - Memdb: the I/O methods and the named databases of vfs/memdb, over the page maps of Pages.
-- - Sqlid: the quoting helpers of internal/sqlid.
-- - FtsQuery: the builder of full-text queries, fts/query.go.
-- - Zorder: the z-order curve of ext/zorder.
-- - Registry: the token registry of internal/cabi/registry.go.
-- - Tests: runs on small inputs, and the theorems at concrete arguments.
--
-- A method of the source is a function of the state that it reads to the state that it leaves, with the
-- result code; a Go error is a value, a panic is `none` or a condition of the theorem. Methods hold
-- the mutex of what they change, so that a run of several goroutines is a sequence of whole calls:
-- the step relations of Lock/Safety.antt and Mvcc/Locks.antt have one step for each call.
--
-- Numbers: block indices, offsets, sizes and counters are natural numbers. The uint64 sums of
-- validateDirectory, which a crafted file can make overflow, keep their `% 2 ^ 64`; the encodings keep
-- the width of every field, and the theorems on them ask that the fields fit. Loops run over lists or
-- a given count, but for the two that evict pages of PageCache: they take as fuel the length of the
-- list of pages that can be evicted, of which each round removes one. The loop of Zorder over the 63
-- bits has 63 rounds. The loops of readAt and writeAt take as fuel the number of bytes, of which each
-- round handles at least one, and the loop of truncate over segments the number of pages.
--
-- Conditions of the models: a handle asks for more than SHARED of the advisory lock only when it holds
-- SHARED, and writes to the snapshot VFS only under RESERVED, as SQLite does. Two snapshots are the
-- same pointer when they carry the same number. A Go map that the source ranges over is a list
-- of pairs, whose order stands for the unspecified one; other maps are functions.
--
-- Not modelled: the driver and the calls of the translated SQLite library; file I/O, registration and
-- C memory; cryptography and compression, which outside libraries provide; the loop around the
-- relocation batches, the other compactions of the container, and the reading of its directory on open; which
-- of the unsynced writes outlive a loss of power; the sharing of a page map between a write buffer
-- and a snapshot, which ensureWriteBuf prevents by a copy; the registration of the
-- in-memory VFSs; the other extensions; the rest of the search packages, the blob store and the ORM dialects.
pub mod Prelude
pub mod Vault
pub mod Lock
pub mod Shm
pub mod Pages
pub mod Mvcc
pub mod StmtCache
pub mod PageCache
pub mod Memdb
pub mod Sqlid
pub mod Registry
pub mod FtsQuery
pub mod Zorder
pub mod ShmGroups
pub mod Tests
