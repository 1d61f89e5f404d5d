-- ===== src/Mvcc.antt =====
-- The snapshot file system of vfs/mvcc/iomethods.go: several open handles over one in-memory
-- database. A pointer to a snapshot is compared by the source, so a snapshot carries the number that
-- it was published under. `write_mu` is the state of the mutex, on which the source uses TryLock and
-- Unlock. Page maps are values: that ensureWriteBuf clones the map of the snapshot, instead of writing
-- to it, is not expressed. A handle of the system is what `handleFor` finds for a file; `none` is a file without one.

pub mod Locks
pub mod Isolation
pub mod Reads
pub mod Updates
use sqlite.Prelude.{
  ℕ, ◌+◌, ◌-◌, Bool, true, false, List, [], Option, none, some, length, replicate, ltb, leb, ◌==◌,
  if◌then◌else◌, max, not, ◌&&◌, ◌||◌, update,
}
use sqlite.Pages.{Pages, put_page, truncate_pages, read_from_pages}

abbrev pub lock_none : ℕ
lock_none = 0

abbrev pub lock_shared : ℕ
lock_shared = 1

abbrev pub lock_reserved : ℕ
lock_reserved = 2

abbrev pub lock_exclusive : ℕ
lock_exclusive = 4

pub record Snapshot : Type 0 where
  pub serial : ℕ
  pub pages : Pages
  pub size : ℕ

-- `memDB`; `next` is the number of the next snapshot that is published.
pub record Db : Type 0 where
  pub snap : Snapshot
  pub next : ℕ
  pub write_mu : Bool

pub record Handle : Type 0 where
  pub read_only : Bool
  pub snap : Option Snapshot
  pub write_buf : Option Pages
  pub write_sz : ℕ
  pub has_write : Bool
  pub lock_lvl : ℕ

pub data Code : Type 0 where
  ok busy readonly short_read ioerr_read ioerr_write ioerr_truncate ioerr_lock : Code

-- `snap := h.snap; if snap == nil { snap = h.db.snap.Load() }`
abbrev pub view : Db → Handle → Snapshot
view db h = elim h.snap [ none ↦ db.snap | some s ↦ s ]

-- `pendingWrites != nil` and the copy from it
unfoldable pub read_pending : Option Pages → ℕ → ℕ → List ℕ × ℕ → List ℕ × ℕ
read_pending none off end acc = acc
read_pending (some m) off end acc = read_from_pages m off end acc

-- `xRead`: the pending writes are copied first, the snapshot's pages over them.
unfoldable pub x_read : Db → Handle → ℕ → ℕ → List ℕ × Code
unfolding read_pending
x_read db h amt off =
    let end = off + amt in
    let s = view db h in
    let (dst, n) = read_pending h.write_buf off end (replicate amt 0, 0) in
    let (dst', sn) = read_from_pages s.pages off end (dst, 0) in
    let filled = if ltb n sn then sn else n in
    (
      dst',
      if ltb (max s.size h.write_sz) end
          then short_read
          else if ltb filled amt
          then short_read
          else ok,
    )

-- `ensureWriteBuf`
unfoldable pub ensure_write_buf : Db → Handle → Handle
ensure_write_buf db h = elim h.write_buf [
  | some m ↦ h
  | none ↦ record h { write_buf = some (view db h).pages; write_sz = (view db h).size }
]

abbrev pub buffer : Handle → Pages
buffer h = elim h.write_buf [ none ↦ [] | some m ↦ m ]

-- `xWrite`
unfoldable pub x_write : Db → Handle → List ℕ → ℕ → Handle × Code
unfolding ensure_write_buf
x_write db h page off =
    let h' = ensure_write_buf db h in
    if h.read_only then (h, readonly) else (
      record h' {
        write_buf = some (put_page off page (buffer h'));
        write_sz = if ltb h'.write_sz (off + length page) then off + length page else h'.write_sz;
        has_write = true;
      },
      ok,
    )

-- `xTruncate`
unfoldable pub x_truncate : Db → Handle → ℕ → Handle × Code
unfolding ensure_write_buf
x_truncate db h size =
    let h' = ensure_write_buf db h in
    if h.read_only then (h, readonly) else (
      record h' {
        write_buf = some (truncate_pages size (buffer h'));
        write_sz = size;
        has_write = true;
      },
      ok,
    )

-- `xSync`: the publication of the write buffer.
unfoldable pub x_sync : Db → Handle → Db × Handle
x_sync db h =
    if h.has_write
    then (elim h.write_buf [
      | none ↦ (db, h)
      | some m ↦ (
        record db {
          snap = record { serial = db.next; pages = m; size = h.write_sz };
          next = db.next + 1;
        },
        record h { write_buf = none; has_write = false; snap = none },
      )
    ])
    else (db, h)

-- `xFileSize`
unfoldable pub x_file_size : Db → Handle → ℕ
x_file_size db h = if ltb h.write_sz (view db h).size then (view db h).size else h.write_sz

-- `h.snap != nil && h.snap != latest`
abbrev pub is_stale : Db → Handle → Bool
is_stale db h = elim h.snap [ none ↦ false | some s ↦ not (s.serial == db.snap.serial) ]

-- The last two steps of `xLock`: the snapshot of a new reader, and the level.
unfoldable pub enter_level : Db → Handle → ℕ → Handle
enter_level db h level = record h {
  snap = if leb lock_shared level && ltb h.lock_lvl lock_shared then some db.snap else h.snap;
  lock_lvl = level;
}

-- `xLock`
unfoldable pub x_lock : Db → Handle → ℕ → Db × Handle × Code
unfolding enter_level
x_lock db h level =
    if leb level h.lock_lvl
    then (db, h, ok)
    else if leb lock_reserved level && ltb h.lock_lvl lock_reserved
    then if db.write_mu then (db, h, busy) else if is_stale db h then (db, h, busy) else (
      record db { write_mu = true },
      enter_level db (record h { snap = some db.snap }) level,
      ok,
    )
    else (db, enter_level db h level, ok)

-- `xUnlock`: uncommitted writes are dropped with the writer's lock.
unfoldable pub x_unlock : Db → Handle → ℕ → Db × Handle
x_unlock db h level =
    if leb h.lock_lvl level
    then (db, h)
    else let leaves = leb lock_reserved h.lock_lvl && ltb level lock_reserved in
      let drops = leaves && h.has_write in
      (
        record db { write_mu = if leaves then false else db.write_mu },
        record h {
          write_buf = if drops then none else h.write_buf;
          write_sz = if drops then 0 else h.write_sz;
          has_write = if drops then false else h.has_write;
          snap = if level == lock_none then none else h.snap;
          lock_lvl = level;
        },
      )

-- `xClose`: the writer's mutex is let go, and the handle is gone.
unfoldable pub x_close : Db → Handle → Db
x_close db h = record db { write_mu = if leb lock_reserved h.lock_lvl then false else db.write_mu }

pub record System : Type 0 where
  pub db : Db
  pub handles : ℕ → Option Handle

-- The calls of SQLite on a file.
pub data Call : Type 0 where
  lock unlock : ℕ → Call
  write : List ℕ → ℕ → Call
  truncate : ℕ → Call
  sync close : Call

abbrev pub with_handle : System → ℕ → Handle → Db → System
with_handle s i h db = record { db = db; handles = update s.handles i (some h) }

-- A call on a handle that is there.
unfoldable pub run : System → ℕ → Handle → Call → System × Code
run s i h (lock level) = let (db, h', c) = x_lock s.db h level in (with_handle s i h' db, c)
run s i h (unlock level) = let (db, h') = x_unlock s.db h level in (with_handle s i h' db, ok)
run s i h (write page off) = let (h', c) = x_write s.db h page off in (with_handle s i h' s.db, c)
run s i h (truncate size) = let (h', c) = x_truncate s.db h size in (with_handle s i h' s.db, c)
run s i h sync = let (db, h') = x_sync s.db h in (with_handle s i h' db, ok)
run s i h close = (record { db = x_close s.db h; handles = update s.handles i none }, ok)

-- What the trampolines return for a file without a handle.
unfoldable pub no_handle : Call → Code
no_handle (lock level) = ioerr_lock
no_handle (write page off) = ioerr_write
no_handle (truncate size) = ioerr_truncate
no_handle _ = ok

unfoldable pub step : System → ℕ → Call → System × Code
unfolding run no_handle
step s i c = elim (s.handles i) [ none ↦ (s, no_handle c) | some h ↦ run s i h c ]
