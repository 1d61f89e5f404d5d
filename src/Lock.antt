-- ===== src/Lock.antt =====
-- The in-process advisory file lock of vfs/advisorylock.go. A handle is a number; the level that the
-- source keeps behind a pointer on each handle is the map `level`, so `*a.writerLevel` is the level of
-- the writer. A result of `true` is nil, `false` is errLockBusy.
pub mod Safety
use sqlite.Prelude.{
  ℕ, zero, suc, ◌+◌, ◌-◌, Bool, true, false, Option, none, some, ltb, leb, ◌==◌, if◌then◌else◌,
  ◌&&◌, ◌||◌, update, not,
}

-- LockNone to LockExclusive are 0 to 4.
abbrev pub lock_none : ℕ
lock_none = 0

abbrev pub lock_shared : ℕ
lock_shared = 1

abbrev pub lock_reserved : ℕ
lock_reserved = 2

abbrev pub lock_pending : ℕ
lock_pending = 3

abbrev pub lock_exclusive : ℕ
lock_exclusive = 4

pub record AdvisoryLock : Type 0 where
  pub n_shared : ℕ
  pub writer : Option ℕ
  pub level : ℕ → ℕ

-- `a.writer != nil && a.writer != self`
abbrev pub other_writer : Option ℕ → ℕ → Bool
other_writer none self = false
other_writer (some w) self = not (w == self)

-- `a.writer != nil && *a.writerLevel >= l`
abbrev pub writer_at : Option ℕ → (ℕ → ℕ) → ℕ → Bool
writer_at none level l = false
writer_at (some w) level l = leb l (level w)

-- `case LockShared`
unfoldable pub lock_to_shared : AdvisoryLock → ℕ → AdvisoryLock × Bool
lock_to_shared a self =
    if writer_at a.writer a.level lock_pending
    then (a, false)
    else (record a { n_shared = a.n_shared + 1; level = update a.level self lock_shared }, true)

-- `case LockReserved`
unfoldable pub lock_to_reserved : AdvisoryLock → ℕ → AdvisoryLock × Bool
lock_to_reserved a self =
    if other_writer a.writer self
    then (a, false)
    else (record a { writer = some self; level = update a.level self lock_reserved }, true)

-- `case LockPending, LockExclusive`: a handle that must wait for readers stays at PENDING.
unfoldable pub lock_to_exclusive : AdvisoryLock → ℕ → ℕ → AdvisoryLock × Bool
lock_to_exclusive a self l =
    if other_writer a.writer self
    then (a, false)
    else if ltb (if leb lock_shared (a.level self) then 1 else 0) a.n_shared
    then (record a { writer = some self; level = update a.level self lock_pending }, false)
    else (record a { writer = some self; level = update a.level self l }, true)

-- `(*AdvisoryLock).Lock`
unfoldable pub lock : AdvisoryLock → ℕ → ℕ → AdvisoryLock × Bool
unfolding lock_to_shared lock_to_reserved lock_to_exclusive
lock a self l =
    if leb l (a.level self)
    then (a, true)
    else if l == lock_shared
    then lock_to_shared a self
    else if l == lock_reserved
    then lock_to_reserved a self
    else if leb l lock_exclusive
    then lock_to_exclusive a self l
    else (a, true)

-- The writer after `Unlock`, and the count of readers. The source's count is an int; `Inv` of
-- Lock/Safety.antt keeps it positive wherever it is lowered.
unfoldable pub unlock : AdvisoryLock → ℕ → ℕ → AdvisoryLock
unlock a self l = if leb (a.level self) l then a else record {
  n_shared =
      if leb lock_shared (a.level self) && ltb l lock_shared then a.n_shared - 1 else a.n_shared;
  writer =
      if leb lock_reserved (a.level self) && ltb l lock_reserved && not (other_writer a.writer self)
      then none
      else a.writer;
  level = update a.level self l;
}

-- `(*AdvisoryLock).CheckReservedLock`
unfoldable pub check_reserved_lock : AdvisoryLock → Bool
check_reserved_lock a = writer_at a.writer a.level lock_reserved
