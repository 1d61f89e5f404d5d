-- ===== src/Shm.antt =====
-- The WAL lock table of vfs/shm.go: eight slots, each with a count of SHARED holders and an EXCLUSIVE
-- flag. `offset` and `n` are the int32 arguments of xShmLock; a negative one is refused by the source
-- before the table is read, and is left out.
pub mod Table
use sqlite.Prelude.{
  ℕ, zero, suc, ◌+◌, ◌-◌, Bool, true, false, ltb, leb, ◌==◌, if◌then◌else◌, ◌||◌, update,
}

abbrev pub shm_nlock : ℕ
shm_nlock = 8

pub record LockTable : Type 0 where
  pub shared : ℕ → ℕ
  pub excl : ℕ → Bool

-- The four combinations of the flags.
pub data Request : Type 0 where
  lock_shared lock_exclusive unlock_shared unlock_exclusive : Request

pub data Code : Type 0 where
  ok busy ioerr_shmlock : Code

-- The loops over the `n` slots from `i` on.
unfoldable pub release_shared : ℕ → ℕ → LockTable → LockTable
release_shared i zero g = g
release_shared i (suc n) g = release_shared (i + 1) n (record g {
  shared = if ltb 0 (g.shared i) then update g.shared i (g.shared i - 1) else g.shared;
})

unfoldable pub clear_exclusive : ℕ → ℕ → LockTable → LockTable
clear_exclusive i zero g = g
clear_exclusive i (suc n) g = clear_exclusive (i + 1) n (record g { excl = update g.excl i false })

unfoldable pub any_exclusive : ℕ → ℕ → LockTable → Bool
any_exclusive i zero g = false
any_exclusive i (suc n) g = let rest = any_exclusive (i + 1) n g in if g.excl i then true else rest

unfoldable pub add_shared : ℕ → ℕ → LockTable → LockTable
add_shared i zero g = g
add_shared i (suc n) g =
    add_shared (i + 1) n (record g { shared = update g.shared i (g.shared i + 1) })

unfoldable pub any_held : ℕ → ℕ → LockTable → Bool
any_held i zero g = false
any_held i (suc n) g =
    let rest = any_held (i + 1) n g in if g.excl i || ltb 0 (g.shared i) then true else rest

unfoldable pub set_exclusive : ℕ → ℕ → LockTable → LockTable
set_exclusive i zero g = g
set_exclusive i (suc n) g = set_exclusive (i + 1) n (record g { excl = update g.excl i true })

-- The part of `xShmLockTrampoline` after the range check.
unfoldable pub arbitrate : LockTable → ℕ → ℕ → Request → LockTable × Code
arbitrate g lo n unlock_shared = (release_shared lo n g, ok)
arbitrate g lo n unlock_exclusive = (clear_exclusive lo n g, ok)
arbitrate g lo n lock_shared = if any_exclusive lo n g then (g, busy) else (add_shared lo n g, ok)
arbitrate g lo n lock_exclusive = if any_held lo n g then (g, busy) else (set_exclusive lo n g, ok)

-- `xShmLockTrampoline` on an attached file.
unfoldable pub shm_lock : LockTable → ℕ → ℕ → Request → LockTable × Code
unfolding arbitrate
shm_lock g offset n r =
    if ltb shm_nlock (offset + n) || leb (offset + n) offset
    then (g, ioerr_shmlock)
    else arbitrate g offset n r
