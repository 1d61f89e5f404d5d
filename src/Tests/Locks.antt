-- ===== src/Tests/Locks.antt =====
-- The advisory lock of vfs/advisorylock.go and the lock table of vfs/shm.go on short runs.
use sqlite.Prelude.{◌≤◌, ◌≡◌, refl, true, false, arith, inl, inr, update}
use sqlite.Lock.{
  AdvisoryLock, lock, check_reserved_lock, lock_none, lock_shared, lock_reserved, lock_exclusive,
}
use sqlite.Lock.Safety.{
  init, Reach, start, later, locks, mutual_exclusion, pending_blocks_readers, exclusive_granted,
}
use sqlite.Shm
use sqlite.Shm.{LockTable, shm_lock, ok, ioerr_shmlock, busy}
use sqlite.Shm.Table.{within, IsSafe, shm_lock-IsSafe, shm_lock_exclusive_undo}

-- Handle 0 takes SHARED, and then EXCLUSIVE.
abbrev reader : AdvisoryLock
reader = (lock init 0 lock_shared).0

abbrev writer : AdvisoryLock
writer = (lock reader 0 lock_exclusive).0

lock_test :
    ((lock init 0 lock_shared).1 ≡ true)
    × (reader.level 0 ≡ lock_shared)
    × (writer.level 0 ≡ lock_exclusive)
    × (writer.level 1 ≡ lock_none)
    × ((lock writer 1 lock_shared).1 ≡ false)
    × (check_reserved_lock writer ≡ true)
unfolding lock check_reserved_lock
lock_test = (refl, refl, refl, refl, refl, refl)

reader-Reach : Reach 2 reader
reader-Reach = later start (locks 0 lock_shared (omega arith) (omega arith) (inl (omega arith)))

writer-Reach : Reach 2 writer
unfolding lock
writer-Reach =
    later reader-Reach (locks 0 lock_exclusive (omega arith) (omega arith) (inr (omega arith)))

mutual_exclusion_example :
    ¬ ((lock_reserved ≤ writer.level 0) × (lock_reserved ≤ writer.level 1))
    × (writer.level 0 ≡ lock_exclusive → writer.level 1 ≡ lock_none)
mutual_exclusion_example =
    mutual_exclusion writer-Reach 0 1 (omega arith) (omega arith) (omega arith)

pending_blocks_readers_example : lock writer 1 lock_shared ≡ (writer, false)
unfolding lock
pending_blocks_readers_example =
    pending_blocks_readers writer-Reach 0 1 (omega arith) (omega arith) refl

exclusive_granted_example :
    ((lock reader 0 lock_exclusive).1 ≡ true)
    × ((lock reader 0 lock_exclusive).0.level 0 ≡ lock_exclusive)
unfolding lock
exclusive_granted_example =
    exclusive_granted reader-Reach 0 (omega arith) (omega arith) (λ j p q. ground arith)

-- A table where nobody holds anything, and one where slot 3 is EXCLUSIVE.
abbrev idle : LockTable
idle = record { shared = λ _. 0; excl = λ _. false }

abbrev held : LockTable
held = record idle { excl = update idle.excl 3 true }

shm_lock_test :
    ((shm_lock idle 2 2 Shm.lock_exclusive).1 ≡ ok)
    × ((shm_lock held 2 2 Shm.lock_shared).1 ≡ busy)
    × ((shm_lock idle 7 2 Shm.lock_shared).1 ≡ ioerr_shmlock)
    × ((shm_lock idle 2 2 Shm.lock_shared).1 ≡ ok)
unfolding shm_lock Shm.any_held Shm.any_exclusive
shm_lock_test = (refl, refl, refl, refl)

held-IsSafe : IsSafe held
held-IsSafe k h = refl

shm_lock-IsSafe_example : IsSafe (shm_lock held 0 2 Shm.lock_shared).0
shm_lock-IsSafe_example = shm_lock-IsSafe held 0 2 Shm.lock_shared held-IsSafe

shm_lock_exclusive_undo_example :
    (within 2 2 3 ≡ true
      → ((shm_lock idle 2 2 Shm.lock_exclusive).0.excl 3 ≡ true)
        × (idle.excl 3 ≡ false)
        × (idle.shared 3 ≡ 0))
    × ((shm_lock (shm_lock idle 2 2 Shm.lock_exclusive).0 2 2 Shm.unlock_exclusive).0.excl 3
        ≡ idle.excl 3)
    × ((shm_lock (shm_lock idle 2 2 Shm.lock_exclusive).0 2 2 Shm.unlock_exclusive).0.shared 3
        ≡ idle.shared 3)
shm_lock_exclusive_undo_example = shm_lock_exclusive_undo idle 2 2 3 shm_lock_test.0
