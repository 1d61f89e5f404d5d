-- ===== src/Shm/Table.antt =====
-- The states of the lock table of vfs/shm.go.
use sqlite.Prelude.{
  ℕ, zero, suc, ◌+◌, ◌-◌, ◌≡◌, ◌≢◌, refl, Bool, true, false, ltb, leb, if◌then◌else◌, ◌&&◌, update,
  arith,
}
use sqlite.Shm.{
  LockTable, Request, lock_shared, lock_exclusive, unlock_shared, unlock_exclusive, ok,
  release_shared, clear_exclusive, any_exclusive, add_shared, any_held, set_exclusive, shm_lock,
}

-- Slot `k` is one of the `n` slots from `i` on.
abbrev pub within : ℕ → ℕ → ℕ → Bool
within i n k = leb i k && ltb k (i + n)

module _ (k : ℕ) where
  release_shared-slot :
      (i n : ℕ) (g : LockTable)
      → ((release_shared i n g).shared k ≡ (if within i n k then g.shared k - 1 else g.shared k))
        × ((release_shared i n g).excl k ≡ g.excl k)
  unfolding release_shared
  release_shared-slot i zero g = (ground arith, refl)
  release_shared-slot i (suc n) g =
      let g' = record g {
        shared = if ltb 0 (g.shared i) then update g.shared i (g.shared i - 1) else g.shared;
      } in
      let ih = release_shared-slot (i + 1) n g' in (ground (arith, ih.0), ih.1)

  clear_exclusive-slot :
      (i n : ℕ) (g : LockTable)
      → ((clear_exclusive i n g).excl k ≡ (if within i n k then false else g.excl k))
        × ((clear_exclusive i n g).shared k ≡ g.shared k)
  unfolding clear_exclusive
  clear_exclusive-slot i zero g = (ground arith, refl)
  clear_exclusive-slot i (suc n) g =
      let ih = clear_exclusive-slot (i + 1) n (record g { excl = update g.excl i false }) in
      (ground (arith, ih.0), ih.1)

  add_shared-slot :
      (i n : ℕ) (g : LockTable)
      → ((add_shared i n g).shared k ≡ (if within i n k then g.shared k + 1 else g.shared k))
        × ((add_shared i n g).excl k ≡ g.excl k)
  unfolding add_shared
  add_shared-slot i zero g = (ground arith, refl)
  add_shared-slot i (suc n) g =
      let ih =
        add_shared-slot (i + 1) n (record g { shared = update g.shared i (g.shared i + 1) }) in
      (ground (arith, ih.0), ih.1)

  set_exclusive-slot :
      (i n : ℕ) (g : LockTable)
      → ((set_exclusive i n g).excl k ≡ (if within i n k then true else g.excl k))
        × ((set_exclusive i n g).shared k ≡ g.shared k)
  unfolding set_exclusive
  set_exclusive-slot i zero g = (ground arith, refl)
  set_exclusive-slot i (suc n) g =
      let ih = set_exclusive-slot (i + 1) n (record g { excl = update g.excl i true }) in
      (ground (arith, ih.0), ih.1)

  any_exclusive-slot :
      (i n : ℕ) (g : LockTable)
      → any_exclusive i n g ≡ false
      → within i n k ≡ true
      → g.excl k ≡ false
  unfolding any_exclusive
  any_exclusive-slot i zero g h w = absurd (ground arith)
  any_exclusive-slot i (suc n) g h w = ground (arith, any_exclusive-slot (i + 1) n g)

  any_held-slot :
      (i n : ℕ) (g : LockTable)
      → any_held i n g ≡ false
      → within i n k ≡ true
      → (g.excl k ≡ false) × (g.shared k ≡ 0)
  unfolding any_held
  any_held-slot i zero g h w = absurd (ground arith)
  any_held-slot i (suc n) g h w = ground (arith, any_held-slot (i + 1) n g)

-- No slot is held EXCLUSIVE and SHARED at once.
abbrev pub IsSafe : LockTable → Type 0
IsSafe g = (k : ℕ) → g.excl k ≡ true → g.shared k ≡ 0

-- Every request, granted or not, keeps EXCLUSIVE and SHARED apart.
pub shm_lock-IsSafe :
    (g : LockTable) (lo n : ℕ) (r : Request) → IsSafe g → IsSafe (shm_lock g lo n r).0
unfolding shm_lock
shm_lock-IsSafe g lo n lock_shared s k h =
    ground (arith, s k, add_shared-slot k lo n g, any_exclusive-slot k lo n g)
shm_lock-IsSafe g lo n lock_exclusive s k h =
    ground (arith, s k, set_exclusive-slot k lo n g, any_held-slot k lo n g)
shm_lock-IsSafe g lo n unlock_shared s k h = ground (arith, s k, release_shared-slot k lo n g)
shm_lock-IsSafe g lo n unlock_exclusive s k h = ground (arith, s k, clear_exclusive-slot k lo n g)

-- A request that is refused, by a conflict or by its range, leaves the table as it was.
pub shm_lock_refused :
    (g : LockTable) (lo n : ℕ) (r : Request)
    → (shm_lock g lo n r).1 ≢ ok
    → (shm_lock g lo n r).0 ≡ g
unfolding shm_lock
shm_lock_refused g lo n lock_shared h = ground arith
shm_lock_refused g lo n lock_exclusive h = ground arith
shm_lock_refused g lo n unlock_shared h = ground arith
shm_lock_refused g lo n unlock_exclusive h = ground arith

-- A granted EXCLUSIVE request holds every slot of its range, where nobody held anything before, and
-- its unlock brings every slot back to what it was.
pub shm_lock_exclusive_undo :
    (g : LockTable) (lo n k : ℕ)
    → (shm_lock g lo n lock_exclusive).1 ≡ ok
    → (within lo n k ≡ true
        → ((shm_lock g lo n lock_exclusive).0.excl k ≡ true)
          × (g.excl k ≡ false)
          × (g.shared k ≡ 0))
      × ((shm_lock (shm_lock g lo n lock_exclusive).0 lo n unlock_exclusive).0.excl k ≡ g.excl k)
      × ((shm_lock (shm_lock g lo n lock_exclusive).0 lo n unlock_exclusive).0.shared k
          ≡ g.shared k)
unfolding shm_lock
shm_lock_exclusive_undo g lo n k h =
    let up = set_exclusive-slot k lo n g in
    let down = clear_exclusive-slot k lo n (set_exclusive lo n g) in
    (
      λ w. (
        ground (arith, up, any_held-slot k lo n g),
        ground (arith, any_held-slot k lo n g),
        ground (arith, any_held-slot k lo n g),
      ),
      ground (arith, up, down, any_held-slot k lo n g),
      ground (arith, up, down),
    )

-- A granted SHARED request adds one holder to every slot of its range, where nobody held EXCLUSIVE,
-- and its unlock brings every slot back to what it was.
pub shm_lock_shared_undo :
    (g : LockTable) (lo n k : ℕ)
    → (shm_lock g lo n lock_shared).1 ≡ ok
    → (within lo n k ≡ true
        → ((shm_lock g lo n lock_shared).0.shared k ≡ g.shared k + 1) × (g.excl k ≡ false))
      × ((shm_lock (shm_lock g lo n lock_shared).0 lo n unlock_shared).0.excl k ≡ g.excl k)
      × ((shm_lock (shm_lock g lo n lock_shared).0 lo n unlock_shared).0.shared k ≡ g.shared k)
unfolding shm_lock
shm_lock_shared_undo g lo n k h =
    let up = add_shared-slot k lo n g in
    let down = release_shared-slot k lo n (add_shared lo n g) in
    (
      λ w. (ground (arith, up), ground (arith, any_exclusive-slot k lo n g)),
      ground (arith, up, down),
      ground (arith, up, down),
    )
