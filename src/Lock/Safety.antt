-- ===== src/Lock/Safety.antt =====
-- The advisory lock of vfs/advisorylock.go under SQLite's protocol: a handle asks for more than SHARED
-- only when it holds SHARED.
use sqlite.Prelude.{
  ℕ, ◌≤◌, ◌<◌, ◌≡◌, ◌≢◌, refl, true, false, none, some, leb, ◌==◌, if◌then◌else◌, update, total,
  total-update, le-total, two-le-total, total-eq-zero, arith, ◌⊎◌, inl, inr, Bool-cases,
  Option-cases, ◌↔◌, Option-cases, ◌↔◌,
}
use sqlite.Lock.{
  AdvisoryLock, lock_none, lock_shared, lock_reserved, lock_pending, lock_exclusive, lock, unlock,
  check_reserved_lock, lock_to_shared, lock_to_reserved, lock_to_exclusive,
}

-- 1 for a handle that holds SHARED or more.
abbrev pub reads : ℕ → ℕ
reads l = if leb lock_shared l then 1 else 0

pub record Inv (n : ℕ) (a : AdvisoryLock) : Type 0 where
  pub counted : a.n_shared ≡ total reads n a.level
  pub writer_holds : (w : ℕ) → a.writer ≡ some w → (w < n) × (lock_reserved ≤ a.level w)
  pub writer_known : (i : ℕ) → i < n → lock_reserved ≤ a.level i → a.writer ≡ some i
  pub exclusive :
      (i j : ℕ) → i < n → j < n → i ≢ j → a.level i ≡ lock_exclusive → a.level j ≡ lock_none
  pub bounded : (i : ℕ) → a.level i ≤ lock_exclusive

-- The zero value, with every handle at NONE.
abbrev pub init : AdvisoryLock
init = record { n_shared = 0; writer = none; level = λ _. lock_none }

-- One call by one handle, with the protocol's condition on Lock.
pub data Step (n : ℕ) (a : AdvisoryLock) : AdvisoryLock → Type 0 where
  locks :
      (i l : ℕ)
      → i < n
      → l ≤ lock_exclusive
      → (l ≤ lock_shared) ⊎ (lock_shared ≤ a.level i)
      → Step n a (lock a i l).0
  unlocks : (i l : ℕ) → i < n → Step n a (unlock a i l)

pub data Reach (n : ℕ) : AdvisoryLock → Type 0 where
  start : Reach n init
  later : {a b : AdvisoryLock} → Reach n a → Step n a b → Reach n b

Inv-init : (n : ℕ) → Inv n init
Inv-init n = record {
  counted = omega (arith, total-eq-zero reads n (λ _. lock_none) (λ i h. refl));
  writer_holds = λ w h. cc;
  writer_known = λ i h k. absurd (omega arith);
  exclusive = λ i j h k ne e. refl;
  bounded = λ i. omega arith;
}

module _ {n : ℕ} {a : AdvisoryLock} (inv : Inv n a) (i : ℕ) (lt : i < n) where
  open inv use {counted, writer_holds, writer_known, exclusive, bounded}

  lock_to_shared-Inv : a.level i < lock_shared → Inv n (lock_to_shared a i).0
  unfolding lock_to_shared
  lock_to_shared-Inv low = record {
    counted = ground (arith, counted, total-update reads n a.level i lock_shared lt);
    writer_holds = λ w h. ground (arith, writer_holds w, writer_holds i);
    writer_known = λ j h k. ground (arith, writer_known j);
    exclusive = λ p q h k ne e. ground (arith, exclusive p q h k ne, writer_known p h);
    bounded = λ j. ground (arith, bounded j);
  }

  lock_to_reserved-Inv :
      a.level i < lock_reserved → lock_shared ≤ a.level i → Inv n (lock_to_reserved a i).0
  unfolding lock_to_reserved
  lock_to_reserved-Inv low high = record {
    counted = ground (arith, counted, total-update reads n a.level i lock_reserved lt);
    writer_holds = λ w h. ground (arith, writer_holds w);
    writer_known = λ j h k. ground (arith, writer_known j h);
    exclusive = λ p q h k ne e. ground (arith, exclusive p q h k ne, writer_known p h);
    bounded = λ j. ground (arith, bounded j);
  }

  lock_to_exclusive-Inv :
      (l : ℕ)
      → lock_pending ≤ l
      → l ≤ lock_exclusive
      → a.level i < l
      → lock_shared ≤ a.level i
      → Inv n (lock_to_exclusive a i l).0
  unfolding lock_to_exclusive
  lock_to_exclusive-Inv l p3 p4 low high = record {
    counted = ground (
      arith,
      counted,
      total-update reads n a.level i l lt,
      total-update reads n a.level i lock_pending lt,
    );
    writer_holds = λ w h. ground (arith, writer_holds w);
    writer_known = λ j h k. ground (arith, writer_known j h);
    exclusive = λ p q h k ne e. ground (
      arith,
      exclusive p q h k ne,
      writer_known p h,
      counted,
      two-le-total reads n a.level i q lt k,
    );
    bounded = λ j. ground (arith, bounded j);
  }

  lock-Inv :
      (l : ℕ)
      → l ≤ lock_exclusive
      → (l ≤ lock_shared) ⊎ (lock_shared ≤ a.level i)
      → Inv n (lock a i l).0
  unfolding lock
  lock-Inv l top proto = elim (Bool-cases (leb l (a.level i))) [
    | inl held ↦ rw held inv
    | inr up ↦ elim (Bool-cases (l == lock_shared)) [
      | inl sh ↦ rw (up, sh) (lock_to_shared-Inv (ground arith))
      | inr not_sh ↦ elim (Bool-cases (l == lock_reserved)) [
        | inl re ↦ rw (up, not_sh, re) (lock_to_reserved-Inv (ground arith) (ground arith))
        | inr more ↦
            let le4 : leb l lock_exclusive ≡ true = ground arith in
            rw (up, not_sh, more, le4)
              (lock_to_exclusive-Inv l (ground arith) top (ground arith) (ground arith))
      ]
    ]
  ]

  unlock-Inv : (l : ℕ) → Inv n (unlock a i l)
  unfolding unlock
  unlock-Inv l = record {
    counted =
        ground (arith, counted, total-update reads n a.level i l lt, le-total reads n a.level i lt);
    writer_holds = λ w h. ground (arith, writer_holds w, writer_known i lt);
    writer_known = λ j h k. ground (arith, writer_known j h, writer_known i lt);
    exclusive = λ p q h k ne e. ground (arith, exclusive p q h k ne, bounded i);
    bounded = λ j. ground (arith, bounded j, bounded i);
  }

Step-Inv : {n : ℕ} {a b : AdvisoryLock} → Step n a b → Inv n a → Inv n b
Step-Inv (locks i l lt top proto) inv = lock-Inv inv i lt l top proto
Step-Inv (unlocks i l lt) inv = unlock-Inv inv i lt l

-- Every reachable state satisfies the invariant.
pub Reach-Inv : {n : ℕ} {a : AdvisoryLock} → Reach n a → Inv n a
Reach-Inv {n} start = Inv-init n
Reach-Inv (later r st) = Step-Inv st (Reach-Inv r)

-- In a reachable state two handles never hold RESERVED or more together, and while one holds EXCLUSIVE
-- every other handle holds nothing.
pub mutual_exclusion :
    {n : ℕ} {a : AdvisoryLock}
    → Reach n a
    → (i j : ℕ) → i < n
    → j < n
    → i ≢ j
    → ¬ ((lock_reserved ≤ a.level i) × (lock_reserved ≤ a.level j))
      × (a.level i ≡ lock_exclusive → a.level j ≡ lock_none)
mutual_exclusion r i j p q ne =
    let inv = Reach-Inv r in
    (
      λ both. ground (arith, inv.writer_known i p both.0, inv.writer_known j q both.1),
      inv.exclusive i j p q ne,
    )

-- `CheckReservedLock` says whether some handle holds RESERVED or more.
pub check_reserved_lock_iff :
    {n : ℕ} {a : AdvisoryLock}
    → Reach n a
    → (check_reserved_lock a ≡ true) ↔ ((i : ℕ) × (i < n) × (lock_reserved ≤ a.level i))
unfolding check_reserved_lock
check_reserved_lock_iff {a} r =
    let inv = Reach-Inv r in
    (
      λ h. elim (Option-cases a.writer) [
        | inl no_one ↦ ground arith
        | inr (w, e) ↦ (w, (inv.writer_holds w e).0, (inv.writer_holds w e).1)
      ],
      λ (i, lt, high). ground (arith, inv.writer_known i lt),
    )

-- In a reachable state where a handle holds PENDING or EXCLUSIVE, a handle that holds nothing is refused SHARED, and the
-- refusal changes nothing.
pub pending_blocks_readers :
    {n : ℕ} {a : AdvisoryLock}
    → Reach n a
    → (i j : ℕ) → i < n
    → lock_pending ≤ a.level i
    → a.level j ≡ lock_none
    → lock a j lock_shared ≡ (a, false)
unfolding lock
pending_blocks_readers r i j lt high low = ground (arith, (Reach-Inv r).writer_known i lt)

-- In a reachable state a handle with SHARED or more that asks for EXCLUSIVE gets it as soon as every other handle holds
-- nothing.
pub exclusive_granted :
    {n : ℕ} {a : AdvisoryLock}
    → Reach n a
    → (i : ℕ) → i < n
    → lock_shared ≤ a.level i
    → ((j : ℕ) → j < n → j ≢ i → a.level j ≡ lock_none)
    → ((lock a i lock_exclusive).1 ≡ true) × ((lock a i lock_exclusive).0.level i ≡ lock_exclusive)
unfolding lock
exclusive_granted {n} {a} r i lt high alone =
    let inv = Reach-Inv r in
    let others : total reads n (update a.level i lock_none) ≡ 0 =
      total-eq-zero reads n (update a.level i lock_none) (λ j k. ground (arith, alone j k)) in
    let one : a.n_shared ≤ 1 =
      ground (arith, inv.counted, total-update reads n a.level i lock_none lt, others) in
    let own : (w : ℕ) → a.writer ≡ some w → w ≡ i =
      λ w e. ground (arith, inv.writer_holds w e, alone w) in
    elim (Option-cases a.writer) [
      | inl no_one ↦ (ground (arith, inv.bounded i), ground (arith, inv.bounded i))
      | inr (w, e) ↦
          (ground (arith, inv.bounded i, own w e), ground (arith, inv.bounded i, own w e))
    ]
