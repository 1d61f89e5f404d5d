-- ===== src/Vault/Disk/Keeps.antt =====
-- Writes to the backing file, and the blocks in use.
use native.Mathlib.Nat.{le-div_iff_mul-le, div-lt_iff_lt-mul}
use sqlite.Prelude.{
  ℕ, zero, suc, ◌+◌, ◌-◌, ◌*◌, ◌/◌, ◌≤◌, ◌<◌, ◌≡◌, refl, ◌∙◌, List, [], ◌∷◌, some, length, take,
  Bool-cases, inl, inr, arith, length-take, ltb, true,
}
use sqlite.Vault.Alloc.Cover.{hit}
use sqlite.Vault.Disk.{
  Disk, Fault, done, torn, byte_at, overlay, place, write_under, write_at, sync_under, sync_disk,
  bytes_from, read_at,
}

-- `u b` is at least 1 for the blocks in use. Every byte of a block in use stands as before, the file did not shrink, and its medium
-- fails to read where it did before.
pub record Keeps (bs : ℕ) (u : ℕ → ℕ) (d d' : Disk) : Type 0 where
  pub same : (i : ℕ) → 1 ≤ u (i / bs) → d'.bytes i ≡ d.bytes i
  pub grown : d.size ≤ d'.size
  pub medium : d'.unreadable ≡ d.unreadable

byte_at_past : (old : ℕ) (l : List ℕ) (i : ℕ) → length l ≤ i → byte_at old l i ≡ old
unfolding byte_at
byte_at_past old [] i h = refl
byte_at_past old (x ∷ l) zero h = ground arith
byte_at_past old (x ∷ l) (suc i) h = byte_at_past old l i (omega arith)

overlay_outside :
    (off : ℕ) (l : List ℕ) (f : ℕ → ℕ) (i : ℕ)
    → (off ≤ i → i < off + length l → ◌≡◌ {A = ℕ} 0 1)
    → overlay off l f i ≡ f i
unfolding overlay
overlay_outside off l f i h = elim (Bool-cases (ltb i off)) [
  | inl before ↦ rw before refl
  | inr after ↦ rw after (byte_at_past (f i) l (i - off) (ground (arith, h)))
]

-- A byte of the run lies in one of its blocks.
pub block_of :
    (bs s n i : ℕ) → 0 < bs → s * bs ≤ i → i < (s + n) * bs → (s ≤ i / bs) × (i / bs < s + n)
block_of bs s n i p lo hi = ((le-div_iff_mul-le p).1 lo, (div-lt_iff_lt-mul p).1 hi)

pub Keeps-weaken :
    (bs : ℕ) (u v : ℕ → ℕ) (d e : Disk) → ((b : ℕ) → v b ≤ u b) → Keeps bs u d e → Keeps bs v d e
Keeps-weaken bs u v d e le k = record {
  same = λ i h. k.same i (omega (arith, le (i / bs)));
  grown = k.grown;
  medium = k.medium;
}

pub durable-sync_disk :
    (d : Disk)
    → (sync_disk d).1 ≡ true
    → ((sync_disk d).0.durable ≡ d.bytes) × ((sync_disk d).0.bytes ≡ d.bytes)
unfolding sync_disk sync_under
durable-sync_disk d = by_fault d.faults
  where
    by_fault :
        (fs : List Fault)
        → (sync_under fs d).1 ≡ true
        → ((sync_under fs d).0.durable ≡ d.bytes) × ((sync_under fs d).0.bytes ≡ d.bytes)
    by_fault [] h = (refl, refl)
    by_fault (done ∷ rest) h = (refl, refl)
    by_fault (torn n ∷ rest) h = absurd (ground arith)

module _ (bs : ℕ) (u : ℕ → ℕ) (p : 0 < bs) where
  pub Keeps-refl : (d : Disk) → Keeps bs u d d
  Keeps-refl d = record { same = λ i h. refl; grown = omega arith; medium = refl }

  pub Keeps-trans :
      (u' : ℕ → ℕ) (d e f : Disk)
      → ((b : ℕ) → u b ≤ u' b)
      → Keeps bs u d e
      → Keeps bs u' e f
      → Keeps bs u d f
  Keeps-trans u' d e f le k k' = record {
    same = λ i h. k'.same i (omega (arith, le (i / bs))) ∙ k.same i h;
    grown = omega (arith, k.grown, k'.grown);
    medium = k'.medium ∙ k.medium;
  }

  -- The run of `n` blocks from `s` shares no block with those in use.
  abbrev pub ApartFrom : ℕ → ℕ → Type 0
  ApartFrom s n = (b : ℕ) → u b + hit s n b ≤ 1

  place-Keeps :
      (d : Disk) (rest : List Fault) (s n : ℕ) (l : List ℕ)
      → length l ≤ n * bs
      → ApartFrom s n
      → Keeps bs u d (place d rest (s * bs) l)
  unfolding place
  place-Keeps d rest s n l len apart = record {
    same = λ i h. overlay_outside (s * bs) l d.bytes i (λ lo hi. clash i h lo hi);
    grown = omega arith;
    medium = refl;
  }
    where
      clash : (i : ℕ) → 1 ≤ u (i / bs) → s * bs ≤ i → i < s * bs + length l → ◌≡◌ {A = ℕ} 0 1
      clash i h lo hi =
          let at : (s ≤ i / bs) × (i / bs < s + n) = block_of bs s n i p lo (omega (arith, len)) in
          ground (arith, apart (i / bs), at.0, at.1)

  -- A write into a run of blocks that are not in use keeps those that are, also when it fails part of the way.
  pub write_at-Keeps :
      (d : Disk) (s n : ℕ) (l : List ℕ)
      → length l ≤ n * bs
      → ApartFrom s n
      → Keeps bs u d (write_at d (s * bs) l).0
  unfolding write_at write_under
  write_at-Keeps d s n l len apart = by_fault d.faults
    where
      by_fault : (fs : List Fault) → Keeps bs u d (write_under fs d (s * bs) l).0
      by_fault [] = place-Keeps d [] s n l len apart
      by_fault (done ∷ rest) = place-Keeps d rest s n l len apart
      by_fault (torn k ∷ rest) =
          place-Keeps d rest s n (take k l) (omega (arith, length-take k l)) apart

  pub sync_disk-Keeps : (d : Disk) → Keeps bs u d (sync_disk d).0
  unfolding sync_disk sync_under
  sync_disk-Keeps d = by_fault d.faults
    where
      by_fault : (fs : List Fault) → Keeps bs u d (sync_under fs d).0
      by_fault [] = record { same = λ i h. refl; grown = omega arith; medium = refl }
      by_fault (done ∷ rest) = record { same = λ i h. refl; grown = omega arith; medium = refl }
      by_fault (torn n ∷ rest) = record { same = λ i h. refl; grown = omega arith; medium = refl }

  pub bytes_from_same :
      (f g : ℕ → ℕ) (off n : ℕ)
      → ((i : ℕ) → off ≤ i → i < off + n → g i ≡ f i)
      → bytes_from g off n ≡ bytes_from f off n
  unfolding bytes_from
  bytes_from_same f g off zero h = refl
  bytes_from_same f g off (suc n) h =
      rw
        (
          h off (omega arith) (omega arith),
          bytes_from_same f g (suc off) n (λ i lo hi. h i (omega arith) (omega arith)),
        )
        refl

  -- What could be read from blocks in use reads the same afterwards.
  pub read_at-Keeps :
      (d d' : Disk) (s n len : ℕ) (l : List ℕ)
      → len ≤ n * bs
      → ((b : ℕ) → hit s n b ≤ u b)
      → Keeps bs u d d'
      → read_at d (s * bs) len ≡ some l
      → read_at d' (s * bs) len ≡ some l
  unfolding read_at
  read_at-Keeps d d' s n len l small inside k h =
      rw (k.medium, bytes_from_same d.bytes d'.bytes (s * bs) len bytes_kept)
        (ground (arith, k.grown))
    where
      bytes_kept : (i : ℕ) → s * bs ≤ i → i < s * bs + len → d'.bytes i ≡ d.bytes i
      bytes_kept i lo hi =
          let at : (s ≤ i / bs) × (i / bs < s + n) =
            block_of bs s n i p lo (omega (arith, small)) in
          k.same i (ground (arith, inside (i / bs), at.0, at.1))
