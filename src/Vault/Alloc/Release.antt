-- ===== src/Vault/Alloc/Release.antt =====
-- `release` of vfs/vault/format.go, and the shape of the free list.
use sqlite.Prelude.{
  ℕ, ◌+◌, ◌≤◌, ◌<◌, ◌≡◌, List, [], ◌∷◌, ltb, leb, ◌==◌, arith, inl, inr, Bool-cases, ◌⊎◌,
}
use sqlite.Vault.Alloc.{Extent, Allocator, insert_run, release}
use sqlite.Vault.Alloc.Cover.{cover}
use sqlite.Vault.Alloc.Sorted.{Ascending, IsValid, Ascending-of_Spaced, coalesce-Spaced}

-- No block of the run is on the free list.
abbrev pub NotFree : ℕ → ℕ → List Extent → Type 0
NotFree s n l = (b : ℕ) → s ≤ b → b < s + n → cover l b ≡ 0

-- A run with no free block lies wholly on one side of each free extent.
NotFree-side :
    (s n : ℕ) (e : Extent) (l : List Extent)
    → 0 < n
    → 0 < e.count
    → NotFree s n (e ∷ l)
    → (e.start + e.count ≤ s) ⊎ (s + n ≤ e.start)
unfolding cover
NotFree-side s n e l p q h = elim (Bool-cases (ltb s e.start)) [
  | inl before ↦ ground (arith, h e.start)
  | inr after ↦ ground (arith, h s)
]

NotFree-tail : (s n : ℕ) (e : Extent) (l : List Extent) → NotFree s n (e ∷ l) → NotFree s n l
unfolding cover
NotFree-tail s n e l h b p q = omega (arith, h b p q)

insert_run-Ascending :
    (s n lo hi : ℕ) (l : List Extent)
    → 0 < n
    → lo ≤ s
    → s + n ≤ hi
    → NotFree s n l
    → Ascending lo hi l
    → Ascending lo hi (insert_run s n l)
unfolding insert_run
insert_run-Ascending s n lo hi [] p q r h v = (q, p, r, tt)
insert_run-Ascending s n lo hi (e ∷ l) p q r h v =
    let side = NotFree-side s n e l p v.1 h in
    elim (Bool-cases (leb s e.start)) [
      | inl before ↦ rw before (q, p, r, (ground arith, v.1, v.2, v.3))
      | inr after ↦ rw after (
        v.0,
        v.1,
        v.2,
        insert_run-Ascending s n (e.start + e.count) hi l p (ground arith) r
            (NotFree-tail s n e l h) v.3,
      )
    ]

-- Releasing a run that is not free, past the superblocks and below the high-water mark, leaves the
-- free list sorted and coalesced.
pub release-IsValid :
    (a : Allocator) (s n : ℕ)
    → 2 ≤ s
    → s + n ≤ a.high_water
    → NotFree s n a.free
    → IsValid a
    → IsValid (release a s n)
unfolding release
release-IsValid a s n p q h v = elim (Bool-cases (n == 0)) [
  | inl z ↦ rw (z, release) v
  | inr z ↦
      rw (z, release)
        (record {
          spaced =
              coalesce-Spaced 1 (record a { free = insert_run s n a.free })
                (insert_run-Ascending s n 2 a.high_water a.free (ground arith) p q h
                  (Ascending-of_Spaced 1 a.high_water a.free v.spaced));
          past_superblocks = v.past_superblocks;
        })
]
