-- ===== src/Vault/Alloc/Sorted.antt =====
-- The shape of the free list of vfs/vault/format.go: sorted, never empty, never adjacent, below the
-- high-water mark.
use mathlib.Core.List.{reverse-append, append_assoc}
use sqlite.Prelude.{
  ℕ, suc, ◌+◌, ◌≤◌, ◌<◌, ◌≡◌, refl, ◌∙◌, false, Option, none, some, List, [], ◌∷◌, ◌++◌, reverse,
  leb, ◌==◌, if◌then◌else◌, arith, inl, inr, Bool-cases, Option-cases, subst,
}
use sqlite.Vault.Alloc.{Extent, Allocator, merge_step, coalesce_loop, coalesce, first_fit, alloc}
use sqlite.Vault.Alloc.Cover.{cover}

-- Non-empty runs in ascending order inside the blocks from `lo` up to, not including, `hi`.
abbrev pub Ascending : ℕ → ℕ → List Extent → Type 0
Ascending lo hi [] = Unit
Ascending lo hi (e ∷ l) =
    (lo ≤ e.start) × (0 < e.count) × (e.start + e.count ≤ hi) × Ascending (e.start + e.count) hi l

-- The same, with at least one block between two runs: the list is coalesced.
abbrev pub Spaced : ℕ → ℕ → List Extent → Type 0
Spaced lo hi [] = Unit
Spaced lo hi (e ∷ l) =
    (lo < e.start) × (0 < e.count) × (e.start + e.count ≤ hi) × Spaced (e.start + e.count) hi l

-- The free list is coalesced, and all of it lies past the two superblocks (blocks 0 and 1) and
-- below the high-water mark.
pub record IsValid (a : Allocator) : Type 0 where
  pub spaced : Spaced 1 a.high_water a.free
  pub past_superblocks : 2 ≤ a.high_water

Spaced-raise : (lo hi hi' : ℕ) (l : List Extent) → hi ≤ hi' → Spaced lo hi l → Spaced lo hi' l
Spaced-raise lo hi hi' [] q s = tt
Spaced-raise lo hi hi' (e ∷ l) q s =
    (s.0, s.1, omega arith, Spaced-raise (e.start + e.count) hi hi' l q s.3)

pub Spaced-lower : (lo lo' hi : ℕ) (l : List Extent) → lo' ≤ lo → Spaced lo hi l → Spaced lo' hi l
Spaced-lower lo lo' hi [] p s = tt
Spaced-lower lo lo' hi (e ∷ l) p s = (omega arith, s.1, s.2, s.3)

pub Ascending-lower :
    (lo lo' hi : ℕ) (l : List Extent) → lo' ≤ lo → Ascending lo hi l → Ascending lo' hi l
Ascending-lower lo lo' hi [] p s = tt
Ascending-lower lo lo' hi (e ∷ l) p s = (omega arith, s.1, s.2, s.3)

pub Ascending-of_Spaced : (lo hi : ℕ) (l : List Extent) → Spaced lo hi l → Ascending (suc lo) hi l
Ascending-of_Spaced lo hi [] s = tt
Ascending-of_Spaced lo hi (e ∷ l) s =
    let m = e.start + e.count in
    (s.0, s.1, s.2, Ascending-lower (suc m) m hi l (omega arith) (Ascending-of_Spaced m hi l s.3))

-- No block is covered by two of the runs, and none below the bound or past the end by any.
pub cover-Ascending :
    (lo hi : ℕ) (l : List Extent) (b : ℕ)
    → Ascending lo hi l
    → (cover l b ≤ 1) × (b < lo → cover l b ≡ 0) × (hi ≤ b → cover l b ≡ 0)
unfolding cover
cover-Ascending lo hi [] b s = (omega arith, λ _. refl, λ _. refl)
cover-Ascending lo hi (e ∷ l) b s =
    let ih = cover-Ascending (e.start + e.count) hi l b s.3 in
    (ground (arith, ih.1), λ h. ground (arith, ih.1), λ h. ground (arith, ih.2))

-- `coalesce` from the front: `last` may still grow.
merged : Extent → List Extent → List Extent
merged last [] = last ∷ []
merged last (e ∷ es) =
    let skip = merged last es in
    let grow = merged (record last { count = last.count + e.count }) es in
    let next = last ∷ merged e es in
    if e.count == 0 then skip else if last.start + last.count == e.start then grow else next

reverse_cons-append :
    (x : Extent) (xs ys : List Extent) → reverse (x ∷ xs) ++ ys ≡ reverse xs ++ (x ∷ ys)
reverse_cons-append x xs ys = rw (reverse-append (x ∷ []) xs, append_assoc)

coalesce_loop-merged :
    (last : Extent) (out es : List Extent)
    → coalesce_loop (last ∷ out) es ≡ reverse out ++ merged last es
unfolding coalesce_loop merge_step merged
coalesce_loop-merged last out [] = reverse-append (last ∷ []) out
coalesce_loop-merged last out (e ∷ es) = elim (Bool-cases (e.count == 0)) [
  | inl z ↦ rw z (coalesce_loop-merged last out es)
  | inr z ↦ elim (Bool-cases (last.start + last.count == e.start)) [
    | inl j ↦ rw (z, j) (coalesce_loop-merged (record last { count = last.count + e.count }) out es)
    | inr j ↦
        rw (z, j)
          (coalesce_loop-merged e (last ∷ out) es ∙ reverse_cons-append last out (merged e es))
  ]
]

merged-Spaced :
    (lo hi : ℕ) (last : Extent) (es : List Extent)
    → lo < last.start
    → 0 < last.count
    → last.start + last.count ≤ hi
    → Ascending (last.start + last.count) hi es
    → Spaced lo hi (merged last es)
unfolding merged
merged-Spaced lo hi last [] p q r s = (p, q, r, tt)
merged-Spaced lo hi last (e ∷ es) p q r s =
    let z : (e.count == 0) ≡ false = ground arith in
    elim (Bool-cases (last.start + last.count == e.start)) [
      | inl j ↦
          rw (z, j)
            (merged-Spaced lo hi (record last { count = last.count + e.count }) es p (omega arith)
              (ground arith) (Ascending-lower (e.start + e.count) _ hi es (ground arith) s.3))
      | inr j ↦
          rw (z, j)
            (p, q, r, merged-Spaced (last.start + last.count) hi e es (ground arith) s.1 s.2 s.3)
    ]

-- Coalescing an ascending list of runs spaces them.
pub coalesce-Spaced :
    (lo : ℕ) (a : Allocator)
    → Ascending (suc lo) a.high_water a.free
    → Spaced lo a.high_water (coalesce a).free
unfolding coalesce
coalesce-Spaced lo a s = go a.free s
  where
    go :
        (l : List Extent)
        → Ascending (suc lo) a.high_water l
        → Spaced lo a.high_water (coalesce_loop [] l)
    go [] s = tt
    go (e ∷ l) s =
        let z : (e.count == 0) ≡ false = ground arith in
        rw (z, coalesce_loop-merged e [] l) (merged-Spaced lo a.high_water e l s.0 s.1 s.2 s.3)

-- What a taken run and the rest of the list satisfy.
abbrev Taken : ℕ → ℕ → ℕ → Option (ℕ × List Extent) → Type 0
Taken n lo hi none = Unit
Taken n lo hi (some (s, r)) = Spaced lo hi r × (lo < s) × (s + n ≤ hi)

first_fit-Taken :
    (n lo hi : ℕ) (l : List Extent) → 0 < n → Spaced lo hi l → Taken n lo hi (first_fit n l)
unfolding first_fit
first_fit-Taken n lo hi [] p v = tt
first_fit-Taken n lo hi (e ∷ l) p v = elim (Bool-cases (leb n e.count)) [
  | inl fits ↦ elim (Bool-cases (e.count == n)) [
    | inl exact ↦
        rw (fits, exact)
          (Spaced-lower (e.start + e.count) lo hi l (omega arith) v.3, v.0, ground arith)
    | inr less ↦
        rw (fits, less)
          (
            (
              omega arith,
              ground arith,
              ground arith,
              subst (λ m. Spaced m hi l) (ground arith) v.3,
            ),
            v.0,
            ground arith,
          )
  ]
  | inr no_fit ↦
      rw no_fit (later (first_fit n l) (first_fit-Taken n (e.start + e.count) hi l p v.3))
]
  where
    later :
        (o : Option (ℕ × List Extent))
        → Taken n (e.start + e.count) hi o
        → Taken n lo hi (elim o [ none ↦ none | some (s, r) ↦ some (s, e ∷ r) ])
    later none t = tt
    later (some (s, r)) t = ((v.0, v.1, v.2, t.0), omega arith, t.2)

-- `alloc` keeps the free list sorted, coalesced and in range, and the run it returns lies past the
-- superblocks and below the new high-water mark.
pub alloc-IsValid :
    (a : Allocator) (n : ℕ)
    → 0 < n
    → IsValid a
    → IsValid (alloc a n).1 × (2 ≤ (alloc a n).0) × ((alloc a n).0 + n ≤ (alloc a n).1.high_water)
unfolding alloc
alloc-IsValid a n p v = elim (Option-cases (first_fit n a.free)) [
  | inl q ↦
      rw (q, alloc)
        (
          record {
            spaced = Spaced-raise 1 a.high_water (a.high_water + n) a.free (omega arith) v.spaced;
            past_superblocks = omega arith;
          },
          v.past_superblocks,
          omega arith,
        )
  | inr ((s, r), q) ↦
      let t : Taken n 1 a.high_water (some (s, r)) =
        subst (Taken n 1 a.high_water) q (first_fit-Taken n 1 a.high_water a.free p v.spaced) in
      rw (q, alloc) (record { spaced = t.0; past_superblocks = v.past_superblocks }, t.1, t.2)
]
