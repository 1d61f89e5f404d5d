-- ===== src/Vault/Alloc/Cover.antt =====
-- How often a block is covered by the extents of a free list of vfs/vault/format.go.
use mathlib.Core.List.{reverse-append}
use sqlite.Prelude.{
  ℕ, ◌+◌, ◌≤◌, ◌≡◌, refl, ◌∙◌, some, List, [], ◌∷◌, ◌++◌, reverse, ltb, leb, ◌==◌, if◌then◌else◌,
  ◌&&◌, arith, inl, inr, Bool-cases, Option-cases, ◌⊎◌,
}
use sqlite.Vault.Alloc.{
  Extent, Allocator, merge_step, coalesce_loop, coalesce, insert_by_start, sort_by_start,
  new_allocator, first_fit, alloc, fragments, alloc_at_list, alloc_at, insert_run, release,
}

-- 1 if the run of `count` blocks from `start` holds the block, else 0.
abbrev pub hit : ℕ → ℕ → ℕ → ℕ
hit start count b = if leb start b && ltb b (start + count) then 1 else 0

unfoldable pub cover : List Extent → ℕ → ℕ
cover [] b = 0
cover (e ∷ l) b = hit e.start e.count b + cover l b

pub cover-append : (xs ys : List Extent) (b : ℕ) → cover (xs ++ ys) b ≡ cover xs b + cover ys b
unfolding cover
cover-append [] ys b = omega arith
cover-append (x ∷ xs) ys b = omega (arith, cover-append xs ys b)

pub cover-reverse : (xs : List Extent) (b : ℕ) → cover (reverse xs) b ≡ cover xs b
unfolding cover
cover-reverse [] b = refl
cover-reverse (x ∷ xs) b =
    rw (reverse-append (x ∷ []) xs)
      (cover-append (reverse xs) (x ∷ []) b ∙ omega (arith, cover-reverse xs b))

cover-merge_step :
    (out : List Extent) (e : Extent) (b : ℕ)
    → cover (merge_step out e) b ≡ hit e.start e.count b + cover out b
unfolding cover merge_step
cover-merge_step [] e b = ground arith
cover-merge_step (f ∷ out) e b = ground arith

cover-coalesce_loop :
    (out es : List Extent) (b : ℕ) → cover (coalesce_loop out es) b ≡ cover out b + cover es b
unfolding cover coalesce_loop
cover-coalesce_loop out [] b = omega (arith, cover-reverse out b)
cover-coalesce_loop out (e ∷ es) b =
    omega (arith, cover-coalesce_loop (merge_step out e) es b, cover-merge_step out e b)

pub cover-coalesce : (a : Allocator) (b : ℕ) → cover (coalesce a).free b ≡ cover a.free b
unfolding coalesce cover
cover-coalesce a b = omega (arith, cover-coalesce_loop [] a.free b)

cover-insert_by_start :
    (e : Extent) (l : List Extent) (b : ℕ)
    → cover (insert_by_start e l) b ≡ hit e.start e.count b + cover l b
unfolding cover insert_by_start
cover-insert_by_start e [] b = refl
cover-insert_by_start e (f ∷ l) b = elim (Bool-cases (leb e.start f.start)) [
  | inl h ↦ rw h refl
  | inr h ↦ rw h (omega (arith, cover-insert_by_start e l b))
]

pub cover-sort_by_start : (l : List Extent) (b : ℕ) → cover (sort_by_start l) b ≡ cover l b
unfolding cover sort_by_start
cover-sort_by_start [] b = refl
cover-sort_by_start (e ∷ l) b =
    omega (arith, cover-insert_by_start e (sort_by_start l) b, cover-sort_by_start l b)

pub cover-insert_run :
    (s n : ℕ) (l : List Extent) (b : ℕ) → cover (insert_run s n l) b ≡ hit s n b + cover l b
unfolding cover insert_run
cover-insert_run s n [] b = refl
cover-insert_run s n (f ∷ l) b = elim (Bool-cases (leb s f.start)) [
  | inl h ↦ rw h refl
  | inr h ↦ rw h (omega (arith, cover-insert_run s n l b))
]

pub cover-first_fit :
    (n : ℕ) (l : List Extent) (s : ℕ) (r : List Extent)
    → first_fit n l ≡ some (s, r)
    → (b : ℕ) → cover r b + hit s n b ≡ cover l b
unfolding cover first_fit
cover-first_fit n [] s r h b = cc
cover-first_fit n (e ∷ l) s r h b = elim (Option-cases (first_fit n l)) [
  | inl q ↦ ground arith
  | inr ((s', r'), q) ↦ ground (arith, cover-first_fit n l s' r' q b)
]

-- `alloc` takes the run it returns from the free list or from the tail: either every block is covered
-- by the run and the new free list together as often as by the old free list, and the high-water
-- mark stays, or the free list is unchanged and the run reaches from the old high-water mark to the
-- new one.
pub cover-alloc :
    (a : Allocator) (n : ℕ)
    → ((b : ℕ) → cover (alloc a n).1.free b + hit (alloc a n).0 n b ≡ cover a.free b)
        × ((alloc a n).1.high_water ≡ a.high_water)
      ⊎ ((alloc a n).1.free ≡ a.free)
        × ((alloc a n).0 ≡ a.high_water)
        × ((alloc a n).1.high_water ≡ a.high_water + n)
unfolding alloc
cover-alloc a n = elim (Option-cases (first_fit n a.free)) [
  | inl q ↦ inr (ground arith, ground arith, ground arith)
  | inr ((s, r), q) ↦ inl (rw (q, alloc) (cover-first_fit n a.free s r q), ground arith)
]

cover-fragments :
    (s n : ℕ) (e : Extent) (l : List Extent) (b : ℕ)
    → e.start ≤ s
    → s + n ≤ e.start + e.count
    → cover (fragments s n e l) b + hit s n b ≡ hit e.start e.count b + cover l b
unfolding cover fragments
cover-fragments s n e l b h k = ground arith

cover-alloc_at_list :
    (s n : ℕ) (l r : List Extent)
    → alloc_at_list s n l ≡ some r
    → (b : ℕ) → cover r b + hit s n b ≡ cover l b
unfolding cover alloc_at_list
cover-alloc_at_list s n [] r h b = cc
cover-alloc_at_list s n (e ∷ l) r h b = elim (Option-cases (alloc_at_list s n l)) [
  | inl q ↦ ground (arith, cover-fragments s n e l b)
  | inr (r', q) ↦ ground (arith, cover-fragments s n e l b, cover-alloc_at_list s n l r' q b)
]

-- Where `allocAt` succeeds, the run and the new free list cover every block as often together as the
-- old free list did.
pub cover-alloc_at :
    (a a' : Allocator) (s n : ℕ)
    → alloc_at a s n ≡ some a'
    → (b : ℕ) → cover a'.free b + hit s n b ≡ cover a.free b
unfolding alloc_at
cover-alloc_at a a' s n h b = elim (Option-cases (alloc_at_list s n a.free)) [
  | inl q ↦ ground arith
  | inr (r, q) ↦ ground (arith, cover-alloc_at_list s n a.free r q b)
]

-- Released blocks join the free list, and every other block is as free as before.
pub cover-release :
    (a : Allocator) (s n b : ℕ) → cover (release a s n).free b ≡ hit s n b + cover a.free b
unfolding release
cover-release a s n b = elim (Bool-cases (n == 0)) [
  | inl z ↦ rw z (ground arith)
  | inr z ↦
      rw z (
        cover-coalesce (record a { free = insert_run s n a.free }) b
        ∙ cover-insert_run s n a.free b)
]

-- Sorting and coalescing the extents of a new allocator keeps each block as free as it was.
pub cover-new_allocator : (l : List Extent) (h b : ℕ) → cover (new_allocator l h).free b ≡ cover l b
unfolding new_allocator
cover-new_allocator l h b =
    cover-coalesce (record { free = sort_by_start l; high_water = h }) b ∙ cover-sort_by_start l b
