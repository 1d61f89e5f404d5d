-- ===== src/Vault/Rebuild/Partition.antt =====
-- The allocator of vfs/vault/format.go that is rebuilt on open, and the extents of the committed state.
use sqlite.Prelude.{
  ℕ, ◌+◌, ◌-◌, ◌≤◌, ◌<◌, ◌≡◌, refl, ◌∙◌, sym, List, [], ◌∷◌, ◌++◌, ltb, leb, ◌==◌, if◌then◌else◌,
  arith, true, inl, inr, Bool-cases, subst, ◌⊎◌,
}
use sqlite.Vault.Alloc.{Extent, insert_by_start, sort_by_start, new_allocator, coalesce}
use sqlite.Vault.Alloc.Cover.{cover, cover-append, cover-sort_by_start, cover-new_allocator}
use sqlite.Vault.Alloc.Sorted.{Ascending, IsValid, coalesce-Spaced, Ascending-lower}
use sqlite.Vault.Rebuild.{gaps, tail_gap, rebuild_from}

-- The runs start in ascending order, from `lo` on.
abbrev Starts : ℕ → List Extent → Type 0
Starts lo [] = Unit
Starts lo (e ∷ l) = (lo ≤ e.start) × Starts e.start l

Starts-lower : (lo lo' : ℕ) (l : List Extent) → lo' ≤ lo → Starts lo l → Starts lo' l
Starts-lower lo lo' [] p s = tt
Starts-lower lo lo' (e ∷ l) p s = (omega arith, s.1)

insert_by_start-Starts :
    (e : Extent) (lo : ℕ) (l : List Extent)
    → lo ≤ e.start
    → Starts lo l
    → Starts lo (insert_by_start e l)
unfolding insert_by_start
insert_by_start-Starts e lo [] p s = (p, tt)
insert_by_start-Starts e lo (f ∷ l) p s = elim (Bool-cases (leb e.start f.start)) [
  | inl h ↦ rw h (p, (ground arith, s.1))
  | inr h ↦ rw h (s.0, insert_by_start-Starts e f.start l (ground arith) s.1)
]

sort_by_start-Starts : (l : List Extent) → Starts 0 (sort_by_start l)
unfolding sort_by_start
sort_by_start-Starts [] = tt
sort_by_start-Starts (e ∷ l) =
    insert_by_start-Starts e 0 (sort_by_start l) (omega arith) (sort_by_start-Starts l)

cover-below : (lo : ℕ) (l : List Extent) (b : ℕ) → Starts lo l → b < lo → cover l b ≡ 0
unfolding cover
cover-below lo [] b s h = refl
cover-below lo (e ∷ l) b s h = ground (arith, cover-below e.start l b s.1)

abbrev pub is_free : ℕ → ℕ
is_free n = if n == 0 then 1 else 0

-- Where the cursor goes over a run.
abbrev advance : ℕ → Extent → ℕ
advance cursor u = if ltb cursor (u.start + u.count) then u.start + u.count else cursor

gaps_stop : (cursor : ℕ) (us : List Extent) → cursor ≤ (gaps cursor us).1
unfolding gaps
gaps_stop cursor [] = omega arith
gaps_stop cursor (u ∷ us) = ground (arith, gaps_stop (advance cursor u) us)

cover-gaps_before :
    (cursor : ℕ) (us : List Extent) (b : ℕ) → b < cursor → cover (gaps cursor us).0 b ≡ 0
unfolding cover gaps
cover-gaps_before cursor [] b h = refl
cover-gaps_before cursor (u ∷ us) b h = ground (arith, cover-gaps_before (advance cursor u) us b)

cover-gaps :
    (cursor lo : ℕ) (us : List Extent) (b : ℕ)
    → Starts lo us
    → cursor ≤ b
    → b < (gaps cursor us).1
    → cover (gaps cursor us).0 b ≡ is_free (cover us b)
unfolding cover gaps
cover-gaps cursor lo [] b s p q = absurd (omega arith)
cover-gaps cursor lo (u ∷ us) b s p q = ground (
  arith,
  cover-gaps (advance cursor u) u.start us b s.1,
  cover-gaps_before (advance cursor u) us b,
  cover-below u.start us b s.1,
)

cover-gaps_after :
    (cursor : ℕ) (us : List Extent) (b : ℕ)
    → (gaps cursor us).1 ≤ b
    → (cover (gaps cursor us).0 b ≡ 0) × (cover us b ≡ 0)
unfolding cover gaps
cover-gaps_after cursor [] b h = (refl, refl)
cover-gaps_after cursor (u ∷ us) b h =
    ground (arith, cover-gaps_after (advance cursor u) us b, gaps_stop (advance cursor u) us)

cover-tail_gap : (cursor hw b : ℕ) → cursor ≤ b → b < hw → cover (tail_gap cursor hw) b ≡ 1
unfolding cover tail_gap
cover-tail_gap cursor hw b p q = ground arith

cover-tail_gap_outside :
    (cursor hw b : ℕ) → (b < cursor) ⊎ (hw ≤ b) → cover (tail_gap cursor hw) b ≡ 0
unfolding cover tail_gap
cover-tail_gap_outside cursor hw b p = ground arith

-- The high-water mark: the file's blocks, or the end of the last extent in use.
top_of : ℕ → ℕ → ℕ
top_of file_blocks stop = if ltb file_blocks stop then stop else file_blocks

top_of_bounds : (f s : ℕ) → (s ≤ top_of f s) × (f ≤ top_of f s)
unfolding top_of
top_of_bounds f s = ground arith

module _ (used : List Extent) (file_blocks : ℕ) where
  abbrev sorted : List Extent
  sorted = sort_by_start used

  abbrev stop : ℕ
  stop = (gaps 2 sorted).1

  abbrev top : ℕ
  top = top_of file_blocks stop

  high_water-rebuild_from : (rebuild_from used file_blocks).high_water ≡ top
  unfolding rebuild_from new_allocator coalesce top_of
  high_water-rebuild_from = refl

  module _ (b : ℕ) where
    cover-free :
        cover (rebuild_from used file_blocks).free b
        ≡ cover (gaps 2 sorted).0 b + cover (tail_gap stop top) b
    unfolding rebuild_from top_of
    cover-free =
        cover-new_allocator ((gaps 2 sorted).0 ++ tail_gap stop top) top b
        ∙ cover-append (gaps 2 sorted).0 (tail_gap stop top) b

    -- Of the blocks past the superblocks and below the high-water mark, the free list holds exactly
    -- those that no extent in use holds, each once.
    pub rebuild_from-free :
        2 ≤ b
        → b < (rebuild_from used file_blocks).high_water
        → cover (rebuild_from used file_blocks).free b ≡ is_free (cover used b)
    rebuild_from-free p q = elim (Bool-cases (ltb b stop)) [
      | inl inside ↦
          let lt : b < stop = ground arith in
          subst (λ n. cover (rebuild_from used file_blocks).free b ≡ is_free n)
            (cover-sort_by_start used b)
            (omega (
              arith,
              cover-free,
              cover-gaps 2 0 sorted b (sort_by_start-Starts used) p lt,
              cover-tail_gap_outside stop top b (inl lt),
            ))
      | inr tail ↦
          let le : stop ≤ b = ground arith in
          let after = cover-gaps_after 2 sorted b le in
          subst (λ n. cover (rebuild_from used file_blocks).free b ≡ is_free n)
            (sym after.1 ∙ cover-sort_by_start used b)
            (omega (
              arith,
              cover-free,
              after.0,
              cover-tail_gap stop top b le (omega (arith, high_water-rebuild_from)),
            ))
    ]

    -- No superblock and no block past the high-water mark is free, the high-water mark is at least
    -- the file's length, and no extent in use passes it.
    pub rebuild_from_bounds :
        (b < 2 → cover (rebuild_from used file_blocks).free b ≡ 0)
        × ((rebuild_from used file_blocks).high_water ≤ b
            → (cover (rebuild_from used file_blocks).free b ≡ 0) × (cover used b ≡ 0))
        × (file_blocks ≤ (rebuild_from used file_blocks).high_water)
    rebuild_from_bounds = (
      λ p. omega (
        arith,
        cover-free,
        cover-gaps_before 2 sorted b p,
        cover-tail_gap_outside stop top b (inl (omega (arith, gaps_stop 2 sorted))),
      ),
      λ p.
          let le : top ≤ b = omega (arith, high_water-rebuild_from) in
          let after = cover-gaps_after 2 sorted b (omega (arith, top_of_bounds file_blocks stop)) in
          (
            omega (arith, cover-free, after.0, cover-tail_gap_outside stop top b (inr le)),
            omega (arith, after.1, cover-sort_by_start used b),
          ),
      omega (arith, high_water-rebuild_from, top_of_bounds file_blocks stop),
    )

Ascending-raise :
    (lo hi hi' : ℕ) (l : List Extent) → hi ≤ hi' → Ascending lo hi l → Ascending lo hi' l
Ascending-raise lo hi hi' [] p s = tt
Ascending-raise lo hi hi' (e ∷ l) p s =
    (s.0, s.1, omega arith, Ascending-raise (e.start + e.count) hi hi' l p s.3)

-- The gaps and the tail are in ascending order already, so that the sort changes nothing.
gaps-Ascending :
    (cursor hi : ℕ) (us t : List Extent)
    → (gaps cursor us).1 ≤ hi
    → Ascending (gaps cursor us).1 hi t
    → Ascending cursor hi ((gaps cursor us).0 ++ t)
unfolding gaps
gaps-Ascending cursor hi [] t p v = v
gaps-Ascending cursor hi (u ∷ us) t p v =
    let ih = gaps-Ascending (advance cursor u) hi us t p v in
    elim (Bool-cases (ltb cursor u.start)) [
      | inl h ↦ rw h (
        omega arith,
        ground arith,
        ground (arith, gaps_stop (advance cursor u) us),
        Ascending-lower (advance cursor u) (cursor + (u.start - cursor)) hi _ (ground arith) ih,
      )
      | inr h ↦ rw h (Ascending-lower (advance cursor u) cursor hi _ (ground arith) ih)
    ]

tail_gap-Ascending : (cursor hi : ℕ) → Ascending cursor hi (tail_gap cursor hi)
unfolding tail_gap
tail_gap-Ascending cursor hi = elim (Bool-cases (ltb cursor hi)) [
  | inl h ↦ rw h (omega arith, ground arith, ground arith, tt)
  | inr h ↦ rw h tt
]

insert_by_start_first :
    (e : Extent) (lo hi : ℕ) (l : List Extent)
    → e.start ≤ lo
    → Ascending lo hi l
    → insert_by_start e l ≡ e ∷ l
unfolding insert_by_start
insert_by_start_first e lo hi [] p v = refl
insert_by_start_first e lo hi (f ∷ l) p v =
    let h : leb e.start f.start ≡ true = ground arith in rw h

sort_by_start-Ascending : (lo hi : ℕ) (l : List Extent) → Ascending lo hi l → sort_by_start l ≡ l
unfolding sort_by_start
sort_by_start-Ascending lo hi [] v = refl
sort_by_start-Ascending lo hi (e ∷ l) v =
    rw (sort_by_start-Ascending (e.start + e.count) hi l v.3)
      (insert_by_start_first e (e.start + e.count) hi l (omega arith) v.3)

-- The rebuilt free list is sorted and coalesced, past the superblocks and below the high-water mark.
pub rebuild_from-IsValid :
    (used : List Extent) (file_blocks : ℕ) → IsValid (rebuild_from used file_blocks)
unfolding rebuild_from new_allocator top_of coalesce
rebuild_from-IsValid used file_blocks =
    let (free, c) = gaps 2 (sort_by_start used) in
    let hw = top_of file_blocks c in
    let l = free ++ tail_gap c hw in
    let ordered : Ascending 2 hw l =
      gaps-Ascending 2 hw (sort_by_start used) (tail_gap c hw) (top_of_bounds file_blocks c).0
        (tail_gap-Ascending c hw) in
    record {
      spaced =
          coalesce-Spaced 1 (record { free = sort_by_start l; high_water = hw })
            (subst (Ascending 2 hw) (sym (sort_by_start-Ascending 2 hw l ordered)) ordered);
      past_superblocks = omega (
        arith,
        gaps_stop 2 (sort_by_start used),
        (top_of_bounds file_blocks c).0,
        high_water-rebuild_from used file_blocks,
      );
    }
