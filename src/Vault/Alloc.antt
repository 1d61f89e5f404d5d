-- ===== src/Vault/Alloc.antt =====
-- The block allocator of vfs/vault/format.go. An extent is a run of physical blocks. Block indices
-- are plain numbers: they count blocks of a file whose byte length is an int64, so sums of them
-- do not reach 2 ^ 64.
pub mod Cover
pub mod Sorted
pub mod Release
pub mod Place
use sqlite.Prelude.{
  ℕ, ◌+◌, ◌-◌, ◌/◌, Option, none, some, List, [], ◌∷◌, reverse, ltb, leb, ◌==◌, if◌then◌else◌, ◌&&◌,
  ◌||◌,
}

pub record Extent : Type 0 where
  pub start : ℕ
  pub count : ℕ

pub record Allocator : Type 0 where
  pub free : List Extent
  pub high_water : ℕ

-- The blocks that hold `n` bytes (the source panics at block size 0).
unfoldable pub blocks_for : ℕ → ℕ → ℕ
blocks_for n block_size = (n + block_size - 1) / block_size

-- One round of the loop of `coalesce`; `out` is kept last element first.
unfoldable pub merge_step : List Extent → Extent → List Extent
merge_step [] e = if e.count == 0 then [] else e ∷ []
merge_step (last ∷ out) e =
    if e.count == 0
    then last ∷ out
    else if last.start + last.count == e.start
    then record last { count = last.count + e.count } ∷ out
    else e ∷ last ∷ out

unfoldable pub coalesce_loop : List Extent → List Extent → List Extent
coalesce_loop out [] = reverse out
coalesce_loop out (e ∷ es) = coalesce_loop (merge_step out e) es

unfoldable pub coalesce : Allocator → Allocator
unfolding coalesce_loop merge_step
coalesce a = record a { free = coalesce_loop [] a.free }

-- `sort.Slice` by start.
unfoldable pub insert_by_start : Extent → List Extent → List Extent
insert_by_start e [] = e ∷ []
insert_by_start e (f ∷ l) = if leb e.start f.start then e ∷ f ∷ l else f ∷ insert_by_start e l

unfoldable pub sort_by_start : List Extent → List Extent
unfolding insert_by_start
sort_by_start [] = []
sort_by_start (e ∷ l) = insert_by_start e (sort_by_start l)

unfoldable pub new_allocator : List Extent → ℕ → Allocator
new_allocator free high_water =
    coalesce (record { free = sort_by_start free; high_water = high_water })

-- The scan of `alloc`: the first extent with room, and the list without the run taken from it.
unfoldable pub first_fit : ℕ → List Extent → Option (ℕ × List Extent)
first_fit blocks [] = none
first_fit blocks (e ∷ l) =
    if leb blocks e.count
    then if e.count == blocks
      then some (e.start, l)
      else some (e.start, (record { start = e.start + blocks; count = e.count - blocks }) ∷ l)
    else (elim (first_fit blocks l) [ none ↦ none | some (s, r) ↦ some (s, e ∷ r) ])

-- The block index of the run, and the allocator without it (the source panics at 0 blocks).
unfoldable pub alloc : Allocator → ℕ → ℕ × Allocator
unfolding first_fit
alloc a blocks = elim (first_fit blocks a.free) [
  | some (s, r) ↦ (s, record a { free = r })
  | none ↦ (a.high_water, record a { high_water = a.high_water + blocks })
]

-- The part of an extent from `floor` on.
unfoldable pub clip : ℕ → Extent → Extent
clip floor e =
    if ltb e.start floor then record { start = floor; count = e.count - (floor - e.start) } else e

unfoldable pub lowest_fit_above : ℕ → ℕ → List Extent → Option ℕ
unfolding clip
lowest_fit_above blocks floor [] = none
lowest_fit_above blocks floor (e ∷ l) =
    let rest = lowest_fit_above blocks floor l in
    if ltb e.start floor && leb (e.start + e.count) floor
    then rest
    else if leb blocks (clip floor e).count
    then some (clip floor e).start
    else rest

-- The fragments of an extent around a run.
unfoldable pub fragments : ℕ → ℕ → Extent → List Extent → List Extent
fragments start blocks e l =
    let after =
      if ltb (start + blocks) (e.start + e.count)
      then (record { start = start + blocks; count = e.start + e.count - (start + blocks) }) ∷ l
      else l in
    if ltb e.start start
    then (record { start = e.start; count = start - e.start }) ∷ after
    else after

-- `none` is the panic of `allocAt`.
unfoldable pub alloc_at_list : ℕ → ℕ → List Extent → Option (List Extent)
unfolding fragments
alloc_at_list start blocks [] = none
alloc_at_list start blocks (e ∷ l) =
    if ltb start e.start || ltb (e.start + e.count) (start + blocks)
    then (elim (alloc_at_list start blocks l) [ none ↦ none | some r ↦ some (e ∷ r) ])
    else some (fragments start blocks e l)

unfoldable pub alloc_at : Allocator → ℕ → ℕ → Option Allocator
unfolding alloc_at_list
alloc_at a start blocks = elim (alloc_at_list start blocks a.free) [
  | none ↦ none
  | some r ↦ some (record a { free = r })
]

-- The insertion of `release`: `sort.Search` finds the first extent that starts at `start` or later.
unfoldable pub insert_run : ℕ → ℕ → List Extent → List Extent
insert_run start count [] = (record { start = start; count = count }) ∷ []
insert_run start count (e ∷ l) =
    if leb start e.start
    then (record { start = start; count = count }) ∷ e ∷ l
    else e ∷ insert_run start count l

unfoldable pub release : Allocator → ℕ → ℕ → Allocator
unfolding insert_run coalesce
release a start count =
    if count == 0 then a else coalesce (record a { free = insert_run start count a.free })

unfoldable pub free_blocks_total : List Extent → ℕ
free_blocks_total [] = 0
free_blocks_total (e ∷ l) = e.count + free_blocks_total l
