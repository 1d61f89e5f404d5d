-- ===== src/Tests/Allocator.antt =====
-- The block allocator of vfs/vault/format.go on a small file.
use sqlite.Prelude.{ℕ, ◌+◌, ◌≡◌, refl, ◌≤◌, ◌⊎◌, List, [], ◌∷◌, none, some, arith}
use sqlite.Vault.Alloc.{
  Extent, Allocator, alloc, alloc_at, lowest_fit_above, release, new_allocator, coalesce,
  sort_by_start,
}
use sqlite.Vault.Alloc.Cover.{hit, cover, cover-alloc, cover-release}
use sqlite.Vault.Alloc.Sorted.{IsValid, alloc-IsValid}
use sqlite.Vault.Alloc.Release.{NotFree, release-IsValid}
use sqlite.Vault.Alloc.Place.{alloc_at-IsValid}
use sqlite.Vault.Rebuild.{rebuild_from}
use sqlite.Vault.Rebuild.Partition.{is_free, rebuild_from-free}

abbrev ext : ℕ → ℕ → Extent
ext s n = record { start = s; count = n }

-- Blocks 2 to 4 and 8 to 11 of 20 are free.
abbrev two_runs : Allocator
two_runs = record { free = ext 2 3 ∷ ext 8 4 ∷ []; high_water = 20 }

two_runs-IsValid : IsValid two_runs
two_runs-IsValid = record {
  spaced = (omega arith, omega arith, omega arith, (omega arith, omega arith, omega arith, tt));
  past_superblocks = omega arith;
}

alloc_test :
    (alloc two_runs 4 ≡ (8, record two_runs { free = ext 2 3 ∷ [] }))
    × (alloc two_runs 2 ≡ (2, record two_runs { free = ext 4 1 ∷ ext 8 4 ∷ [] }))
    × (alloc two_runs 9 ≡ (20, record two_runs { high_water = 29 }))
unfolding alloc
alloc_test = (refl, refl, refl)

release_test : release two_runs 5 3 ≡ record two_runs { free = ext 2 10 ∷ [] }
unfolding release
release_test = refl

alloc_at_test :
    (alloc_at two_runs 9 2 ≡ some (record two_runs { free = ext 2 3 ∷ ext 8 1 ∷ ext 11 1 ∷ [] }))
    × (alloc_at two_runs 4 2 ≡ none)
unfolding alloc_at
alloc_at_test = (refl, refl)

lowest_fit_above_test : lowest_fit_above 2 4 two_runs.free ≡ some 8
unfolding lowest_fit_above
lowest_fit_above_test = refl

rebuild_from_test :
    rebuild_from (ext 7 2 ∷ ext 3 2 ∷ []) 11
    ≡ record { free = ext 2 1 ∷ ext 5 2 ∷ ext 9 2 ∷ []; high_water = 11 }
unfolding rebuild_from new_allocator coalesce sort_by_start
rebuild_from_test = refl

cover-alloc_example :
    ((b : ℕ)
        → cover (alloc two_runs 2).1.free b + hit (alloc two_runs 2).0 2 b ≡ cover two_runs.free b)
      × ((alloc two_runs 2).1.high_water ≡ two_runs.high_water)
    ⊎ ((alloc two_runs 2).1.free ≡ two_runs.free)
      × ((alloc two_runs 2).0 ≡ two_runs.high_water)
      × ((alloc two_runs 2).1.high_water ≡ two_runs.high_water + 2)
cover-alloc_example = cover-alloc two_runs 2

cover-release_example : cover (release two_runs 5 3).free 6 ≡ hit 5 3 6 + cover two_runs.free 6
cover-release_example = cover-release two_runs 5 3 6

alloc-IsValid_example :
    IsValid (alloc two_runs 2).1
    × (2 ≤ (alloc two_runs 2).0)
    × ((alloc two_runs 2).0 + 2 ≤ (alloc two_runs 2).1.high_water)
alloc-IsValid_example = alloc-IsValid two_runs 2 (omega arith) two_runs-IsValid

taken : NotFree 5 3 two_runs.free
unfolding cover
taken b p q = ground arith

release-IsValid_example : IsValid (release two_runs 5 3)
release-IsValid_example =
    release-IsValid two_runs 5 3 (omega arith) (omega arith) taken two_runs-IsValid

alloc_at-IsValid_example : IsValid (record two_runs { free = ext 2 3 ∷ ext 8 1 ∷ ext 11 1 ∷ [] })
alloc_at-IsValid_example =
    alloc_at-IsValid two_runs (record two_runs { free = ext 2 3 ∷ ext 8 1 ∷ ext 11 1 ∷ [] }) 9 2
      (omega arith) two_runs-IsValid alloc_at_test.0

abbrev in_use : List Extent
in_use = ext 7 2 ∷ ext 3 2 ∷ []

rebuild_from-free_example : cover (rebuild_from in_use 11).free 5 ≡ is_free (cover in_use 5)
rebuild_from-free_example =
    rebuild_from-free in_use 11 5 (omega arith) (rw rebuild_from_test (omega arith))
