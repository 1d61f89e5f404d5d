-- ===== src/Tests/Opening.antt =====
-- The checks of vfs/vault/format.go on a container that is opened, on a small one.
use sqlite.Prelude.{◌+◌, ◌*◌, ◌≤◌, ◌<◌, ◌⊎◌, ◌≡◌, refl, [], ◌∷◌, arith, All}
use sqlite.Vault.Alloc.{blocks_for, sort_by_start, new_allocator, coalesce}
use sqlite.Vault.Alloc.Cover.{cover}
use sqlite.Vault.Format.{Superblock, DirEntry, segment_count}
use sqlite.Vault.Rebuild.{used_extents, rebuild_allocator, rebuild_from}
use sqlite.Vault.Validate.{
  accept, reject, validate, validate_sizes, validate_index, validate_keyslot, is_pow2_in_range,
  check_entries, check_segs, check_overlap, all_runs, validate_directory, block_over_page,
  overlapping, slot_out_of_bounds, check_entry,
}
use sqlite.Vault.Validate.Bounds.{Sane, validate-Sane, SlotInside, check_entries-SlotInside}
use sqlite.Vault.Validate.Disjoint.{validate_directory-disjoint, open_partition}
use sqlite.Vault.Validate.Slots.{pages_apart}
use sqlite.Tests.Superblocks.{gen_of, entry, desc}

-- Five blocks: two superblocks, the index, one page and one segment.
abbrev small : Superblock
small = gen_of 1

validate_test :
    (validate small 20480 ≡ accept)
    × (validate (record small { page_size = 2048 }) 20480 ≡ reject block_over_page)
unfolding validate validate_sizes validate_index validate_keyslot is_pow2_in_range segment_count
validate_test = (refl, refl)

check_entries_test :
    (check_entries small 20480 (entry ∷ []) ≡ accept)
    × (check_entries small 12288 (entry ∷ []) ≡ reject slot_out_of_bounds)
unfolding check_entries check_entry blocks_for
check_entries_test = (refl, refl)

validate_directory_test :
    (validate_directory (entry ∷ []) (desc ∷ []) small 20480 0 ≡ accept)
    × (validate_directory (entry ∷ entry ∷ []) (desc ∷ []) small 20480 0 ≡ reject overlapping)
unfolding validate_directory check_entries check_segs check_overlap all_runs sort_by_start
    blocks_for
validate_directory_test = (refl, refl)

validate-Sane_example : Sane small 20480
validate-Sane_example = validate-Sane small 20480 validate_test.0

check_entries-SlotInside_example : All (SlotInside small 20480) (entry ∷ [])
check_entries-SlotInside_example =
    check_entries-SlotInside small 20480 (entry ∷ []) (omega arith) (omega arith)
      ((omega arith, omega arith), tt) check_entries_test.0

validate_directory-disjoint_example : cover (all_runs (entry ∷ []) (desc ∷ []) small 0) 3 ≤ 1
validate_directory-disjoint_example =
    validate_directory-disjoint (entry ∷ []) (desc ∷ []) small 20480 0 validate_directory_test.0 3

high_water_test : (rebuild_allocator (entry ∷ []) (desc ∷ []) small 20480 0).high_water ≡ 5
unfolding rebuild_allocator rebuild_from new_allocator coalesce sort_by_start used_extents
high_water_test = refl

open_partition_example :
    cover (rebuild_allocator (entry ∷ []) (desc ∷ []) small 20480 0).free 3
      + cover (used_extents (entry ∷ []) (desc ∷ []) small 0) 3
    ≡ 1
open_partition_example =
    open_partition (entry ∷ []) (desc ∷ []) small 0 3 20480 validate_directory_test.0
      ((λ h. absurd (omega arith)), tt) ((λ h. absurd (omega arith)), tt) (λ _. refl) (omega arith)
      (rw high_water_test (omega arith))

-- Two pages, in blocks 3 and 5.
abbrev second : DirEntry
second = record entry { phys_offset = 20480 }

two_pages : validate_directory (entry ∷ second ∷ []) (desc ∷ []) small 24576 0 ≡ accept
unfolding validate_directory check_entries check_segs check_overlap all_runs sort_by_start
    blocks_for
two_pages = refl

pages_apart_example :
    (12300 < second.phys_offset) ⊎ (second.phys_offset + second.blocks * small.block_size ≤ 12300)
pages_apart_example =
    pages_apart (entry ∷ second ∷ []) (desc ∷ []) small 24576 0 0 1 12300 entry second two_pages
      (omega arith) (omega arith) refl refl (λ z. omega arith) (λ z. omega arith) (omega arith)
      (omega arith)

-- The offset of the index may be unaligned: its 4096 bytes from 8292 on end in block 3, which holds the
-- first page.
unaligned_index :
    (validate (record small { dir_offset = 8292 }) 20480 ≡ accept)
    × (validate_directory (entry ∷ []) (desc ∷ []) (record small { dir_offset = 8292 }) 20480 0
        ≡ accept)
unfolding validate validate_sizes validate_index validate_keyslot is_pow2_in_range segment_count
    validate_directory check_entries check_segs check_overlap all_runs sort_by_start blocks_for
unaligned_index = (refl, refl)
