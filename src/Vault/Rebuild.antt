-- ===== src/Vault/Rebuild.antt =====
-- `rebuildAllocator` of vfs/vault/format.go: the free list is recomputed on open from the extents
-- that the committed superblock and directory refer to.
pub mod Partition
use sqlite.Prelude.{ℕ, ◌+◌, ◌-◌, ◌/◌, ◌≡◌, List, [], ◌∷◌, ◌++◌, ltb, ◌==◌, if◌then◌else◌, map, max}
use sqlite.Vault.Alloc.{Extent, Allocator, sort_by_start, new_allocator}
use sqlite.Vault.Format.{Superblock, DirEntry, SegDesc, superblock_blocks}

-- `add`: a byte offset and a block count; nothing for 0 blocks.
unfoldable pub add_used : ℕ → ℕ → ℕ → List Extent
add_used bs phys_offset blocks =
    if blocks == 0 then [] else (record { start = phys_offset / bs; count = blocks }) ∷ []

unfoldable pub used_by_segs : ℕ → List SegDesc → List Extent
unfolding add_used
used_by_segs bs [] = []
used_by_segs bs (d ∷ segs) = add_used bs d.phys_offset d.blocks ++ used_by_segs bs segs

unfoldable pub used_by_dir : ℕ → List DirEntry → List Extent
unfolding add_used
used_by_dir bs [] = []
used_by_dir bs (e ∷ dir) = add_used bs e.phys_offset e.blocks ++ used_by_dir bs dir

-- Every extent in use, in the order in which the source collects them.
unfoldable pub used_extents : List DirEntry → List SegDesc → Superblock → ℕ → List Extent
unfolding used_by_segs used_by_dir
used_extents dir segs sb keyslot_blocks =
    add_used sb.block_size sb.dir_offset sb.dir_blocks
    ++ (add_used sb.block_size sb.keyslot_offset keyslot_blocks
        ++ (used_by_segs sb.block_size segs ++ used_by_dir sb.block_size dir))

-- The loop over the sorted runs: the gaps before them, and where the cursor stops.
unfoldable pub gaps : ℕ → List Extent → List Extent × ℕ
gaps cursor [] = ([], cursor)
gaps cursor (u ∷ used) =
    let (rest, stop) =
      gaps (if ltb cursor (u.start + u.count) then u.start + u.count else cursor) used in
    (
      if ltb cursor u.start
          then (record { start = cursor; count = u.start - cursor }) ∷ rest
          else rest,
      stop,
    )

-- The tail between the last used block and the end of the file.
unfoldable pub tail_gap : ℕ → ℕ → List Extent
tail_gap cursor high_water =
    if ltb cursor high_water
    then (record { start = cursor; count = high_water - cursor }) ∷ []
    else []

unfoldable pub rebuild_from : List Extent → ℕ → Allocator
unfolding gaps tail_gap
rebuild_from used file_blocks =
    let (free, cursor) = gaps superblock_blocks (sort_by_start used) in
    let high_water = if ltb file_blocks cursor then cursor else file_blocks in
    new_allocator (free ++ tail_gap cursor high_water) high_water

unfoldable pub rebuild_allocator : List DirEntry → List SegDesc → Superblock → ℕ → ℕ → Allocator
unfolding used_extents rebuild_from
rebuild_allocator dir segs sb file_size keyslot_blocks =
    rebuild_from (used_extents dir segs sb keyslot_blocks) (file_size / sb.block_size)
