-- ===== src/Vault/Validate.antt =====
-- The checks of vfs/vault/format.go on a container that is opened: `superblock.validate` and
-- `validateDirectory`. The sums of the source that could pass 2 ^ 64 keep their wrap-around.
pub mod Bounds
pub mod Disjoint
pub mod Slots
use Prim.Native.Nat.{bit_and}
use sqlite.Prelude.{
  ℕ, ◌+◌, ◌-◌, ◌*◌, ◌/◌, ◌%◌, ◌^◌, Bool, true, false, not, List, [], ◌∷◌, ◌++◌, ltb, leb, ◌==◌,
  if◌then◌else◌, ◌&&◌, ◌||◌,
}
use sqlite.Vault.Alloc.{Extent, sort_by_start, blocks_for}
use sqlite.Vault.Format.{
  Superblock, DirEntry, SegDesc, superblock_blocks, seg_desc_size, segment_count,
}

-- The error that the source returns, without its text.
pub data Fault : Type 0 where
  bad_block_size bad_page_size block_over_page zero_segments page_count_too_large : Fault
  index_out_of_bounds index_too_small keyslot_out_of_bounds keyslot_overlaps : Fault
  slot_length slot_blocks slot_unaligned slot_out_of_bounds : Fault
  seg_unaligned seg_out_of_bounds overlapping : Fault

pub data Verdict : Type 0 where
  accept : Verdict
  reject : Fault → Verdict

-- `if err := ...; err != nil { return err }`
infixr 5 ◌then_check◌
abbrev pub ◌then_check◌ : Verdict → Verdict → Verdict
accept then_check v = v
reject f then_check v = reject f

abbrev pub refuse_if : Bool → Fault → Verdict
refuse_if true f = reject f
refuse_if false f = accept

abbrev pub u64 : ℕ → ℕ
u64 n = n % 2 ^ 64

unfoldable pub is_pow2_in_range : ℕ → Bool
is_pow2_in_range n = leb 512 n && leb n 65536 && bit_and n (n - 1) == 0

-- math.MaxInt64
abbrev pub max_int64 : ℕ
max_int64 = 0x7fffffffffffffff

abbrev pub dir_bytes : Superblock → ℕ
dir_bytes s = s.dir_blocks * s.block_size

-- The checks on the keyslot block, if there is one.
unfoldable pub validate_keyslot : Superblock → ℕ → Verdict
validate_keyslot s fsz =
    if s.keyslot_offset == 0
    then accept
    else refuse_if
        (not (s.keyslot_offset % s.block_size == 0)
          || leb fsz s.keyslot_offset
          || ltb (fsz - s.keyslot_offset) s.block_size)
        keyslot_out_of_bounds
      then_check refuse_if
          (ltb s.keyslot_offset (s.dir_offset + dir_bytes s)
            && ltb s.dir_offset (s.keyslot_offset + s.block_size))
          keyslot_overlaps

-- The checks on the segment index: its extent, and room for one descriptor a segment.
unfoldable pub validate_index : Superblock → ℕ → Verdict
validate_index s fsz =
    refuse_if (ltb fsz s.dir_offset || ltb (fsz - s.dir_offset) (dir_bytes s)) index_out_of_bounds
    then_check refuse_if
        (ltb (dir_bytes s) (segment_count s.page_count s.seg_entries * seg_desc_size))
        index_too_small

-- The checks on the sizes.
unfoldable pub validate_sizes : Superblock → Verdict
validate_sizes s =
    refuse_if (not (is_pow2_in_range s.block_size)) bad_block_size
    then_check refuse_if (not (is_pow2_in_range s.page_size)) bad_page_size
    then_check refuse_if (ltb s.page_size s.block_size) block_over_page
    then_check refuse_if (s.seg_entries == 0) zero_segments
    then_check refuse_if (ltb (max_int64 / s.page_size) s.page_count) page_count_too_large

-- `(*superblock).validate`
unfoldable pub validate : Superblock → ℕ → Verdict
validate s fsz = validate_sizes s then_check validate_index s fsz then_check validate_keyslot s fsz

-- One round of the first loop of `validateDirectory`.
unfoldable pub check_entry : Superblock → ℕ → DirEntry → Verdict
unfolding blocks_for
check_entry sb fsz e =
    if e.phys_offset == 0
    then accept
    else refuse_if (e.stored_len == 0 || ltb sb.page_size e.stored_len) slot_length
      then_check refuse_if (not (e.blocks == blocks_for e.stored_len sb.block_size)) slot_blocks
      then_check refuse_if (not (e.phys_offset % sb.block_size == 0)) slot_unaligned
      then_check refuse_if
          (ltb (u64 (e.phys_offset + e.blocks * sb.block_size)) e.phys_offset
            || ltb fsz (u64 (e.phys_offset + e.blocks * sb.block_size)))
          slot_out_of_bounds

unfoldable pub check_entries : Superblock → ℕ → List DirEntry → Verdict
unfolding check_entry
check_entries sb fsz [] = accept
check_entries sb fsz (e ∷ es) = check_entry sb fsz e then_check check_entries sb fsz es

unfoldable pub check_seg : Superblock → ℕ → SegDesc → Verdict
check_seg sb fsz d =
    if d.phys_offset == 0
    then accept
    else refuse_if (not (d.phys_offset % sb.block_size == 0)) seg_unaligned
      then_check refuse_if
          (d.blocks == 0
            || ltb (u64 (d.phys_offset + d.blocks * sb.block_size)) d.phys_offset
            || ltb fsz (u64 (d.phys_offset + d.blocks * sb.block_size)))
          seg_out_of_bounds

unfoldable pub check_segs : Superblock → ℕ → List SegDesc → Verdict
unfolding check_seg
check_segs sb fsz [] = accept
check_segs sb fsz (d ∷ ds) = check_seg sb fsz d then_check check_segs sb fsz ds

-- `blockRun{start, start + n}` as the extent of `n` blocks.
unfoldable pub seg_runs : ℕ → List SegDesc → List Extent
seg_runs bs [] = []
seg_runs bs (d ∷ ds) =
    let rest = seg_runs bs ds in
    if d.phys_offset == 0
    then rest
    else (record { start = d.phys_offset / bs; count = d.blocks }) ∷ rest

unfoldable pub dir_runs : ℕ → List DirEntry → List Extent
dir_runs bs [] = []
dir_runs bs (e ∷ es) =
    let rest = dir_runs bs es in
    if e.phys_offset == 0
    then rest
    else (record { start = e.phys_offset / bs; count = e.blocks }) ∷ rest

unfoldable pub index_run : Superblock → List Extent
index_run sb =
    if sb.dir_blocks == 0
    then []
    else (record { start = sb.dir_offset / sb.block_size; count = sb.dir_blocks }) ∷ []

unfoldable pub keyslot_run : Superblock → ℕ → List Extent
keyslot_run sb keyslot_blocks =
    if sb.keyslot_offset == 0
    then []
    else (record {
      start = sb.keyslot_offset / sb.block_size;
      count = if keyslot_blocks == 0 then 1 else keyslot_blocks;
    })
      ∷ []

-- `runs`, in the order in which the source collects them.
unfoldable pub all_runs : List DirEntry → List SegDesc → Superblock → ℕ → List Extent
unfolding seg_runs dir_runs index_run keyslot_run
all_runs dir segs sb keyslot_blocks =
    (record { start = 0; count = superblock_blocks })
    ∷ (index_run sb
        ++ (keyslot_run sb keyslot_blocks
            ++ (seg_runs sb.block_size segs ++ dir_runs sb.block_size dir)))

-- The loop over neighbours in the sorted runs; `last` is the end of the run before.
unfoldable pub check_sorted : ℕ → List Extent → Verdict
check_sorted last [] = accept
check_sorted last (e ∷ l) =
    refuse_if (ltb e.start last) overlapping then_check check_sorted (e.start + e.count) l

unfoldable pub check_overlap : List Extent → Verdict
unfolding check_sorted
check_overlap [] = accept
check_overlap (e ∷ l) = check_sorted (e.start + e.count) l

unfoldable pub validate_directory : List DirEntry → List SegDesc → Superblock → ℕ → ℕ → Verdict
unfolding check_entries check_segs check_overlap all_runs
validate_directory dir segs sb fsz keyslot_blocks =
    check_entries sb fsz dir
    then_check check_segs sb fsz segs
    then_check check_overlap (sort_by_start (all_runs dir segs sb keyslot_blocks))
