-- ===== src/Vault/Validate/Disjoint.antt =====
-- The extents that an accepted directory refers to (vfs/vault/format.go), and the allocator that is
-- rebuilt from it.
use sqlite.Prelude.{ℕ, ◌+◌, ◌/◌, ◌≤◌, ◌<◌, ◌≡◌, refl, List, [], ◌∷◌, arith, All, subst, sym}
use sqlite.Vault.Alloc.{Extent, sort_by_start}
use sqlite.Vault.Alloc.Cover.{hit, cover, cover-append, cover-sort_by_start}
use sqlite.Vault.Format.{Superblock, DirEntry, SegDesc}
use sqlite.Vault.Rebuild.{add_used, used_by_segs, used_by_dir, used_extents, rebuild_allocator}
use sqlite.Vault.Rebuild.Partition.{rebuild_from-free}
use sqlite.Vault.Validate.{
  accept, check_sorted, check_overlap, check_entries, check_segs, validate_directory, all_runs,
  dir_runs, seg_runs, index_run, keyslot_run,
}
use sqlite.Vault.Validate.Bounds.{then_check-accept, refuse_if-accept}

-- Each run starts where the one before it has ended, or later.
check_sorted-cover :
    (last : ℕ) (l : List Extent) (b : ℕ)
    → check_sorted last l ≡ accept
    → (cover l b ≤ 1) × (b < last → cover l b ≡ 0)
unfolding check_sorted cover
check_sorted-cover last [] b h = (omega arith, λ _. refl)
check_sorted-cover last (e ∷ l) b h =
    let (first, rest) = then_check-accept _ _ h in
    let ih = check_sorted-cover (e.start + e.count) l b rest in
    let le = refuse_if-accept _ _ first in (ground (arith, ih.1), λ lt. ground (arith, ih.1))

check_overlap-cover : (l : List Extent) (b : ℕ) → check_overlap l ≡ accept → cover l b ≤ 1
unfolding check_overlap cover
check_overlap-cover [] b h = omega arith
check_overlap-cover (e ∷ l) b h =
    let ih = check_sorted-cover (e.start + e.count) l b h in ground (arith, ih.1)

-- An accepted directory: no block belongs to two of the runs that validateDirectory compares. They are
-- blocks 0 and 1, the directory segments and the page slots with an offset other than 0, and as many blocks
-- as the segment index and the keyslot have, counted from the block that their offset lies in: the
-- offset of the index may be unaligned, and then its bytes end one block later.
pub validate_directory-disjoint :
    (dir : List DirEntry) (segs : List SegDesc) (sb : Superblock) (fsz keyslot_blocks : ℕ)
    → validate_directory dir segs sb fsz keyslot_blocks ≡ accept
    → (b : ℕ) → cover (all_runs dir segs sb keyslot_blocks) b ≤ 1
unfolding validate_directory
validate_directory-disjoint dir segs sb fsz k h b =
    let (_, r) = then_check-accept (check_entries sb fsz dir) _ h in
    let (_, overlap) =
      then_check-accept (check_segs sb fsz segs)
        (check_overlap (sort_by_start (all_runs dir segs sb k))) r in
    omega (
      arith,
      check_overlap-cover (sort_by_start (all_runs dir segs sb k)) b overlap,
      cover-sort_by_start (all_runs dir segs sb k) b,
    )

-- A sparse entry owns no blocks, nor does an absent keyslot; the writer stores them so.
abbrev pub SparseEmpty : DirEntry → Type 0
SparseEmpty e = e.phys_offset ≡ 0 → e.blocks ≡ 0

abbrev pub SparseSeg : SegDesc → Type 0
SparseSeg d = d.phys_offset ≡ 0 → d.blocks ≡ 0

dir_runs-cover :
    (bs : ℕ) (es : List DirEntry) (b : ℕ)
    → All SparseEmpty es
    → cover (used_by_dir bs es) b ≤ cover (dir_runs bs es) b
unfolding used_by_dir dir_runs cover
dir_runs-cover bs [] b p = omega arith
dir_runs-cover bs (e ∷ es) b p =
    let ih = dir_runs-cover bs es b p.1 in
    let own = p.0 in
    subst (λ n. n ≤ cover (dir_runs bs (e ∷ es)) b)
      (sym (cover-append (add_used bs e.phys_offset e.blocks) (used_by_dir bs es) b))
      (ground (arith, own))

seg_runs-cover :
    (bs : ℕ) (ds : List SegDesc) (b : ℕ)
    → All SparseSeg ds
    → cover (used_by_segs bs ds) b ≤ cover (seg_runs bs ds) b
unfolding used_by_segs seg_runs cover
seg_runs-cover bs [] b p = omega arith
seg_runs-cover bs (d ∷ ds) b p =
    let ih = seg_runs-cover bs ds b p.1 in
    let own = p.0 in
    subst (λ n. n ≤ cover (seg_runs bs (d ∷ ds)) b)
      (sym (cover-append (add_used bs d.phys_offset d.blocks) (used_by_segs bs ds) b))
      (ground (arith, own))

module _ (dir : List DirEntry) (segs : List SegDesc) (sb : Superblock) (k b : ℕ) where
  abbrev bs : ℕ
  bs = sb.block_size

  cover-used_extents :
      cover (used_extents dir segs sb k) b
      ≡ cover (add_used bs sb.dir_offset sb.dir_blocks) b
        + (cover (add_used bs sb.keyslot_offset k) b
            + (cover (used_by_segs bs segs) b + cover (used_by_dir bs dir) b))
  unfolding used_extents
  cover-used_extents = simp cover-append

  pub cover-all_runs :
      cover (all_runs dir segs sb k) b
      ≡ hit 0 2 b
        + (cover (index_run sb) b
            + (cover (keyslot_run sb k) b
                + (cover (seg_runs bs segs) b + cover (dir_runs bs dir) b)))
  unfolding all_runs cover
  cover-all_runs = simp cover-append

  index-le : cover (add_used bs sb.dir_offset sb.dir_blocks) b ≤ cover (index_run sb) b
  unfolding add_used index_run cover
  index-le = ground arith

  keyslot-le :
      (sb.keyslot_offset ≡ 0 → k ≡ 0)
      → cover (add_used bs sb.keyslot_offset k) b ≤ cover (keyslot_run sb k) b
  unfolding add_used keyslot_run cover
  keyslot-le h = ground arith

  -- In an accepted container whose sparse entries and segments have no blocks, and that has no keyslot
  -- blocks if it has no keyslot, the extents that open marks as used and the rebuilt free list
  -- partition the data region: every block past the superblocks and below the high-water mark
  -- belongs to one extent or is free, once.
  pub open_partition :
      (fsz : ℕ)
      → validate_directory dir segs sb fsz k ≡ accept
      → All SparseEmpty dir
      → All SparseSeg segs
      → (sb.keyslot_offset ≡ 0 → k ≡ 0)
      → 2 ≤ b
      → b < (rebuild_allocator dir segs sb fsz k).high_water
      → cover (rebuild_allocator dir segs sb fsz k).free b + cover (used_extents dir segs sb k) b
        ≡ 1
  unfolding rebuild_allocator
  open_partition fsz h p q r above below =
      let used = used_extents dir segs sb k in
      let free = rebuild_from-free used (fsz / sb.block_size) b above below in
      let one : cover used b ≤ 1 = omega (
        arith,
        validate_directory-disjoint dir segs sb fsz k h b,
        cover-used_extents,
        cover-all_runs,
        index-le,
        keyslot-le r,
        seg_runs-cover sb.block_size segs b q,
        dir_runs-cover sb.block_size dir b p,
      ) in
      ground (arith, free, one)
