-- ===== src/Vault/Container/Commit.antt =====
-- The commit of vfs/vault/container.go: the directory is written as segments and an index to blocks
-- that are not in use, the file is synced, the other superblock is written, the file is synced again,
-- and only then do the superseded extents return to the allocator.
use sqlite.Prelude.{
  ℕ, zero, suc, ◌+◌, ◌-◌, ◌*◌, ◌^◌, ◌%◌, Bool, true, false, not, ◌&&◌, List, [], ◌∷◌, ◌++◌, length,
  take, drop, replicate, get_elem?, Option, none, some, ◌==◌, if◌then◌else◌, max,
}
use sqlite.Vault.Alloc.{Extent, Allocator, blocks_for, alloc, release}
use sqlite.Vault.Disk.{write_at, sync_disk}
use sqlite.Vault.Format.{
  Superblock, DirEntry, SegDesc, sparse, segment_count, segment_bounds, slot_hash_len, dir_hash_len,
  writer_sig_len,
}
use sqlite.Vault.Wire.{
  marshal, signed_state, marshal_directory, marshal_segment_index, superblock_magic,
}
use sqlite.Vault.Container.{
  Config, Container, Error, io_error, read_only_database, anchor_failed, Outcome, ok, failed,
  Result, and_then, pad, mem, release_later, domain_directory, domain_seg_index,
}
use sqlite.Vault.Container.Store.{sealed, checksum_of}

-- A step that also returns a value.
abbrev pub Work {ℓ} : Type ℓ → Type ℓ
Work A = Container × Outcome A

unfoldable pub with_value {ℓ κ} :
    {A : Type ℓ} {B : Type κ}
    → Work A
    → (A → Container → Container × B)
    → (Error → B)
    → Container × B
with_value (c, failed e) f g = (c, g e)
with_value (c, ok a) f g = f a c

-- Where a metadata extent landed, and its integrity fields.
pub record Meta : Type 0 where
  pub offset : ℕ
  pub blocks : ℕ
  pub stored_len : ℕ
  pub checksum : ℕ
  pub hash : List ℕ

abbrev pub no_meta : Meta
no_meta = record {
  offset = 0;
  blocks = 0;
  stored_len = 0;
  checksum = 0;
  hash = replicate dir_hash_len 0;
}

-- "VAULTv01-canary", padded to 16 bytes
abbrev pub dir_canary : List ℕ
dir_canary = superblock_magic ++ (b'-' ∷ b'c' ∷ b'a' ∷ b'n' ∷ b'a' ∷ b'r' ∷ b'y' ∷ 0 ∷ [])

-- The zero `segDesc{}`: a segment whose pages are all sparse.
abbrev pub sparse_segment : SegDesc
sparse_segment = record {
  phys_offset = 0;
  stored_len = 0;
  blocks = 0;
  checksum = 0;
  hash = replicate slot_hash_len 0;
}

-- `allSparse`
unfoldable pub all_sparse : List DirEntry → Bool
all_sparse [] = true
all_sparse (e ∷ l) = (e.phys_offset == 0) && all_sparse l

-- The entries `dir[lo:hi]` of a segment.
unfoldable pub segment_entries : ℕ → ℕ → ℕ → List DirEntry → List DirEntry
unfolding segment_bounds
segment_entries s seg_entries page_count dir =
    let (lo, hi) = segment_bounds s seg_entries page_count in take (hi - lo) (drop lo dir)

-- A segment's extent on disk, which is released after the commit; nothing for a sparse segment.
unfoldable pub superseded : Option SegDesc → List SegDesc
superseded none = []
superseded (some d) = if d.phys_offset == 0 then [] else d ∷ []

unfoldable pub all_superseded : List SegDesc → List SegDesc
unfolding superseded
all_superseded [] = []
all_superseded (d ∷ l) = superseded (some d) ++ all_superseded l

module _ (k : Config) where
  -- The blocks, the plain bytes and the bytes on disk of a metadata extent.
  unfoldable pub meta_content : Bool → List ℕ → List ℕ
  meta_content with_canary content = elim k.cipher [
    | none ↦ content
    | some c ↦ if with_canary then dir_canary ++ content else content
  ]

  unfoldable pub meta_blocks : List ℕ → ℕ
  unfolding blocks_for
  meta_blocks bytes = elim k.cipher [
    | none ↦ blocks_for (length bytes) k.block_size
    | some c ↦ max 1 (blocks_for (length bytes) k.block_size)
  ]

  unfoldable pub meta_hash : List ℕ → List ℕ
  meta_hash on_disk = elim k.cipher [
    | none ↦ replicate dir_hash_len 0
    | some c ↦ if k.authenticated then k.sha256 on_disk else replicate dir_hash_len 0
  ]

  -- Plaintext content that is empty is not written.
  unfoldable pub nothing_to_write : List ℕ → Bool
  nothing_to_write content = elim k.cipher [ none ↦ length content == 0 | some c ↦ false ]

  -- `writeMetaExtent`
  unfoldable pub write_meta_extent : List ℕ → Bool → ℕ → ℕ → Container → Work Meta
  unfolding nothing_to_write meta_content meta_blocks alloc pad sealed write_at checksum_of
      meta_hash
  write_meta_extent content with_canary tweak domain c =
      if nothing_to_write content
      then (c, ok no_meta)
      else (let bytes = meta_content with_canary content in
          let nb = meta_blocks bytes in
          let (start, rest) = alloc c.allocator nb in
          let on_disk = sealed k (pad (nb * k.block_size) bytes) tweak domain in
          let (disk, wrote) = write_at c.disk (start * k.block_size) on_disk in
          (
            record c { allocator = rest; disk = disk },
            if wrote
                then ok (record {
                  offset = start * k.block_size;
                  blocks = nb % 2 ^ 32;
                  stored_len = length content % 2 ^ 32;
                  checksum = checksum_of k bytes on_disk;
                  hash = meta_hash on_disk;
                })
                else failed io_error,
          ))

  unfoldable pub seg_desc : Meta → SegDesc
  seg_desc m = record {
    phys_offset = m.offset;
    stored_len = m.stored_len;
    blocks = m.blocks;
    checksum = m.checksum;
    hash = take slot_hash_len m.hash;
  }

  unfoldable pub written_segment : List SegDesc → Meta → Container → Work (SegDesc × List SegDesc)
  unfolding seg_desc
  written_segment freed m c = (c, ok (seg_desc m, freed))

  -- One round of the loop of `writeDirectory`: the segment's descriptor, and the extent that it
  -- supersedes. A clean segment is carried forward.
  unfoldable pub rewrite_segment : ℕ → Option SegDesc → Container → Work (SegDesc × List SegDesc)
  unfolding segment_entries all_sparse superseded write_meta_extent marshal_directory with_value
      written_segment
  rewrite_segment s old c =
      let entries = segment_entries s k.seg_entries c.page_count c.dir in
      if all_sparse entries
      then (c, ok (sparse_segment, superseded old))
      else with_value
          (write_meta_extent (marshal_directory k.authenticated entries) false s domain_directory c)
          (written_segment (superseded old)) failed

  unfoldable pub write_segment : ℕ → Option SegDesc → Container → Work (SegDesc × List SegDesc)
  unfolding mem rewrite_segment
  write_segment s none c = rewrite_segment s none c
  write_segment s (some d) c =
      if mem s c.dirty_segs then rewrite_segment s (some d) c else (c, ok (d, []))

  unfoldable pub add_segment :
      SegDesc × List SegDesc
      → List SegDesc × List SegDesc
      → Container
      → Work (List SegDesc × List SegDesc)
  add_segment (d, freed) (segs, all_freed) c = (c, ok (d ∷ segs, freed ++ all_freed))

  -- The loop over `n` segments from `s` on.
  unfoldable pub write_segments : ℕ → ℕ → Container → Work (List SegDesc × List SegDesc)
  unfolding write_segment with_value add_segment
  write_segments zero s c = (c, ok ([], []))
  write_segments (suc n) s c =
      with_value (write_segment s (get_elem? c.seg_index s) c)
        (λ one c'. with_value (write_segments n (suc s) c') (add_segment one) failed) failed

  -- What `writeDirectory` returns: the index extent, and the extents to release after the commit.
  unfoldable pub install_index :
      List SegDesc → List SegDesc → Meta → Container → Work (Meta × List SegDesc)
  install_index segs freed m c = (record c { seg_index = segs }, ok (m, freed))

  unfoldable pub write_index : List SegDesc × List SegDesc → Container → Work (Meta × List SegDesc)
  unfolding write_meta_extent marshal_segment_index with_value install_index all_superseded
  write_index (segs, freed) c =
      with_value (write_meta_extent (marshal_segment_index segs) true 0 domain_seg_index c)
        (install_index segs (freed ++ all_superseded (drop (length segs) c.seg_index))) failed

  -- `writeDirectory`; the directory is padded to the page count first.
  unfoldable pub pad_directory : Container → Container
  pad_directory c = record c { dir = c.dir ++ replicate (c.page_count - length c.dir) sparse }

  unfoldable pub empty_plaintext : Container → Bool
  unfolding segment_count
  empty_plaintext c = elim k.cipher [
    | none ↦ segment_count c.page_count k.seg_entries == 0
    | some x ↦ false
  ]

  unfoldable pub write_padded : Container → Work (Meta × List SegDesc)
  unfolding empty_plaintext all_superseded write_segments segment_count with_value write_index
  write_padded c =
      if empty_plaintext c
      then (record c { seg_index = []; dirty_segs = [] }, ok (no_meta, all_superseded c.seg_index))
      else with_value (write_segments (segment_count c.page_count k.seg_entries) 0 c) write_index
          failed

  unfoldable pub write_directory : Container → Work (Meta × List SegDesc)
  unfolding pad_directory write_padded
  write_directory c = write_padded (pad_directory c)

  -- The superblock of the new generation, before it is signed. `0` and `1` are the codec tags.
  unfoldable pub next_superblock : Meta → Container → Superblock
  next_superblock m c = record {
    block_size = k.block_size % 2 ^ 32;
    page_size = k.page_size % 2 ^ 32;
    page_count = c.page_count;
    dir_offset = m.offset;
    dir_blocks = m.blocks;
    seg_entries = k.seg_entries % 2 ^ 32;
    generation = c.committed_gen + 1;
    codec = if k.compressed then 1 else 0;
    enc = k.enc;
    dir_checksum = m.checksum;
    keyslot_offset = k.keyslot_offset;
    authenticated = k.authenticated;
    dir_hash = m.hash;
    writer_sig = replicate writer_sig_len 0;
  }

  -- `none` is a container that cannot sign.
  unfoldable pub signed_superblock : Superblock → Option Superblock
  unfolding signed_state
  signed_superblock sb =
      if k.authenticated
      then (elim (k.sign (signed_state sb)) [
        | none ↦ none
        | some sig ↦ some (record sb { writer_sig = sig })
      ])
      else some sb

  unfoldable pub sync_container : Container → Result
  unfolding sync_disk
  sync_container c =
      let (disk, synced) = sync_disk c.disk in
      (record c { disk = disk }, if synced then none else some io_error)

  unfoldable pub write_superblock : Option Superblock → Container → Result
  unfolding write_at marshal
  write_superblock none c = (c, some read_only_database)
  write_superblock (some sb) c =
      let (disk, wrote) = write_at c.disk (c.next_slot * k.block_size) (marshal sb) in
      (record c { disk = disk }, if wrote then none else some io_error)

  -- The old index and the old segments join the extents that wait.
  unfoldable pub release_segments : List SegDesc → Container → Container
  unfolding release_later
  release_segments [] c = c
  release_segments (d ∷ l) c =
      release_segments l
        (if d.phys_offset == 0 then c else release_later k d.phys_offset d.blocks c)

  unfoldable pub release_index : Container → Container
  unfolding release_later
  release_index c =
      if c.committed_dir_blocks == 0
      then c
      else release_later k c.committed_dir_offset c.committed_dir_blocks c

  unfoldable pub release_all : List Extent → Allocator → Allocator
  unfolding release
  release_all [] a = a
  release_all (e ∷ l) a = release_all l (release a e.start e.count)

  -- What `commit` does after the durable flip.
  unfoldable pub finish_commit : Meta → List SegDesc → Container → Container
  unfolding release_segments release_index release_all
  finish_commit m old_segs c =
      let r = release_segments old_segs (release_index c) in
      record r {
        allocator = release_all r.pending_release r.allocator;
        pending_release = [];
        committed_gen = c.committed_gen + 1;
        committed_dir_offset = m.offset;
        committed_dir_blocks = m.blocks;
        next_slot = 1 - c.next_slot;
        dirty = false;
        dirty_segs = [];
      }

  -- The replay anchor is told the new generation; its failure is reported although the commit stands.
  unfoldable pub store_anchor : Container → Result
  store_anchor c = elim k.anchor [
    | none ↦ (c, none)
    | some store ↦ (c, if store c.committed_gen then none else some anchor_failed)
  ]

  unfoldable pub conclude : Meta → List SegDesc → Container → Result
  unfolding finish_commit store_anchor
  conclude m old_segs c = store_anchor (finish_commit m old_segs c)

  -- The two syncs of `commit` around the superblock.
  unfoldable pub flip : Meta × List SegDesc → Container → Result
  unfolding and_then sync_container write_superblock signed_superblock next_superblock conclude
  flip (m, old_segs) c = and_then (sync_container c) (λ c1.
      and_then (write_superblock (signed_superblock (next_superblock m c1)) c1)
        (λ c2. and_then (sync_container c2) (conclude m old_segs)))

  -- `commit`
  unfoldable pub commit : Container → Result
  unfolding with_value write_directory flip
  commit c = with_value (write_directory c) flip some

  -- `sync`
  unfoldable pub sync : Container → Result
  unfolding commit sync_container
  sync c = if k.read_only then (c, none) else if not c.dirty then sync_container c else commit c
