-- ===== src/Vault/Format.antt =====
-- The metadata records of vfs/vault/format.go and their geometry. Unsigned integers are plain
-- numbers; their ranges stand in `Fits` predicates, and byte arrays are lists of bytes.
use sqlite.Prelude.{
  ℕ, ◌+◌, ◌-◌, ◌*◌, ◌/◌, Bool, true, false, List, replicate, min, ◌==◌, if◌then◌else◌,
}

-- containerVersion, superblockBlocks, dirHashLen, writerSigLen, slotHashLen
abbrev pub container_version : ℕ
container_version = 2

abbrev pub superblock_blocks : ℕ
superblock_blocks = 2

abbrev pub dir_hash_len : ℕ
dir_hash_len = 32

abbrev pub writer_sig_len : ℕ
writer_sig_len = 64

abbrev pub slot_hash_len : ℕ
slot_hash_len = 16

abbrev pub dir_entry_size : ℕ
dir_entry_size = 24

abbrev pub seg_desc_size : ℕ
seg_desc_size = 36

unfoldable pub dir_entry_bytes : Bool → ℕ
dir_entry_bytes true = dir_entry_size + slot_hash_len
dir_entry_bytes false = dir_entry_size

pub record Superblock : Type 0 where
  pub block_size : ℕ
  pub page_size : ℕ
  pub page_count : ℕ
  pub dir_offset : ℕ
  pub dir_blocks : ℕ
  pub seg_entries : ℕ
  pub generation : ℕ
  pub codec : ℕ
  pub enc : ℕ
  pub dir_checksum : ℕ
  pub keyslot_offset : ℕ
  pub authenticated : Bool
  pub dir_hash : List ℕ
  pub writer_sig : List ℕ

pub record DirEntry : Type 0 where
  pub phys_offset : ℕ
  pub stored_len : ℕ
  pub blocks : ℕ
  pub flags : ℕ
  pub checksum : ℕ
  pub hash : List ℕ

pub record SegDesc : Type 0 where
  pub phys_offset : ℕ
  pub stored_len : ℕ
  pub blocks : ℕ
  pub checksum : ℕ
  pub hash : List ℕ

-- The zero `dirEntry{}`: a page that was never written.
abbrev pub sparse : DirEntry
sparse = record {
  phys_offset = 0;
  stored_len = 0;
  blocks = 0;
  flags = 0;
  checksum = 0;
  hash = replicate slot_hash_len 0;
}

-- segmentCount
unfoldable pub segment_count : ℕ → ℕ → ℕ
segment_count page_count seg_entries =
    if seg_entries == 0 then 0 else (page_count + seg_entries - 1) / seg_entries

-- segmentBounds
unfoldable pub segment_bounds : ℕ → ℕ → ℕ → ℕ × ℕ
segment_bounds s seg_entries page_count =
    (s * seg_entries, min (s * seg_entries + seg_entries) page_count)
