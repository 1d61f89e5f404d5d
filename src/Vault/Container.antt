-- ===== src/Vault/Container.antt =====
-- The open container of vfs/vault/container.go: its state, and the slots in which it stores pages.
-- The compression and the cipher are parameters of the configuration. Offsets and block indices,
-- int64 and uint64 in the source, are plain numbers that stay below the size of a file.
pub mod Store
pub mod Owned
pub mod Entries
pub mod Storing
pub mod Sizes
pub mod Running
pub mod Decode
pub mod Refine
pub mod Reload
pub mod Shows
pub mod Marking
pub mod Commit
pub mod Metadata
pub mod Segments
pub mod Index
pub mod Directory
pub mod Superseded
pub mod Durable
pub mod CrashSafe
pub mod Compact
pub mod Moving
pub mod Trim
pub mod Batches
use sqlite.Prelude.{
  ℕ, zero, suc, ◌+◌, ◌-◌, ◌*◌, ◌/◌, ◌%◌, ◌^◌, Bool, true, false, not, ◌&&◌, ◌||◌, List, [], ◌∷◌,
  ◌++◌, length, take, drop, replicate, get_elem?, Option, none, some, ltb, leb, ◌==◌, if◌then◌else◌,
}
use sqlite.Vault.Alloc.{Extent, Allocator, blocks_for, alloc}
use sqlite.Vault.Disk.{Disk, write_at, read_at}
use sqlite.Vault.Format.{DirEntry, SegDesc, sparse, slot_hash_len}
use sqlite.Vault.Wire.{crc32c, bytes_eq}

-- `crypto.PageCipher`: it transforms a whole run under a tweak and a domain.
pub record Cipher : Type 0 where
  pub encrypt : List ℕ → ℕ → ℕ → List ℕ
  pub decrypt : List ℕ → ℕ → ℕ → List ℕ

-- What is fixed when the container is opened. `sign` is the commit signature: `none` without a writer
-- identity; `store_generation` is the replay anchor, which may fail.
pub record Config : Type 0 where
  pub block_size : ℕ
  pub page_size : ℕ
  pub seg_entries : ℕ
  pub compressed : Bool
  pub compress : List ℕ → Option (List ℕ)
  pub decompress : List ℕ → Option (List ℕ)
  pub cipher : Option Cipher
  pub sha256 : List ℕ → List ℕ
  pub enc : ℕ
  pub keyslot_offset : ℕ
  pub authenticated : Bool
  pub sign : List ℕ → Option (List ℕ)
  pub anchor : Option (ℕ → Bool)
  pub read_only : Bool
  pub read_only_recipient : Bool

-- `container`: the part of it that changes. `dirty_segs`, a Go set, is the list of its members.
pub record Container : Type 0 where
  pub disk : Disk
  pub page_count : ℕ
  pub dir : List DirEntry
  pub allocator : Allocator
  pub seg_index : List SegDesc
  pub dirty_segs : List ℕ
  pub committed_gen : ℕ
  pub committed_dir_offset : ℕ
  pub committed_dir_blocks : ℕ
  pub next_slot : ℕ
  pub pending_release : List Extent
  pub dirty : Bool

pub data Error : Type 0 where
  io_error slot_forged slot_corrupt bad_frame encode_failed : Error
  read_only_database read_only_recipient_refused anchor_failed : Error

pub data Outcome {ℓ} (A : Type ℓ) : Type ℓ where
  ok : A → Outcome A
  failed : Error → Outcome A

-- What a changing operation returns: the container as far as it came, and the error.
abbrev pub Result : Type 0
Result = Container × Option Error

-- `if err := …; err != nil { return err }`
unfoldable pub and_then : Result → (Container → Result) → Result
and_then (c, some e) f = (c, some e)
and_then (c, none) f = f c

-- domainPageData, domainDirectory, domainSegIndex
abbrev pub domain_page_data : ℕ
domain_page_data = 1

abbrev pub domain_directory : ℕ
domain_directory = 2

abbrev pub domain_seg_index : ℕ
domain_seg_index = 3

abbrev pub dir_flag_verbatim : ℕ
dir_flag_verbatim = 1

unfoldable pub mem : ℕ → List ℕ → Bool
mem n [] = false
mem n (m ∷ l) = (n == m) || mem n l

unfoldable pub all_zero : List ℕ → Bool
all_zero [] = true
all_zero (b ∷ bs) = (b == 0) && all_zero bs

unfoldable pub set_entry : ℕ → DirEntry → List DirEntry → List DirEntry
set_entry n e [] = []
set_entry zero e (f ∷ l) = e ∷ l
set_entry (suc n) e (f ∷ l) = f ∷ set_entry n e l

-- `copy(extent, stored)` and the zeros after it.
unfoldable pub pad : ℕ → List ℕ → List ℕ
pad n l = take n l ++ replicate (n - length l) 0

module _ (k : Config) where
  -- `slotHash`
  unfoldable pub slot_hash : List ℕ → List ℕ
  slot_hash on_disk = take slot_hash_len (k.sha256 on_disk)

  -- `encodePage`: the bytes to store, and whether they are the page itself.
  unfoldable pub encode_page : List ℕ → Option (List ℕ × Bool)
  encode_page page = if not k.compressed then some (page, true) else (elim (k.compress page) [
    | none ↦ none
    | some z ↦ if leb (length page) (length z) then some (page, true) else some (z, false)
  ])

  -- `decodePage`, from the output of the decompression on.
  unfoldable pub accept_page : Option (List ℕ) → Outcome (List ℕ)
  accept_page none = failed bad_frame
  accept_page (some page) = if length page == k.page_size then ok page else failed bad_frame

  unfoldable pub decode_page : List ℕ → Outcome (List ℕ)
  unfolding accept_page
  decode_page stored = accept_page (k.decompress stored)

  -- The end of `loadPageInto`: the stored bytes of a slot, as a page.
  unfoldable pub unpack : DirEntry → List ℕ → Outcome (List ℕ)
  unfolding decode_page pad
  unpack e stored =
      if e.flags % 2 == dir_flag_verbatim then ok (pad k.page_size stored) else decode_page stored

  -- How many bytes of a slot are read: an encrypted slot is read whole.
  unfoldable pub span_read : DirEntry → ℕ
  span_read e = elim k.cipher [ none ↦ e.stored_len | some c ↦ e.blocks * k.block_size ]

  -- The checks on the bytes of a slot, `readVerifyDecrypt` included.
  unfoldable pub verify_plain : DirEntry → List ℕ → Outcome (List ℕ)
  unfolding unpack crc32c
  verify_plain e bytes = if crc32c bytes == e.checksum then unpack e bytes else failed slot_corrupt

  unfoldable pub verify_sealed : Cipher → ℕ → DirEntry → List ℕ → Outcome (List ℕ)
  unfolding slot_hash bytes_eq unpack crc32c
  verify_sealed c page_no e bytes =
      if k.authenticated && not (bytes_eq (slot_hash bytes) e.hash)
      then failed slot_forged
      else if crc32c bytes == e.checksum
      then unpack e (take e.stored_len (c.decrypt bytes page_no domain_page_data))
      else failed slot_corrupt

  unfoldable pub verify_under : Option Cipher → ℕ → DirEntry → List ℕ → Outcome (List ℕ)
  unfolding verify_plain verify_sealed
  verify_under none page_no e bytes = verify_plain e bytes
  verify_under (some c) page_no e bytes = verify_sealed c page_no e bytes

  unfoldable pub verify_slot : ℕ → DirEntry → List ℕ → Outcome (List ℕ)
  unfolding verify_under
  verify_slot page_no e bytes = verify_under k.cipher page_no e bytes

  unfoldable pub load_bytes : ℕ → DirEntry → Option (List ℕ) → Outcome (List ℕ)
  unfolding verify_slot
  load_bytes page_no e none = failed io_error
  load_bytes page_no e (some bytes) = verify_slot page_no e bytes

  unfoldable pub load_entry : Disk → ℕ → DirEntry → Outcome (List ℕ)
  unfolding span_read load_bytes read_at
  load_entry d page_no e =
      if e.phys_offset == 0
      then ok (replicate k.page_size 0)
      else load_bytes page_no e (read_at d e.phys_offset (span_read e))

  -- `loadPage`, with `loadPageInto`: a page past the directory is sparse.
  unfoldable pub load_found : Disk → ℕ → Option DirEntry → Outcome (List ℕ)
  unfolding load_entry
  load_found d page_no none = ok (replicate k.page_size 0)
  load_found d page_no (some e) = load_entry d page_no e

  unfoldable pub load_page : Container → ℕ → Outcome (List ℕ)
  unfolding load_found
  load_page c page_no = load_found c.disk page_no (get_elem? c.dir page_no)

  -- `markSegmentDirty`
  unfoldable pub mark_segment_dirty : ℕ → Container → Container
  mark_segment_dirty page_no c =
      if k.seg_entries == 0
      then c
      else record c { dirty_segs = page_no / k.seg_entries ∷ c.dirty_segs }

  -- `growDir`
  unfoldable pub grow_dir : ℕ → Container → Container
  unfolding mark_segment_dirty
  grow_dir page_no c =
      let old = length c.dir in
      let marked = if leb old page_no && ltb 0 old then mark_segment_dirty (old - 1) c else c in
      record marked { dir = c.dir ++ replicate (suc page_no - old) sparse }

  -- `releaseLater`
  unfoldable pub release_later : ℕ → ℕ → Container → Container
  release_later phys_offset blocks c = record c {
    pending_release =
        c.pending_release ++ (record { start = phys_offset / k.block_size; count = blocks }) ∷ [];
  }

  unfoldable pub release_entry : Option DirEntry → Container → Container
  unfolding release_later
  release_entry none c = c
  release_entry (some old) c =
      if old.phys_offset == 0 then c else release_later old.phys_offset old.blocks c

  -- The end of both branches of `storePage`: the directory grows, the old slot is released later, and
  -- the new entry takes its place.
  unfoldable pub put_entry : ℕ → DirEntry → Container → Container
  unfolding grow_dir release_entry set_entry mark_segment_dirty
  put_entry page_no e c =
      let grown = grow_dir page_no c in
      let released = release_entry (get_elem? grown.dir page_no) grown in
      mark_segment_dirty page_no (record released { dir = set_entry page_no e released.dir })
