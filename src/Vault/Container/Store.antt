-- ===== src/Vault/Container/Store.antt =====
-- Reading, writing and truncating pages of the open container (`storePage`, `readAt`, `writeAt` and
-- `truncate` of vfs/vault/container.go). An operation returns the container, changed as far as it
-- came, and the error if it failed.
use sqlite.Prelude.{
  ℕ, zero, suc, ◌+◌, ◌-◌, ◌*◌, ◌/◌, ◌%◌, ◌^◌, Bool, true, false, List, [], ◌∷◌, ◌++◌, length, take,
  drop, replicate, Option, none, some, ltb, leb, ◌==◌, if◌then◌else◌, min,
}
use sqlite.Vault.Alloc.{blocks_for, alloc}
use sqlite.Vault.Disk.{write_at}
use sqlite.Vault.Format.{DirEntry, sparse, slot_hash_len}
use sqlite.Vault.Wire.{crc32c}
use sqlite.Vault.Container.{
  Config, Result, and_then, Container, Error, io_error, encode_failed, read_only_database,
  read_only_recipient_refused, Outcome, ok, failed, domain_page_data, dir_flag_verbatim, all_zero,
  pad, slot_hash, encode_page, load_page, mark_segment_dirty, release_entry, put_entry,
}

module _ (k : Config) where
  -- The bytes of a run as they go to the disk.
  unfoldable pub sealed : List ℕ → ℕ → ℕ → List ℕ
  sealed extent tweak domain = elim k.cipher [
    | none ↦ extent
    | some c ↦ c.encrypt extent tweak domain
  ]

  -- The checksum covers the bytes on disk if they are encrypted, else the stored prefix.
  unfoldable pub checksum_of : List ℕ → List ℕ → ℕ
  unfolding crc32c
  checksum_of stored on_disk = elim k.cipher [ none ↦ crc32c stored | some c ↦ crc32c on_disk ]

  -- The `dirEntry` of a slot that was just written; lengths and counts are uint32.
  unfoldable pub slot_entry : ℕ → List ℕ → List ℕ → Bool → DirEntry
  unfolding checksum_of slot_hash blocks_for
  slot_entry phys_offset stored on_disk verbatim = record {
    phys_offset = phys_offset;
    stored_len = length stored % 2 ^ 32;
    blocks = blocks_for (length stored) k.block_size % 2 ^ 32;
    flags = if verbatim then dir_flag_verbatim else 0;
    checksum = checksum_of stored on_disk;
    hash = if k.authenticated then slot_hash k on_disk else replicate slot_hash_len 0;
  }

  -- The rest of `storePage` once the page is encoded.
  unfoldable pub store_slot : ℕ → List ℕ × Bool → Container → Result
  unfolding blocks_for alloc pad sealed write_at slot_entry put_entry
  store_slot page_no (stored, verbatim) c =
      let nb = blocks_for (length stored) k.block_size in
      let (start, rest) = alloc c.allocator nb in
      let on_disk = sealed (pad (nb * k.block_size) stored) page_no domain_page_data in
      let (disk, wrote) = write_at c.disk (start * k.block_size) on_disk in
      let written = record c { allocator = rest; disk = disk } in
      if wrote
      then (
        put_entry k page_no (slot_entry (start * k.block_size) stored on_disk verbatim) written,
        none,
      )
      else (written, some io_error)

  unfoldable pub store_encoded : ℕ → Option (List ℕ × Bool) → Container → Result
  unfolding store_slot
  store_encoded page_no none c = (c, some encode_failed)
  store_encoded page_no (some encoded) c = store_slot page_no encoded c

  -- `storePage`
  unfoldable pub store_page : ℕ → List ℕ → Container → Result
  unfolding all_zero put_entry encode_page store_encoded
  store_page page_no page c =
      if all_zero page
      then (put_entry k page_no sparse c, none)
      else store_encoded page_no (encode_page k page) c

  -- `copy(page[intra:], piece)` on a page that was loaded.
  unfoldable pub over_page : ℕ → List ℕ → Outcome (List ℕ) → Outcome (List ℕ)
  over_page intra piece (failed e) = failed e
  over_page intra piece (ok page) =
      ok (take intra page ++ (piece ++ drop (intra + length piece) page))

  -- The page that a round of `writeAt` stores: the data over the page as it stands.
  unfoldable pub edited_page : ℕ → ℕ → List ℕ → Container → Outcome (List ℕ)
  unfolding load_page over_page
  edited_page page_no intra piece c =
      if length piece == k.page_size
      then ok piece
      else over_page intra piece (load_page k c page_no)

  unfoldable pub raise_page_count : ℕ → Container → Result
  raise_page_count page_no c =
      (if ltb c.page_count (suc page_no) then record c { page_count = suc page_no } else c, none)

  unfoldable pub store_edited : ℕ → Outcome (List ℕ) → Container → Result
  unfolding raise_page_count store_page and_then
  store_edited page_no (failed e) c = (c, some e)
  store_edited page_no (ok page) c = and_then (store_page page_no page c) (raise_page_count page_no)

  -- One round of the loop of `writeAt`, on the first `n` bytes of the data.
  unfoldable pub write_piece : List ℕ → ℕ → Container → Result
  unfolding edited_page store_edited
  write_piece piece cur c =
      let page_no = cur / k.page_size in
      store_edited page_no (edited_page page_no (cur % k.page_size) piece c) c

  -- The loop of `writeAt` from the file offset `cur`; a round takes at least one byte, so the fuel is
  -- the number of bytes.
  unfoldable pub write_loop : ℕ → List ℕ → ℕ → Container → Result
  unfolding write_piece and_then
  write_loop zero bytes cur c = (c, none)
  write_loop (suc fuel) [] cur c = (c, none)
  write_loop (suc fuel) (b ∷ bytes) cur c =
      let n = min (k.page_size - cur % k.page_size) (suc (length bytes)) in
      and_then (write_piece (take n (b ∷ bytes)) cur c)
        (write_loop fuel (drop n (b ∷ bytes)) (cur + n))

  -- The first checks of `writeAt` and `truncate`.
  unfoldable pub write_refusal : Option Error
  write_refusal =
      if k.read_only_recipient
      then some read_only_recipient_refused
      else if k.read_only
      then some read_only_database
      else none

  unfoldable pub guarded : Option Error → Container → Result → Result
  guarded (some e) c r = (c, some e)
  guarded none c r = r

  unfoldable pub mark_dirty : Container → Result
  mark_dirty c = (record c { dirty = true }, none)

  -- `writeAt`: the container is dirty only after all of the data is stored.
  unfoldable pub write_data : List ℕ → ℕ → Container → Result
  unfolding write_loop and_then mark_dirty guarded write_refusal
  write_data input off c =
      guarded write_refusal c (and_then (write_loop (length input) input off c) mark_dirty)

  -- `size`
  unfoldable pub logical_size : Container → ℕ
  logical_size c = k.page_size * c.page_count

  -- The loop of `readAt`: the bytes read before the end or an error, and whether the buffer is full;
  -- `none` in the middle stands for io.EOF.
  unfoldable pub read_loop : ℕ → ℕ → ℕ → Container → List ℕ × Outcome Bool
  unfolding load_page logical_size
  read_loop zero n cur c = ([], ok true)
  read_loop (suc fuel) zero cur c = ([], ok true)
  read_loop (suc fuel) (suc n) cur c =
      if leb (logical_size c) cur
      then ([], ok false)
      else (elim (load_page k c (cur / k.page_size)) [
        | failed e ↦ ([], failed e)
        | ok page ↦
            let piece = take (suc n) (drop (cur % k.page_size) page) in
            let (rest, end) = read_loop fuel (suc n - length piece) (cur + length piece) c in
            (piece ++ rest, end)
      ])

  -- `readAt`
  unfoldable pub read_data : ℕ → ℕ → Container → List ℕ × Outcome Bool
  unfolding read_loop
  read_data n off c = read_loop n n off c

  -- The slots that `truncate` drops.
  unfoldable pub release_entries : List DirEntry → Container → Container
  unfolding release_entry
  release_entries [] c = c
  release_entries (e ∷ l) c = release_entries l (release_entry k (some e) c)

  -- The loop that marks segments from `s` on; it ends after at most one round per entry.
  unfoldable pub mark_segments : ℕ → ℕ → ℕ → Container → Container
  unfolding mark_segment_dirty
  mark_segments zero s old_len c = c
  mark_segments (suc fuel) s old_len c =
      let rest = mark_segments fuel (suc s) old_len (mark_segment_dirty k (s * k.seg_entries) c) in
      if ltb (s * k.seg_entries) old_len then rest else c

  -- The page count for a size in bytes.
  unfoldable pub pages_for : ℕ → ℕ
  pages_for size = size / k.page_size + (if size % k.page_size == 0 then 0 else 1)

  -- Every segment from the new last page through the old last page is dirty.
  unfoldable pub mark_cut : ℕ → ℕ → Container → Container
  unfolding mark_segments
  mark_cut new_count old_len c =
      if old_len == 0
      then c
      else if k.seg_entries == 0
      then c
      else mark_segments old_len (if new_count == 0 then 0 else (new_count - 1) / k.seg_entries)
          old_len c

  -- The body of `truncate`, from the new page count on.
  unfoldable pub cut_pages : ℕ → Container → Container
  unfolding release_entries mark_cut
  cut_pages new_count c =
      let old_len = length c.dir in
      let released = release_entries (drop new_count c.dir) c in
      let cut = record released { dir = take new_count c.dir } in
      let marked = mark_cut new_count old_len cut in
      record marked { page_count = new_count; dirty = true }

  -- `truncate`
  unfoldable pub truncate : ℕ → Container → Result
  unfolding pages_for cut_pages guarded write_refusal
  truncate size c = guarded write_refusal c (cut_pages (pages_for size) c, none)
