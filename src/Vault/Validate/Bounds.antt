-- ===== src/Vault/Validate/Bounds.antt =====
-- The sizes and the extents in an accepted superblock and an accepted directory entry
-- (vfs/vault/format.go).
use sqlite.Prelude.{
  ℕ, ◌+◌, ◌*◌, ◌/◌, ◌%◌, ◌^◌, ◌≤◌, ◌<◌, ◌≡◌, ◌≢◌, refl, Bool, true, false, List, [], ◌∷◌, arith,
  All, ◌⊎◌,
}
use sqlite.Vault.Alloc.{blocks_for}
use sqlite.Vault.Format.{Superblock, DirEntry, seg_desc_size, segment_count}
use sqlite.Vault.Validate.{
  Fault, Verdict, accept, reject, ◌then_check◌, refuse_if, is_pow2_in_range, max_int64, dir_bytes,
  validate_keyslot, validate_sizes, validate_index, validate, check_entry, check_entries,
}

pub then_check-accept : (v w : Verdict) → (v then_check w) ≡ accept → (v ≡ accept) × (w ≡ accept)
then_check-accept accept w h = (refl, h)
then_check-accept (reject f) w h = cc

pub refuse_if-accept : (b : Bool) (f : Fault) → refuse_if b f ≡ accept → b ≡ false
refuse_if-accept true f h = cc
refuse_if-accept false f h = refl

-- Sizes between 512 and 65536, no overflow of the logical size, an index extent inside the file that
-- is large enough for its segments, and a keyslot block inside the file and outside the index.
pub record Sane (s : Superblock) (fsz : ℕ) : Type 0 where
  pub block_range : (512 ≤ s.block_size) × (s.block_size ≤ 65536)
  pub page_range : (512 ≤ s.page_size) × (s.page_size ≤ 65536)
  pub block_le_page : s.block_size ≤ s.page_size
  pub segments : 0 < s.seg_entries
  pub logical_size : s.page_count * s.page_size ≤ max_int64
  pub index_inside : s.dir_offset + dir_bytes s ≤ fsz
  pub index_holds : segment_count s.page_count s.seg_entries * seg_desc_size ≤ dir_bytes s
  pub keyslot_inside :
      s.keyslot_offset ≢ 0
      → (s.keyslot_offset % s.block_size ≡ 0)
        × (s.keyslot_offset + s.block_size ≤ fsz)
        × ((s.dir_offset + dir_bytes s ≤ s.keyslot_offset)
            ⊎ (s.keyslot_offset + s.block_size ≤ s.dir_offset))

mul-le-of-le-div : (m k n : ℕ) → 0 < n → k ≤ m / n → k * n ≤ m
mul-le-of-le-div m k n p h = grind arith

module _ (s : Superblock) where
  validate_sizes-accept :
      validate_sizes s ≡ accept
      → (512 ≤ s.block_size)
        × (s.block_size ≤ 65536)
        × (512 ≤ s.page_size)
        × (s.page_size ≤ 65536)
        × (s.block_size ≤ s.page_size)
        × (0 < s.seg_entries)
        × (s.page_count ≤ max_int64 / s.page_size)
  unfolding validate_sizes is_pow2_in_range
  validate_sizes-accept h = ground arith

  validate_index-accept :
      (fsz : ℕ)
      → validate_index s fsz ≡ accept
      → (s.dir_offset + dir_bytes s ≤ fsz)
        × (segment_count s.page_count s.seg_entries * seg_desc_size ≤ dir_bytes s)
  unfolding validate_index
  validate_index-accept fsz h = ground arith

  validate_keyslot-accept :
      (fsz : ℕ)
      → validate_keyslot s fsz ≡ accept
      → s.keyslot_offset ≢ 0
      → (s.keyslot_offset % s.block_size ≡ 0)
        × (s.keyslot_offset + s.block_size ≤ fsz)
        × ((s.dir_offset + dir_bytes s ≤ s.keyslot_offset)
            ⊎ (s.keyslot_offset + s.block_size ≤ s.dir_offset))
  unfolding validate_keyslot
  validate_keyslot-accept fsz h nz = (ground arith, ground arith, ground arith)

-- An accepted superblock is sane.
pub validate-Sane : (s : Superblock) (fsz : ℕ) → validate s fsz ≡ accept → Sane s fsz
unfolding validate
validate-Sane s fsz h =
    let (h0, r) = then_check-accept (validate_sizes s) _ h in
    let (h1, h2) = then_check-accept (validate_index s fsz) (validate_keyslot s fsz) r in
    let z = validate_sizes-accept s h0 in
    let x = validate_index-accept s fsz h1 in
    record {
      block_range = (z.0, z.1);
      page_range = (z.2, z.3);
      block_le_page = z.4;
      segments = z.5;
      logical_size = mul-le-of-le-div max_int64 s.page_count s.page_size (omega (arith, z.2)) z.6;
      index_inside = x.0;
      index_holds = x.1;
      keyslot_inside = validate_keyslot-accept s fsz h2;
    }

-- A slot that is not sparse is not empty, fits a page, takes the blocks its length needs, and lies
-- inside the file.
abbrev pub SlotInside : Superblock → ℕ → DirEntry → Type 0
SlotInside sb fsz e =
    e.phys_offset ≢ 0
    → (0 < e.stored_len)
      × (e.stored_len ≤ sb.page_size)
      × (e.blocks ≡ blocks_for e.stored_len sb.block_size)
      × (e.phys_offset % sb.block_size ≡ 0)
      × (e.phys_offset + e.blocks * sb.block_size ≤ fsz)

check_entry-SlotInside :
    (sb : Superblock) (fsz : ℕ) (e : DirEntry)
    → fsz < 2 ^ 64
    → e.phys_offset < 2 ^ 64
    → e.blocks * sb.block_size < 2 ^ 64
    → check_entry sb fsz e ≡ accept
    → SlotInside sb fsz e
unfolding check_entry
check_entry-SlotInside sb fsz e a b c h nz =
    (ground arith, ground arith, ground arith, ground arith, ground arith)

-- The fields of an entry are in their ranges; the product of a uint32 and a block size of at most
-- 65536 cannot overflow.
abbrev pub InRange : DirEntry → Type 0
InRange e = (e.phys_offset < 2 ^ 64) × (e.blocks < 2 ^ 32)

span-fits : (a b : ℕ) → a < 2 ^ 32 → b ≤ 65536 → a * b < 2 ^ 64
span-fits a b p q = let h : a * b ≤ a * 65536 = grind arith in omega arith

-- Every slot of an accepted directory lies inside the file: the wrap-around of `physOffset + span`
-- is caught.
pub check_entries-SlotInside :
    (sb : Superblock) (fsz : ℕ) (es : List DirEntry)
    → sb.block_size ≤ 65536
    → fsz < 2 ^ 63
    → All InRange es
    → check_entries sb fsz es ≡ accept
    → All (SlotInside sb fsz) es
unfolding check_entries
check_entries-SlotInside sb fsz [] p q r h = tt
check_entries-SlotInside sb fsz (e ∷ es) p q r h =
    let (first, rest) = then_check-accept (check_entry sb fsz e) (check_entries sb fsz es) h in
    (
      check_entry-SlotInside sb fsz e (omega arith) r.0.0 (span-fits e.blocks sb.block_size r.0.1 p)
          first,
      check_entries-SlotInside sb fsz es p q r.1 rest,
    )
