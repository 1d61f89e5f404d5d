-- ===== src/Vault/Wire/RoundTrip.antt =====
-- Decoding what was encoded: the superblock, the directory and the segment index of
-- vfs/vault/format.go.
use sqlite.Prelude.{
  ℕ, ◌^◌, ◌<◌, ◌≡◌, refl, ap, sym, ◌∙◌, Bool, true, false, not, List, [], ◌∷◌, ◌++◌, length,
  replicate, arith, length-append, if◌then◌else◌, Bool-cases, inl, inr, ==_refl, ◌==◌,
}
use mathlib.Core.List.{append_assoc, append-nil}
use sqlite.Vault.Format.{Superblock, dir_hash_len, writer_sig_len}
use sqlite.Vault.Wire.{
  put_le, get_le, slice, superblock_magic, signed_state, checked_state, marshal, ok,
  decode_superblock, parse_superblock, crc32c,
}
use sqlite.Vault.Wire.Slices.{length-put_le, get_le-put_le, slice-field}

-- Every field is in the range of its Go type; the hash and the signature are zero in a container
-- that is not authenticated.
pub record Fits (s : Superblock) : Type 0 where
  pub block_size : s.block_size < 256 ^ 4
  pub page_size : s.page_size < 256 ^ 4
  pub page_count : s.page_count < 256 ^ 8
  pub dir_offset : s.dir_offset < 256 ^ 8
  pub dir_blocks : s.dir_blocks < 256 ^ 4
  pub seg_entries : s.seg_entries < 256 ^ 4
  pub generation : s.generation < 256 ^ 8
  pub codec : s.codec < 256 ^ 1
  pub enc : s.enc < 256 ^ 1
  pub dir_checksum : s.dir_checksum < 256 ^ 4
  pub keyslot_offset : s.keyslot_offset < 256 ^ 8
  pub dir_hash : length s.dir_hash ≡ dir_hash_len
  pub writer_sig : length s.writer_sig ≡ writer_sig_len
  pub unsigned_hash : s.authenticated ≡ false → s.dir_hash ≡ replicate dir_hash_len 0
  pub unsigned_sig : s.authenticated ≡ false → s.writer_sig ≡ replicate writer_sig_len 0

abbrev hash_of : Superblock → List ℕ
hash_of s = if s.authenticated then s.dir_hash else replicate dir_hash_len 0

abbrev sig_of : Superblock → List ℕ
sig_of s = if s.authenticated then s.writer_sig else replicate writer_sig_len 0

crc32c_lt : (bs : List ℕ) → crc32c bs < 256 ^ 4
unfolding crc32c
crc32c_lt bs = omega arith

choose :
    (b : Bool) {x y z : List ℕ}
    → x ≡ (if b then y else z)
    → (b ≡ false → y ≡ z)
    → (if b then x else z) ≡ y
choose true h k = h
choose false h k = sym (k refl)

-- The lengths, which do not depend on the values of the other fields.
module _ (s : Superblock) (hash_len : length s.dir_hash ≡ dir_hash_len)
    (sig_len : length s.writer_sig ≡ writer_sig_len) where
  length-hash_of : length (hash_of s) ≡ 32
  length-hash_of = elim (Bool-cases s.authenticated) [ inl h ↦ rw h hash_len | inr h ↦ rw h ]

  length-sig_of : length (sig_of s) ≡ 64
  length-sig_of = elim (Bool-cases s.authenticated) [ inl h ↦ rw h sig_len | inr h ↦ rw h ]

  length-signed_state : length (signed_state s) ≡ 97
  unfolding signed_state
  length-signed_state = omega (arith, length-hash_of)

  length-checked_state : length (checked_state s) ≡ 161
  unfolding checked_state
  length-checked_state =
      length-append (signed_state s) (sig_of s) ∙ omega (arith, length-signed_state, length-sig_of)

  pub length-marshal : length (marshal s) ≡ 165
  unfolding marshal
  length-marshal =
      length-append (checked_state s) _
      ∙ omega (arith, length-checked_state, length-put_le 4 (crc32c (checked_state s)))

module _ (s : Superblock) (fits : Fits s) where
  slice_checked : slice 0 161 (marshal s) ≡ checked_state s
  unfolding marshal
  slice_checked =
      slice-field 0 161 [] (checked_state s) (put_le 4 (crc32c (checked_state s))) refl
        (length-checked_state s fits.dir_hash fits.writer_sig)

  slice_crc : slice 161 4 (marshal s) ≡ put_le 4 (crc32c (checked_state s))
  unfolding marshal
  slice_crc =
      ap (λ r. slice 161 4 (checked_state s ++ r)) (sym (append-nil _))
      ∙ slice-field 161 4 (checked_state s) (put_le 4 (crc32c (checked_state s))) []
          (length-checked_state s fits.dir_hash fits.writer_sig)
          (length-put_le 4 (crc32c (checked_state s)))

  slice_hash : slice 65 32 (marshal s) ≡ hash_of s
  unfolding marshal checked_state signed_state put_le slice
  slice_hash = rw append_assoc (
      rw append_assoc
        (slice-field 0 32 [] (hash_of s) _ refl (length-hash_of s fits.dir_hash fits.writer_sig)))

  slice_sig : slice 97 64 (marshal s) ≡ sig_of s
  unfolding marshal checked_state
  slice_sig = rw append_assoc (
      slice-field 97 64 (signed_state s) (sig_of s) _
        (length-signed_state s fits.dir_hash fits.writer_sig)
        (length-sig_of s fits.dir_hash fits.writer_sig))

  auth_byte : (b : Bool) → not (get_le ((if b then 1 else 0) ∷ []) == 0) ≡ b
  unfolding get_le
  auth_byte true = refl
  auth_byte false = refl

  authenticated-marshal : not (get_le (slice 60 1 (marshal s)) == 0) ≡ s.authenticated
  unfolding marshal checked_state signed_state put_le slice
  authenticated-marshal = auth_byte s.authenticated

  hash-marshal : (decode_superblock (marshal s)).dir_hash ≡ s.dir_hash
  unfolding decode_superblock
  hash-marshal =
      ap (λ b. if b then slice 65 32 (marshal s) else replicate dir_hash_len 0)
        authenticated-marshal
      ∙ choose s.authenticated slice_hash fits.unsigned_hash

  sig-marshal : (decode_superblock (marshal s)).writer_sig ≡ s.writer_sig
  unfolding decode_superblock
  sig-marshal =
      ap (λ b. if b then slice 97 64 (marshal s) else replicate writer_sig_len 0)
        authenticated-marshal
      ∙ choose s.authenticated slice_sig fits.unsigned_sig

  decode-marshal : decode_superblock (marshal s) ≡ s
  unfolding decode_superblock marshal checked_state signed_state put_le slice
  decode-marshal = λ i. record {
    block_size = get_le-put_le 4 s.block_size fits.block_size i;
    page_size = get_le-put_le 4 s.page_size fits.page_size i;
    page_count = get_le-put_le 8 s.page_count fits.page_count i;
    dir_offset = get_le-put_le 8 s.dir_offset fits.dir_offset i;
    dir_blocks = get_le-put_le 4 s.dir_blocks fits.dir_blocks i;
    seg_entries = get_le-put_le 4 s.seg_entries fits.seg_entries i;
    generation = get_le-put_le 8 s.generation fits.generation i;
    codec = get_le-put_le 1 s.codec fits.codec i;
    enc = get_le-put_le 1 s.enc fits.enc i;
    dir_checksum = get_le-put_le 4 s.dir_checksum fits.dir_checksum i;
    keyslot_offset = get_le-put_le 8 s.keyslot_offset fits.keyslot_offset i;
    authenticated = authenticated-marshal i;
    dir_hash = hash-marshal i;
    writer_sig = sig-marshal i;
  }

  magic-marshal : slice 0 8 (marshal s) ≡ superblock_magic
  unfolding marshal checked_state signed_state put_le slice
  magic-marshal = refl

  version-marshal : get_le (slice 8 2 (marshal s)) ≡ 2
  unfolding marshal checked_state signed_state put_le slice get_le
  version-marshal = refl

  -- A superblock whose fields fit their Go types reads back as it was written.
  pub parse_superblock-marshal : parse_superblock (marshal s) ≡ ok s
  unfolding parse_superblock
  parse_superblock-marshal =
      let crc = crc32c (checked_state s) in
      rw (
        (length-marshal s fits.dir_hash fits.writer_sig),
        magic-marshal,
        slice_checked,
        slice_crc,
        get_le-put_le 4 crc (crc32c_lt (checked_state s)),
        ==_refl crc,
        version-marshal,
        decode-marshal,
      )
