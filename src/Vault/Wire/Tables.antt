-- ===== src/Vault/Wire/Tables.antt =====
-- Decoding the page directory and the segment index of vfs/vault/format.go. The encodings may be
-- followed by the padding of their last block.
use sqlite.Prelude.{
  ℕ, ◌*◌, ◌^◌, ◌<◌, ◌≡◌, refl, ap, sym, ◌∙◌, Bool, true, false, List, [], ◌∷◌, ◌++◌, length, take,
  drop, replicate, arith, length-append, if◌then◌else◌, All, ltb, subst,
}
use mathlib.Core.List.{append_assoc}
use sqlite.Vault.Format.{DirEntry, SegDesc, slot_hash_len, dir_entry_bytes, seg_desc_size}
use sqlite.Vault.Wire.{
  put_le, slice, ok, marshal_entry, parse_dir_entry, marshal_directory, parse_entries,
  parse_directory, marshal_seg, parse_seg_desc, marshal_segment_index, parse_descs,
  parse_segment_index,
}
use sqlite.Vault.Wire.Slices.{get_le-put_le, drop-append_length, slice-field}

-- The fields are in the range of their Go types.
pub record FitsEntry (auth : Bool) (e : DirEntry) : Type 0 where
  pub phys_offset : e.phys_offset < 256 ^ 8
  pub stored_len : e.stored_len < 256 ^ 4
  pub blocks : e.blocks < 256 ^ 4
  pub flags : e.flags < 256 ^ 2
  pub checksum : e.checksum < 256 ^ 4
  pub hash : length e.hash ≡ slot_hash_len
  pub unsigned : auth ≡ false → e.hash ≡ replicate slot_hash_len 0

pub record FitsDesc (d : SegDesc) : Type 0 where
  pub phys_offset : d.phys_offset < 256 ^ 8
  pub stored_len : d.stored_len < 256 ^ 4
  pub blocks : d.blocks < 256 ^ 4
  pub checksum : d.checksum < 256 ^ 4
  pub hash : length d.hash ≡ slot_hash_len

length-marshal_entry :
    (auth : Bool) (e : DirEntry)
    → FitsEntry auth e
    → length (marshal_entry auth e) ≡ dir_entry_bytes auth
unfolding marshal_entry dir_entry_bytes
length-marshal_entry true e f = omega (arith, f.hash)
length-marshal_entry false e f = refl

parse_dir_entry-marshal_entry :
    (auth : Bool) (e : DirEntry) (r : List ℕ)
    → FitsEntry auth e
    → parse_dir_entry auth (marshal_entry auth e ++ r) ≡ e
unfolding parse_dir_entry marshal_entry put_le slice
parse_dir_entry-marshal_entry auth e r f = λ i. record {
  phys_offset = get_le-put_le 8 e.phys_offset f.phys_offset i;
  stored_len = get_le-put_le 4 e.stored_len f.stored_len i;
  blocks = get_le-put_le 4 e.blocks f.blocks i;
  flags = get_le-put_le 2 e.flags f.flags i;
  checksum = get_le-put_le 4 e.checksum f.checksum i;
  hash = hash_field auth f.unsigned i;
}
  where
    hash_field :
        (b : Bool)
        → (b ≡ false → e.hash ≡ replicate slot_hash_len 0)
        → (if b then take 16 ((if b then e.hash else []) ++ r) else replicate slot_hash_len 0)
          ≡ e.hash
    hash_field true h = slice-field 0 16 [] e.hash r refl f.hash
    hash_field false h = sym (h refl)

parse_entries-marshal_directory :
    (auth : Bool) (es : List DirEntry) (pad : List ℕ)
    → All (FitsEntry auth) es
    → parse_entries auth (length es) (marshal_directory auth es ++ pad) ≡ es
unfolding parse_entries marshal_directory
parse_entries-marshal_directory auth [] pad f = refl
parse_entries-marshal_directory auth (e ∷ es) pad f =
    let rest = marshal_directory auth es ++ pad in
    let skip : drop (dir_entry_bytes auth) (marshal_entry auth e ++ rest) ≡ rest =
      rw (← length-marshal_entry auth e f.0) (drop-append_length (marshal_entry auth e) rest) in
    rw append_assoc (λ i.
      parse_dir_entry-marshal_entry auth e rest f.0 i
      ∷ (ap (parse_entries auth (length es)) skip ∙ parse_entries-marshal_directory auth es pad f.1)
          i)

length-marshal_directory :
    (auth : Bool) (es : List DirEntry)
    → All (FitsEntry auth) es
    → length (marshal_directory auth es) ≡ length es * dir_entry_bytes auth
unfolding marshal_directory
length-marshal_directory auth [] f = omega arith
length-marshal_directory auth (e ∷ es) f =
    length-append (marshal_entry auth e) (marshal_directory auth es)
    ∙ omega (arith, length-marshal_entry auth e f.0, length-marshal_directory auth es f.1)

-- A directory whose fields fit reads back as it was written, whatever padding follows it.
pub parse_directory-marshal_directory :
    (auth : Bool) (es : List DirEntry) (pad : List ℕ)
    → All (FitsEntry auth) es
    → parse_directory auth (length es) (marshal_directory auth es ++ pad) ≡ ok es
unfolding parse_directory
parse_directory-marshal_directory auth es pad f =
    let enough : ltb (length (marshal_directory auth es ++ pad)) (length es * dir_entry_bytes auth)
        ≡ false =
      ground (
        arith,
        length-append (marshal_directory auth es) pad,
        length-marshal_directory auth es f,
      ) in
    rw enough (ap ok (parse_entries-marshal_directory auth es pad f))

length-marshal_seg : (d : SegDesc) → FitsDesc d → length (marshal_seg d) ≡ seg_desc_size
unfolding marshal_seg
length-marshal_seg d f = omega (arith, f.hash)

parse_seg_desc-marshal_seg :
    (d : SegDesc) (r : List ℕ) → FitsDesc d → parse_seg_desc (marshal_seg d ++ r) ≡ d
unfolding parse_seg_desc marshal_seg put_le slice
parse_seg_desc-marshal_seg d r f = λ i. record {
  phys_offset = get_le-put_le 8 d.phys_offset f.phys_offset i;
  stored_len = get_le-put_le 4 d.stored_len f.stored_len i;
  blocks = get_le-put_le 4 d.blocks f.blocks i;
  checksum = get_le-put_le 4 d.checksum f.checksum i;
  hash = slice-field 0 16 [] d.hash r refl f.hash i;
}

parse_descs-marshal_segment_index :
    (ds : List SegDesc) (pad : List ℕ)
    → All FitsDesc ds
    → parse_descs (length ds) (marshal_segment_index ds ++ pad) ≡ ds
unfolding parse_descs marshal_segment_index
parse_descs-marshal_segment_index [] pad f = refl
parse_descs-marshal_segment_index (d ∷ ds) pad f =
    let rest = marshal_segment_index ds ++ pad in
    let skip : drop seg_desc_size (marshal_seg d ++ rest) ≡ rest =
      subst (λ n. drop n (marshal_seg d ++ rest) ≡ rest) (length-marshal_seg d f.0)
        (drop-append_length (marshal_seg d) rest) in
    rw append_assoc (λ i.
      parse_seg_desc-marshal_seg d rest f.0 i
      ∷ (ap (parse_descs (length ds)) skip ∙ parse_descs-marshal_segment_index ds pad f.1) i)

length-marshal_segment_index :
    (ds : List SegDesc)
    → All FitsDesc ds
    → length (marshal_segment_index ds) ≡ length ds * seg_desc_size
unfolding marshal_segment_index
length-marshal_segment_index [] f = omega arith
length-marshal_segment_index (d ∷ ds) f =
    length-append (marshal_seg d) (marshal_segment_index ds)
    ∙ omega (arith, length-marshal_seg d f.0, length-marshal_segment_index ds f.1)

-- A segment index whose fields fit reads back as it was written, whatever padding follows it.
pub parse_segment_index-marshal_segment_index :
    (ds : List SegDesc) (pad : List ℕ)
    → All FitsDesc ds
    → parse_segment_index (length ds) (marshal_segment_index ds ++ pad) ≡ ok ds
unfolding parse_segment_index
parse_segment_index-marshal_segment_index ds pad f =
    let enough : ltb (length (marshal_segment_index ds ++ pad)) (length ds * seg_desc_size)
        ≡ false =
      ground
        (arith, length-append (marshal_segment_index ds) pad, length-marshal_segment_index ds f) in
    rw enough (ap ok (parse_descs-marshal_segment_index ds pad f))
