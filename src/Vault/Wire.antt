-- ===== src/Vault/Wire.antt =====
-- The wire format of vfs/vault/format.go: little-endian integers (encoding/binary), CRC-32C
-- (hash/crc32 with the Castagnoli table), and the encodings of the metadata records. A buffer that
-- the source fills at fixed offsets is written as the sequence of its fields.
pub mod Slices
pub mod RoundTrip
pub mod Tables
pub mod Flip
use Prim.Native.Nat.{bit_xor}
use sqlite.Prelude.{
  ℕ, zero, suc, ◌+◌, ◌-◌, ◌*◌, ◌/◌, ◌%◌, ◌^◌, ◌≡◌, Bool, true, false, not, List, [], ◌∷◌, ◌++◌,
  length, take, drop, replicate, Option, none, some, ltb, ◌==◌, if◌then◌else◌,
}
use sqlite.Vault.Format.{
  Superblock, DirEntry, SegDesc, container_version, dir_hash_len, writer_sig_len, slot_hash_len,
  dir_entry_bytes, seg_desc_size,
}

-- `binary.LittleEndian.PutUint`, `w` bytes wide.
unfoldable pub put_le : ℕ → ℕ → List ℕ
put_le zero v = []
put_le (suc w) v = v % 256 ∷ put_le w (v / 256)

unfoldable pub get_le : List ℕ → ℕ
get_le [] = 0
get_le (b ∷ bs) = b + 256 * get_le bs

-- One bit, one byte, and all bytes of the reflected CRC with polynomial 0x82f63b78.
unfoldable pub crc_bits : ℕ → ℕ → ℕ
crc_bits zero c = c
crc_bits (suc k) c = crc_bits k (if c % 2 == 0 then c / 2 else bit_xor (c / 2) 0x82f63b78)

unfoldable pub crc_loop : ℕ → List ℕ → ℕ
unfolding crc_bits
crc_loop c [] = c
crc_loop c (b ∷ bs) = crc_loop (crc_bits 8 (bit_xor c b)) bs

-- `crc32.Checksum(bs, crc32C)`, a uint32.
unfoldable pub crc32c : List ℕ → ℕ
unfolding crc_loop
crc32c bs = bit_xor (crc_loop 0xffffffff bs) 0xffffffff % 2 ^ 32

-- The slice `b[off:off+n]`.
unfoldable pub slice : ℕ → ℕ → List ℕ → List ℕ
slice off n b = take n (drop off b)

-- "VAULTv01"
abbrev pub superblock_magic : List ℕ
superblock_magic = b'V' ∷ b'A' ∷ b'U' ∷ b'L' ∷ b'T' ∷ b'v' ∷ b'0' ∷ b'1' ∷ []

-- The bytes [0:sbSignedLen], which a writer signs.
unfoldable pub signed_state : Superblock → List ℕ
unfolding put_le
signed_state s =
    superblock_magic
    ++ (put_le 2 container_version
        ++ (put_le 4 s.block_size
            ++ (put_le 4 s.page_size
                ++ (put_le 8 s.page_count
                    ++ (put_le 8 s.dir_offset
                        ++ (put_le 4 s.dir_blocks
                            ++ (put_le 8 s.generation
                                ++ (put_le 1 s.codec
                                    ++ (put_le 1 s.enc
                                        ++ (put_le 4 s.dir_checksum
                                            ++ (put_le 8 s.keyslot_offset
                                                ++ ((if s.authenticated then 1 else 0)
                                                    ∷ (put_le 4 s.seg_entries
                                                        ++ (if s.authenticated
                                                            then s.dir_hash
                                                            else replicate dir_hash_len
                                                            0))))))))))))))

-- The bytes [0:sbCRCOff], which the checksum covers.
unfoldable pub checked_state : Superblock → List ℕ
unfolding signed_state
checked_state s =
    signed_state s ++ (if s.authenticated then s.writer_sig else replicate writer_sig_len 0)

-- `(*superblock).marshal`
unfoldable pub marshal : Superblock → List ℕ
unfolding checked_state crc32c
marshal s = checked_state s ++ put_le 4 (crc32c (checked_state s))

pub data ParseError : Type 0 where
  bad_magic bad_checksum bad_version short_block : ParseError

pub data Parsed {ℓ} (A : Type ℓ) : Type ℓ where
  ok : A → Parsed A
  err : ParseError → Parsed A

-- `string(b[0:8]) != superblockMagic` and the like.
unfoldable pub bytes_eq : List ℕ → List ℕ → Bool
bytes_eq [] [] = true
bytes_eq (a ∷ as') (b ∷ bs) = if a == b then bytes_eq as' bs else false
bytes_eq _ _ = false

-- sbCRCOff and superblockSize
abbrev pub sb_crc_off : ℕ
sb_crc_off = 161

abbrev pub superblock_size : ℕ
superblock_size = sb_crc_off + 4

-- The fields at their offsets.
unfoldable pub decode_superblock : List ℕ → Superblock
unfolding get_le slice
decode_superblock b =
    let auth = not (get_le (slice 60 1 b) == 0) in
    record {
      block_size = get_le (slice 10 4 b);
      page_size = get_le (slice 14 4 b);
      page_count = get_le (slice 18 8 b);
      dir_offset = get_le (slice 26 8 b);
      dir_blocks = get_le (slice 34 4 b);
      seg_entries = get_le (slice 61 4 b);
      generation = get_le (slice 38 8 b);
      codec = get_le (slice 46 1 b);
      enc = get_le (slice 47 1 b);
      dir_checksum = get_le (slice 48 4 b);
      keyslot_offset = get_le (slice 52 8 b);
      authenticated = auth;
      dir_hash = if auth then slice 65 32 b else replicate dir_hash_len 0;
      writer_sig = if auth then slice 97 64 b else replicate writer_sig_len 0;
    }

-- `parseSuperblock`
unfoldable pub parse_superblock : List ℕ → Parsed Superblock
unfolding bytes_eq slice get_le decode_superblock crc32c
parse_superblock b =
    if ltb (length b) superblock_size
    then err bad_checksum
    else if not (bytes_eq (slice 0 8 b) superblock_magic)
    then err bad_magic
    else if not (crc32c (slice 0 sb_crc_off b) == get_le (slice sb_crc_off 4 b))
    then err bad_checksum
    else if not (get_le (slice 8 2 b) == container_version)
    then err bad_version
    else ok (decode_superblock b)

-- `pickSuperblockSlot`: the authoritative copy and its slot; `none` is errNoSuperblock.
unfoldable pub pick_parsed : Parsed Superblock → Parsed Superblock → Option (Superblock × ℕ)
pick_parsed (ok sa) (ok sb) = if ltb sa.generation sb.generation then some (sb, 1) else some (sa, 0)
pick_parsed (ok sa) (err _) = some (sa, 0)
pick_parsed (err _) (ok sb) = some (sb, 1)
pick_parsed (err _) (err _) = none

unfoldable pub pick_superblock_slot : List ℕ → List ℕ → Option (Superblock × ℕ)
unfolding pick_parsed
pick_superblock_slot a b = pick_parsed (parse_superblock a) (parse_superblock b)

-- `dirEntry.marshalInto` and `parseDirEntry`, over `dir_entry_bytes auth` bytes.
unfoldable pub marshal_entry : Bool → DirEntry → List ℕ
unfolding put_le
marshal_entry auth e =
    put_le 8 e.phys_offset
    ++ (put_le 4 e.stored_len
        ++ (put_le 4 e.blocks
            ++ (put_le 2 e.flags
                ++ (put_le 2 0 ++ (put_le 4 e.checksum ++ (if auth then e.hash else []))))))

unfoldable pub parse_dir_entry : Bool → List ℕ → DirEntry
unfolding get_le slice
parse_dir_entry auth b = record {
  phys_offset = get_le (slice 0 8 b);
  stored_len = get_le (slice 8 4 b);
  blocks = get_le (slice 12 4 b);
  flags = get_le (slice 16 2 b);
  checksum = get_le (slice 20 4 b);
  hash = if auth then slice 24 16 b else replicate slot_hash_len 0;
}

unfoldable pub marshal_directory : Bool → List DirEntry → List ℕ
unfolding marshal_entry
marshal_directory auth [] = []
marshal_directory auth (e ∷ es) = marshal_entry auth e ++ marshal_directory auth es

-- The loop of `parseDirectory` over `n` entries, each at the front of the bytes left.
unfoldable pub parse_entries : Bool → ℕ → List ℕ → List DirEntry
unfolding parse_dir_entry
parse_entries auth zero b = []
parse_entries auth (suc n) b =
    parse_dir_entry auth b ∷ parse_entries auth n (drop (dir_entry_bytes auth) b)

unfoldable pub parse_directory : Bool → ℕ → List ℕ → Parsed (List DirEntry)
unfolding parse_entries dir_entry_bytes
parse_directory auth n b =
    if ltb (length b) (n * dir_entry_bytes auth)
    then err short_block
    else ok (parse_entries auth n b)

unfoldable pub marshal_seg : SegDesc → List ℕ
unfolding put_le
marshal_seg d =
    put_le 8 d.phys_offset
    ++ (put_le 4 d.stored_len ++ (put_le 4 d.blocks ++ (put_le 4 d.checksum ++ d.hash)))

unfoldable pub parse_seg_desc : List ℕ → SegDesc
unfolding get_le slice
parse_seg_desc b = record {
  phys_offset = get_le (slice 0 8 b);
  stored_len = get_le (slice 8 4 b);
  blocks = get_le (slice 12 4 b);
  checksum = get_le (slice 16 4 b);
  hash = slice 20 16 b;
}

unfoldable pub marshal_segment_index : List SegDesc → List ℕ
unfolding marshal_seg
marshal_segment_index [] = []
marshal_segment_index (d ∷ ds) = marshal_seg d ++ marshal_segment_index ds

unfoldable pub parse_descs : ℕ → List ℕ → List SegDesc
unfolding parse_seg_desc
parse_descs zero b = []
parse_descs (suc n) b = parse_seg_desc b ∷ parse_descs n (drop seg_desc_size b)

unfoldable pub parse_segment_index : ℕ → List ℕ → Parsed (List SegDesc)
unfolding parse_descs
parse_segment_index n b =
    if ltb (length b) (n * seg_desc_size) then err short_block else ok (parse_descs n b)
