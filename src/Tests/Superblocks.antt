-- ===== src/Tests/Superblocks.antt =====
-- The encodings of vfs/vault/format.go, and the two superblock copies, on a small container.
use sqlite.Prelude.{
  update, List, ℕ, ◌<◌, ◌^◌, ◌≡◌, refl, true, false, [], ◌∷◌, ◌++◌, some, length, replicate, arith,
}
use sqlite.Vault.Format.{Superblock, DirEntry, SegDesc}
use sqlite.Vault.Wire.{
  crc32c, superblock_size, marshal, ok, err, bad_checksum, parse_superblock, marshal_directory,
  parse_directory, pick_superblock_slot,
}
use sqlite.Vault.Wire.RoundTrip.{Fits, parse_superblock-marshal}
use sqlite.Vault.Wire.Tables.{FitsEntry, FitsDesc, parse_directory-marshal_directory}
use sqlite.Vault.Wire.Flip.{authority, second_at, write_slot, authority-write_slot}

abbrev pub gen_of : ℕ → Superblock
gen_of g = record {
  block_size = 4096;
  page_size = 4096;
  page_count = 2;
  dir_offset = 8192;
  dir_blocks = 1;
  seg_entries = 100;
  generation = g;
  codec = 0;
  enc = 0;
  dir_checksum = 7;
  keyslot_offset = 0;
  authenticated = false;
  dir_hash = replicate 32 0;
  writer_sig = replicate 64 0;
}

-- The check value of CRC-32C, of the bytes "123456789".
crc32c_test :
    crc32c (b'1' ∷ b'2' ∷ b'3' ∷ b'4' ∷ b'5' ∷ b'6' ∷ b'7' ∷ b'8' ∷ b'9' ∷ []) ≡ 0xe3069283
unfolding crc32c
crc32c_test = refl

-- The superblock is 165 bytes long.
marshal_test : (length (marshal (gen_of 1)) ≡ 165) × (superblock_size ≡ 165)
unfolding marshal
marshal_test = (refl, refl)

gen_of-Fits : (g : ℕ) → g < 256 ^ 8 → Fits (gen_of g)
gen_of-Fits g h = record {
  block_size = omega arith;
  page_size = omega arith;
  page_count = omega arith;
  dir_offset = omega arith;
  dir_blocks = omega arith;
  seg_entries = omega arith;
  generation = h;
  codec = omega arith;
  enc = omega arith;
  dir_checksum = omega arith;
  keyslot_offset = omega arith;
  dir_hash = refl;
  writer_sig = refl;
  unsigned_hash = λ _. refl;
  unsigned_sig = λ _. refl;
}

parse_superblock-marshal_example : parse_superblock (marshal (gen_of 3)) ≡ ok (gen_of 3)
parse_superblock-marshal_example = parse_superblock-marshal (gen_of 3) (gen_of-Fits 3 (omega arith))

-- A new container: the second copy is still zero.
abbrev fresh : ℕ → List ℕ
fresh = update (λ off. []) 0 (marshal (gen_of 1))

blank_bad : parse_superblock [] ≡ err bad_checksum
unfolding parse_superblock
blank_bad = refl

fresh-authority : authority 65536 fresh ≡ some (gen_of 1, 0)
unfolding authority pick_superblock_slot second_at
fresh-authority = rw (parse_superblock-marshal (gen_of 1) (gen_of-Fits 1 (omega arith)), blank_bad)

fresh-second : second_at 65536 (parse_superblock (fresh 0)) ≡ 4096
unfolding second_at
fresh-second = rw (parse_superblock-marshal (gen_of 1) (gen_of-Fits 1 (omega arith)))

authority-write_slot_example :
    authority 65536 (write_slot 4096 1 (marshal (gen_of 2)) fresh) ≡ some (gen_of 2, 1)
authority-write_slot_example =
    authority-write_slot 65536 fresh (gen_of 1) (gen_of 2) 0 fresh-authority
      (gen_of-Fits 2 (omega arith)) (omega arith) (omega arith) fresh-second

abbrev pub entry : DirEntry
entry = record {
  phys_offset = 12288;
  stored_len = 4000;
  blocks = 1;
  flags = 2;
  checksum = 99;
  hash = replicate 16 5;
}

entry-FitsEntry : FitsEntry true entry
entry-FitsEntry = record {
  phys_offset = omega arith;
  stored_len = omega arith;
  blocks = omega arith;
  flags = omega arith;
  checksum = omega arith;
  hash = refl;
  unsigned = λ h. cc;
}

parse_directory-marshal_directory_example :
    parse_directory true 2 (marshal_directory true (entry ∷ entry ∷ []) ++ (0 ∷ 0 ∷ []))
    ≡ ok (entry ∷ entry ∷ [])
parse_directory-marshal_directory_example =
    parse_directory-marshal_directory true (entry ∷ entry ∷ []) (0 ∷ 0 ∷ [])
      (entry-FitsEntry, (entry-FitsEntry, tt))

abbrev pub desc : SegDesc
desc = record {
  phys_offset = 16384;
  stored_len = 3000;
  blocks = 1;
  checksum = 42;
  hash = replicate 16 0;
}

desc-FitsDesc : FitsDesc desc
desc-FitsDesc = record {
  phys_offset = omega arith;
  stored_len = omega arith;
  blocks = omega arith;
  checksum = omega arith;
  hash = refl;
}
