-- ===== src/Vault/Container/Storing.antt =====
-- `storePage` of vfs/vault/container.go and the blocks that it writes, and what is asked of the
-- compression, the cipher, the digest and the signature.
use native.Mathlib.Nat.{
  lt-div-mul-add, div-lt_iff_lt-mul, le-div_iff_mul-le, le-mul_of_pos_right, mul-div_cancel,
}
use sqlite.Prelude.{
  ℕ, suc, ◌+◌, ◌-◌, ◌*◌, ◌/◌, ◌%◌, ◌^◌, ◌≤◌, ◌<◌, ◌≡◌, refl, Bool, List, Option, none, some, length,
  length-append, length-replicate, length-take, take, replicate, All, arith, leb, inl, inr, ◌⊎◌,
  Bool-cases, Option-cases, true, false,
}
use sqlite.Vault.Alloc.{Extent, blocks_for, alloc}
use sqlite.Vault.Alloc.Cover.{hit}
use sqlite.Vault.Disk.{write_at}
use sqlite.Vault.Disk.Keeps.{Keeps, Keeps-refl, Keeps-trans, write_at-Keeps}
use sqlite.Vault.Format.{DirEntry, sparse}
use sqlite.Vault.Container.{
  Config, Cipher, Container, domain_page_data, pad, slot_hash, put_entry, all_zero, encode_page,
}
use sqlite.Vault.Container.Owned.{
  Room, Room-alloc, Room-apart, EntryOk, DescOk, sparse-EntryOk, held, usage, Sound,
}
use sqlite.Vault.Container.Entries.{
  by_entry, put_entry_shape, cover-held-put_entry, put_entry-Sound,
}
use sqlite.Vault.Container.Store.{sealed, slot_entry, store_slot, store_encoded, store_page}

-- What the container relies on: positive sizes that a uint32 holds, a block that holds a superblock,
-- digests of 32 bytes and signatures of 64 (crypto/sha256, crypto/ed25519), a compression that is undone
-- and writes at least a frame's header, and a cipher that keeps the length and is undone under the same tweak and domain.
pub record Lawful (k : Config) : Type 0 where
  pub block_pos : 0 < k.block_size
  pub page_pos : 0 < k.page_size
  pub page_small : k.page_size < 2 ^ 32
  pub segment_small : k.seg_entries * 40 + 17 < 2 ^ 32
  pub superblock_small : 165 ≤ k.block_size
  pub length-sha256 : (l : List ℕ) → length (k.sha256 l) ≡ 32
  pub length-sign : (l sig : List ℕ) → k.sign l ≡ some sig → length sig ≡ 64
  pub lossless : (page z : List ℕ) → k.compress page ≡ some z → k.decompress z ≡ some page
  pub frame_pos : (page z : List ℕ) → k.compress page ≡ some z → 0 < length z
  pub length-encrypt :
      (c : Cipher) (l : List ℕ) (t d : ℕ) → k.cipher ≡ some c → length (c.encrypt l t d) ≡ length l
  pub decrypt-encrypt :
      (c : Cipher) (l : List ℕ) (t d : ℕ) → k.cipher ≡ some c → c.decrypt (c.encrypt l t d) t d ≡ l

pub blocks_for_bounds : (n bs : ℕ) → 0 < bs → (n ≤ blocks_for n bs * bs) × (blocks_for n bs ≤ n)
unfolding blocks_for
blocks_for_bounds n bs p =
    let up : n + bs - 1 < (n + bs - 1) / bs * bs + bs = lt-div-mul-add p in
    let down : (n + bs - 1) / bs < suc n =
      (div-lt_iff_lt-mul p).1 (omega (arith, le-mul_of_pos_right n p)) in
    (omega arith, omega arith)

pub blocks_for_pos : (n bs : ℕ) → 0 < bs → 0 < n → 0 < blocks_for n bs
unfolding blocks_for
blocks_for_pos n bs p h = (le-div_iff_mul-le {x = 1} p).1 (omega arith)

pub length-pad : (n : ℕ) (l : List ℕ) → length (pad n l) ≡ n
unfolding pad
length-pad n l = omega (
  arith,
  length-append (take n l) (replicate (n - length l) 0),
  length-take n l,
  length-replicate {A = ℕ} (n - length l) 0,
)

module _ (k : Config) (laws : Lawful k) where
  pub length-sealed : (l : List ℕ) (t d : ℕ) → length (sealed k l t d) ≡ length l
  unfolding sealed
  length-sealed l t d = elim (Option-cases k.cipher) [
    | inl plain ↦ rw plain refl
    | inr (c, on) ↦ rw on (laws.length-encrypt c l t d on)
  ]

  -- A slot that was just allocated is a slot, and its entry holds just the blocks that were allocated.
  pub slot_entry-EntryOk :
      (start : ℕ) (stored on_disk : List ℕ) (verbatim : Bool)
      → length stored < 2 ^ 32
      → (start ≡ 0 → blocks_for (length stored) k.block_size ≡ 0)
      → EntryOk k.block_size (slot_entry k (start * k.block_size) stored on_disk verbatim)
  unfolding slot_entry slot_hash
  slot_entry-EntryOk start stored on_disk verbatim small high =
      let n = length stored in
      let q = blocks_for n k.block_size in
      let (up, down) = blocks_for_bounds n k.block_size laws.block_pos in
      let same_len : n % 2 ^ 32 ≡ n = omega arith in
      let same_blocks : q % 2 ^ 32 ≡ q = omega arith in
      record {
        start = start;
        aligned = refl;
        roomy = rw (same_len, same_blocks) up;
        none_at_zero = λ z. rw same_blocks (high z);
        hash_short = elim (Bool-cases k.authenticated) [
          | inl a ↦ rw a (omega (arith, length-take 16 (k.sha256 on_disk)))
          | inr a ↦ rw a (omega arith)
        ];
      }

  pub by_entry-slot_entry :
      (start : ℕ) (stored on_disk : List ℕ) (verbatim : Bool) (b : ℕ)
      → length stored < 2 ^ 32
      → by_entry k.block_size (slot_entry k (start * k.block_size) stored on_disk verbatim) b
        ≡ hit start (blocks_for (length stored) k.block_size) b
  unfolding slot_entry
  by_entry-slot_entry start stored on_disk verbatim b small =
      let n = length stored in
      let q = blocks_for n k.block_size in
      let (up, down) = blocks_for_bounds n k.block_size laws.block_pos in
      let same_blocks : q % 2 ^ 32 ≡ q = omega arith in
      rw (mul-div_cancel start laws.block_pos, same_blocks) refl

  -- A step from one container to the next: the well-formedness stays, the bytes of every block that
  -- was in use stay, and a block that was in use is still in use.
  pub record Extends (other : List Extent) (c c' : Container) : Type 0 where
    pub sound : Sound k other c'
    pub keeps : Keeps k.block_size (usage k other c) c.disk c'.disk
    pub more : (b : ℕ) → usage k other c b ≤ usage k other c' b

  pub Extends-trans :
      (other : List Extent) (c d e : Container)
      → Extends other c d
      → Extends other d e
      → Extends other c e
  Extends-trans other c d e x y = record {
    sound = y.sound;
    keeps =
        Keeps-trans k.block_size (usage k other c) laws.block_pos (usage k other d) c.disk d.disk
          e.disk x.more x.keeps y.keeps;
    more = λ b. omega (arith, x.more b, y.more b);
  }

  pub Extends-refl : (other : List Extent) (c : Container) → Sound k other c → Extends other c c
  Extends-refl other c sound = record {
    sound = sound;
    keeps = Keeps-refl k.block_size (usage k other c) laws.block_pos c.disk;
    more = λ b. omega arith;
  }

  -- A new entry whose blocks were reserved.
  pub put_entry-Extends :
      (other : List Extent) (n : ℕ) (e : DirEntry) (c : Container)
      → EntryOk k.block_size e
      → All (EntryOk k.block_size) c.dir
      → All (DescOk k.block_size) c.seg_index
      → c.next_slot ≤ 1
      → Room (λ b. usage k other c b + by_entry k.block_size e b) c.allocator
      → Extends other c (put_entry k n e c)
  put_entry-Extends other n e c slot slots segs slot_of room =
      let (ds, ps, shape, count) = put_entry_shape k laws.block_pos n e c slots in
      record {
        sound = put_entry-Sound k laws.block_pos other n e c slot slots segs slot_of room;
        keeps = rw shape (Keeps-refl k.block_size (usage k other c) laws.block_pos c.disk);
        more = λ b. omega (arith, cover-held-put_entry k laws.block_pos n e c b slots);
      }

  -- `storePage` after the encoding.
  pub store_slot-Extends :
      (other : List Extent) (n : ℕ) (stored : List ℕ) (verbatim : Bool) (c : Container)
      → length stored < 2 ^ 32
      → Sound k other c
      → Extends other c (store_slot k n (stored, verbatim) c).0
  unfolding store_slot held
  store_slot-Extends other n stored verbatim c small sound =
      elim (Bool-cases (write_at c.disk (start * bs) on_disk).1) [
        | inl wrote ↦
            rw (wrote, store_slot)
              (Extends-trans other c w (put_entry k n entry w) reserve (
                put_entry-Extends other n entry w
                  (slot_entry-EntryOk start stored on_disk verbatim small high) sound.slots
                  sound.segs sound.ping_pong
                  (
                    room.0,
                    λ b. omega (
                      arith,
                      room.1 b,
                      by_entry-slot_entry start stored on_disk verbatim b small,
                    ),
                  )))
        | inr lost ↦ rw (lost, store_slot) reserve
      ]
    where
      bs : ℕ
      bs = k.block_size

      nb : ℕ
      nb = blocks_for (length stored) bs

      start : ℕ
      start = (alloc c.allocator nb).0

      on_disk : List ℕ
      on_disk = sealed k (pad (nb * bs) stored) n domain_page_data

      entry : DirEntry
      entry = slot_entry k (start * bs) stored on_disk verbatim

      w : Container
      w = record c {
        allocator = (alloc c.allocator nb).1;
        disk = (write_at c.disk (start * bs) on_disk).0;
      }

      room : Room (λ b. usage k other c b + hit start nb b) (alloc c.allocator nb).1
      room = Room-alloc (usage k other c) c.allocator nb sound.room

      high : start ≡ 0 → nb ≡ 0
      high z = ground (arith, room.1 0)

      reserve : Extends other c w
      reserve = record {
        sound = record {
          room = (room.0, λ b. omega (arith, room.1 b));
          slots = sound.slots;
          segs = sound.segs;
          ping_pong = sound.ping_pong;
        };
        keeps =
            write_at-Keeps bs (usage k other c) laws.block_pos c.disk start nb on_disk
              (omega (
                arith,
                length-sealed (pad (nb * bs) stored) n domain_page_data,
                length-pad (nb * bs) stored,
              ))
              (λ b. Room-apart (usage k other c) c.allocator nb b sound.room);
        more = λ b. omega arith;
      }

  -- A page is stored as it is, or compressed to fewer bytes.
  pub encode_page_cases :
      (page stored : List ℕ) (verbatim : Bool)
      → encode_page k page ≡ some (stored, verbatim)
      → (stored ≡ page) × (verbatim ≡ true)
        ⊎ (k.compress page ≡ some stored) × (verbatim ≡ false) × (length stored < length page)
  unfolding encode_page
  encode_page_cases page stored verbatim h = elim (Bool-cases k.compressed) [
    | inl on ↦ elim (Option-cases (k.compress page)) [
      | inl q ↦ let e : encode_page k page ≡ none = rw (on, q) refl in cc
      | inr (z, q) ↦ elim (Bool-cases (leb (length page) (length z))) [
        | inl big ↦
            let e : encode_page k page ≡ some (page, true) = rw (on, q, big) refl in inl (cc, cc)
        | inr less ↦
            let e : encode_page k page ≡ some (z, false) = rw (on, q, less) refl in
            let same : stored ≡ z = cc in inr (cc, cc, rw same (ground arith))
      ]
    ]
    | inr off ↦ let e : encode_page k page ≡ some (page, true) = rw off refl in inl (cc, cc)
  ]

  pub encode_page_small :
      (page stored : List ℕ) (verbatim : Bool)
      → length page ≡ k.page_size
      → encode_page k page ≡ some (stored, verbatim)
      → length stored < 2 ^ 32
  encode_page_small page stored verbatim len h = elim (encode_page_cases page stored verbatim h) [
    | inl (same, w) ↦ rw (same, len) laws.page_small
    | inr (z, w, less) ↦ omega (arith, laws.page_small)
  ]

  -- `storePage`: whether it succeeds or fails, the container stays well formed, the bytes of every
  -- block in use stay as they are, and no block in use is given back.
  pub store_page-Extends :
      (other : List Extent) (n : ℕ) (page : List ℕ) (c : Container)
      → length page ≡ k.page_size
      → Sound k other c
      → Extends other c (store_page k n page c).0
  unfolding store_page store_encoded
  store_page-Extends other n page c len sound = elim (Bool-cases (all_zero page)) [
    | inl z ↦
        rw (z, store_page)
          (put_entry-Extends other n sparse c (sparse-EntryOk k.block_size) sound.slots sound.segs
            sound.ping_pong (sound.room.0, λ b. ground (arith, sound.room.1 b)))
    | inr z ↦
        rw (z, store_page)
          (by_encoding (encode_page k page) (λ e h. encode_page_small page e.0 e.1 len h))
  ]
    where
      by_encoding :
          (o : Option (List ℕ × Bool))
          → ((e : List ℕ × Bool) → o ≡ some e → length e.0 < 2 ^ 32)
          → Extends other c (store_encoded k n o c).0
      by_encoding none h = Extends-refl other c sound
      by_encoding (some e) h = store_slot-Extends other n e.0 e.1 c (h e refl) sound
