-- ===== src/Vault/Container/Metadata.antt =====
-- `writeMetaExtent` of vfs/vault/container.go, and the blocks that it writes.
use native.Mathlib.Nat.{mul-div_cancel}
use sqlite.Prelude.{
  ℕ, zero, suc, ◌+◌, ◌*◌, ◌/◌, ◌%◌, ◌^◌, ◌≤◌, ◌<◌, ◌≡◌, refl, ap, subst, ◌∙◌, Bool, List, ◌++◌,
  length, take, arith, inl, inr, Bool-cases, Option-cases, max, length-take,
}
use sqlite.Vault.Alloc.{Extent, Allocator, blocks_for, alloc}
use sqlite.Vault.Alloc.Cover.{cover, hit, cover-append}
use sqlite.Vault.Disk.{Disk, write_at}
use sqlite.Vault.Disk.Keeps.{Keeps, Keeps-refl, Keeps-trans, write_at-Keeps}
use sqlite.Vault.Rebuild.{add_used}
use sqlite.Vault.Container.{Config, Container, ok, failed, pad}
use sqlite.Vault.Container.Owned.{Room, Room-alloc, IsSlot, held, cover-add_used, usage, Sound}
use sqlite.Vault.Container.Store.{sealed, checksum_of}
use sqlite.Vault.Container.Storing.{Lawful, length-pad, length-sealed, blocks_for_bounds}
use sqlite.Vault.Container.Commit.{
  Work, Meta, meta_content, meta_blocks, nothing_to_write, meta_hash, write_meta_extent,
}

module _ (k : Config) (laws : Lawful k) where
  -- The blocks in use, with the two superblocks.
  abbrev pub with_superblocks : List Extent → Container → ℕ → ℕ
  with_superblocks other c b = usage k other c b + hit 0 2 b

  -- A step between containers whose surroundings hold `other` and `other'`: the container stays well
  -- formed, the blocks in use and the superblocks keep their bytes, and the former are still in use.
  pub record Advances (other other' : List Extent) (c c' : Container) : Type 0 where
    pub sound : Sound k other' c'
    pub keeps : Keeps k.block_size (with_superblocks other c) c.disk c'.disk
    pub more : (b : ℕ) → usage k other c b ≤ usage k other' c' b

  pub Advances-trans :
      (o p q : List Extent) (c d e : Container)
      → Advances o p c d
      → Advances p q d e
      → Advances o q c e
  Advances-trans o p q c d e x y = record {
    sound = y.sound;
    keeps =
        Keeps-trans k.block_size (with_superblocks o c) laws.block_pos (with_superblocks p d) c.disk
          d.disk e.disk (λ b. omega (arith, x.more b)) x.keeps y.keeps;
    more = λ b. omega (arith, x.more b, y.more b);
  }

  pub Advances-refl : (o : List Extent) (c : Container) → Sound k o c → Advances o o c c
  Advances-refl o c sound = record {
    sound = sound;
    keeps = Keeps-refl k.block_size (with_superblocks o c) laws.block_pos c.disk;
    more = λ b. omega arith;
  }

  -- The extent of metadata that was written.
  abbrev pub extent_of : Meta → List Extent
  extent_of m = add_used k.block_size m.offset m.blocks

  abbrev pub MetaOk : Meta → Type 0
  MetaOk m =
      IsSlot k.block_size m.offset m.stored_len m.blocks (take 16 m.hash) × (length m.hash ≡ 32)

  -- The outcome of writing metadata: only the allocator and the disk change, and on success the new
  -- extent joins what is held outside of the container.
  abbrev pub MetaStep : List Extent → Container → Work Meta → Type 0
  MetaStep other c (c', failed e) = Advances other other c c'
  MetaStep other c (c', ok m) = Advances other (extent_of m ++ other) c c' × MetaOk m

  -- The state apart from the allocator and the disk.
  abbrev pub OnlyStorage : Container → Container → Type 0
  OnlyStorage c c' = (a : Allocator) × (d : Disk) × (c' ≡ record c { allocator = a; disk = d })

  meta_blocks_bounds :
      (bytes : List ℕ)
      → length bytes + 1 < 2 ^ 32
      → (length bytes ≤ meta_blocks k bytes * k.block_size) × (meta_blocks k bytes < 2 ^ 32)
  unfolding meta_blocks
  meta_blocks_bounds bytes small =
      let bounds = blocks_for_bounds (length bytes) k.block_size laws.block_pos in
      elim (Option-cases k.cipher) [
        | inl plain ↦ (rw plain bounds.0, rw plain (omega (arith, bounds.1)))
        | inr (c, on) ↦ (
          rw on (at_least (blocks_for (length bytes) k.block_size) bounds.0),
          rw on (omega (arith, bounds.1)),
        )
      ]
    where
      at_least : (q : ℕ) → length bytes ≤ q * k.block_size → length bytes ≤ max 1 q * k.block_size
      at_least zero h = omega (arith, h)
      at_least (suc q) h = subst (λ m. length bytes ≤ m * k.block_size) (omega arith) h

  content_bounds :
      (canary : Bool) (content : List ℕ)
      → (length content ≤ length (meta_content k canary content))
        × (length (meta_content k canary content) ≤ length content + 16)
  unfolding meta_content
  content_bounds canary content = elim (Option-cases k.cipher) [
    | inl plain ↦ (rw plain (omega arith), rw plain (omega arith))
    | inr (c, on) ↦ elim (Bool-cases canary) [
      | inl y ↦ (rw (on, y) (omega arith), rw (on, y) (omega arith))
      | inr y ↦ (rw (on, y) (omega arith), rw (on, y) (omega arith))
    ]
  ]

  length-meta_hash : (l : List ℕ) → length (meta_hash k l) ≡ 32
  unfolding meta_hash
  length-meta_hash l = elim (Option-cases k.cipher) [
    | inl plain ↦ rw plain refl
    | inr (c, on) ↦ elim (Bool-cases k.authenticated) [
      | inl a ↦ rw (on, a) (laws.length-sha256 l)
      | inr a ↦ rw (on, a) refl
    ]
  ]

  pub write_meta_extent-MetaStep :
      (other : List Extent) (content : List ℕ) (canary : Bool) (tweak domain : ℕ) (c : Container)
      → length content + 17 < 2 ^ 32
      → Sound k other c
      → MetaStep other c (write_meta_extent k content canary tweak domain c)
        × OnlyStorage c (write_meta_extent k content canary tweak domain c).0
  unfolding write_meta_extent held cover add_used
  write_meta_extent-MetaStep other content canary tweak domain c small sound =
      elim (Bool-cases (nothing_to_write k content)) [
        | inl none_q ↦
            rw (none_q, write_meta_extent)
              (
                (
                  Advances-refl other c sound,
                  (
                    record {
                      start = 0;
                      aligned = omega arith;
                      roomy = omega arith;
                      none_at_zero = λ z. refl;
                      hash_short = omega arith;
                    },
                    refl,
                  ),
                ),
                (c.allocator, c.disk, refl),
              )
        | inr some_q ↦ elim (Bool-cases (write_at c.disk (start * bs) on_disk).1) [
          | inl w ↦ rw (some_q, w, write_meta_extent) ((advanced, slot), (a', d', refl))
          | inr w ↦ rw (some_q, w, write_meta_extent) (leaked, (a', d', refl))
        ]
      ]
    where
      bs : ℕ
      bs = k.block_size

      bytes : List ℕ
      bytes = meta_content k canary content

      nb : ℕ
      nb = meta_blocks k bytes

      start : ℕ
      start = (alloc c.allocator nb).0

      on_disk : List ℕ
      on_disk = sealed k (pad (nb * bs) bytes) tweak domain

      a' : Allocator
      a' = (alloc c.allocator nb).1

      d' : Disk
      d' = (write_at c.disk (start * bs) on_disk).0

      c' : Container
      c' = record c { allocator = a'; disk = d' }

      m : Meta
      m = record {
        offset = start * bs;
        blocks = nb % 2 ^ 32;
        stored_len = length content % 2 ^ 32;
        checksum = checksum_of k bytes on_disk;
        hash = meta_hash k on_disk;
      }

      room : Room (λ b. usage k other c b + hit start nb b) a'
      room = Room-alloc (usage k other c) c.allocator nb sound.room

      bounds : (length bytes ≤ nb * bs) × (nb < 2 ^ 32)
      bounds = meta_blocks_bounds bytes (omega (arith, content_bounds canary content))

      same_blocks : nb % 2 ^ 32 ≡ nb
      same_blocks = omega (arith, bounds.1)

      kept : Keeps bs (with_superblocks other c) c.disk d'
      kept =
          write_at-Keeps bs (with_superblocks other c) laws.block_pos c.disk start nb on_disk
            (omega (
              arith,
              length-sealed k laws (pad (nb * bs) bytes) tweak domain,
              length-pad (nb * bs) bytes,
            ))
            (λ b. ground (arith, room.1 b))

      new_use : (b : ℕ) → cover (extent_of m ++ other) b ≡ hit start nb b + cover other b
      new_use b =
          let at : start * bs / bs ≡ start = mul-div_cancel start laws.block_pos in
          cover-append (extent_of m) other b
          ∙ ap (λ x. x + cover other b)
              (cover-add_used bs (start * bs) (nb % 2 ^ 32) b ∙ rw (at, same_blocks) refl)

      leaked : Advances other other c c'
      leaked = record {
        sound = record {
          room = (room.0, λ b. omega (arith, room.1 b));
          slots = sound.slots;
          segs = sound.segs;
          ping_pong = sound.ping_pong;
        };
        keeps = kept;
        more = λ b. omega arith;
      }

      advanced : Advances other (extent_of m ++ other) c c'
      advanced = record {
        sound = record {
          room = (room.0, λ b. omega (arith, room.1 b, new_use b));
          slots = sound.slots;
          segs = sound.segs;
          ping_pong = sound.ping_pong;
        };
        keeps = kept;
        more = λ b. omega (arith, new_use b);
      }

      slot : MetaOk m
      slot = (
        record {
          start = start;
          aligned = refl;
          roomy = rw same_blocks (omega (arith, bounds.0, content_bounds canary content));
          none_at_zero = λ z. rw same_blocks (ground (arith, room.1 0));
          hash_short = omega (arith, length-take 16 (meta_hash k on_disk));
        },
        length-meta_hash on_disk,
      )
