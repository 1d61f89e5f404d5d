-- ===== src/Vault/Container/Owned.antt =====
-- Which blocks of the file the container of vfs/vault/container.go holds: the slots of its
-- directory, the extents that wait for the next commit, the directory segments and their index.
use sqlite.Prelude.{ℕ, ◌+◌, ◌-◌, ◌*◌, ◌/◌, ◌≤◌, ◌≡◌, refl, List, length, ◌++◌, All, arith, inl, inr}
use sqlite.Vault.Alloc.{Extent, Allocator, alloc, release}
use sqlite.Vault.Alloc.Cover.{cover, hit, cover-append, cover-alloc, cover-release}
use sqlite.Vault.Format.{DirEntry, SegDesc, sparse, slot_hash_len}
use sqlite.Vault.Rebuild.{add_used, used_by_dir, used_by_segs}
use sqlite.Vault.Container.{Config, Container}

-- The blocks in use, the free list and the two superblocks share no block, and all of them lie below
-- the high-water mark; `u b` counts the uses of block `b`.
abbrev pub Room : (ℕ → ℕ) → Allocator → Type 0
Room u a = (2 ≤ a.high_water) × ((b : ℕ) → u b + cover a.free b ≤ hit 2 (a.high_water - 2) b)

pub Room-alloc :
    (u : ℕ → ℕ) (a : Allocator) (n : ℕ)
    → Room u a
    → Room (λ b. u b + hit (alloc a n).0 n b) (alloc a n).1
Room-alloc u a n (past, room) = elim (cover-alloc a n) [
  | inl (same, top) ↦ (omega arith, λ b. rw top (omega (arith, same b, room b)))
  | inr (free, at, top) ↦ (omega arith, λ b. rw (free, at, top) (ground (arith, room b)))
]

-- Giving back one use of a run.
pub Room-release :
    (u v : ℕ → ℕ) (a : Allocator) (s n : ℕ)
    → ((b : ℕ) → u b ≡ hit s n b + v b)
    → Room u a
    → Room v (release a s n)
unfolding release
Room-release u v a s n split (past, room) =
    (rw top past, λ b. rw (cover-release a s n b, top) (omega (arith, split b, room b)))
  where
    top : (release a s n).high_water ≡ a.high_water
    top = ground arith

-- A run that `alloc` hands out shares no block with those in use.
pub Room-apart : (u : ℕ → ℕ) (a : Allocator) (n b : ℕ) → Room u a → u b + hit (alloc a n).0 n b ≤ 1
Room-apart u a n b room = ground (arith, (Room-alloc u a n room).1 b)

-- A slot starts on a block and holds its bytes, and its hash has at most 16 bytes; block 0 stands for no slot.
pub record IsSlot (bs phys_offset stored_len blocks : ℕ) (hash : List ℕ) : Type 0 where
  pub start : ℕ
  pub aligned : phys_offset ≡ start * bs
  pub roomy : stored_len ≤ blocks * bs
  pub none_at_zero : start ≡ 0 → blocks ≡ 0
  pub hash_short : length hash ≤ slot_hash_len

abbrev pub EntryOk : ℕ → DirEntry → Type 0
EntryOk bs e = IsSlot bs e.phys_offset e.stored_len e.blocks e.hash

abbrev pub DescOk : ℕ → SegDesc → Type 0
DescOk bs d = IsSlot bs d.phys_offset d.stored_len d.blocks d.hash

pub sparse-EntryOk : (bs : ℕ) → EntryOk bs sparse
sparse-EntryOk bs = record {
  start = 0;
  aligned = omega arith;
  roomy = omega arith;
  none_at_zero = λ h. refl;
  hash_short = omega arith;
}

pub cover-add_used : (bs p n b : ℕ) → cover (add_used bs p n) b ≡ hit (p / bs) n b
unfolding add_used cover
cover-add_used bs p n b = ground arith

module _ (k : Config) where
  -- The uses of a block: by the container, and by what it leaves alone (the wrapped key).
  unfoldable pub held : Container → List Extent
  unfolding used_by_dir used_by_segs add_used
  held c =
      used_by_dir k.block_size c.dir
      ++ (c.pending_release
          ++ (used_by_segs k.block_size c.seg_index
              ++ add_used k.block_size c.committed_dir_offset c.committed_dir_blocks))

  abbrev pub usage : List Extent → Container → ℕ → ℕ
  usage other c b = cover (held c) b + cover other b

  -- The well-formedness of an open container.
  pub record Sound (other : List Extent) (c : Container) : Type 0 where
    pub room : Room (usage other c) c.allocator
    pub slots : All (EntryOk k.block_size) c.dir
    pub segs : All (DescOk k.block_size) c.seg_index
    pub ping_pong : c.next_slot ≤ 1

  pub cover-held :
      (c : Container) (b : ℕ)
      → cover (held c) b
        ≡ cover (used_by_dir k.block_size c.dir) b
          + cover c.pending_release b
          + cover (used_by_segs k.block_size c.seg_index) b
          + hit (c.committed_dir_offset / k.block_size) c.committed_dir_blocks b
  unfolding held
  cover-held c b = omega (
    arith,
    cover-append (used_by_dir k.block_size c.dir)
        (c.pending_release
          ++ (used_by_segs k.block_size c.seg_index
              ++ add_used k.block_size c.committed_dir_offset c.committed_dir_blocks))
        b,
    cover-append c.pending_release
        (used_by_segs k.block_size c.seg_index
          ++ add_used k.block_size c.committed_dir_offset c.committed_dir_blocks)
        b,
    cover-append (used_by_segs k.block_size c.seg_index)
        (add_used k.block_size c.committed_dir_offset c.committed_dir_blocks) b,
    cover-add_used k.block_size c.committed_dir_offset c.committed_dir_blocks b,
  )
