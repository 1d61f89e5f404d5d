-- ===== src/Vault/Container/Superseded.antt =====
-- The extents that `commit` of vfs/vault/container.go gives back after the flip.
use sqlite.Prelude.{
  ℕ, suc, ◌+◌, ◌-◌, ◌/◌, ◌≤◌, ◌≡◌, refl, List, [], ◌∷◌, ◌++◌, All, arith, ◌==◌, inl, inr,
  Bool-cases, false,
}
use sqlite.Vault.Alloc.{Extent, Allocator, release}
use sqlite.Vault.Alloc.Cover.{cover, hit, cover-append}
use sqlite.Vault.Format.{SegDesc}
use sqlite.Vault.Rebuild.{used_by_segs}
use sqlite.Vault.Container.{Config, Container, release_later}
use sqlite.Vault.Container.Owned.{
  Room, Room-release, DescOk, cover-held, cover-add_used, usage, Sound,
}
use sqlite.Vault.Container.Storing.{Lawful}
use sqlite.Vault.Container.Commit.{
  Meta, release_segments, release_index, release_all, finish_commit,
}
use sqlite.Vault.Container.Metadata.{extent_of}
use sqlite.Vault.Container.Segments.{cover-used_by_segs_cons, desc_none_at_zero}

Room-weaken : (u v : ℕ → ℕ) (a : Allocator) → ((b : ℕ) → v b ≤ u b) → Room u a → Room v a
Room-weaken u v a le room = (room.0, λ b. omega (arith, le b, room.1 b))

module _ (k : Config) (laws : Lawful k) where
  Room-release_all :
      (v : ℕ → ℕ) (l : List Extent) (a : Allocator)
      → Room (λ b. cover l b + v b) a
      → Room v (release_all k l a)
  unfolding release_all cover
  Room-release_all v [] a room = (room.0, λ b. omega (arith, room.1 b))
  Room-release_all v (e ∷ l) a room = Room-release_all v l (release a e.start e.count) (
      Room-release (λ b. cover (e ∷ l) b + v b) (λ b. cover l b + v b) a e.start e.count
        (λ b. omega arith) room)

  release_index_shape :
      (c : Container)
      → (ps : List Extent) × (release_index k c ≡ record c { pending_release = ps })
        × ((b : ℕ)
            → cover ps b
              ≡ cover c.pending_release b
                + hit (c.committed_dir_offset / k.block_size) c.committed_dir_blocks b)
  unfolding release_index release_later cover
  release_index_shape c = elim (Bool-cases (c.committed_dir_blocks == 0)) [
    | inl z ↦ (c.pending_release, rw z refl, λ b. ground arith)
    | inr z ↦ (
      c.pending_release
          ++ (record {
            start = c.committed_dir_offset / k.block_size;
            count = c.committed_dir_blocks;
          })
            ∷ [],
      rw z refl,
      λ b. omega (
        arith,
        cover-append c.pending_release
            ((record {
              start = c.committed_dir_offset / k.block_size;
              count = c.committed_dir_blocks;
            })
              ∷ [])
            b,
      ),
    )
  ]

  release_segments_shape :
      (l : List SegDesc) (c : Container)
      → All (DescOk k.block_size) l
      → (ps : List Extent) × (release_segments k l c ≡ record c { pending_release = ps })
        × ((b : ℕ) → cover ps b ≡ cover c.pending_release b + cover (used_by_segs k.block_size l) b)
  unfolding release_segments release_later used_by_segs cover
  release_segments_shape [] c h = (c.pending_release, refl, λ b. omega arith)
  release_segments_shape (d ∷ l) c h = elim (Bool-cases (d.phys_offset == 0)) [
    | inl z ↦
        let (ps, rest, more) = release_segments_shape l c h.1 in
        (
          ps,
          rw z rest,
          λ b. ground (
            arith,
            more b,
            cover-used_by_segs_cons k.block_size d l b,
            desc_none_at_zero k.block_size d laws.block_pos h.0,
          ),
        )
    | inr z ↦
        let old : List Extent =
          (record { start = d.phys_offset / k.block_size; count = d.blocks }) ∷ [] in
        let (ps, rest, more) =
          release_segments_shape l (record c { pending_release = c.pending_release ++ old }) h.1 in
        (
          ps,
          rw z rest,
          λ b. omega (
            arith,
            more b,
            cover-used_by_segs_cons k.block_size d l b,
            cover-append c.pending_release old b,
          ),
        )
  ]

  -- After the flip, what the commit superseded is free again and the new index is in its place.
  pub finish_commit-Sound :
      (other o' : List Extent) (m : Meta) (freed : List SegDesc) (c : Container)
      → All (DescOk k.block_size) freed
      → ((b : ℕ)
          → cover (extent_of k laws m) b + cover (used_by_segs k.block_size freed) b + cover other b
            ≤ cover o' b)
      → Sound k o' c
      → Sound k other (finish_commit k m freed c)
        × ((finish_commit k m freed c).disk ≡ c.disk)
        × ((finish_commit k m freed c).committed_gen ≡ suc c.committed_gen)
        × ((finish_commit k m freed c).dir ≡ c.dir)
        × ((finish_commit k m freed c).next_slot ≡ 1 - c.next_slot)
        × ((finish_commit k m freed c).committed_dir_offset ≡ m.offset)
        × ((finish_commit k m freed c).committed_dir_blocks ≡ m.blocks)
  unfolding finish_commit cover
  finish_commit-Sound other o' m freed c descs le sound =
      let (qs, index, by_index) = release_index_shape c in
      let (ps, segs, by_segs) =
        release_segments_shape freed (record c { pending_release = qs }) descs in
      let r : Container = record c { pending_release = ps } in
      let done : Container = record c {
        allocator = release_all k ps c.allocator;
        pending_release = [];
        committed_gen = c.committed_gen + 1;
        committed_dir_offset = m.offset;
        committed_dir_blocks = m.blocks;
        next_slot = 1 - c.next_slot;
        dirty = false;
        dirty_segs = [];
      } in
      rw (index, segs)
        (
          record {
            room = Room-release_all (usage k other done) ps c.allocator (
                Room-weaken (usage k o' c) (λ b. cover ps b + usage k other done b) c.allocator
                  (λ b. omega (
                    arith,
                    by_index b,
                    by_segs b,
                    le b,
                    cover-held k c b,
                    cover-held k done b,
                    cover-add_used k.block_size m.offset m.blocks b,
                  ))
                  sound.room);
            slots = sound.slots;
            segs = sound.segs;
            ping_pong = omega arith;
          },
          refl,
          omega arith,
          refl,
          refl,
          refl,
          refl,
        )
