-- ===== src/Vault/Container/Directory.antt =====
-- `writeDirectory` of vfs/vault/container.go, and which blocks the container holds after it.
use sqlite.Prelude.{ℕ, ◌-◌, ◌≡◌, refl, List, [], ◌++◌, length, All, arith, inl, inr, Bool-cases}
use sqlite.Vault.Alloc.{Extent}
use sqlite.Vault.Alloc.Cover.{cover, cover-append}
use sqlite.Vault.Disk.Keeps.{Keeps-refl}
use sqlite.Vault.Format.{SegDesc, segment_count}
use sqlite.Vault.Rebuild.{add_used, used_by_segs}
use sqlite.Vault.Container.{Config, Container, ok, failed}
use sqlite.Vault.Container.Owned.{DescOk, cover-held, usage, Sound}
use sqlite.Vault.Container.Entries.{cover-used_by_dir_grown, All-grown}
use sqlite.Vault.Container.Storing.{Lawful}
use sqlite.Vault.Container.Commit.{
  Work, Meta, all_superseded, write_segments, pad_directory, empty_plaintext, write_padded,
  write_directory,
}
use sqlite.Vault.Container.Metadata.{Advances, Advances-trans, with_superblocks}
use sqlite.Vault.Container.Segments.{write_segments-SegsOk}
use sqlite.Vault.Container.Index.{
  cover-all_superseded, DirOk, OnlyDirectory, Indexable, write_index-DirOk,
}

module _ (k : Config) (laws : Lawful k) where
  pad_directory-Advances :
      (other : List Extent) (c : Container)
      → Sound k other c
      → Advances k laws other other c (pad_directory k c)
  unfolding pad_directory
  pad_directory-Advances other c sound = record {
    sound = record {
      room = (sound.room.0, λ b. omega (arith, same b, sound.room.1 b));
      slots = All-grown k.block_size c.dir (c.page_count - length c.dir) sound.slots;
      segs = sound.segs;
      ping_pong = sound.ping_pong;
    };
    keeps = Keeps-refl k.block_size (with_superblocks k laws other c) laws.block_pos c.disk;
    more = λ b. omega (arith, same b);
  }
    where
      same : (b : ℕ) → usage k other (pad_directory k c) b ≡ usage k other c b
      same b = omega (
        arith,
        cover-held k c b,
        cover-held k (pad_directory k c) b,
        cover-used_by_dir_grown k.block_size c.dir (c.page_count - length c.dir) b,
      )

  write_padded-DirOk :
      (other : List Extent) (c : Container)
      → Indexable k laws c
      → Sound k other c
      → DirOk k laws other c (write_padded k c) × OnlyDirectory k laws c (write_padded k c).0
  unfolding write_padded used_by_segs cover add_used
  write_padded-DirOk other c small sound = elim (Bool-cases (empty_plaintext k c)) [
    | inl empty ↦
        rw (empty, write_padded)
          (
            (
              used_by_segs k.block_size (all_superseded c.seg_index) ++ other,
              dropped,
              (
                record {
                  start = 0;
                  aligned = omega arith;
                  roomy = omega arith;
                  none_at_zero = λ h. refl;
                  hash_short = omega arith;
                },
                refl,
              ),
              (gone 0).1,
              λ b. omega (
                arith,
                cover-append (used_by_segs k.block_size (all_superseded c.seg_index)) other b,
              ),
            ),
            (c.allocator, c.disk, [], [], refl),
          )
    | inr full ↦
        rw (full, write_padded)
          (write_index-DirOk k laws other c
            (write_segments k (segment_count c.page_count k.seg_entries) 0 c) small sound
            (write_segments-SegsOk k laws other (segment_count c.page_count k.seg_entries) 0 c
              sound))
  ]
    where
      gone :
          (b : ℕ)
          → (cover (used_by_segs k.block_size (all_superseded c.seg_index)) b
              ≡ cover (used_by_segs k.block_size c.seg_index) b)
            × All (DescOk k.block_size) (all_superseded c.seg_index)
      gone b = cover-all_superseded k.block_size c.seg_index b laws.block_pos sound.segs

      c' : Container
      c' = record c { seg_index = []; dirty_segs = [] }

      o' : List Extent
      o' = used_by_segs k.block_size (all_superseded c.seg_index) ++ other

      same : (b : ℕ) → usage k o' c' b ≡ usage k other c b
      same b = omega (
        arith,
        (gone b).0,
        cover-held k c b,
        cover-held k c' b,
        cover-append (used_by_segs k.block_size (all_superseded c.seg_index)) other b,
      )

      dropped : Advances k laws other o' c c'
      dropped = record {
        sound = record {
          room = (sound.room.0, λ b. omega (arith, same b, sound.room.1 b));
          slots = sound.slots;
          segs = tt;
          ping_pong = sound.ping_pong;
        };
        keeps = Keeps-refl k.block_size (with_superblocks k laws other c) laws.block_pos c.disk;
        more = λ b. omega (arith, same b);
      }

  -- `writeDirectory`, also when one of its writes fails.
  pub write_directory-DirOk :
      (other : List Extent) (c : Container)
      → Indexable k laws c
      → Sound k other c
      → DirOk k laws other c (write_directory k c)
        × OnlyDirectory k laws (pad_directory k c) (write_directory k c).0
  unfolding write_directory pad_directory
  write_directory-DirOk other c small sound =
      let padded = pad_directory-Advances other c sound in
      let (step, only) = write_padded-DirOk other (pad_directory k c) small padded.sound in
      (after (write_padded k (pad_directory k c)) step, only)
    where
      after :
          (w : Work (Meta × List SegDesc))
          → DirOk k laws other (pad_directory k c) w
          → DirOk k laws other c w
      after (c', failed e) (o', step) = (
        o',
        Advances-trans k laws other other o' c (pad_directory k c) c'
            (pad_directory-Advances other c sound) step,
      )
      after (c', ok (m, freed)) (o', step, slot, freeds, le) = (
        o',
        Advances-trans k laws other other o' c (pad_directory k c) c'
            (pad_directory-Advances other c sound) step,
        slot,
        freeds,
        le,
      )
