-- ===== src/Vault/Container/Durable.antt =====
-- `commit` of vfs/vault/container.go, under every pattern of failures.
use sqlite.Prelude.{
  ℕ, suc, ◌+◌, ◌-◌, ◌*◌, ◌≤◌, ◌≡◌, refl, ap, subst, if◌then◌else◌, ◌∙◌, sym, List, Option, none,
  some, length, All, arith, inl, inr, ◌⊎◌, Bool-cases, Option-cases,
}
use sqlite.Vault.Alloc.{Extent}
use sqlite.Vault.Alloc.Cover.{cover, hit}
use sqlite.Vault.Disk.{Disk, write_at, sync_disk, bytes_from}
use sqlite.Vault.Disk.ReadBack.{bytes_from-write_at}
use sqlite.Vault.Disk.Keeps.{
  Keeps, Keeps-trans, Keeps-weaken, write_at-Keeps, sync_disk-Keeps, durable-sync_disk,
}
use sqlite.Vault.Format.{Superblock, SegDesc}
use sqlite.Vault.Rebuild.{used_by_segs}
use sqlite.Vault.Wire.{marshal, signed_state}
use sqlite.Vault.Wire.RoundTrip.{length-marshal}
use sqlite.Vault.Container.{
  Config, Container, Error, io_error, read_only_database, ok, failed, Result, and_then,
}
use sqlite.Vault.Container.Owned.{DescOk, held, usage, Sound}
use sqlite.Vault.Container.Storing.{Lawful}
use sqlite.Vault.Container.Commit.{
  Work, with_value, Meta, finish_commit, store_anchor, conclude, sync_container, write_superblock,
  signed_superblock, next_superblock, flip, pad_directory, write_directory, commit,
}
use sqlite.Vault.Container.Metadata.{Advances, with_superblocks, extent_of}
use sqlite.Vault.Container.Index.{DirOk, Indexable}
use sqlite.Vault.Container.Directory.{write_directory-DirOk}
use sqlite.Vault.Container.Superseded.{finish_commit-Sound}

module _ (k : Config) (laws : Lawful k) where
  -- The blocks in use, with the superblock that the next commit does not write: the authority.
  abbrev pub with_authority : List Extent → Container → ℕ → ℕ
  with_authority other c b = usage k other c b + hit (1 - c.next_slot) 1 b

  -- The generation, the slot, the page count and the directory are the same.
  abbrev pub Same : Container → Container → Type 0
  Same c c' =
      (c'.committed_gen ≡ c.committed_gen)
      × (c'.next_slot ≡ c.next_slot)
      × (c'.page_count ≡ c.page_count)
      × (c'.dir ≡ c.dir)

  -- The container stays well formed, the blocks in use and the authority keep their bytes, and the
  -- blocks stay in use.
  pub record Kept (other o' : List Extent) (c c' : Container) : Type 0 where
    pub sound : Sound k o' c'
    pub keeps : Keeps k.block_size (with_authority other c) c.disk c'.disk
    pub more : (b : ℕ) → usage k other c b ≤ usage k o' c' b

  -- The superblock of the generation after `c`, which names the index of `c'`.
  pub record IsNext (c c' : Container) (sb : Superblock) : Type 0 where
    pub generation : sb.generation ≡ suc c.committed_gen
    pub page_count : sb.page_count ≡ c.page_count
    pub dir_offset : sb.dir_offset ≡ c'.committed_dir_offset
    pub dir_blocks : sb.dir_blocks ≡ c'.committed_dir_blocks

  -- In `bytes`, the slot that a commit of `c` writes holds `sb`.
  abbrev pub OnDisk : Container → (ℕ → ℕ) → Superblock → Type 0
  OnDisk c bytes sb =
      bytes_from bytes (c.next_slot * k.block_size) (length (marshal sb)) ≡ marshal sb

  -- A commit that failed: it reports an error, and the container stands at its old generation.
  pub record Failed (other : List Extent) (c : Container) (r : Result) : Type 0 where
    pub reports : (e : Error) × (r.1 ≡ some e)
    pub kept : (o' : List Extent) × Kept other o' c r.0
    pub same : Same (pad_directory k c) r.0

  -- A commit that took effect: the superblock of the next generation stands on the disk, all is synced, and the
  -- container is well formed without what it gave back.
  pub record Flipped (other : List Extent) (c : Container) (r : Result) : Type 0 where
    pub sound : Sound k other r.0
    pub keeps : Keeps k.block_size (with_authority other c) c.disk r.0.disk
    pub durable : r.0.disk.durable ≡ r.0.disk.bytes
    pub superblock : (sb : Superblock) × IsNext c r.0 sb × OnDisk c r.0.disk.durable sb
    pub generation : r.0.committed_gen ≡ suc c.committed_gen
    pub slot : r.0.next_slot ≡ 1 - c.next_slot
    pub dir : r.0.dir ≡ (pad_directory k c).dir

  abbrev pub Committed : List Extent → Container → Result → Type 0
  Committed other c r = Failed other c r ⊎ Flipped other c r

  Same-trans : (c d e : Container) → Same c d → Same d e → Same c e
  Same-trans c d e (g, s, p, l) (g', s', p', l') = (g' ∙ g, s' ∙ s, p' ∙ p, l' ∙ l)

  Kept-trans :
      (o p q : List Extent) (c d e : Container)
      → d.next_slot ≡ c.next_slot
      → Kept o p c d
      → Kept p q d e
      → Kept o q c e
  Kept-trans o p q c d e slot x y = record {
    sound = y.sound;
    keeps =
        Keeps-trans k.block_size (with_authority o c) laws.block_pos (with_authority p d) c.disk
          d.disk e.disk
          (λ b.
            let same : hit (1 - d.next_slot) 1 b ≡ hit (1 - c.next_slot) 1 b =
              ap (λ n. hit (1 - n) 1 b) slot in
            omega (arith, x.more b, same))
          x.keeps y.keeps;
    more = λ b. omega (arith, x.more b, y.more b);
  }

  Advances-Kept : (o p : List Extent) (c d : Container) → Advances k laws o p c d → Kept o p c d
  Advances-Kept o p c d x = record {
    sound = x.sound;
    keeps =
        Keeps-weaken k.block_size (with_superblocks k laws o c) (with_authority o c) c.disk d.disk
          (λ b. ground arith) x.keeps;
    more = x.more;
  }

  disk-Kept :
      (other : List Extent) (c : Container) (d : Disk)
      → Sound k other c
      → Keeps k.block_size (with_authority other c) c.disk d
      → Kept other other c (record c { disk = d })
  unfolding held
  disk-Kept other c d sound keeps = record {
    sound = record {
      room = sound.room;
      slots = sound.slots;
      segs = sound.segs;
      ping_pong = sound.ping_pong;
    };
    keeps = keeps;
    more = λ b. omega arith;
  }

  sync_container-Kept :
      (other : List Extent) (c : Container)
      → Sound k other c
      → Kept other other c (sync_container k c).0
        × Same c (sync_container k c).0
        × ((sync_container k c).1 ≡ none
            → ((sync_container k c).0.disk.durable ≡ c.disk.bytes)
              × ((sync_container k c).0.disk.bytes ≡ c.disk.bytes))
  unfolding sync_container
  sync_container-Kept other c sound = (
    disk-Kept other c (sync_disk c.disk).0 sound
        (sync_disk-Keeps k.block_size (with_authority other c) laws.block_pos c.disk),
    (refl, refl, refl, refl),
    synced,
  )
    where
      synced :
          (if (sync_disk c.disk).1 then none else some io_error) ≡ none
          → ((sync_disk c.disk).0.durable ≡ c.disk.bytes)
            × ((sync_disk c.disk).0.bytes ≡ c.disk.bytes)
      synced h = elim (Bool-cases (sync_disk c.disk).1) [
        | inl done ↦ durable-sync_disk c.disk done
        | inr lost ↦
            let e : (if (sync_disk c.disk).1 then none else some io_error) ≡ some io_error =
              rw lost refl in
            cc
      ]

  -- The superblock goes to block 0 or 1, which is never in use, and not over the authority.
  write_superblock-Kept :
      (other : List Extent) (sb : Superblock) (c : Container)
      → length (marshal sb) ≤ k.block_size
      → Sound k other c
      → Kept other other c
          (record c { disk = (write_at c.disk (c.next_slot * k.block_size) (marshal sb)).0 })
  write_superblock-Kept other sb c len sound =
      disk-Kept other c (write_at c.disk (c.next_slot * k.block_size) (marshal sb)).0 sound (
        write_at-Keeps k.block_size (with_authority other c) laws.block_pos c.disk c.next_slot 1
          (marshal sb) (omega (arith, len)) (λ b. ground (arith, sound.room.1 b, sound.ping_pong)))

  -- The signature is all that signing changes.
  signed_superblock_same :
      (sb s : Superblock)
      → signed_superblock k sb ≡ some s
      → (s ≡ record sb { writer_sig = s.writer_sig })
        × (length sb.writer_sig ≡ 64 → length s.writer_sig ≡ 64)
  unfolding signed_superblock
  signed_superblock_same sb s h = elim (Bool-cases k.authenticated) [
    | inl a ↦ elim (Option-cases (k.sign (signed_state sb))) [
      | inl q ↦ let e : signed_superblock k sb ≡ none = rw (a, q) refl in cc
      | inr (made, q) ↦
          let e : signed_superblock k sb ≡ some (record sb { writer_sig = made }) =
            rw (a, q) refl in
          let same : record sb { writer_sig = made } ≡ s = cc in
          subst
            (λ x.
              (x ≡ record sb { writer_sig = x.writer_sig })
              × (length sb.writer_sig ≡ 64 → length x.writer_sig ≡ 64))
            same (refl, λ _. laws.length-sign (signed_state sb) made q)
    ]
    | inr a ↦
        let e : signed_superblock k sb ≡ some sb = rw a refl in
        let same : sb ≡ s = cc in
        subst
          (λ x.
            (x ≡ record sb { writer_sig = x.writer_sig })
            × (length sb.writer_sig ≡ 64 → length x.writer_sig ≡ 64))
          same (refl, λ h. h)
  ]

  store_anchor_same : (d : Container) → (store_anchor k d).0 ≡ d
  unfolding store_anchor
  store_anchor_same d = elim (Option-cases k.anchor) [
    | inl q ↦ rw q refl
    | inr (store, q) ↦ rw q refl
  ]

  failed-Committed :
      (other o' : List Extent) (c c' : Container) (e : Error)
      → Kept other o' c c'
      → Same (pad_directory k c) c'
      → Committed other c (c', some e)
  failed-Committed other o' c c' e kept same =
      inl (record { reports = (e, refl); kept = (o', kept); same = same })

  abbrev Signed : Container → Meta → Superblock → Type 0
  Signed c m sb =
      (sb.generation ≡ suc c.committed_gen)
      × (sb.page_count ≡ c.page_count)
      × (sb.dir_offset ≡ m.offset)
      × (sb.dir_blocks ≡ m.blocks)

  -- The end of a commit: the state advances, whether the anchor can be told or not.
  conclude-Committed :
      (other o' : List Extent) (m : Meta) (freed : List SegDesc) (c c' : Container)
      (sb : Superblock)
      → All (DescOk k.block_size) freed
      → ((b : ℕ)
          → cover (extent_of k laws m) b + cover (used_by_segs k.block_size freed) b + cover other b
            ≤ cover o' b)
      → Kept other o' c c'
      → Same (pad_directory k c) c'
      → Signed c m sb
      → OnDisk c c'.disk.durable sb
      → c'.disk.durable ≡ c'.disk.bytes
      → Committed other c (conclude k m freed c')
  unfolding conclude pad_directory
  conclude-Committed other o' m freed c c' sb descs le step (gen, slot, count, dir) (g, n, o, l)
        disk all =
      let done = finish_commit k m freed c' in
      let (sound, same_disk, next, entries, turned, at, blocks) =
        finish_commit-Sound k laws other o' m freed c' descs le step.sound in
      let anchored = store_anchor_same done in
      inr (record {
        sound = subst (Sound k other) (sym anchored) sound;
        keeps =
            subst (Keeps k.block_size (with_authority other c) c.disk)
              (sym (ap (λ x. x.disk) anchored ∙ same_disk)) step.keeps;
        durable =
            subst (λ d. d.durable ≡ d.bytes) (sym (ap (λ x. x.disk) anchored ∙ same_disk)) all;
        superblock = (
          sb,
          record {
            generation = g;
            page_count = n;
            dir_offset = o ∙ sym (ap (λ x. x.committed_dir_offset) anchored ∙ at);
            dir_blocks = l ∙ sym (ap (λ x. x.committed_dir_blocks) anchored ∙ blocks);
          },
          subst (λ d. OnDisk c d.durable sb) (sym (ap (λ x. x.disk) anchored ∙ same_disk)) disk,
        );
        generation = ap (λ x. x.committed_gen) anchored ∙ next ∙ ap suc gen;
        slot = ap (λ x. x.next_slot) anchored ∙ turned ∙ ap (λ x. 1 - x) slot;
        dir = ap (λ x. x.dir) anchored ∙ entries ∙ dir;
      })

  -- The fields of the superblock that a commit signs.
  signed_fields :
      (m : Meta) (c c2 : Container) (sb : Superblock)
      → Same (pad_directory k c) c2
      → signed_superblock k (next_superblock k m c2) ≡ some sb
      → (sb.generation ≡ suc c.committed_gen)
        × (sb.page_count ≡ c.page_count)
        × (sb.dir_offset ≡ m.offset)
        × (sb.dir_blocks ≡ m.blocks)
        × (length m.hash ≡ 32 → length (marshal sb) ≤ k.block_size)
  unfolding next_superblock pad_directory
  signed_fields m c c2 sb (gen, slot, count, dir) h =
      let (same, sig) = signed_superblock_same (next_superblock k m c2) sb h in
      let bump : c2.committed_gen + 1 ≡ suc c.committed_gen = omega (arith, gen) in
      (
        ap (λ x. x.generation) same ∙ bump,
        ap (λ x. x.page_count) same ∙ count,
        ap (λ x. x.dir_offset) same,
        ap (λ x. x.dir_blocks) same,
        λ hash. omega (
          arith,
          length-marshal sb (ap (λ x. length x.dir_hash) same ∙ hash) (sig refl),
          laws.superblock_small,
        ),
      )

  flip-Committed :
      (other : List Extent) (c : Container) (w : Work (Meta × List SegDesc))
      → DirOk k laws other c w
      → Same (pad_directory k c) w.0
      → Committed other c (with_value w (flip k) some)
  unfolding with_value flip and_then pad_directory write_superblock
  flip-Committed other c (c1, failed e) (o', step) same =
      failed-Committed other o' c c1 e (Advances-Kept other o' c c1 step) same
  flip-Committed other c (c1, ok (m, freed)) (o', step, slot, descs, le) same =
      after_sync (sync_container k c1) (sync_container-Kept o' c1 step.sound)
    where
      sync_last :
          (c3 : Container) (sb : Superblock)
          → Signed c m sb
          → OnDisk c c3.disk.bytes sb
          → Kept other o' c c3
          → Same (pad_directory k c) c3
          → (r : Result)
          → Kept o' o' c3 r.0
            × Same c3 r.0
            × (r.1 ≡ none → (r.0.disk.durable ≡ c3.disk.bytes) × (r.0.disk.bytes ≡ c3.disk.bytes))
          → Committed other c (and_then r (conclude k m freed))
      sync_last c3 sb fields disk kept3 same3 (c4, some e) (kept4, same4, bytes) =
          failed-Committed other o' c c4 e (Kept-trans other o' o' c c3 c4 same3.1 kept3 kept4)
            (Same-trans (pad_directory k c) c3 c4 same3 same4)
      sync_last c3 sb fields disk kept3 same3 (c4, none) (kept4, same4, bytes) =
          conclude-Committed other o' m freed c c4 sb descs le
            (Kept-trans other o' o' c c3 c4 same3.1 kept3 kept4)
            (Same-trans (pad_directory k c) c3 c4 same3 same4) fields
            (ap (λ f. bytes_from f (c.next_slot * k.block_size) (length (marshal sb)))
                (bytes refl).0
              ∙ disk)
            ((bytes refl).0 ∙ sym (bytes refl).1)

      after_superblock :
          (c2 : Container)
          → Kept other o' c c2
          → Same (pad_directory k c) c2
          → (o : Option Superblock)
          → ((sb : Superblock) → o ≡ some sb → Signed c m sb × (length (marshal sb) ≤ k.block_size))
          → Committed other c (
              and_then
                (write_superblock k o c2)
                (λ c3. and_then (sync_container k c3) (conclude k m freed)))
      after_superblock c2 kept2 same2 none signed =
          failed-Committed other o' c c2 read_only_database kept2 same2
      after_superblock c2 kept2 same2 (some sb) signed =
          let (fields, short) = signed sb refl in
          let off = c2.next_slot * k.block_size in
          let d3 = (write_at c2.disk off (marshal sb)).0 in
          let c3 : Container = record c2 { disk = d3 } in
          let kept3 =
            Kept-trans other o' o' c c2 c3 same2.1 kept2
              (write_superblock-Kept o' sb c2 short kept2.sound) in
          elim (Bool-cases (write_at c2.disk off (marshal sb)).1) [
            | inl wrote ↦
                let disk : OnDisk c d3.bytes sb =
                  subst
                    (λ n. bytes_from d3.bytes (n * k.block_size) (length (marshal sb)) ≡ marshal sb)
                    same2.1 (bytes_from-write_at c2.disk off (marshal sb) wrote) in
                let rest =
                  sync_last c3 sb fields disk kept3 same2 (sync_container k c3)
                    (sync_container-Kept o' c3 kept3.sound) in
                rw (write_superblock, wrote) rest
            | inr torn ↦
                let rest = failed-Committed other o' c c3 io_error kept3 same2 in
                rw (write_superblock, torn) rest
          ]

      after_sync :
          (r : Result)
          → Kept o' o' c1 r.0
            × Same c1 r.0
            × (r.1 ≡ none → (r.0.disk.durable ≡ c1.disk.bytes) × (r.0.disk.bytes ≡ c1.disk.bytes))
          → Committed other c (
              and_then r (λ c2.
                and_then
                  (write_superblock k (signed_superblock k (next_superblock k m c2)) c2)
                  (λ c3. and_then (sync_container k c3) (conclude k m freed))))
      after_sync (c2, some e) (kept2, same2, bytes) =
          failed-Committed other o' c c2 e
            (Kept-trans other o' o' c c1 c2 same.1 (Advances-Kept other o' c c1 step) kept2)
            (Same-trans (pad_directory k c) c1 c2 same same2)
      after_sync (c2, none) (kept2, same2, bytes) =
          let stays = Same-trans (pad_directory k c) c1 c2 same same2 in
          after_superblock c2
            (Kept-trans other o' o' c c1 c2 same.1 (Advances-Kept other o' c c1 step) kept2) stays
            (signed_superblock k (next_superblock k m c2))
            (λ sb q.
              let (g, n, o, l, short) = signed_fields m c c2 sb stays q in
              ((g, n, o, l), short slot.1))

  -- `commit` of a well-formed container under a lawful configuration, if the segment index fits its
  -- uint32 length, and under every pattern of failures. Either it reports an error: the generation, the
  -- slot and the page count of the container are the old ones, and all that was in use and the
  -- superblock of the last commit keep their bytes, and nothing of it becomes free. Or it took effect: everything written is synced, and
  -- in the other slot stand durably the bytes of a superblock of the next generation, which has the page count and
  -- names the new index; all that was in use when it began and the last superblock keep their
  -- bytes, and the container, well formed again, stands at that generation and turns to the other slot.
  pub commit-Committed :
      (other : List Extent) (c : Container)
      → Indexable k laws c
      → Sound k other c
      → Committed other c (commit k c)
  unfolding commit pad_directory
  commit-Committed other c small sound =
      let (step, (a, d, l, ds, only)) = write_directory-DirOk k laws other c small sound in
      flip-Committed other c (write_directory k c) step (rw only (refl, refl, refl, refl))
