-- ===== src/Vault/Container/Index.antt =====
-- The segment index that `writeDirectory` of vfs/vault/container.go writes.
use sqlite.Prelude.{
  ℕ, zero, suc, ◌+◌, ◌*◌, ◌^◌, ◌≤◌, ◌<◌, ◌≡◌, refl, subst, sym, List, [], ◌∷◌, ◌++◌, some, length,
  drop, get_elem?, All, arith, true, length-append,
}
use sqlite.Vault.Alloc.{Extent, Allocator}
use sqlite.Vault.Alloc.Cover.{cover, cover-append}
use sqlite.Vault.Disk.{Disk}
use sqlite.Vault.Format.{SegDesc, segment_count}
use sqlite.Vault.Rebuild.{used_by_segs}
use sqlite.Vault.Wire.{put_le, marshal_seg, marshal_segment_index}
use sqlite.Vault.Container.{Config, Container, ok, failed, domain_seg_index}
use sqlite.Vault.Container.Owned.{DescOk, cover-held, usage, Sound}
use sqlite.Vault.Container.Storing.{Lawful}
use sqlite.Vault.Container.Commit.{
  Work, with_value, Meta, superseded, all_superseded, write_meta_extent, install_index, write_index,
}
use sqlite.Vault.Container.Metadata.{
  Advances, Advances-trans, extent_of, MetaStep, MetaOk, OnlyStorage, write_meta_extent-MetaStep,
}
use sqlite.Vault.Container.Segments.{
  by_old, cover-used_by_segs_cons, cover-used_by_segs_append, All-append, cover-superseded,
  range_use, SegsOk,
}

length-marshal_seg_le : (bs : ℕ) (d : SegDesc) → DescOk bs d → length (marshal_seg d) ≤ 36
unfolding marshal_seg put_le
length-marshal_seg_le bs d slot = omega (arith, slot.hash_short)

length-marshal_segment_index_le :
    (bs : ℕ) (l : List SegDesc)
    → All (DescOk bs) l
    → length (marshal_segment_index l) ≤ length l * 36
unfolding marshal_segment_index
length-marshal_segment_index_le bs [] h = omega arith
length-marshal_segment_index_le bs (d ∷ l) h = omega (
  arith,
  length-append (marshal_seg d) (marshal_segment_index l),
  length-marshal_seg_le bs d h.0,
  length-marshal_segment_index_le bs l h.1,
)

pub cover-all_superseded :
    (bs : ℕ) (l : List SegDesc) (b : ℕ)
    → 0 < bs
    → All (DescOk bs) l
    → (cover (used_by_segs bs (all_superseded l)) b ≡ cover (used_by_segs bs l) b)
      × All (DescOk bs) (all_superseded l)
unfolding all_superseded
cover-all_superseded bs [] b p h = (refl, tt)
cover-all_superseded bs (d ∷ l) b p h =
    let (one, one_ok) = cover-superseded bs (some d) b p h.0 in
    let (rest, rest_ok) = cover-all_superseded bs l b p h.1 in
    (
      omega (
        arith,
        one,
        rest,
        cover-used_by_segs_append bs (superseded (some d)) (all_superseded l) b,
        cover-used_by_segs_cons bs d l b,
      ),
      All-append (DescOk bs) (superseded (some d)) (all_superseded l) one_ok rest_ok,
    )

All-drop : (bs n : ℕ) (l : List SegDesc) → All (DescOk bs) l → All (DescOk bs) (drop n l)
All-drop bs zero l h = h
All-drop bs (suc n) [] h = tt
All-drop bs (suc n) (d ∷ l) h = All-drop bs n l h.1

module _ (k : Config) (laws : Lawful k) where
  cover-drop_step :
      (s : ℕ) (l : List SegDesc) (b : ℕ)
      → by_old k.block_size (get_elem? l s) b + cover (used_by_segs k.block_size (drop (suc s) l)) b
        ≡ cover (used_by_segs k.block_size (drop s l)) b
  unfolding used_by_segs cover
  cover-drop_step zero [] b = refl
  cover-drop_step (suc s) [] b = refl
  cover-drop_step zero (d ∷ l) b = sym (cover-used_by_segs_cons k.block_size d l b)
  cover-drop_step (suc s) (d ∷ l) b = cover-drop_step s l b

  range_use_all :
      (n s : ℕ) (l : List SegDesc) (b : ℕ)
      → range_use k laws l n s b + cover (used_by_segs k.block_size (drop (n + s) l)) b
        ≡ cover (used_by_segs k.block_size (drop s l)) b
  range_use_all zero s l b = let same : 0 + s ≡ s = omega arith in rw same (omega arith)
  range_use_all (suc n) s l b =
      let same : suc n + s ≡ n + suc s = omega arith in
      rw same (omega (arith, range_use_all n (suc s) l b, cover-drop_step s l b))

  -- The container of which the directory was written, with the extents that the next commit frees.
  abbrev pub DirOk : List Extent → Container → Work (Meta × List SegDesc) → Type 0
  DirOk other c (c', failed e) = (o' : List Extent) × Advances k laws other o' c c'
  DirOk other c (c', ok (m, freed)) =
      (o' : List Extent) × Advances k laws other o' c c'
      × MetaOk k laws m
      × All (DescOk k.block_size) freed
      × ((b : ℕ)
          → cover (extent_of k laws m) b + cover (used_by_segs k.block_size freed) b + cover other b
            ≤ cover o' b)

  -- The state that a commit reads is the same after the directory was written.
  abbrev pub OnlyDirectory : Container → Container → Type 0
  OnlyDirectory c c' =
      (a : Allocator) × (d : Disk) × (l : List SegDesc) × (ds : List ℕ) × (c'
        ≡ record c { allocator = a; disk = d; seg_index = l; dirty_segs = ds })

  -- The index has room for its segments in a uint32.
  abbrev pub Indexable : Container → Type 0
  Indexable c = segment_count c.page_count k.seg_entries * 36 + 17 < 2 ^ 32

  install_index-Advances :
      (other o1 : List Extent) (c : Container) (a : Allocator) (d : Disk)
      (segs freed : List SegDesc) (m : Meta)
      → Sound k other c
      → Advances k laws other (extent_of k laws m ++ o1) c (record c { allocator = a; disk = d })
      → All (DescOk k.block_size) segs
      → ((b : ℕ)
          → cover (used_by_segs k.block_size segs) b
              + cover (used_by_segs k.block_size freed) b
              + cover other b
            ≡ range_use k laws c.seg_index (length segs) 0 b + cover o1 b)
      → Advances k laws other
          (extent_of k laws m
            ++ (used_by_segs k.block_size (freed ++ all_superseded (drop (length segs) c.seg_index))
                ++ other))
          c
          (record c { allocator = a; disk = d; seg_index = segs })
  install_index-Advances other o1 c a d segs freed m sound step descs uses = record {
    sound = record {
      room = (step.sound.room.0, λ b. omega (arith, step.sound.room.1 b, same_use b));
      slots = step.sound.slots;
      segs = descs;
      ping_pong = step.sound.ping_pong;
    };
    keeps = step.keeps;
    more = λ b. omega (arith, step.more b, same_use b);
  }
    where
      n : ℕ
      n = length segs

      gone : List SegDesc
      gone = all_superseded (drop n c.seg_index)

      c2 : Container
      c2 = record c { allocator = a; disk = d }

      c3 : Container
      c3 = record c { allocator = a; disk = d; seg_index = segs }

      new : List Extent
      new = extent_of k laws m ++ (used_by_segs k.block_size (freed ++ gone) ++ other)

      whole :
          (b : ℕ)
          → range_use k laws c.seg_index n 0 b
              + cover (used_by_segs k.block_size (drop n c.seg_index)) b
            ≡ cover (used_by_segs k.block_size c.seg_index) b
      whole b =
          let same : n + 0 ≡ n = omega arith in
          subst
            (λ j.
              range_use k laws c.seg_index n 0 b
                + cover (used_by_segs k.block_size (drop j c.seg_index)) b
              ≡ cover (used_by_segs k.block_size c.seg_index) b)
            same (range_use_all n 0 c.seg_index b)

      same_use : (b : ℕ) → usage k new c3 b ≡ usage k (extent_of k laws m ++ o1) c2 b
      same_use b = omega (
        arith,
        uses b,
        whole b,
        cover-held k c2 b,
        cover-held k c3 b,
        cover-append (extent_of k laws m) o1 b,
        cover-append (extent_of k laws m) (used_by_segs k.block_size (freed ++ gone) ++ other) b,
        cover-append (used_by_segs k.block_size (freed ++ gone)) other b,
        cover-used_by_segs_append k.block_size freed gone b,
        (cover-all_superseded k.block_size (drop n c.seg_index) b laws.block_pos
            (All-drop k.block_size n c.seg_index sound.segs)).0,
      )

  -- Writing the index, and taking over the new segments.
  pub write_index-DirOk :
      (other : List Extent) (c : Container) (w : Work (List SegDesc × List SegDesc))
      → Indexable c
      → Sound k other c
      → SegsOk k laws other c (segment_count c.page_count k.seg_entries) 0 w
        × OnlyStorage k laws c w.0
      → DirOk other c (with_value w (write_index k) failed)
        × OnlyDirectory c (with_value w (write_index k) failed).0
  unfolding with_value write_index install_index
  write_index-DirOk other c (c1, failed e) small sound (step, (a, d, same)) =
      (step, (a, d, c.seg_index, c.dirty_segs, same))
  write_index-DirOk other c (c1, ok (segs, freed)) small sound
        ((o1, step, descs, freeds, len, uses), (a1, d1, same1)) =
      subst
        (λ x.
          DirOk other c (with_value (x, ok (segs, freed)) (write_index k) failed)
          × OnlyDirectory c (with_value (x, ok (segs, freed)) (write_index k) failed).0)
        (sym same1)
        (installed (write_meta_extent k content true 0 domain_seg_index mid) (
          write_meta_extent-MetaStep k laws o1 content true 0 domain_seg_index mid
            (omega (arith, length-marshal_segment_index_le k.block_size segs descs, len, small))
            first.sound))
    where
      content : List ℕ
      content = marshal_segment_index segs

      mid : Container
      mid = record c { allocator = a1; disk = d1 }

      first : Advances k laws other o1 c mid
      first = subst (λ x. Advances k laws other o1 c x) same1 step

      gone : List SegDesc
      gone = all_superseded (drop (length segs) c.seg_index)

      installed :
          (w : Work Meta)
          → MetaStep k laws o1 mid w × OnlyStorage k laws mid w.0
          → DirOk other c (with_value w (install_index k segs (freed ++ gone)) failed)
            × OnlyDirectory c (with_value w (install_index k segs (freed ++ gone)) failed).0
      installed (c2, failed e) (step2, (a2, d2, same2)) = (
        (o1, Advances-trans k laws other o1 o1 c mid c2 first step2),
        (a2, d2, c.seg_index, c.dirty_segs, same2),
      )
      installed (c2, ok m) ((step2, slot), (a2, d2, same2)) =
          subst
            (λ x.
              DirOk other c (with_value (x, ok m) (install_index k segs (freed ++ gone)) failed)
              × OnlyDirectory c
                  (with_value (x, ok m) (install_index k segs (freed ++ gone)) failed).0)
            (sym same2)
            (
              (
                extent_of k laws m ++ (used_by_segs k.block_size (freed ++ gone) ++ other),
                install_index-Advances other o1 c a2 d2 segs freed m sound
                    (subst (λ x. Advances k laws other (extent_of k laws m ++ o1) c x) same2
                      (Advances-trans k laws other o1 (extent_of k laws m ++ o1) c mid c2 first
                        step2))
                    descs
                    (λ b.
                      subst
                        (λ j.
                          cover (used_by_segs k.block_size segs) b
                            + cover (used_by_segs k.block_size freed) b
                            + cover other b
                          ≡ range_use k laws c.seg_index j 0 b + cover o1 b)
                        (sym len) (uses b)),
                slot,
                All-append (DescOk k.block_size) freed gone freeds
                    (cover-all_superseded k.block_size (drop (length segs) c.seg_index) 0
                      laws.block_pos
                      (All-drop k.block_size (length segs) c.seg_index sound.segs)).1,
                λ b. omega (
                  arith,
                  cover-append (extent_of k laws m)
                      (used_by_segs k.block_size (freed ++ gone) ++ other) b,
                  cover-append (used_by_segs k.block_size (freed ++ gone)) other b,
                ),
              ),
              (a2, d2, segs, c.dirty_segs, refl),
            )
