-- ===== src/Vault/Container/Segments.antt =====
-- The segment loop of `writeDirectory` (vfs/vault/container.go), and the blocks of the old and the new
-- segments.
use native.Mathlib.Nat.{mul-pos}
use sqlite.Prelude.{
  ℕ, zero, suc, ◌+◌, ◌-◌, ◌*◌, ◌/◌, ◌^◌, ◌≤◌, ◌<◌, ◌≡◌, refl, ap, subst, Bool, List, [], ◌∷◌, ◌++◌,
  Option, none, some, length, drop, get_elem?, All, arith, ◌==◌, inl, inr, Bool-cases, true, false,
  length-append, length-take,
}
use sqlite.Vault.Alloc.{Extent, Allocator}
use sqlite.Vault.Alloc.Cover.{cover, hit, cover-append}
use sqlite.Vault.Disk.{Disk}
use sqlite.Vault.Format.{DirEntry, SegDesc, segment_bounds}
use sqlite.Vault.Rebuild.{add_used, used_by_segs}
use sqlite.Vault.Wire.{put_le, marshal_entry, marshal_directory}
use sqlite.Vault.Container.{Config, Container, ok, failed, mem, domain_directory}
use sqlite.Vault.Container.Owned.{DescOk, EntryOk, cover-add_used, Sound}
use sqlite.Vault.Container.Storing.{Lawful}
use sqlite.Vault.Container.Running.{All-take-drop}
use sqlite.Vault.Container.Commit.{
  Work, with_value, Meta, sparse_segment, all_sparse, segment_entries, superseded, seg_desc,
  written_segment, rewrite_segment, write_segment, add_segment, write_segments, write_meta_extent,
}
use sqlite.Vault.Container.Metadata.{
  Advances, Advances-trans, Advances-refl, extent_of, MetaStep, OnlyStorage,
  write_meta_extent-MetaStep,
}

-- The uses of a block by a segment's extent, and by one that may be missing.
abbrev pub by_desc : ℕ → SegDesc → ℕ → ℕ
by_desc bs d b = hit (d.phys_offset / bs) d.blocks b

abbrev pub by_old : ℕ → Option SegDesc → ℕ → ℕ
by_old bs none b = 0
by_old bs (some d) b = by_desc bs d b

pub cover-used_by_segs_cons :
    (bs : ℕ) (d : SegDesc) (l : List SegDesc) (b : ℕ)
    → cover (used_by_segs bs (d ∷ l)) b ≡ by_desc bs d b + cover (used_by_segs bs l) b
unfolding used_by_segs
cover-used_by_segs_cons bs d l b = omega (
  arith,
  cover-append (add_used bs d.phys_offset d.blocks) (used_by_segs bs l) b,
  cover-add_used bs d.phys_offset d.blocks b,
)

pub cover-used_by_segs_append :
    (bs : ℕ) (l m : List SegDesc) (b : ℕ)
    → cover (used_by_segs bs (l ++ m)) b ≡ cover (used_by_segs bs l) b + cover (used_by_segs bs m) b
unfolding used_by_segs cover
cover-used_by_segs_append bs [] m b = omega arith
cover-used_by_segs_append bs (d ∷ l) m b = omega (
  arith,
  cover-used_by_segs_cons bs d l b,
  cover-used_by_segs_cons bs d (l ++ m) b,
  cover-used_by_segs_append bs l m b,
)

pub All-append {ℓ κ} :
    {A : Type ℓ} (P : A → Type κ) (l m : List A) → All P l → All P m → All P (l ++ m)
All-append P [] m h k = k
All-append P (x ∷ l) m h k = (h.0, All-append P l m h.1 k)

-- A descriptor at offset 0 holds no block.
pub desc_none_at_zero :
    (bs : ℕ) (d : SegDesc) → 0 < bs → DescOk bs d → d.phys_offset ≡ 0 → d.blocks ≡ 0
desc_none_at_zero bs d p slot z = by_start slot.start slot.aligned slot.none_at_zero
  where
    by_start : (start : ℕ) → d.phys_offset ≡ start * bs → (start ≡ 0 → d.blocks ≡ 0) → d.blocks ≡ 0
    by_start zero at h = h refl
    by_start (suc m) at h = let above : 0 < suc m * bs = mul-pos (omega arith) p in omega arith

abbrev pub OldOk : ℕ → Option SegDesc → Type 0
OldOk bs none = Unit
OldOk bs (some d) = DescOk bs d

pub cover-superseded :
    (bs : ℕ) (o : Option SegDesc) (b : ℕ)
    → 0 < bs
    → OldOk bs o
    → (cover (used_by_segs bs (superseded o)) b ≡ by_old bs o b) × All (DescOk bs) (superseded o)
unfolding superseded used_by_segs cover
cover-superseded bs none b p h = (refl, tt)
cover-superseded bs (some d) b p h = elim (Bool-cases (d.phys_offset == 0)) [
  | inl z ↦ (rw z (ground (arith, desc_none_at_zero bs d p h)), rw z tt)
  | inr z ↦ (rw z (omega (arith, cover-used_by_segs_cons bs d [] b)), rw z (h, tt))
]

length-marshal_entry_le :
    (auth : Bool) (bs : ℕ) (e : DirEntry) → EntryOk bs e → length (marshal_entry auth e) ≤ 40
unfolding marshal_entry put_le
length-marshal_entry_le true bs e slot = omega (arith, slot.hash_short)
length-marshal_entry_le false bs e slot = omega arith

length-marshal_directory_le :
    (auth : Bool) (bs : ℕ) (l : List DirEntry)
    → All (EntryOk bs) l
    → length (marshal_directory auth l) ≤ length l * 40
unfolding marshal_directory
length-marshal_directory_le auth bs [] h = omega arith
length-marshal_directory_le auth bs (e ∷ l) h = omega (
  arith,
  length-append (marshal_entry auth e) (marshal_directory auth l),
  length-marshal_entry_le auth bs e h.0,
  length-marshal_directory_le auth bs l h.1,
)

module _ (k : Config) (laws : Lawful k) where
  -- What becomes of one segment. On success the old extent and the blocks that were taken are held by
  -- the new descriptor and by the extents to release.
  abbrev SegOk : List Extent → Container → Option SegDesc → Work (SegDesc × List SegDesc) → Type 0
  SegOk other c old (c', failed e) = (o' : List Extent) × Advances k laws other o' c c'
  SegOk other c old (c', ok (d, freed)) =
      (o' : List Extent) × Advances k laws other o' c c'
      × DescOk k.block_size d
      × All (DescOk k.block_size) freed
      × ((b : ℕ)
          → by_desc k.block_size d b + cover (used_by_segs k.block_size freed) b + cover other b
            ≡ by_old k.block_size old b + cover o' b)

  segment_entries_bounds :
      (s : ℕ) (n : ℕ) (dir : List DirEntry)
      → All (EntryOk k.block_size) dir
      → (length (segment_entries s k.seg_entries n dir) ≤ k.seg_entries)
        × All (EntryOk k.block_size) (segment_entries s k.seg_entries n dir)
  unfolding segment_entries segment_bounds
  segment_entries_bounds s n dir slots =
      let (lo, hi) = segment_bounds s k.seg_entries n in
      (
        omega (arith, length-take (hi - lo) (drop lo dir)),
        (All-take-drop k laws (hi - lo) (drop lo dir) (All-take-drop k laws lo dir slots).1).0,
      )

  rewrite_segment-SegOk :
      (other : List Extent) (s : ℕ) (old : Option SegDesc) (c : Container)
      → OldOk k.block_size old
      → Sound k other c
      → SegOk other c old (rewrite_segment k s old c)
        × OnlyStorage k laws c (rewrite_segment k s old c).0
  unfolding rewrite_segment with_value written_segment seg_desc
  rewrite_segment-SegOk other s old c old_ok sound = elim (Bool-cases (all_sparse entries)) [
    | inl z ↦
        rw (z, rewrite_segment)
          (
            (
              other,
              Advances-refl k laws other c sound,
              sparse_ok,
              (freed_ok 0).1,
              λ b. ground (arith, (freed_ok b).0),
            ),
            (c.allocator, c.disk, refl),
          )
    | inr z ↦
        rw (z, rewrite_segment)
          (finish w (
            write_meta_extent-MetaStep k laws other content false s domain_directory c small sound))
  ]
    where
      entries : List DirEntry
      entries = segment_entries s k.seg_entries c.page_count c.dir

      content : List ℕ
      content = marshal_directory k.authenticated entries

      w : Work Meta
      w = write_meta_extent k content false s domain_directory c

      bounds : (length entries ≤ k.seg_entries) × All (EntryOk k.block_size) entries
      bounds = segment_entries_bounds s c.page_count c.dir sound.slots

      small : length content + 17 < 2 ^ 32
      small = omega (
        arith,
        length-marshal_directory_le k.authenticated k.block_size entries bounds.1,
        bounds.0,
        laws.segment_small,
      )

      freed_ok :
          (b : ℕ)
          → (cover (used_by_segs k.block_size (superseded old)) b ≡ by_old k.block_size old b)
            × All (DescOk k.block_size) (superseded old)
      freed_ok b = cover-superseded k.block_size old b laws.block_pos old_ok

      sparse_ok : DescOk k.block_size sparse_segment
      sparse_ok = record {
        start = 0;
        aligned = omega arith;
        roomy = omega arith;
        none_at_zero = λ h. refl;
        hash_short = omega arith;
      }

      finish :
          (w : Work Meta)
          → MetaStep k laws other c w × OnlyStorage k laws c w.0
          → SegOk other c old (with_value w (written_segment k (superseded old)) failed)
            × OnlyStorage k laws c (with_value w (written_segment k (superseded old)) failed).0
      finish (c', failed e) (step, storage) = ((other, step), storage)
      finish (c', ok m) ((step, slot), storage) = (
        (
          extent_of k laws m ++ other,
          step,
          record {
            start = slot.0.start;
            aligned = slot.0.aligned;
            roomy = slot.0.roomy;
            none_at_zero = slot.0.none_at_zero;
            hash_short = slot.0.hash_short;
          },
          (freed_ok 0).1,
          λ b. omega (
            arith,
            (freed_ok b).0,
            cover-append (extent_of k laws m) other b,
            cover-add_used k.block_size m.offset m.blocks b,
          ),
        ),
        storage,
      )

  write_segment-SegOk :
      (other : List Extent) (s : ℕ) (old : Option SegDesc) (c : Container)
      → OldOk k.block_size old
      → Sound k other c
      → SegOk other c old (write_segment k s old c)
        × OnlyStorage k laws c (write_segment k s old c).0
  unfolding write_segment cover used_by_segs
  write_segment-SegOk other s none c old_ok sound = rewrite_segment-SegOk other s none c tt sound
  write_segment-SegOk other s (some d) c old_ok sound = elim (Bool-cases (mem s c.dirty_segs)) [
    | inl dirty ↦ rw (dirty, write_segment) (rewrite_segment-SegOk other s (some d) c old_ok sound)
    | inr clean ↦
        rw (clean, write_segment)
          (
            (other, Advances-refl k laws other c sound, old_ok, tt, λ b. omega arith),
            (c.allocator, c.disk, refl),
          )
  ]

  -- The uses by the old segments from `s` on, `n` of them.
  abbrev pub range_use : List SegDesc → ℕ → ℕ → ℕ → ℕ
  range_use segs zero s b = 0
  range_use segs (suc n) s b = by_old k.block_size (get_elem? segs s) b + range_use segs n (suc s) b

  abbrev pub SegsOk : List Extent → Container → ℕ → ℕ → Work (List SegDesc × List SegDesc) → Type 0
  SegsOk other c n s (c', failed e) = (o' : List Extent) × Advances k laws other o' c c'
  SegsOk other c n s (c', ok (segs, freed)) =
      (o' : List Extent) × Advances k laws other o' c c'
      × All (DescOk k.block_size) segs
      × All (DescOk k.block_size) freed
      × (length segs ≡ n)
      × ((b : ℕ)
          → cover (used_by_segs k.block_size segs) b
              + cover (used_by_segs k.block_size freed) b
              + cover other b
            ≡ range_use c.seg_index n s b + cover o' b)

  OldOk-get :
      (l : List SegDesc) (s : ℕ) → All (DescOk k.block_size) l → OldOk k.block_size (get_elem? l s)
  OldOk-get [] s h = tt
  OldOk-get (d ∷ l) zero h = h.0
  OldOk-get (d ∷ l) (suc s) h = OldOk-get l s h.1

  pub restore :
      (c c1 c2 : Container) (a1 a2 : Allocator) (d1 d2 : Disk)
      → c1 ≡ record c { allocator = a1; disk = d1 }
      → c2 ≡ record c1 { allocator = a2; disk = d2 }
      → c2 ≡ record c { allocator = a2; disk = d2 }
  restore c c1 c2 a1 a2 d1 d2 same same2 =
      subst (λ x. c2 ≡ record x { allocator = a2; disk = d2 }) same same2

  -- The loop over the segments, also when one of the writes fails.
  pub write_segments-SegsOk :
      (other : List Extent) (n s : ℕ) (c : Container)
      → Sound k other c
      → SegsOk other c n s (write_segments k n s c)
        × OnlyStorage k laws c (write_segments k n s c).0
  unfolding write_segments with_value add_segment cover used_by_segs
  write_segments-SegsOk other zero s c sound = (
    (other, Advances-refl k laws other c sound, tt, tt, refl, λ b. omega arith),
    (c.allocator, c.disk, refl),
  )
  write_segments-SegsOk other (suc n) s c sound =
      first (write_segment k s (get_elem? c.seg_index s) c)
        (write_segment-SegOk other s (get_elem? c.seg_index s) c
          (OldOk-get c.seg_index s sound.segs) sound)
        (λ p c1 sound1. write_segments-SegsOk p n (suc s) c1 sound1)
    where
      second :
          (p : List Extent) (one : SegDesc × List SegDesc) (c1 : Container)
          → Advances k laws other p c c1
          → OnlyStorage k laws c c1
          → DescOk k.block_size one.0
          → All (DescOk k.block_size) one.1
          → ((b : ℕ)
              → by_desc k.block_size one.0 b
                  + cover (used_by_segs k.block_size one.1) b
                  + cover other b
                ≡ by_old k.block_size (get_elem? c.seg_index s) b + cover p b)
          → (w : Work (List SegDesc × List SegDesc))
          → SegsOk p c1 n (suc s) w × OnlyStorage k laws c1 w.0
          → SegsOk other c (suc n) s (with_value w (add_segment k one) failed)
            × OnlyStorage k laws c (with_value w (add_segment k one) failed).0
      second p one c1 step (a1, d1, same) desc freed uses (c2, failed e)
            ((q, step2), (a2, d2, same2)) =
          (
            (q, Advances-trans k laws other p q c c1 c2 step step2),
            (a2, d2, restore c c1 c2 a1 a2 d1 d2 same same2),
          )
      second p one c1 step (a1, d1, same) desc freed uses (c2, ok (segs, more))
            ((q, step2, descs, freeds, len, uses2), (a2, d2, same2)) =
          (
            (
              q,
              Advances-trans k laws other p q c c1 c2 step step2,
              (desc, descs),
              All-append (DescOk k.block_size) one.1 more freed freeds,
              ap suc len,
              λ b. omega (
                arith,
                uses b,
                uses2 b,
                ap (λ x. range_use x.seg_index n (suc s) b) same,
                cover-used_by_segs_cons k.block_size one.0 segs b,
                cover-used_by_segs_append k.block_size one.1 more b,
              ),
            ),
            (a2, d2, restore c c1 c2 a1 a2 d1 d2 same same2),
          )

      first :
          (w : Work (SegDesc × List SegDesc))
          → SegOk other c (get_elem? c.seg_index s) w × OnlyStorage k laws c w.0
          → ((p : List Extent) (c1 : Container)
              → Sound k p c1
              → SegsOk p c1 n (suc s) (write_segments k n (suc s) c1)
                × OnlyStorage k laws c1 (write_segments k n (suc s) c1).0)
          → SegsOk other c (suc n) s (
              with_value w
                (λ one c'. with_value (write_segments k n (suc s) c') (add_segment k one) failed)
                failed)
            × OnlyStorage k laws c
                (with_value w
                  (λ one c'. with_value (write_segments k n (suc s) c') (add_segment k one) failed)
                  failed).0
      first (c1, failed e) (step, storage) ih = (step, storage)
      first (c1, ok one) ((p, step, desc, freed, uses), storage) ih =
          second p one c1 step storage desc freed uses (write_segments k n (suc s) c1)
            (ih p c1 step.sound)
