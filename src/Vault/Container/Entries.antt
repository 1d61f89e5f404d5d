-- ===== src/Vault/Container/Entries.antt =====
-- `growDir`, `releaseLater` and the directory update at the end of `storePage`
-- (vfs/vault/container.go): the blocks that the container holds afterwards, and the entries.
use sqlite.Prelude.{
  ℕ, zero, suc, ◌≤◌, ◌+◌, ◌-◌, ◌*◌, ◌/◌, ◌<◌, ◌≡◌, ◌≢◌, refl, ap, subst, sym, List, [], ◌∷◌, ◌++◌,
  some, length, length-append, length-replicate, replicate, get_elem?, All, arith, ltb, leb, ◌==◌,
  inl, inr, Bool-cases, ◌&&◌,
}
use native.Mathlib.Nat.{mul-pos}
use sqlite.Vault.Alloc.{Extent}
use sqlite.Vault.Alloc.Cover.{cover, hit, cover-append}
use sqlite.Vault.Format.{DirEntry, sparse}
use sqlite.Vault.Rebuild.{add_used, used_by_dir}
use sqlite.Vault.Container.{
  Config, Container, set_entry, mark_segment_dirty, grow_dir, release_later, release_entry,
  put_entry,
}
use sqlite.Vault.Container.Owned.{
  held, cover-held, cover-add_used, EntryOk, sparse-EntryOk, DescOk, Room, usage, Sound,
}

-- The uses of a block by one directory entry.
abbrev pub by_entry : ℕ → DirEntry → ℕ → ℕ
by_entry bs e b = hit (e.phys_offset / bs) e.blocks b

pub cover-used_by_dir_cons :
    (bs : ℕ) (e : DirEntry) (l : List DirEntry) (b : ℕ)
    → cover (used_by_dir bs (e ∷ l)) b ≡ by_entry bs e b + cover (used_by_dir bs l) b
unfolding used_by_dir
cover-used_by_dir_cons bs e l b = omega (
  arith,
  cover-append (add_used bs e.phys_offset e.blocks) (used_by_dir bs l) b,
  cover-add_used bs e.phys_offset e.blocks b,
)

pub cover-used_by_dir_grown :
    (bs : ℕ) (l : List DirEntry) (n b : ℕ)
    → cover (used_by_dir bs (l ++ replicate n sparse)) b ≡ cover (used_by_dir bs l) b
unfolding used_by_dir cover add_used
cover-used_by_dir_grown bs [] zero b = refl
cover-used_by_dir_grown bs [] (suc n) b = cover-used_by_dir_grown bs [] n b
cover-used_by_dir_grown bs (e ∷ l) n b = omega (
  arith,
  cover-used_by_dir_cons bs e l b,
  cover-used_by_dir_cons bs e (l ++ replicate n sparse) b,
  cover-used_by_dir_grown bs l n b,
)

pub cover-used_by_dir_set :
    (bs n : ℕ) (e old : DirEntry) (l : List DirEntry) (b : ℕ)
    → get_elem? l n ≡ some old
    → cover (used_by_dir bs (set_entry n e l)) b + by_entry bs old b
      ≡ cover (used_by_dir bs l) b + by_entry bs e b
unfolding set_entry
cover-used_by_dir_set bs n e old [] b h = cc
cover-used_by_dir_set bs zero e old (f ∷ l) b h =
    let same : f ≡ old = cc in
    rw (sym same) (omega (arith, cover-used_by_dir_cons bs e l b, cover-used_by_dir_cons bs f l b))
cover-used_by_dir_set bs (suc n) e old (f ∷ l) b h = omega (
  arith,
  cover-used_by_dir_cons bs f (set_entry n e l) b,
  cover-used_by_dir_cons bs f l b,
  cover-used_by_dir_set bs n e old l b h,
)

pub All-grown :
    (bs : ℕ) (l : List DirEntry) (n : ℕ)
    → All (EntryOk bs) l
    → All (EntryOk bs) (l ++ replicate n sparse)
All-grown bs [] zero h = tt
All-grown bs [] (suc n) h = (sparse-EntryOk bs, All-grown bs [] n h)
All-grown bs (e ∷ l) n h = (h.0, All-grown bs l n h.1)

pub All-set :
    (bs n : ℕ) (e : DirEntry) (l : List DirEntry)
    → EntryOk bs e
    → All (EntryOk bs) l
    → All (EntryOk bs) (set_entry n e l)
unfolding set_entry
All-set bs n e [] p h = tt
All-set bs zero e (f ∷ l) p h = (p, h.1)
All-set bs (suc n) e (f ∷ l) p h = (h.0, All-set bs n e l p h.1)

pub All-get :
    (P : DirEntry → Type 0) (l : List DirEntry) (n : ℕ) (e : DirEntry)
    → All P l
    → get_elem? l n ≡ some e
    → P e
All-get P [] n e h q = cc
All-get P (f ∷ l) zero e h q = let same : f ≡ e = cc in subst P same h.0
All-get P (f ∷ l) (suc n) e h q = All-get P l n e h.1 q

pub get_elem?-set :
    (n : ℕ) (e : DirEntry) (l : List DirEntry)
    → n < length l
    → get_elem? (set_entry n e l) n ≡ some e
unfolding set_entry
get_elem?-set n e [] h = elim h [ ]
get_elem?-set zero e (f ∷ l) h = refl
get_elem?-set (suc n) e (f ∷ l) h = get_elem?-set n e l (omega arith)

pub get_elem?-set_other :
    (n m : ℕ) (e : DirEntry) (l : List DirEntry)
    → m ≢ n
    → get_elem? (set_entry n e l) m ≡ get_elem? l m
unfolding set_entry
get_elem?-set_other n m e [] h = refl
get_elem?-set_other zero zero e (f ∷ l) h = elim (h refl) [ ]
get_elem?-set_other zero (suc m) e (f ∷ l) h = refl
get_elem?-set_other (suc n) zero e (f ∷ l) h = refl
get_elem?-set_other (suc n) (suc m) e (f ∷ l) h = get_elem?-set_other n m e l (λ q. h (ap suc q))

pub get_elem?-some {ℓ} :
    {A : Type ℓ} (l : List A) (n : ℕ) → n < length l → (e : A) × (get_elem? l n ≡ some e)
get_elem?-some [] n h = elim h [ ]
get_elem?-some (x ∷ l) zero h = (x, refl)
get_elem?-some (x ∷ l) (suc n) h = get_elem?-some l n (omega arith)

-- The directory once it reaches page `n`.
abbrev pub grown : ℕ → List DirEntry → List DirEntry
grown n dir = dir ++ replicate (suc n - length dir) sparse

pub lt-length-grown : (n : ℕ) (dir : List DirEntry) → n < length (grown n dir)
lt-length-grown n dir = omega (
  arith,
  length-append dir (replicate (suc n - length dir) sparse),
  length-replicate (suc n - length dir) sparse,
)

-- An entry at offset 0 holds no block.
pub none_at_zero :
    (bs : ℕ) (e : DirEntry) → 0 < bs → EntryOk bs e → e.phys_offset ≡ 0 → e.blocks ≡ 0
none_at_zero bs e p slot z = by_start slot.start slot.aligned slot.none_at_zero
  where
    by_start : (start : ℕ) → e.phys_offset ≡ start * bs → (start ≡ 0 → e.blocks ≡ 0) → e.blocks ≡ 0
    by_start zero at h = h refl
    by_start (suc m) at h = let above : 0 < suc m * bs = mul-pos (omega arith) p in omega arith

module _ (k : Config) (p : 0 < k.block_size) where
  pub mark_segment_dirty_shape :
      (n : ℕ) (c : Container)
      → (ds : List ℕ) × (mark_segment_dirty k n c ≡ record c { dirty_segs = ds })
  unfolding mark_segment_dirty
  mark_segment_dirty_shape n c = elim (Bool-cases (k.seg_entries == 0)) [
    | inl z ↦ (c.dirty_segs, rw z refl)
    | inr z ↦ (n / k.seg_entries ∷ c.dirty_segs, rw z refl)
  ]

  grow_dir_shape :
      (n : ℕ) (c : Container)
      → (ds : List ℕ) × (grow_dir k n c ≡ record c { dirty_segs = ds; dir = grown n c.dir })
  unfolding grow_dir
  grow_dir_shape n c = elim (Bool-cases (leb (length c.dir) n && ltb 0 (length c.dir))) [
    | inl m ↦
        let (ds, shape) = mark_segment_dirty_shape (length c.dir - 1) c in (ds, rw (m, shape) refl)
    | inr m ↦ (c.dirty_segs, rw m refl)
  ]

  pub release_entry_shape :
      (old : DirEntry) (c : Container)
      → EntryOk k.block_size old
      → (ps : List Extent) × (release_entry k (some old) c ≡ record c { pending_release = ps })
        × ((b : ℕ) → cover ps b ≡ cover c.pending_release b + by_entry k.block_size old b)
  unfolding release_entry release_later cover
  release_entry_shape old c slot = elim (Bool-cases (old.phys_offset == 0)) [
    | inl z ↦
        (c.pending_release, rw z refl, λ b. ground (arith, none_at_zero k.block_size old p slot))
    | inr z ↦ (
      c.pending_release
          ++ (record { start = old.phys_offset / k.block_size; count = old.blocks }) ∷ [],
      rw z refl,
      λ b. omega (
        arith,
        cover-append c.pending_release
            ((record { start = old.phys_offset / k.block_size; count = old.blocks }) ∷ []) b,
      ),
    )
  ]

  -- What `put_entry` does to the state: the entry stands in the grown directory, and the slot of the
  -- entry that stood there waits for the next commit.
  pub put_entry_shape :
      (n : ℕ) (e : DirEntry) (c : Container)
      → All (EntryOk k.block_size) c.dir
      → (ds : List ℕ) × (ps : List Extent) × (put_entry k n e c
          ≡ record c { dirty_segs = ds; dir = set_entry n e (grown n c.dir); pending_release = ps })
        × ((b : ℕ)
            → cover ps b + cover (used_by_dir k.block_size (set_entry n e (grown n c.dir))) b
              ≡ cover c.pending_release b
                + cover (used_by_dir k.block_size c.dir) b
                + by_entry k.block_size e b)
  unfolding put_entry
  put_entry_shape n e c slots =
      let (ds, grow) = grow_dir_shape n c in
      let (old, there) = get_elem?-some (grown n c.dir) n (lt-length-grown n c.dir) in
      let g : Container = record c { dirty_segs = ds; dir = grown n c.dir } in
      let (ps, rel, pending) = release_entry_shape old g (
        All-get (EntryOk k.block_size) (grown n c.dir) n old
          (All-grown k.block_size c.dir (suc n - length c.dir) slots) there) in
      let r : Container = record c {
        dirty_segs = ds;
        dir = set_entry n e (grown n c.dir);
        pending_release = ps;
      } in
      let (ds', mark) = mark_segment_dirty_shape n r in
      (
        ds',
        ps,
        rw (grow, there, rel, mark) refl,
        λ b. omega (
          arith,
          pending b,
          cover-used_by_dir_set k.block_size n e old (grown n c.dir) b there,
          cover-used_by_dir_grown k.block_size c.dir (suc n - length c.dir) b,
        ),
      )

  -- The container holds the blocks of the new entry besides those it held.
  pub cover-held-put_entry :
      (n : ℕ) (e : DirEntry) (c : Container) (b : ℕ)
      → All (EntryOk k.block_size) c.dir
      → cover (held k (put_entry k n e c)) b ≡ cover (held k c) b + by_entry k.block_size e b
  cover-held-put_entry n e c b slots =
      let (ds, ps, shape, count) = put_entry_shape n e c slots in
      rw shape (
        omega (
          arith,
          count b,
          cover-held k c b,
          cover-held k
              (record c {
                dirty_segs = ds;
                dir = set_entry n e (grown n c.dir);
                pending_release = ps;
              })
              b,
        ))

  pub put_entry-Sound :
      (other : List Extent) (n : ℕ) (e : DirEntry) (c : Container)
      → EntryOk k.block_size e
      → All (EntryOk k.block_size) c.dir
      → All (DescOk k.block_size) c.seg_index
      → c.next_slot ≤ 1
      → Room (λ b. usage k other c b + by_entry k.block_size e b) c.allocator
      → Sound k other (put_entry k n e c)
  put_entry-Sound other n e c slot slots segs slot_of room =
      let (ds, ps, shape, count) = put_entry_shape n e c slots in
      record {
        room = (
          rw shape room.0,
          λ b. rw (cover-held-put_entry n e c b slots) (rw shape (omega (arith, room.1 b))),
        );
        slots = rw shape (
            All-set k.block_size n e (grown n c.dir) slot
              (All-grown k.block_size c.dir (suc n - length c.dir) slots));
        segs = rw shape segs;
        ping_pong = rw shape slot_of;
      }
