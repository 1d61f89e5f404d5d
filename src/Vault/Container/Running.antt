-- ===== src/Vault/Container/Running.antt =====
-- `writeAt` and `truncate` of vfs/vault/container.go, and the blocks that they write.
use native.Mathlib.Nat.{mod-lt}
use sqlite.Prelude.{
  ℕ, zero, suc, ◌+◌, ◌-◌, ◌*◌, ◌/◌, ◌%◌, ◌≤◌, ◌≡◌, refl, List, [], ◌∷◌, Option, none, some, length,
  length-take, take, drop, All, arith, ltb, ◌==◌, inl, inr, Bool-cases, true, if◌then◌else◌, min,
}
use sqlite.Vault.Alloc.{Extent}
use sqlite.Vault.Alloc.Cover.{cover}
use sqlite.Vault.Disk.Keeps.{Keeps-refl}
use sqlite.Vault.Format.{DirEntry}
use sqlite.Vault.Rebuild.{used_by_dir}
use sqlite.Vault.Container.{Config, Container, Error, Outcome, ok, failed, Result, and_then}
use sqlite.Vault.Container.Owned.{EntryOk, held, cover-held, usage, Sound}
use sqlite.Vault.Container.Entries.{
  mark_segment_dirty_shape, release_entry_shape, cover-used_by_dir_cons,
}
use sqlite.Vault.Container.Store.{
  edited_page, store_edited, raise_page_count, write_piece, write_loop, mark_dirty, guarded,
  write_refusal, write_data, release_entries, mark_segments, mark_cut, pages_for, cut_pages,
  truncate, store_page,
}
use sqlite.Vault.Container.Sizes.{Sized, edited_page-Sized}
use sqlite.Vault.Container.Storing.{
  Lawful, Extends, Extends-trans, Extends-refl, store_page-Extends,
}

module _ (k : Config) (laws : Lawful k) where
  -- A step that changes neither the disk nor what is in use.
  same_use-Extends :
      (other : List Extent) (c c' : Container)
      → Sound k other c
      → Sound k other c'
      → c'.disk ≡ c.disk
      → ((b : ℕ) → usage k other c' b ≡ usage k other c b)
      → Extends k laws other c c'
  same_use-Extends other c c' sound sound' disk uses = record {
    sound = sound';
    keeps = rw disk (Keeps-refl k.block_size (usage k other c) laws.block_pos c.disk);
    more = λ b. omega (arith, uses b);
  }

  release_entries_shape :
      (l : List DirEntry) (c : Container)
      → All (EntryOk k.block_size) l
      → (ps : List Extent) × (release_entries k l c ≡ record c { pending_release = ps })
        × ((b : ℕ) → cover ps b ≡ cover c.pending_release b + cover (used_by_dir k.block_size l) b)
  unfolding release_entries used_by_dir cover
  release_entries_shape [] c slots = (c.pending_release, refl, λ b. omega arith)
  release_entries_shape (e ∷ l) c slots =
      let (ps, first, one) = release_entry_shape k laws.block_pos e c slots.0 in
      let (qs, rest, more) = release_entries_shape l (record c { pending_release = ps }) slots.1 in
      (
        qs,
        rw first rest,
        λ b. omega (arith, one b, more b, cover-used_by_dir_cons k.block_size e l b),
      )

  mark_segments_shape :
      (fuel s old_len : ℕ) (c : Container)
      → (ds : List ℕ) × (mark_segments k fuel s old_len c ≡ record c { dirty_segs = ds })
  unfolding mark_segments
  mark_segments_shape zero s old_len c = (c.dirty_segs, refl)
  mark_segments_shape (suc fuel) s old_len c =
      let (ds, mark) = mark_segment_dirty_shape k laws.block_pos (s * k.seg_entries) c in
      let (es, rest) = mark_segments_shape fuel (suc s) old_len (record c { dirty_segs = ds }) in
      elim (Bool-cases (ltb (s * k.seg_entries) old_len)) [
        | inl more ↦ (es, rw (more, mark) rest)
        | inr end ↦ (c.dirty_segs, rw end refl)
      ]

  cover-take-drop :
      (n : ℕ) (l : List DirEntry) (b : ℕ)
      → cover (used_by_dir k.block_size (take n l)) b
          + cover (used_by_dir k.block_size (drop n l)) b
        ≡ cover (used_by_dir k.block_size l) b
  unfolding cover used_by_dir
  cover-take-drop zero l b = omega arith
  cover-take-drop (suc n) [] b = omega arith
  cover-take-drop (suc n) (e ∷ l) b = omega (
    arith,
    cover-used_by_dir_cons k.block_size e l b,
    cover-used_by_dir_cons k.block_size e (take n l) b,
    cover-take-drop n l b,
  )

  pub All-take-drop :
      (n : ℕ) (l : List DirEntry)
      → All (EntryOk k.block_size) l
      → All (EntryOk k.block_size) (take n l) × All (EntryOk k.block_size) (drop n l)
  All-take-drop zero l h = (tt, h)
  All-take-drop (suc n) [] h = (tt, tt)
  All-take-drop (suc n) (e ∷ l) h =
      let (front, back) = All-take-drop n l h.1 in ((h.0, front), back)

  mark_cut_shape :
      (n old_len : ℕ) (c : Container)
      → (ds : List ℕ) × (mark_cut k n old_len c ≡ record c { dirty_segs = ds })
  unfolding mark_cut
  mark_cut_shape n old_len c = elim (Bool-cases (old_len == 0)) [
    | inl z ↦ (c.dirty_segs, rw z refl)
    | inr z ↦ elim (Bool-cases (k.seg_entries == 0)) [
      | inl y ↦ (c.dirty_segs, rw (z, y) refl)
      | inr y ↦
          let (ds, shape) =
            mark_segments_shape old_len (if n == 0 then 0 else (n - 1) / k.seg_entries) old_len c in
          (ds, rw (z, y) shape)
    ]
  ]

  pub cut_pages-Extends :
      (other : List Extent) (n : ℕ) (c : Container)
      → Sound k other c
      → Extends k laws other c (cut_pages k n c)
  unfolding cut_pages
  cut_pages-Extends other n c sound =
      let (front, back) = All-take-drop n c.dir sound.slots in
      let (ps, rel, pending) = release_entries_shape (drop n c.dir) c back in
      let cut : Container = record c { dir = take n c.dir; pending_release = ps } in
      let (ds, mark) = mark_cut_shape n (length c.dir) cut in
      let c' : Container = record cut { dirty_segs = ds; page_count = n; dirty = true } in
      let uses : (b : ℕ) → usage k other c' b ≡ usage k other c b = λ b.
        omega (arith, cover-held k c b, cover-held k c' b, pending b, cover-take-drop n c.dir b) in
      rw (rel, mark)
        (same_use-Extends other c c' sound
          (record {
            room = (sound.room.0, λ b. omega (arith, uses b, sound.room.1 b));
            slots = front;
            segs = sound.segs;
            ping_pong = sound.ping_pong;
          })
          refl uses)

  -- What `truncate` leaves: the entries below the new page count, and the disk as it was.
  pub cut_pages_shape :
      (n : ℕ) (c : Container)
      → All (EntryOk k.block_size) c.dir
      → ((cut_pages k n c).dir ≡ take n c.dir) × ((cut_pages k n c).disk ≡ c.disk)
  unfolding cut_pages
  cut_pages_shape n c slots =
      let (front, back) = All-take-drop n c.dir slots in
      let (ps, rel, pending) = release_entries_shape (drop n c.dir) c back in
      let cut : Container = record c { dir = take n c.dir; pending_release = ps } in
      let (ds, mark) = mark_cut_shape n (length c.dir) cut in
      (rw (rel, mark) refl, rw (rel, mark) refl)

  and_then-Extends :
      (other : List Extent) (c : Container) (r : Result) (f : Container → Result)
      → Extends k laws other c r.0
      → ((d : Container) → Sound k other d → Extends k laws other d (f d).0)
      → Extends k laws other c (and_then r f).0
  unfolding and_then
  and_then-Extends other c (d, some e) f x h = x
  and_then-Extends other c (d, none) f x h = Extends-trans k laws other c d (f d).0 x (h d x.sound)

  raise_page_count-Extends :
      (other : List Extent) (n : ℕ) (c : Container)
      → Sound k other c
      → Extends k laws other c (raise_page_count k n c).0
  unfolding raise_page_count held
  raise_page_count-Extends other n c sound = elim (Bool-cases (ltb c.page_count (suc n))) [
    | inl h ↦
        rw (h, raise_page_count)
          (same_use-Extends other c (record c { page_count = suc n }) sound
            (record {
              room = sound.room;
              slots = sound.slots;
              segs = sound.segs;
              ping_pong = sound.ping_pong;
            })
            refl (λ b. refl))
    | inr h ↦ rw (h, raise_page_count) (Extends-refl k laws other c sound)
  ]

  store_edited-Extends :
      (other : List Extent) (n : ℕ) (o : Outcome (List ℕ)) (c : Container)
      → Sized k.page_size o
      → Sound k other c
      → Extends k laws other c (store_edited k n o c).0
  unfolding store_edited
  store_edited-Extends other n (failed e) c len sound = Extends-refl k laws other c sound
  store_edited-Extends other n (ok page) c len sound =
      and_then-Extends other c (store_page k n page c) (raise_page_count k n)
        (store_page-Extends k laws other n page c len sound) (raise_page_count-Extends other n)

  write_loop-Extends :
      (other : List Extent) (fuel : ℕ) (bytes : List ℕ) (cur : ℕ) (c : Container)
      → Sound k other c
      → Extends k laws other c (write_loop k fuel bytes cur c).0
  unfolding write_loop write_piece
  write_loop-Extends other zero bytes cur c sound = Extends-refl k laws other c sound
  write_loop-Extends other (suc fuel) [] cur c sound = Extends-refl k laws other c sound
  write_loop-Extends other (suc fuel) (x ∷ bytes) cur c sound =
      let n = min (k.page_size - cur % k.page_size) (suc (length bytes)) in
      let piece = take n (x ∷ bytes) in
      let fits : cur % k.page_size + length piece ≤ k.page_size =
        omega (arith, length-take n (x ∷ bytes), mod-lt cur laws.page_pos) in
      and_then-Extends other c (write_piece k piece cur c)
        (write_loop k fuel (drop n (x ∷ bytes)) (cur + n))
        (store_edited-Extends other (cur / k.page_size)
          (edited_page k (cur / k.page_size) (cur % k.page_size) piece c) c
          (edited_page-Sized k (cur / k.page_size) (cur % k.page_size) piece c fits) sound)
        (write_loop-Extends other fuel (drop n (x ∷ bytes)) (cur + n))

  guarded-Extends :
      (other : List Extent) (o : Option Error) (c : Container) (r : Result)
      → Sound k other c
      → Extends k laws other c r.0
      → Extends k laws other c (guarded k o c r).0
  unfolding guarded
  guarded-Extends other (some e) c r sound x = Extends-refl k laws other c sound
  guarded-Extends other none c r sound x = x

  pub write_data-Extends :
      (other : List Extent) (input : List ℕ) (off : ℕ) (c : Container)
      → Sound k other c
      → Extends k laws other c (write_data k input off c).0
  unfolding write_data mark_dirty held
  write_data-Extends other input off c sound =
      guarded-Extends other (write_refusal k) c
        (and_then (write_loop k (length input) input off c) (mark_dirty k)) sound
        (and_then-Extends other c (write_loop k (length input) input off c) (mark_dirty k)
          (write_loop-Extends other (length input) input off c sound)
          (λ d s.
            same_use-Extends other d (record d { dirty = true }) s
              (record { room = s.room; slots = s.slots; segs = s.segs; ping_pong = s.ping_pong })
              refl (λ b. refl)))

  pub truncate-Extends :
      (other : List Extent) (size : ℕ) (c : Container)
      → Sound k other c
      → Extends k laws other c (truncate k size c).0
  unfolding truncate
  truncate-Extends other size c sound =
      guarded-Extends other (write_refusal k) c (cut_pages k (pages_for k size) c, none) sound
        (cut_pages-Extends other (pages_for k size) c sound)
