-- ===== src/Vault/Container/Reload.antt =====
-- `storePage` and then `loadPage` of vfs/vault/container.go.
use native.Mathlib.Nat.{mul-pos}
use sqlite.Prelude.{
  ℕ, zero, suc, ◌-◌, ◌*◌, ◌^◌, ◌≤◌, ◌<◌, ◌≡◌, ◌≢◌, refl, ap, ◌∙◌, sym, Bool, List, [], ◌∷◌, Option,
  none, some, length, take, replicate, get_elem?, All, arith, ◌==◌, inl, inr, ◌⊎◌, Bool-cases, true,
  false,
}
use sqlite.Vault.Alloc.{Extent, blocks_for, alloc}
use sqlite.Vault.Disk.{Disk, write_at}
use sqlite.Vault.Disk.ReadBack.{read_at-write_at}
use sqlite.Vault.Format.{DirEntry, sparse}
use sqlite.Vault.Container.{
  Config, Container, Error, io_error, encode_failed, set_entry, Result, ok, domain_page_data, pad,
  put_entry, all_zero, encode_page, span_read, load_bytes, load_entry, load_found, load_page,
}
use sqlite.Vault.Container.Owned.{EntryOk, usage, Sound, Room-alloc}
use sqlite.Vault.Container.Entries.{
  put_entry_shape, grown, lt-length-grown, get_elem?-set, get_elem?-set_other,
}
use sqlite.Vault.Container.Store.{sealed, slot_entry, store_slot, store_encoded, store_page}
use sqlite.Vault.Container.Storing.{
  Lawful, blocks_for_pos, encode_page_cases, encode_page_small, store_page-Extends,
}
use sqlite.Vault.Container.Decode.{
  Written, load_bytes-Written, slot_entry-Written, unpack-encode_page,
}
use sqlite.Vault.Container.Refine.{
  load_page-Keeps, load_entry_sparse, load_found_grown, load_entry_slot,
}

module _ (k : Config) (laws : Lawful k) where
  -- What `storePage` does to the directory: nothing, or one entry is replaced.
  abbrev pub OneEntry : ℕ → Container → Result → Type 0
  OneEntry n c r =
      ((e : Error) × (r.1 ≡ some e) × (r.0.dir ≡ c.dir))
      ⊎ ((e : DirEntry) × (r.1 ≡ none) × (r.0.dir ≡ set_entry n e (grown n c.dir)))

  put_entry-OneEntry :
      (n : ℕ) (e : DirEntry) (c c' : Container)
      → c'.dir ≡ c.dir
      → All (EntryOk k.block_size) c'.dir
      → (put_entry k n e c').dir ≡ set_entry n e (grown n c.dir)
  put_entry-OneEntry n e c c' same slots =
      let (ds, ps, shape, count) = put_entry_shape k laws.block_pos n e c' slots in
      rw shape (ap (λ l. set_entry n e (grown n l)) same)

  store_slot-OneEntry :
      (other : List Extent) (n : ℕ) (stored : List ℕ) (verbatim : Bool) (c : Container)
      → Sound k other c
      → OneEntry n c (store_slot k n (stored, verbatim) c)
  unfolding store_slot
  store_slot-OneEntry other n stored verbatim c sound =
      elim (Bool-cases (write_at c.disk (start * k.block_size) on_disk).1) [
        | inl w ↦
            rw (w, store_slot)
              (inr (entry, refl, put_entry-OneEntry n entry c saved refl sound.slots))
        | inr w ↦ rw (w, store_slot) (inl (io_error, refl, refl))
      ]
    where
      nb : ℕ
      nb = blocks_for (length stored) k.block_size

      start : ℕ
      start = (alloc c.allocator nb).0

      on_disk : List ℕ
      on_disk = sealed k (pad (nb * k.block_size) stored) n domain_page_data

      entry : DirEntry
      entry = slot_entry k (start * k.block_size) stored on_disk verbatim

      saved : Container
      saved = record c {
        allocator = (alloc c.allocator nb).1;
        disk = (write_at c.disk (start * k.block_size) on_disk).0;
      }

  pub store_page-OneEntry :
      (other : List Extent) (n : ℕ) (page : List ℕ) (c : Container)
      → Sound k other c
      → OneEntry n c (store_page k n page c)
  unfolding store_page store_encoded
  store_page-OneEntry other n page c sound = elim (Bool-cases (all_zero page)) [
    | inl z ↦ rw z (inr (sparse, refl, put_entry-OneEntry n sparse c c refl sound.slots))
    | inr z ↦ rw z (by_encoding (encode_page k page))
  ]
    where
      by_encoding : (o : Option (List ℕ × Bool)) → OneEntry n c (store_encoded k n o c)
      by_encoding none = inl (encode_failed, refl, refl)
      by_encoding (some (stored, verbatim)) = store_slot-OneEntry other n stored verbatim c sound

  -- Every page but the one that is stored reads as before, and that one too if `storePage` fails.
  pub load_page-store_page_other :
      (other : List Extent) (n m : ℕ) (page q : List ℕ) (c : Container)
      → length page ≡ k.page_size
      → Sound k other c
      → (m ≢ n) ⊎ ((e : Error) × ((store_page k n page c).1 ≡ some e))
      → load_page k c m ≡ ok q
      → load_page k (store_page k n page c).0 m ≡ ok q
  unfolding load_page
  load_page-store_page_other other n m page q c len sound away h =
      let r = store_page k n page c in
      let kept : load_found k r.0.disk m (get_elem? c.dir m) ≡ ok q =
        load_page-Keeps k laws other c r.0.disk m q sound
          (store_page-Extends k laws other n page c len sound).keeps h in
      elim (store_page-OneEntry other n page c sound) [
        | inl (e, lost, same) ↦ ap (λ l. load_found k r.0.disk m (get_elem? l m)) same ∙ kept
        | inr (e, done, set) ↦
            let apart : m ≢ n = elim away [ inl ne ↦ ne | inr (f, lost) ↦ cc ] in
            ap (λ l. load_found k r.0.disk m (get_elem? l m)) set
            ∙ ap (load_found k r.0.disk m) (get_elem?-set_other n m e (grown n c.dir) apart)
            ∙ load_found_grown k laws r.0.disk m m (suc n - length c.dir) c.dir
            ∙ kept
      ]

  -- No read of the file fails, so only the end of the file can.
  abbrev pub Readable : Disk → Type 0
  Readable d = (off n : ℕ) → d.unreadable off n ≡ false

  all_zero-replicate : (l : List ℕ) → all_zero l ≡ true → l ≡ replicate (length l) 0
  unfolding all_zero
  all_zero-replicate [] h = refl
  all_zero-replicate (zero ∷ l) h = ap (◌∷◌ 0) (all_zero-replicate l h)
  all_zero-replicate (suc x ∷ l) h = ground arith

  -- An encoded page is not empty.
  encode_page_pos :
      (page stored : List ℕ) (verbatim : Bool)
      → length page ≡ k.page_size
      → encode_page k page ≡ some (stored, verbatim)
      → 0 < length stored
  encode_page_pos page stored verbatim len enc =
      elim (encode_page_cases k laws page stored verbatim enc) [
        | inl (same, v) ↦ rw same (omega (arith, laws.page_pos, len))
        | inr (z, v, less) ↦ laws.frame_pos page stored z
      ]

  load_page_at :
      (n : ℕ) (e : DirEntry) (c : Container) (l : List DirEntry)
      → c.dir ≡ set_entry n e (grown n l)
      → load_page k c n ≡ load_entry k c.disk n e
  unfolding load_page load_found
  load_page_at n e c l h =
      ap (λ x. load_found k c.disk n (get_elem? x n)) h
      ∙ ap (load_found k c.disk n) (get_elem?-set n e (grown n l) (lt-length-grown n l))

  put_entry_disk :
      (n : ℕ) (e : DirEntry) (c : Container)
      → All (EntryOk k.block_size) c.dir
      → (put_entry k n e c).disk ≡ c.disk
  put_entry_disk n e c slots =
      let (ds, ps, shape, count) = put_entry_shape k laws.block_pos n e c slots in rw shape refl

  -- `alloc` never returns block 0 for a run that is not empty.
  alloc_past :
      (other : List Extent) (nb : ℕ) (c : Container)
      → Sound k other c
      → 0 < nb
      → 0 < (alloc c.allocator nb).0
  alloc_past other nb c sound pos =
      let room = (Room-alloc (usage k other c) c.allocator nb sound.room).1 0 in ground arith

  load_page-store_slot :
      (other : List Extent) (n : ℕ) (page stored : List ℕ) (verbatim : Bool) (c : Container)
      → length page ≡ k.page_size
      → encode_page k page ≡ some (stored, verbatim)
      → Sound k other c
      → Readable c.disk
      → (store_slot k n (stored, verbatim) c).1 ≡ none
      → load_page k (store_slot k n (stored, verbatim) c).0 n ≡ ok page
  unfolding store_slot slot_entry
  load_page-store_slot other n page stored verbatim c len enc sound good done =
      elim (Bool-cases (write_at c.disk (start * k.block_size) on_disk).1) [
        | inl w ↦
            rw (w, store_slot)
              (load_page_at n entry (put_entry k n entry saved) c.dir
                  (put_entry-OneEntry n entry c saved refl sound.slots)
                ∙ ap (λ d. load_entry k d n entry) (put_entry_disk n entry saved sound.slots)
                ∙ load_entry_slot k laws saved.disk n entry past_zero
                ∙ ap (load_bytes k n entry) (
                    read_at-write_at c.disk (start * k.block_size) (span_read k entry) on_disk
                      in_run w (good (start * k.block_size) (span_read k entry)))
                ∙ loaded.1)
        | inr w ↦
            let lost : (store_slot k n (stored, verbatim) c).1 ≡ some io_error =
              rw (w, store_slot) refl in
            cc
      ]
    where
      nb : ℕ
      nb = blocks_for (length stored) k.block_size

      start : ℕ
      start = (alloc c.allocator nb).0

      on_disk : List ℕ
      on_disk = sealed k (pad (nb * k.block_size) stored) n domain_page_data

      entry : DirEntry
      entry = slot_entry k (start * k.block_size) stored on_disk verbatim

      saved : Container
      saved = record c {
        allocator = (alloc c.allocator nb).1;
        disk = (write_at c.disk (start * k.block_size) on_disk).0;
      }

      small : length stored < 2 ^ 32
      small = encode_page_small k laws page stored verbatim len enc

      written : Written k laws n stored on_disk entry
      written =
          slot_entry-Written k laws n (start * k.block_size) stored verbatim on_disk small refl

      loaded :
          (span_read k entry ≤ entry.blocks * k.block_size)
          × (load_bytes k n entry (some (take (span_read k entry) on_disk)) ≡ ok page)
      loaded =
          load_bytes-Written k laws n stored on_disk page entry written
            (unpack-encode_page k laws page stored verbatim entry len enc refl)

      in_run : span_read k entry ≤ length on_disk
      in_run = omega (arith, loaded.0, written.whole)

      past_zero : (entry.phys_offset == 0) ≡ false
      past_zero =
          let high : 0 < start = alloc_past other nb c sound (
            blocks_for_pos (length stored) k.block_size laws.block_pos
              (encode_page_pos page stored verbatim len enc)) in
          let product : 0 < start * k.block_size = mul-pos high laws.block_pos in ground arith

  -- What `storePage` stored is what `loadPage` returns.
  pub load_page-store_page :
      (other : List Extent) (n : ℕ) (page : List ℕ) (c : Container)
      → length page ≡ k.page_size
      → Sound k other c
      → Readable c.disk
      → (store_page k n page c).1 ≡ none
      → load_page k (store_page k n page c).0 n ≡ ok page
  unfolding store_page store_encoded
  load_page-store_page other n page c len sound good = elim (Bool-cases (all_zero page)) [
    | inl z ↦
        rw (z, store_page)
          (λ done.
            load_page_at n sparse (put_entry k n sparse c) c.dir
              (put_entry-OneEntry n sparse c c refl sound.slots)
            ∙ load_entry_sparse k laws (put_entry k n sparse c).disk n sparse refl
            ∙ ap ok (sym (all_zero-replicate page z ∙ ap (λ j. replicate j 0) len)))
    | inr z ↦ rw (z, store_page) (by_encoding (encode_page k page) (λ e h. h))
  ]
    where
      by_encoding :
          (o : Option (List ℕ × Bool))
          → ((e : List ℕ × Bool) → o ≡ some e → encode_page k page ≡ some e)
          → (store_encoded k n o c).1 ≡ none
          → load_page k (store_encoded k n o c).0 n ≡ ok page
      by_encoding none enc done = cc
      by_encoding (some (stored, verbatim)) enc done =
          load_page-store_slot other n page stored verbatim c len (enc (stored, verbatim) refl)
            sound good done
