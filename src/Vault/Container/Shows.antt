-- ===== src/Vault/Container/Shows.antt =====
-- The container of vfs/vault/container.go as an array of pages, under `storePage` and `truncate`.
use sqlite.Prelude.{
  All, ℕ, zero, suc, ◌≡◌, refl, subst, List, [], ◌∷◌, Option, none, some, length, take, replicate,
  get_elem?, arith, ltb, ◌==◌, inl, inr, Bool-cases, Option-cases, true, false, if◌then◌else◌,
  update,
}
use sqlite.Vault.Alloc.{Extent}
use sqlite.Vault.Format.{DirEntry}
use sqlite.Vault.Container.{Config, Container, Error, ok, load_found, load_page}
use sqlite.Vault.Container.Owned.{EntryOk, Sound}
use sqlite.Vault.Container.Running.{cut_pages_shape}
use sqlite.Vault.Container.Store.{
  truncate, guarded, write_refusal, pages_for, cut_pages, store_page,
}
use sqlite.Vault.Container.Storing.{Lawful}
use sqlite.Vault.Container.Reload.{Readable, load_page-store_page, load_page-store_page_other}

module _ (k : Config) (laws : Lawful k) where
  -- The container shows the array of pages `f`.
  abbrev pub Shows : Container → (ℕ → List ℕ) → Type 0
  Shows c f = (n : ℕ) → load_page k c n ≡ ok (f n)

  -- The array after a store that ended with the error, or with none.
  abbrev pub stored_array : Option Error → (ℕ → List ℕ) → ℕ → List ℕ → ℕ → List ℕ
  stored_array none f n page = update f n page
  stored_array (some e) f n page = f

  -- `storePage` of a page of the page size in a well-formed container, under a lawful configuration and
  -- on a file with no read errors, acts on the array of pages: one page is replaced if it succeeds,
  -- nothing changes if it fails.
  pub store_page-Shows :
      (other : List Extent) (n : ℕ) (page : List ℕ) (c : Container) (f : ℕ → List ℕ)
      → length page ≡ k.page_size
      → Sound k other c
      → Readable k laws c.disk
      → Shows c f
      → Shows (store_page k n page c).0 (stored_array (store_page k n page c).1 f n page)
  store_page-Shows other n page c f len sound good shows m =
      elim (Option-cases (store_page k n page c).1) [
        | inl done ↦ elim (Bool-cases (m == n)) [
          | inl here ↦
              let at : n ≡ m = ground arith in
              rw (done, here)
                (subst (λ j. load_page k (store_page k n page c).0 j ≡ ok page) at
                  (load_page-store_page k laws other n page c len sound good done))
          | inr away ↦
              rw (done, away)
                (load_page-store_page_other k laws other n m page (f m) c len sound
                  (inl (λ same. ground arith)) (shows m))
        ]
        | inr (e, lost) ↦ rw lost (
            load_page-store_page_other k laws other n m page (f m) c len sound (inr (e, lost))
              (shows m))
      ]

  -- The array after a truncation to `n` pages.
  abbrev pub cut_array : ℕ → (ℕ → List ℕ) → ℕ → List ℕ
  cut_array n f m = if ltb m n then f m else replicate k.page_size 0

  get_elem?-take :
      (n m : ℕ) (l : List DirEntry)
      → get_elem? (take n l) m ≡ (if ltb m n then get_elem? l m else none)
  get_elem?-take zero m l = let out : ltb m 0 ≡ false = ground arith in rw out refl
  get_elem?-take (suc n) m [] = elim (Bool-cases (ltb m (suc n))) [
    | inl h ↦ rw h refl
    | inr h ↦ rw h refl
  ]
  get_elem?-take (suc n) zero (x ∷ l) =
      let within : ltb 0 (suc n) ≡ true = ground arith in rw within refl
  get_elem?-take (suc n) (suc m) (x ∷ l) =
      let same : ltb (suc m) (suc n) ≡ ltb m n = ground arith in rw same (get_elem?-take n m l)

  cut_pages-Shows :
      (n : ℕ) (c : Container) (f : ℕ → List ℕ)
      → All (EntryOk k.block_size) c.dir
      → Shows c f
      → Shows (cut_pages k n c) (cut_array n f)
  unfolding load_page load_found
  cut_pages-Shows n c f slots shows m =
      let (dir, disk) = cut_pages_shape k laws n c slots in
      elim (Bool-cases (ltb m n)) [
        | inl h ↦ rw (dir, disk, get_elem?-take n m c.dir, h) (shows m)
        | inr h ↦ rw (dir, disk, get_elem?-take n m c.dir, h) refl
      ]

  -- The array after a truncation to `n` pages that ended with the error, or with none.
  abbrev pub truncated_array : Option Error → ℕ → (ℕ → List ℕ) → ℕ → List ℕ
  truncated_array none n f = cut_array n f
  truncated_array (some e) n f = f

  -- `truncate` of a well-formed container under a lawful configuration: if it is refused, the pages are
  -- as before; otherwise those below the page count of the new size stay, and those from there on read
  -- as zeros.
  pub truncate-Shows :
      (other : List Extent) (size : ℕ) (c : Container) (f : ℕ → List ℕ)
      → Sound k other c
      → Shows c f
      → Shows (truncate k size c).0 (truncated_array (truncate k size c).1 (pages_for k size) f)
  unfolding truncate guarded
  truncate-Shows other size c f sound shows = by_refusal (write_refusal k)
    where
      by_refusal :
          (o : Option Error)
          → Shows (guarded k o c (cut_pages k (pages_for k size) c, none)).0 (
              truncated_array
                (guarded k o c (cut_pages k (pages_for k size) c, none)).1
                (pages_for k size)
                f)
      by_refusal none = cut_pages-Shows (pages_for k size) c f sound.slots shows
      by_refusal (some e) = shows
