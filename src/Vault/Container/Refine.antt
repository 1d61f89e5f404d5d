-- ===== src/Vault/Container/Refine.antt =====
-- `loadPage` of vfs/vault/container.go on a disk that keeps the blocks in use.
use native.Mathlib.Nat.{mul-div_cancel}
use sqlite.Prelude.{
  ℕ, zero, suc, ◌*◌, ◌/◌, ◌≤◌, ◌≡◌, refl, ap, subst, ◌∙◌, sym, List, [], ◌∷◌, ◌++◌, Option, none,
  some, replicate, get_elem?, arith, ◌==◌, inl, inr, Bool-cases, Option-cases, true, false,
}
use sqlite.Vault.Alloc.{Extent}
use sqlite.Vault.Alloc.Cover.{cover, hit}
use sqlite.Vault.Disk.{Disk, read_at}
use sqlite.Vault.Disk.Keeps.{Keeps, read_at-Keeps}
use sqlite.Vault.Format.{DirEntry, sparse}
use sqlite.Vault.Rebuild.{used_by_dir}
use sqlite.Vault.Container.{
  Config, Container, io_error, Outcome, ok, failed, span_read, load_bytes, load_entry, load_found,
  load_page,
}
use sqlite.Vault.Container.Owned.{EntryOk, held, cover-held, usage, Sound}
use sqlite.Vault.Container.Entries.{by_entry, All-get, cover-used_by_dir_cons}
use sqlite.Vault.Container.Storing.{Lawful}
use sqlite.Vault.Container.Decode.{span_plain, span_sealed}

module _ (k : Config) (laws : Lawful k) where
  span_roomy : (e : DirEntry) → EntryOk k.block_size e → span_read k e ≤ e.blocks * k.block_size
  span_roomy e slot = elim (Option-cases k.cipher) [
    | inl off ↦ omega (arith, span_plain k laws e off, slot.roomy)
    | inr (c, on) ↦ omega (arith, span_sealed k laws e c on)
  ]

  pub load_entry_sparse :
      (d : Disk) (n : ℕ) (e : DirEntry)
      → (e.phys_offset == 0) ≡ true
      → load_entry k d n e ≡ ok (replicate k.page_size 0)
  unfolding load_entry
  load_entry_sparse d n e z = rw z refl

  pub load_entry_slot :
      (d : Disk) (n : ℕ) (e : DirEntry)
      → (e.phys_offset == 0) ≡ false
      → load_entry k d n e ≡ load_bytes k n e (read_at d e.phys_offset (span_read k e))
  unfolding load_entry
  load_entry_slot d n e z = rw z refl

  -- A slot whose blocks are kept loads as before.
  pub load_entry-Keeps :
      (u : ℕ → ℕ) (d d' : Disk) (n : ℕ) (e : DirEntry) (page : List ℕ)
      → EntryOk k.block_size e
      → ((b : ℕ) → by_entry k.block_size e b ≤ u b)
      → Keeps k.block_size u d d'
      → load_entry k d n e ≡ ok page
      → load_entry k d' n e ≡ ok page
  unfolding load_bytes
  load_entry-Keeps u d d' n e page slot inside keeps h = elim (Bool-cases (e.phys_offset == 0)) [
    | inl z ↦ load_entry_sparse d' n e z ∙ sym (load_entry_sparse d n e z) ∙ h
    | inr z ↦ elim (Option-cases (read_at d e.phys_offset span)) [
      | inl q ↦
          let lost : ◌≡◌ {A = Outcome (List ℕ)} (failed io_error) (ok page) =
            ap (load_bytes k n e) (sym q) ∙ sym (load_entry_slot d n e z) ∙ h in
          cc
      | inr (bytes, q) ↦
          load_entry_slot d' n e z
          ∙ ap (load_bytes k n e) (kept bytes q ∙ sym q)
          ∙ sym (load_entry_slot d n e z)
          ∙ h
    ]
  ]
    where
      span : ℕ
      span = span_read k e

      at : e.phys_offset / k.block_size ≡ slot.start
      at = ap (λ x. x / k.block_size) slot.aligned ∙ mul-div_cancel slot.start laws.block_pos

      kept :
          (bytes : List ℕ)
          → read_at d e.phys_offset span ≡ some bytes
          → read_at d' e.phys_offset span ≡ some bytes
      kept bytes =
          subst (λ off. read_at d off span ≡ some bytes → read_at d' off span ≡ some bytes)
            (sym slot.aligned)
            (read_at-Keeps k.block_size u laws.block_pos d d' slot.start e.blocks span bytes
              (span_roomy e slot) (λ b. subst (λ s. hit s e.blocks b ≤ u b) at (inside b)) keeps)

  le-cover-used_by_dir :
      (l : List DirEntry) (n : ℕ) (e : DirEntry) (b : ℕ)
      → get_elem? l n ≡ some e
      → by_entry k.block_size e b ≤ cover (used_by_dir k.block_size l) b
  le-cover-used_by_dir [] n e b h = cc
  le-cover-used_by_dir (f ∷ l) zero e b h =
      let same : f ≡ e = cc in
      subst (λ g. by_entry k.block_size g b ≤ cover (used_by_dir k.block_size (f ∷ l)) b) same
        (omega (arith, cover-used_by_dir_cons k.block_size f l b))
  le-cover-used_by_dir (f ∷ l) (suc n) e b h =
      omega (arith, cover-used_by_dir_cons k.block_size f l b, le-cover-used_by_dir l n e b h)

  -- The blocks of an entry of the directory are in use.
  pub le-usage :
      (other : List Extent) (c : Container) (n : ℕ) (e : DirEntry) (b : ℕ)
      → get_elem? c.dir n ≡ some e
      → by_entry k.block_size e b ≤ usage k other c b
  le-usage other c n e b h = omega (arith, cover-held k c b, le-cover-used_by_dir c.dir n e b h)

  load_found-Keeps :
      (u : ℕ → ℕ) (d d' : Disk) (n : ℕ) (o : Option DirEntry) (page : List ℕ)
      → ((e : DirEntry)
          → o ≡ some e
          → EntryOk k.block_size e × ((b : ℕ) → by_entry k.block_size e b ≤ u b))
      → Keeps k.block_size u d d'
      → load_found k d n o ≡ ok page
      → load_found k d' n o ≡ ok page
  unfolding load_found
  load_found-Keeps u d d' n none page held keeps h = h
  load_found-Keeps u d d' n (some e) page held keeps h =
      load_entry-Keeps u d d' n e page (held e refl).0 (held e refl).1 keeps h

  -- A page that could be read reads the same when the directory stays and the blocks in use are kept.
  pub load_page-Keeps :
      (other : List Extent) (c : Container) (d' : Disk) (n : ℕ) (page : List ℕ)
      → Sound k other c
      → Keeps k.block_size (usage k other c) c.disk d'
      → load_page k c n ≡ ok page
      → load_found k d' n (get_elem? c.dir n) ≡ ok page
  unfolding load_page
  load_page-Keeps other c d' n page sound keeps h =
      load_found-Keeps (usage k other c) c.disk d' n (get_elem? c.dir n) page
        (λ e q.
          (All-get (EntryOk k.block_size) c.dir n e sound.slots q, λ b. le-usage other c n e b q))
        keeps h

  -- The sparse entries that fill a gap read as the missing entries did.
  pub load_found_grown :
      (d : Disk) (m n j : ℕ) (l : List DirEntry)
      → load_found k d m (get_elem? (l ++ replicate j sparse) n) ≡ load_found k d m (get_elem? l n)
  unfolding load_found load_entry
  load_found_grown d m n zero [] = refl
  load_found_grown d m zero (suc j) [] = refl
  load_found_grown d m (suc n) (suc j) [] = load_found_grown d m n j []
  load_found_grown d m zero j (e ∷ l) = refl
  load_found_grown d m (suc n) j (e ∷ l) = load_found_grown d m n j l
