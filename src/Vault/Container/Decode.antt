-- ===== src/Vault/Container/Decode.antt =====
-- The checks and the decoding of `loadPage` (vfs/vault/container.go, vfs/vault/codec.go) on a slot
-- that `storePage` wrote.
use mathlib.Core.List.{append-nil}
use sqlite.Prelude.{
  ℕ, ◌-◌, ◌*◌, ◌%◌, ◌^◌, ◌≤◌, ◌<◌, ◌≡◌, refl, ap, ◌∙◌, sym, Bool, List, Option, none, some, length,
  take, replicate, arith, ◌==◌, ==_refl, inl, inr, ◌⊎◌, Bool-cases, Option-cases, true, false, not,
  ◌&&◌, if◌then◌else◌,
}
use sqlite.Vault.Alloc.{blocks_for}
use sqlite.Vault.Disk.ReadBack.{take_all, take-append}
use sqlite.Vault.Format.{DirEntry}
use sqlite.Vault.Wire.{crc32c, bytes_eq}
use sqlite.Vault.Wire.Slices.{bytes_eq_refl}
use sqlite.Vault.Container.{
  Config, Cipher, ok, domain_page_data, pad, slot_hash, encode_page, accept_page, decode_page,
  unpack, span_read, verify_plain, verify_sealed, verify_under, verify_slot, load_bytes,
}
use sqlite.Vault.Container.Store.{sealed, checksum_of, slot_entry}
use sqlite.Vault.Container.Storing.{
  Lawful, blocks_for_bounds, length-pad, length-sealed, encode_page_cases,
}

take-pad : (n : ℕ) (l : List ℕ) → length l ≤ n → take (length l) (pad n l) ≡ l
unfolding pad
take-pad n l h = rw (take_all n l h) (take-append l (replicate (n - length l) 0))

pad_whole : (l : List ℕ) → pad (length l) l ≡ l
unfolding pad
pad_whole l =
    let none_left : length l - length l ≡ 0 = omega arith in
    rw (none_left, take_all (length l) l (omega arith)) (append-nil l)

module _ (k : Config) (laws : Lawful k) where
  -- Decoding undoes the encoding of a page.
  pub unpack-encode_page :
      (page stored : List ℕ) (verbatim : Bool) (e : DirEntry)
      → length page ≡ k.page_size
      → encode_page k page ≡ some (stored, verbatim)
      → e.flags ≡ (if verbatim then 1 else 0)
      → unpack k e stored ≡ ok page
  unfolding unpack decode_page accept_page
  unpack-encode_page page stored verbatim e len enc flag =
      elim (encode_page_cases k laws page stored verbatim enc) [
        | inl (same, v) ↦
            let f : (e.flags % 2 == 1) ≡ true = rw (flag, v) refl in
            rw (f, same, sym len, pad_whole page) refl
        | inr (z, v, less) ↦
            let f : (e.flags % 2 == 1) ≡ false = rw (flag, v) refl in
            let whole : (length page == k.page_size) ≡ true = ground arith in
            rw (f, laws.lossless page stored z, whole) refl
      ]

  verify_under-plain :
      (o : Option Cipher) (n : ℕ) (e : DirEntry) (bytes page : List ℕ)
      → o ≡ none
      → crc32c bytes ≡ e.checksum
      → unpack k e bytes ≡ ok page
      → verify_under k o n e bytes ≡ ok page
  unfolding verify_under verify_plain
  verify_under-plain none n e bytes page h sum good =
      let same : (crc32c bytes == e.checksum) ≡ true = rw sum (==_refl e.checksum) in rw same good
  verify_under-plain (some c) n e bytes page h sum good = cc

  verify_sealed_good :
      (n : ℕ) (e : DirEntry) (bytes page : List ℕ) (c : Cipher)
      → crc32c bytes ≡ e.checksum
      → (k.authenticated ≡ true → slot_hash k bytes ≡ e.hash)
      → unpack k e (take e.stored_len (c.decrypt bytes n domain_page_data)) ≡ ok page
      → verify_sealed k c n e bytes ≡ ok page
  unfolding verify_sealed
  verify_sealed_good n e bytes page c sum auth good =
      let same : (crc32c bytes == e.checksum) ≡ true = rw sum (==_refl e.checksum) in
      rw (genuine (Bool-cases k.authenticated), same) good
    where
      genuine :
          (k.authenticated ≡ true) ⊎ (k.authenticated ≡ false)
          → (k.authenticated && not (bytes_eq (slot_hash k bytes) e.hash)) ≡ false
      genuine (inl a) = rw (auth a, bytes_eq_refl e.hash, a) refl
      genuine (inr a) = ap (λ b. b && not (bytes_eq (slot_hash k bytes) e.hash)) a

  verify_under-sealed :
      (o : Option Cipher) (n : ℕ) (e : DirEntry) (bytes page : List ℕ) (c : Cipher)
      → o ≡ some c
      → crc32c bytes ≡ e.checksum
      → (k.authenticated ≡ true → slot_hash k bytes ≡ e.hash)
      → unpack k e (take e.stored_len (c.decrypt bytes n domain_page_data)) ≡ ok page
      → verify_under k o n e bytes ≡ ok page
  unfolding verify_under
  verify_under-sealed none n e bytes page c h sum auth good = cc
  verify_under-sealed (some d) n e bytes page c h sum auth good =
      let same : d ≡ c = cc in rw same (verify_sealed_good n e bytes page c sum auth good)

  pub span_plain : (e : DirEntry) → k.cipher ≡ none → span_read k e ≡ e.stored_len
  unfolding span_read
  span_plain e plain = rw plain refl

  pub span_sealed :
      (e : DirEntry) (c : Cipher) → k.cipher ≡ some c → span_read k e ≡ e.blocks * k.block_size
  unfolding span_read
  span_sealed e c on = rw on refl

  -- What an entry and the bytes of its slot have to satisfy for `loadPage` to return the page.
  pub record Written (n : ℕ) (stored on_disk : List ℕ) (e : DirEntry) : Type 0 where
    pub roomy : length stored ≤ e.blocks * k.block_size
    pub whole : length on_disk ≡ e.blocks * k.block_size
    pub stored_whole : e.stored_len ≡ length stored
    pub hashed : k.authenticated ≡ true → slot_hash k on_disk ≡ e.hash
    pub plain :
        k.cipher ≡ none
        → (crc32c stored ≡ e.checksum) × (on_disk ≡ pad (e.blocks * k.block_size) stored)
    pub encrypted :
        (c : Cipher)
        → k.cipher ≡ some c
        → (crc32c on_disk ≡ e.checksum)
          × (c.decrypt on_disk n domain_page_data ≡ pad (e.blocks * k.block_size) stored)

  pub load_bytes-Written :
      (n : ℕ) (stored on_disk page : List ℕ) (e : DirEntry)
      → Written n stored on_disk e
      → unpack k e stored ≡ ok page
      → (span_read k e ≤ e.blocks * k.block_size)
        × (load_bytes k n e (some (take (span_read k e) on_disk)) ≡ ok page)
  unfolding load_bytes verify_slot
  load_bytes-Written n stored on_disk page e w good = elim (Option-cases k.cipher) [
    | inl off ↦
        let (sum, same) = w.plain off in
        let span : span_read k e ≡ length stored = span_plain e off ∙ w.stored_whole in
        let bytes : take (span_read k e) on_disk ≡ stored =
          ap (λ s. take s on_disk) span
          ∙ ap (take (length stored)) same
          ∙ take-pad (e.blocks * k.block_size) stored w.roomy in
        (
          omega (arith, span, w.roomy),
          rw bytes (verify_under-plain k.cipher n e stored page off sum good),
        )
    | inr (c, on) ↦
        let (sum, opened) = w.encrypted c on in
        let span : span_read k e ≡ e.blocks * k.block_size = span_sealed e c on in
        let bytes : take (span_read k e) on_disk ≡ on_disk =
          take_all (span_read k e) on_disk (omega (arith, span, w.whole)) in
        let prefix : take e.stored_len (c.decrypt on_disk n domain_page_data) ≡ stored =
          ap (take e.stored_len) opened
          ∙ ap (λ s. take s (pad (e.blocks * k.block_size) stored)) w.stored_whole
          ∙ take-pad (e.blocks * k.block_size) stored w.roomy in
        (
          omega (arith, span),
          rw bytes
              (verify_under-sealed k.cipher n e on_disk page c on sum w.hashed (rw prefix good)),
        )
  ]

  -- What `storePage` writes, and the entry it makes for it.
  pub slot_entry-Written :
      (n start : ℕ) (stored : List ℕ) (verbatim : Bool) (on_disk : List ℕ)
      → length stored < 2 ^ 32
      → on_disk
        ≡ sealed k
            (pad (blocks_for (length stored) k.block_size * k.block_size) stored)
            n
            domain_page_data
      → Written n stored on_disk (slot_entry k start stored on_disk verbatim)
  unfolding slot_entry checksum_of sealed
  slot_entry-Written n start stored verbatim on_disk small disk =
      let nb = blocks_for (length stored) k.block_size in
      let bounds = blocks_for_bounds (length stored) k.block_size laws.block_pos in
      let same_blocks : nb % 2 ^ 32 ≡ nb = omega (arith, bounds.1) in
      let content = pad (nb * k.block_size) stored in
      record {
        roomy = rw same_blocks bounds.0;
        whole =
            rw (same_blocks, disk)
              (length-sealed k laws content n domain_page_data
                ∙ length-pad (nb * k.block_size) stored);
        stored_whole = omega arith;
        hashed = λ a. rw a refl;
        plain = λ off. (rw off refl, rw same_blocks (disk ∙ rw off refl));
        encrypted = λ c on. (
          rw on refl,
          rw (same_blocks, disk, on) (laws.decrypt-encrypt c content n domain_page_data on),
        );
      }
