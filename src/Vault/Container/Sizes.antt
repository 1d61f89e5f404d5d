-- ===== src/Vault/Container/Sizes.antt =====
-- The sizes of the pages that `loadPage` and `writeAt` of vfs/vault/container.go handle.
use sqlite.Prelude.{
  ℕ, ◌+◌, ◌≤◌, ◌≡◌, ◌%◌, List, ◌++◌, Option, none, some, length, length-take, length-drop,
  length-append, length-replicate, get_elem?, take, drop, arith, ◌==◌, ◌&&◌, not, inl, inr,
  Bool-cases,
}
use sqlite.Vault.Disk.{Disk, read_at}
use sqlite.Vault.Format.{DirEntry}
use sqlite.Vault.Wire.{crc32c, bytes_eq}
use sqlite.Vault.Container.{
  Config, Cipher, Container, Outcome, ok, failed, slot_hash, domain_page_data, accept_page,
  decode_page, unpack, span_read, verify_plain, verify_sealed, verify_under, verify_slot,
  load_bytes, load_entry, load_found, load_page,
}
use sqlite.Vault.Container.Store.{edited_page, over_page}
use sqlite.Vault.Container.Storing.{length-pad}

-- A page that is returned has `n` bytes.
abbrev pub Sized : ℕ → Outcome (List ℕ) → Type 0
Sized n (ok page) = length page ≡ n
Sized n (failed e) = Unit

module _ (k : Config) where
  unpack-Sized : (e : DirEntry) (stored : List ℕ) → Sized k.page_size (unpack k e stored)
  unfolding unpack decode_page accept_page
  unpack-Sized e stored = elim (Bool-cases (e.flags % 2 == 1)) [
    | inl v ↦ rw v (length-pad k.page_size stored)
    | inr v ↦ rw v (accepted (k.decompress stored))
  ]
    where
      accepted : (o : Option (List ℕ)) → Sized k.page_size (accept_page k o)
      accepted none = tt
      accepted (some page) = elim (Bool-cases (length page == k.page_size)) [
        | inl same ↦ rw same (ground arith)
        | inr other ↦ rw other tt
      ]

  verify_under-Sized :
      (o : Option Cipher) (n : ℕ) (e : DirEntry) (bytes : List ℕ)
      → Sized k.page_size (verify_under k o n e bytes)
  unfolding verify_under verify_plain verify_sealed
  verify_under-Sized none n e bytes = elim (Bool-cases (crc32c bytes == e.checksum)) [
    | inl good ↦ rw good (unpack-Sized e bytes)
    | inr bad ↦ rw bad tt
  ]
  verify_under-Sized (some c) n e bytes =
      elim (Bool-cases (k.authenticated && not (bytes_eq (slot_hash k bytes) e.hash))) [
        | inl forged ↦ rw forged tt
        | inr genuine ↦ elim (Bool-cases (crc32c bytes == e.checksum)) [
          | inl good ↦
              rw (genuine, good)
                (unpack-Sized e (take e.stored_len (c.decrypt bytes n domain_page_data)))
          | inr bad ↦ rw (genuine, bad) tt
        ]
      ]

  load_bytes-Sized :
      (n : ℕ) (e : DirEntry) (o : Option (List ℕ)) → Sized k.page_size (load_bytes k n e o)
  unfolding load_bytes verify_slot
  load_bytes-Sized n e none = tt
  load_bytes-Sized n e (some bytes) = verify_under-Sized k.cipher n e bytes

  load_found-Sized :
      (d : Disk) (n : ℕ) (o : Option DirEntry) → Sized k.page_size (load_found k d n o)
  unfolding load_found load_entry
  load_found-Sized d n none = length-replicate {A = ℕ} k.page_size 0
  load_found-Sized d n (some e) = elim (Bool-cases (e.phys_offset == 0)) [
    | inl z ↦ rw z (length-replicate {A = ℕ} k.page_size 0)
    | inr z ↦ rw z (load_bytes-Sized n e (read_at d e.phys_offset (span_read k e)))
  ]

  -- A page that is read has the size of a page.
  pub load_page-Sized : (c : Container) (n : ℕ) → Sized k.page_size (load_page k c n)
  unfolding load_page
  load_page-Sized c n = load_found-Sized c.disk n (get_elem? c.dir n)

  -- The page that a round of `writeAt` stores has the size of a page.
  pub edited_page-Sized :
      (n intra : ℕ) (piece : List ℕ) (c : Container)
      → intra + length piece ≤ k.page_size
      → Sized k.page_size (edited_page k n intra piece c)
  unfolding edited_page over_page
  edited_page-Sized n intra piece c fits = elim (Bool-cases (length piece == k.page_size)) [
    | inl whole ↦ rw whole (ground arith)
    | inr part ↦ rw part (by_load (load_page k c n) (load_page-Sized c n))
  ]
    where
      by_load :
          (o : Outcome (List ℕ))
          → Sized k.page_size o
          → Sized k.page_size (over_page k intra piece o)
      by_load (failed e) s = tt
      by_load (ok page) s = omega (
        arith,
        length-append (take intra page) (piece ++ drop (intra + length piece) page),
        length-append piece (drop (intra + length piece) page),
        length-take intra page,
        length-drop (intra + length piece) page,
      )
