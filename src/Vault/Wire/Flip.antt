-- ===== src/Vault/Wire/Flip.antt =====
-- The ping-pong of the two superblock copies: where open looks for them (vfs/vault/vfs.go), and the
-- slot that a commit writes (vfs/vault/container.go).
use sqlite.Prelude.{
  ℕ, ◌-◌, ◌*◌, update, ap, sym, ◌∙◌, ◌≤◌, ◌<◌, ◌≡◌, refl, true, false, List, Option, none, some,
  ◌⊎◌, inl, inr, arith, ltb, subst, Bool-cases,
}
use sqlite.Vault.Format.{Superblock}
use sqlite.Vault.Wire.{
  marshal, Parsed, ParseError, ok, err, parse_superblock, pick_parsed, pick_superblock_slot,
}
use sqlite.Vault.Wire.RoundTrip.{Fits, parse_superblock-marshal}

-- Where copy B stands: at the block size that copy A names, or else at the configured one.
unfoldable pub second_at : ℕ → Parsed Superblock → ℕ
second_at cfg_block_size (ok a) = a.block_size
second_at cfg_block_size (err e) = cfg_block_size

-- What `newContainerOver` reads of a file that is not empty; `image off` are the bytes of
-- `readSuperblockAt` at `off`.
unfoldable pub authority : ℕ → (ℕ → List ℕ) → Option (Superblock × ℕ)
unfolding second_at pick_superblock_slot
authority cfg_block_size image =
    let copy_a = image 0 in
    pick_superblock_slot copy_a (image (second_at cfg_block_size (parse_superblock copy_a)))

-- `WriteAt(bytes, nextSlot * blockSize)`
unfoldable pub write_slot : ℕ → ℕ → List ℕ → (ℕ → List ℕ) → ℕ → List ℕ
write_slot block_size slot bytes image = update image (slot * block_size) bytes

-- The copy that is picked stands in the slot that is reported.
abbrev pub FromSlot : Parsed Superblock → Parsed Superblock → Superblock × ℕ → Type 0
FromSlot a b p = (a ≡ ok p.0) × (p.1 ≡ 0) ⊎ (b ≡ ok p.0) × (p.1 ≡ 1)

-- Neither copy is newer than the one that is picked.
abbrev pub Newest : Parsed Superblock → ℕ → Type 0
Newest (ok t) g = t.generation ≤ g
Newest (err e) g = Unit

abbrev pub Picked : Parsed Superblock → Parsed Superblock → Option (Superblock × ℕ) → Type 0
Picked a b none = (e : ParseError) × (f : ParseError) × (a ≡ err e) × (b ≡ err f)
Picked a b (some p) = FromSlot a b p × Newest a p.0.generation × Newest b p.0.generation

pick_parsed-Picked : (a b : Parsed Superblock) → Picked a b (pick_parsed a b)
unfolding pick_parsed
pick_parsed-Picked (ok x) (ok y) = elim (Bool-cases (ltb x.generation y.generation)) [
  | inl h ↦ rw h (inr (refl, refl), ground arith, ground arith)
  | inr h ↦ rw h (inl (refl, refl), ground arith, ground arith)
]
pick_parsed-Picked (ok x) (err e) = (inl (refl, refl), omega arith, tt)
pick_parsed-Picked (err e) (ok y) = (inr (refl, refl), tt, omega arith)
pick_parsed-Picked (err e) (err f) = (e, f, refl, refl)

-- Open picks a copy that parses, reports its slot, and neither copy is newer; it fails exactly when
-- neither copy parses.
pub authority-Picked :
    (cfg : ℕ) (image : ℕ → List ℕ)
    → Picked
        (parse_superblock (image 0))
        (parse_superblock (image (second_at cfg (parse_superblock (image 0)))))
        (authority cfg image)
unfolding authority pick_superblock_slot
authority-Picked cfg image =
    pick_parsed-Picked (parse_superblock (image 0))
      (parse_superblock (image (second_at cfg (parse_superblock (image 0)))))

source_of :
    (cfg : ℕ) (image : ℕ → List ℕ) (s : Superblock) (slot : ℕ)
    → authority cfg image ≡ some (s, slot)
    → FromSlot
        (parse_superblock (image 0))
        (parse_superblock (image (second_at cfg (parse_superblock (image 0)))))
        (s, slot)
source_of cfg image s slot h =
    (subst
      (Picked (parse_superblock (image 0))
        (parse_superblock (image (second_at cfg (parse_superblock (image 0))))))
      h (authority-Picked cfg image)).0

pick_newer :
    (s n : Superblock)
    → s.generation < n.generation
    → (pick_parsed (ok s) (ok n) ≡ some (n, 1)) × (pick_parsed (ok n) (ok s) ≡ some (n, 0))
unfolding pick_parsed
pick_newer s n lt =
    let h : ltb s.generation n.generation ≡ true = ground arith in
    let k : ltb n.generation s.generation ≡ false = ground arith in (rw h, rw k)

authority_of :
    (cfg : ℕ) (image : ℕ → List ℕ) (a b : Parsed Superblock)
    → parse_superblock (image 0) ≡ a
    → parse_superblock (image (second_at cfg a)) ≡ b
    → authority cfg image ≡ pick_parsed a b
unfolding authority pick_superblock_slot
authority_of cfg image a b p q =
    ap (λ x. pick_parsed x (parse_superblock (image (second_at cfg x)))) p ∙ ap (pick_parsed a) q

-- A commit that reaches the disk whole takes over: where open picks a superblock and looks for the
-- second copy at the block size, and a superblock of a newer generation and of that block size, whose
-- fields fit, is written to the other slot, the next open picks the new one, from that slot.
pub authority-write_slot :
    (cfg : ℕ) (image : ℕ → List ℕ) (s n : Superblock) (slot : ℕ)
    → authority cfg image ≡ some (s, slot)
    → Fits n
    → s.generation < n.generation
    → 0 < n.block_size
    → second_at cfg (parse_superblock (image 0)) ≡ n.block_size
    → authority cfg (write_slot n.block_size (1 - slot) (marshal n) image) ≡ some (n, 1 - slot)
unfolding write_slot second_at
authority-write_slot cfg image s n slot h fits lt pos at = elim (source_of cfg image s slot h) [
  | inl (p, z) ↦ rw z (
      authority_of cfg (write_slot n.block_size 1 (marshal n) image) (ok s) (ok n)
        (ap parse_superblock other ∙ p) (ap parse_superblock (to_second p) ∙ new)
      ∙ (pick_newer s n lt).0)
  | inr (p, z) ↦ rw z (
      authority_of cfg (write_slot n.block_size 0 (marshal n) image) (ok n) (ok s)
        (ap parse_superblock first ∙ new)
        (ap parse_superblock kept ∙ ap (λ o. parse_superblock (image o)) (sym at) ∙ p)
      ∙ (pick_newer s n lt).1)
]
  where
    new : parse_superblock (marshal n) ≡ ok n
    new = parse_superblock-marshal n fits

    other : write_slot n.block_size 1 (marshal n) image 0 ≡ image 0
    other = ground arith

    first : write_slot n.block_size 0 (marshal n) image 0 ≡ marshal n
    first = ground arith

    kept : write_slot n.block_size 0 (marshal n) image n.block_size ≡ image n.block_size
    kept = ground arith

    to_second :
        parse_superblock (image 0) ≡ ok s
        → write_slot n.block_size 1 (marshal n) image s.block_size ≡ marshal n
    to_second p =
        let same : s.block_size ≡ n.block_size = sym (ap (second_at cfg) p) ∙ at in ground arith
