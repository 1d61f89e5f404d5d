-- ===== src/Vault/Validate/Slots.antt =====
-- The bytes of the page slots in an accepted directory (vfs/vault/format.go).
use native.Mathlib.Nat.{div-add-mod', add-mul}
use sqlite.Prelude.{
  ℕ, zero, suc, ◌+◌, ◌*◌, ◌/◌, ◌%◌, ◌≤◌, ◌<◌, ◌≡◌, ◌≢◌, ap, subst, sym, ◌∙◌, List, [], ◌∷◌, some,
  get_elem?, arith, ◌⊎◌, inl, inr, Bool-cases, false, ltb, ◌==◌,
}
use sqlite.Vault.Alloc.Cover.{hit, cover}
use sqlite.Vault.Disk.Keeps.{block_of}
use sqlite.Vault.Format.{Superblock, DirEntry, SegDesc}
use sqlite.Vault.Validate.{accept, check_entry, check_entries, validate_directory, dir_runs}
use sqlite.Vault.Validate.Bounds.{then_check-accept}
use sqlite.Vault.Validate.Disjoint.{validate_directory-disjoint, cover-all_runs}

-- The uses of a block by one slot.
abbrev slot_hit : ℕ → DirEntry → ℕ → ℕ
slot_hit bs e b = hit (e.phys_offset / bs) e.blocks b

cover-dir_runs_one :
    (bs : ℕ) (dir : List DirEntry) (i b : ℕ) (e : DirEntry)
    → get_elem? dir i ≡ some e
    → e.phys_offset ≢ 0
    → slot_hit bs e b ≤ cover (dir_runs bs dir) b
unfolding dir_runs cover
cover-dir_runs_one bs [] i b e h nz = cc
cover-dir_runs_one bs (x ∷ dir) zero b e h nz =
    let same : x ≡ e = cc in
    let off : (x.phys_offset == 0) ≡ false = ground (arith, ap (λ y. y.phys_offset) same, nz) in
    rw off (
      subst (λ y. slot_hit bs y b ≤ slot_hit bs x b + cover (dir_runs bs dir) b) same (omega arith))
cover-dir_runs_one bs (x ∷ dir) (suc i) b e h nz =
    let rest = cover-dir_runs_one bs dir i b e h nz in ground (arith, rest)

cover-dir_runs_two :
    (bs : ℕ) (dir : List DirEntry) (i j b : ℕ) (e f : DirEntry)
    → i < j
    → get_elem? dir i ≡ some e
    → get_elem? dir j ≡ some f
    → e.phys_offset ≢ 0
    → f.phys_offset ≢ 0
    → slot_hit bs e b + slot_hit bs f b ≤ cover (dir_runs bs dir) b
unfolding dir_runs cover
cover-dir_runs_two bs [] i j b e f lt h k nz mz = cc
cover-dir_runs_two bs (x ∷ dir) i zero b e f lt h k nz mz = absurd (omega arith)
cover-dir_runs_two bs (x ∷ dir) zero (suc j) b e f lt h k nz mz =
    let same : x ≡ e = cc in
    let off : (x.phys_offset == 0) ≡ false = ground (arith, ap (λ y. y.phys_offset) same, nz) in
    let rest = cover-dir_runs_one bs dir j b f k mz in
    rw off (
      subst (λ y. slot_hit bs y b + slot_hit bs f b ≤ slot_hit bs x b + cover (dir_runs bs dir) b)
        same (omega (arith, rest)))
cover-dir_runs_two bs (x ∷ dir) (suc i) (suc j) b e f lt h k nz mz =
    let rest = cover-dir_runs_two bs dir i j b e f (omega arith) h k nz mz in ground (arith, rest)

check_entry-aligned :
    (sb : Superblock) (fsz : ℕ) (e : DirEntry)
    → e.phys_offset ≢ 0
    → check_entry sb fsz e ≡ accept
    → e.phys_offset % sb.block_size ≡ 0
unfolding check_entry
check_entry-aligned sb fsz e nz h = ground arith

check_entries-aligned :
    (sb : Superblock) (fsz : ℕ) (dir : List DirEntry) (i : ℕ) (e : DirEntry)
    → check_entries sb fsz dir ≡ accept
    → get_elem? dir i ≡ some e
    → e.phys_offset ≢ 0
    → e.phys_offset % sb.block_size ≡ 0
unfolding check_entries
check_entries-aligned sb fsz [] i e h q nz = cc
check_entries-aligned sb fsz (x ∷ dir) zero e h q nz =
    let same : x ≡ e = cc in
    let (first, _) = then_check-accept (check_entry sb fsz x) (check_entries sb fsz dir) h in
    subst (λ y. y.phys_offset % sb.block_size ≡ 0) same
      (check_entry-aligned sb fsz x (λ z. nz (sym (ap (λ y. y.phys_offset) same) ∙ z)) first)
check_entries-aligned sb fsz (x ∷ dir) (suc i) e h q nz =
    check_entries-aligned sb fsz dir i e
      (then_check-accept (check_entry sb fsz x) (check_entries sb fsz dir) h).1 q nz

-- A byte of an aligned slot lies in a block of the slot.
slot_hit-byte :
    (bs p : ℕ) (e : DirEntry)
    → 0 < bs
    → e.phys_offset % bs ≡ 0
    → e.phys_offset ≤ p
    → p < e.phys_offset + e.blocks * bs
    → slot_hit bs e (p / bs) ≡ 1
slot_hit-byte bs p e pos aligned lo hi =
    let at : e.phys_offset / bs * bs ≡ e.phys_offset =
      omega (arith, div-add-mod' e.phys_offset bs, aligned) in
    let sum = add-mul (e.phys_offset / bs) e.blocks bs in
    let inside =
      block_of bs (e.phys_offset / bs) e.blocks p pos (omega (arith, at))
        (omega (arith, at, sum)) in
    ground (arith, inside.0, inside.1)

-- The bytes of two page slots in an accepted directory never meet, where the block size is positive:
-- a byte of the slot of one page lies before or behind the slot of every later page.
pub pages_apart :
    (dir : List DirEntry) (segs : List SegDesc) (sb : Superblock) (fsz keyslot_blocks i j p : ℕ)
    (e f : DirEntry)
    → validate_directory dir segs sb fsz keyslot_blocks ≡ accept
    → 0 < sb.block_size
    → i < j
    → get_elem? dir i ≡ some e
    → get_elem? dir j ≡ some f
    → e.phys_offset ≢ 0
    → f.phys_offset ≢ 0
    → e.phys_offset ≤ p
    → p < e.phys_offset + e.blocks * sb.block_size
    → (p < f.phys_offset) ⊎ (f.phys_offset + f.blocks * sb.block_size ≤ p)
unfolding validate_directory
pages_apart dir segs sb fsz k i j p e f h pos lt q r nz mz lo hi =
    let bs = sb.block_size in
    let (entries, _) = then_check-accept (check_entries sb fsz dir) _ h in
    let one = slot_hit-byte bs p e pos (check_entries-aligned sb fsz dir i e entries q nz) lo hi in
    let two = cover-dir_runs_two bs dir i j (p / bs) e f lt q r nz mz in
    let all = validate_directory-disjoint dir segs sb fsz k h (p / bs) in
    let parts = cover-all_runs dir segs sb k (p / bs) in
    elim (Bool-cases (ltb p f.phys_offset)) [
      | inl below ↦ inl (ground arith)
      | inr past ↦ elim (Bool-cases (ltb p (f.phys_offset + f.blocks * bs))) [
        | inl within ↦
            let other =
              slot_hit-byte bs p f pos (check_entries-aligned sb fsz dir j f entries r mz)
                (ground arith) (ground arith) in
            absurd (omega (arith, one, other, two, all, parts))
        | inr above ↦ inr (ground arith)
      ]
    ]
