-- ===== src/Vault/Disk/ReadBack.antt =====
-- A write to the backing file, read back.
use sqlite.Prelude.{
  ℕ, zero, suc, ◌+◌, ◌-◌, ◌≤◌, ◌≡◌, refl, ap, ◌∙◌, List, [], ◌∷◌, ◌++◌, some, length, take, true,
  false, arith, ltb, leb, max,
}
use sqlite.Vault.Disk.{
  Disk, Fault, done, torn, byte_at, overlay, place, write_under, write_at, bytes_from, read_at,
}

pub take_all : (n : ℕ) (l : List ℕ) → length l ≤ n → take n l ≡ l
take_all zero [] h = refl
take_all zero (x ∷ l) h = ground arith
take_all (suc n) [] h = refl
take_all (suc n) (x ∷ l) h = ap (◌∷◌ x) (take_all n l (omega arith))

pub take-append : (l r : List ℕ) → take (length l) (l ++ r) ≡ l
take-append [] r = refl
take-append (x ∷ l) r = ap (◌∷◌ x) (take-append l r)

same_bytes :
    (f g : ℕ → ℕ) (off n : ℕ)
    → ((i : ℕ) → off ≤ i → g i ≡ f i)
    → bytes_from g off n ≡ bytes_from f off n
unfolding bytes_from
same_bytes f g off zero h = refl
same_bytes f g off (suc n) h =
    rw (h off (omega arith), same_bytes f g (suc off) n (λ i lo. h i (omega arith))) refl

overlay_first : (off x : ℕ) (l : List ℕ) (f : ℕ → ℕ) → overlay off (x ∷ l) f off ≡ x
unfolding overlay byte_at
overlay_first off x l f =
    let at : ltb off off ≡ false = ground arith in
    let zero_gap : off - off ≡ 0 = omega arith in rw (at, zero_gap) refl

overlay_later :
    (off x : ℕ) (l : List ℕ) (f : ℕ → ℕ) (i : ℕ)
    → suc off ≤ i
    → overlay off (x ∷ l) f i ≡ overlay (suc off) l f i
unfolding overlay byte_at
overlay_later off x l f i lo =
    let past : ltb i off ≡ false = ground arith in
    let past' : ltb i (suc off) ≡ false = ground arith in
    let gap : i - off ≡ suc (i - suc off) = omega arith in rw (past, past', gap) refl

bytes_from-overlay :
    (n off : ℕ) (l : List ℕ) (f : ℕ → ℕ)
    → n ≤ length l
    → bytes_from (overlay off l f) off n ≡ take n l
unfolding bytes_from
bytes_from-overlay zero off l f h = refl
bytes_from-overlay (suc n) off [] f h = ground arith
bytes_from-overlay (suc n) off (x ∷ l) f h =
    rw
      (
        overlay_first off x l f,
        same_bytes (overlay (suc off) l f) (overlay off (x ∷ l) f) (suc off) n
            (overlay_later off x l f),
        bytes_from-overlay n (suc off) l f (omega arith),
      )
      refl

-- What a successful write put on the disk is read back from there, unless the medium fails.
pub read_at-write_at :
    (d : Disk) (off n : ℕ) (l : List ℕ)
    → n ≤ length l
    → (write_at d off l).1 ≡ true
    → d.unreadable off n ≡ false
    → read_at (write_at d off l).0 off n ≡ some (take n l)
unfolding write_at write_under read_at place
read_at-write_at d off n l fits wrote good = by_fault d.faults wrote
  where
    placed : (rest : List Fault) → read_at (place d rest off l) off n ≡ some (take n l)
    placed rest =
        let inside : leb (off + n) (max d.size (off + length l)) ≡ true = ground arith in
        rw (good, inside, bytes_from-overlay n off l d.bytes fits) refl

    by_fault :
        (fs : List Fault)
        → (write_under fs d off l).1 ≡ true
        → read_at (write_under fs d off l).0 off n ≡ some (take n l)
    by_fault [] w = placed []
    by_fault (done ∷ rest) w = placed rest
    by_fault (torn m ∷ rest) w = cc

-- A write that succeeded stands on the disk whole.
pub bytes_from-write_at :
    (d : Disk) (off : ℕ) (l : List ℕ)
    → (write_at d off l).1 ≡ true
    → bytes_from (write_at d off l).0.bytes off (length l) ≡ l
unfolding write_at write_under place
bytes_from-write_at d off l wrote = by_fault d.faults wrote
  where
    whole : bytes_from (overlay off l d.bytes) off (length l) ≡ l
    whole =
        bytes_from-overlay (length l) off l d.bytes (omega arith)
        ∙ take_all (length l) l (omega arith)

    by_fault :
        (fs : List Fault)
        → (write_under fs d off l).1 ≡ true
        → bytes_from (write_under fs d off l).0.bytes off (length l) ≡ l
    by_fault [] w = whole
    by_fault (done ∷ rest) w = whole
    by_fault (torn m ∷ rest) w = cc
