-- ===== src/Vault/Wire/Slices.antt =====
-- Laws of slices and of little-endian integers, for the codecs of vfs/vault/format.go.
use sqlite.Prelude.{
  ℕ, zero, suc, ◌/◌, ◌^◌, ◌<◌, ◌≡◌, refl, ap, List, [], ◌∷◌, ◌++◌, length, take, drop, arith, true,
}
use native.Mathlib.Nat.{pow-suc}
use sqlite.Vault.Wire.{put_le, get_le, slice, bytes_eq}
use sqlite.Prelude.{==_refl}

pub length-put_le : (w v : ℕ) → length (put_le w v) ≡ w
unfolding put_le
length-put_le zero v = refl
length-put_le (suc w) v = ap suc (length-put_le w (v / 256))

-- An integer that fits its width reads back as itself.
pub get_le-put_le : (w v : ℕ) → v < 256 ^ w → get_le (put_le w v) ≡ v
unfolding put_le get_le
get_le-put_le zero v h = omega arith
get_le-put_le (suc w) v h = omega (arith, get_le-put_le w (v / 256) (omega (arith, pow-suc 256 w)))

module _ {ℓ} {A : Type ℓ} where
  pub take-append_length : (f r : List A) → take (length f) (f ++ r) ≡ f
  take-append_length [] r = refl
  take-append_length (x ∷ f) r = ap (◌∷◌ x) (take-append_length f r)

  pub drop-append_length : (f r : List A) → drop (length f) (f ++ r) ≡ r
  drop-append_length [] r = refl
  drop-append_length (x ∷ f) r = drop-append_length f r

-- A field read at the offset where it was written.
pub slice-field :
    (off n : ℕ) (f x r : List ℕ) → length f ≡ off → length x ≡ n → slice off n (f ++ (x ++ r)) ≡ x
unfolding slice
slice-field off n f x r p q =
    rw (← p, ← q, drop-append_length f (x ++ r), take-append_length x r) refl

pub bytes_eq_refl : (l : List ℕ) → bytes_eq l l ≡ true
unfolding bytes_eq
bytes_eq_refl [] = refl
bytes_eq_refl (a ∷ l) = rw (==_refl a) (bytes_eq_refl l)
