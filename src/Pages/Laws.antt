-- ===== src/Pages/Laws.antt =====
-- The keys and the runs of the page maps of vfs/internal/memio.
use sqlite.Prelude.{
  ℕ, zero, suc, ◌+◌, ◌-◌, ◌≤◌, ◌<◌, ◌≡◌, ◌≢◌, refl, ap, ◌∙◌, true, false, List, [], ◌∷◌, none, some,
  length, take, drop, replicate, ltb, leb, ◌==◌, if◌then◌else◌, arith, min, max, All, length-take,
  length-replicate, ◌⊎◌, Bool-cases, inl, inr, subst,
}
use mathlib.Core.List.{append-nil}
use sqlite.Pages.{Pages, put_page, get_page, truncate_pages, splice, read_step, read_from_pages}

pub get_page-put_page :
    (k j : ℕ) (v : List ℕ) (m : Pages)
    → get_page j (put_page k v m) ≡ (if k == j then some v else get_page j m)
unfolding get_page put_page
get_page-put_page k j v [] = refl
get_page-put_page k j v ((i, w) ∷ m) = ground (arith, get_page-put_page k j v m)

-- No run reaches past `size`.
abbrev pub Within : ℕ → Pages → Type 0
Within size m = All (λ (p : ℕ × List ℕ). p.0 + length p.1 ≤ size) m

-- After a truncation no stored run reaches past the new size.
pub truncate_pages-Within : (size : ℕ) (m : Pages) → Within size (truncate_pages size m)
unfolding truncate_pages
truncate_pages-Within size [] = tt
truncate_pages-Within size ((k, v) ∷ m) =
    ground (arith, truncate_pages-Within size m, length-take (size - k) v)

take_all : (v : List ℕ) (n : ℕ) → length v ≤ n → take n v ≡ v
take_all [] zero h = refl
take_all [] (suc n) h = refl
take_all (x ∷ v) zero h = absurd (omega arith)
take_all (x ∷ v) (suc n) h = ap (◌∷◌ x) (take_all v n (omega arith))

drop_all : (v : List ℕ) (n : ℕ) → length v ≤ n → drop n v ≡ []
drop_all [] zero h = refl
drop_all [] (suc n) h = refl
drop_all (x ∷ v) zero h = absurd (omega arith)
drop_all (x ∷ v) (suc n) h = drop_all v n (omega arith)

-- A run that covers the whole request replaces the buffer.
read_step_exact :
    (off f : ℕ) (v dst : List ℕ)
    → length dst ≡ length v
    → 0 < length v
    → f ≤ length v
    → read_step off (off + length v) (off, v) (dst, f) ≡ (v, length v)
unfolding read_step splice
read_step_exact off f v dst h p q =
    let n = length v in
    let mx : max off off ≡ off = omega arith in
    let mn : min (off + n) (off + n) ≡ off + n = omega arith in
    let z : off - off ≡ 0 = omega arith in
    let w : off + n - off ≡ n = omega arith in
    let go : leb (off + n) off ≡ false = ground arith in
    let zn : 0 + n ≡ n = omega arith in
    let last : (if ltb f n then n else f) ≡ n = ground arith in
    rw (
      mn,
      mx,
      go,
      z,
      w,
      take_all v n (omega arith),
      zn,
      drop_all dst n (omega arith),
      last,
      append-nil,
    )

-- The run lies wholly outside the request.
abbrev Apart : ℕ → ℕ → ℕ × List ℕ → Type 0
Apart off n p = (p.0 + length p.1 ≤ off) ⊎ (off + n ≤ p.0)

read_step-Apart :
    (off n : ℕ) (p : ℕ × List ℕ) (acc : List ℕ × ℕ)
    → Apart off n p
    → read_step off (off + n) p acc ≡ acc
unfolding read_step
read_step-Apart off n (k, v) (dst, f) h =
    let skip : leb (min (k + length v) (off + n)) (max k off) ≡ true = ground arith in rw skip

-- Each key once.
abbrev pub KeysOnce : Pages → Type 0
KeysOnce [] = Unit
KeysOnce ((k, v) ∷ m) = (get_page k m ≡ none) × KeysOnce m

-- Every run but the one at `off` lies outside the `n` bytes from `off` on.
abbrev pub OthersApart : ℕ → ℕ → Pages → Type 0
OthersApart off n m = All (λ (p : ℕ × List ℕ). p.0 ≢ off → Apart off n p) m

read_all_apart :
    (off n : ℕ) (m : Pages) (acc : List ℕ × ℕ)
    → get_page off m ≡ none
    → OthersApart off n m
    → read_from_pages m off (off + n) acc ≡ acc
unfolding read_from_pages get_page
read_all_apart off n [] acc h o = refl
read_all_apart off n ((k, v) ∷ m) acc h o =
    let ne : k ≢ off = ground arith in
    rw (read_step-Apart off n (k, v) acc (o.0 ne)) (read_all_apart off n m acc (ground arith) o.1)

read_found :
    (off : ℕ) (v : List ℕ) (m : Pages) (dst : List ℕ) (f : ℕ)
    → get_page off m ≡ some v
    → KeysOnce m
    → OthersApart off (length v) m
    → 0 < length v
    → length dst ≡ length v
    → f ≤ length v
    → read_from_pages m off (off + length v) (dst, f) ≡ (v, length v)
unfolding read_from_pages get_page
read_found off v [] dst f h u o p q r = cc
read_found off v ((k, w) ∷ m) dst f h u o p q r = elim (Bool-cases (k == off)) [
  | inl same ↦
      let e : k ≡ off = ground arith in
      let x : w ≡ v = ground arith in
      rw (e, x, read_step_exact off f v dst q p r)
        (read_all_apart off (length v) m (v, length v) (subst (λ j. get_page j m ≡ none) e u.0) o.1)
  | inr other ↦
      rw (read_step-Apart off (length v) (k, w) (dst, f) (o.0 (ground arith)))
        (read_found off v m dst f (ground arith) u.1 o.1 p q r)
]

-- A request for exactly the run stored at its offset, where no other run overlaps it, reads that run
-- whole, whatever order the map is ranged over in.
pub read_from_pages-get_page :
    (off : ℕ) (v : List ℕ) (m : Pages)
    → get_page off m ≡ some v
    → KeysOnce m
    → OthersApart off (length v) m
    → 0 < length v
    → read_from_pages m off (off + length v) (replicate (length v) 0, 0) ≡ (v, length v)
read_from_pages-get_page off v m h u o p =
    read_found off v m (replicate (length v) 0) 0 h u o p (length-replicate (length v) 0)
      (omega arith)

pub put_page-KeysOnce : (k : ℕ) (v : List ℕ) (m : Pages) → KeysOnce m → KeysOnce (put_page k v m)
unfolding put_page get_page
put_page-KeysOnce k v [] u = (refl, tt)
put_page-KeysOnce k v ((j, w) ∷ m) u = elim (Bool-cases (j == k)) [
  | inl same ↦ rw same (subst (λ i. get_page i m ≡ none) (ground arith) u.0, u.1)
  | inr other ↦ rw other (get_page-put_page k j v m ∙ ground arith, put_page-KeysOnce k v m u.1)
]
