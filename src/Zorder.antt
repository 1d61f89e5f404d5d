-- ===== src/Zorder.antt =====
-- The z-order curve of ext/zorder. Arguments, int64 in the source, are natural numbers below 2 ^ 63; a
-- negative one, which the source refuses, is left out. `none` is an error.
use sqlite.Prelude.{
  ℕ, zero, suc, ◌+◌, ◌*◌, ◌/◌, ◌%◌, ◌^◌, Bool, true, false, List, [], ◌∷◌, Option, none, some,
  length, ltb, leb, ◌==◌, if◌then◌else◌, ◌||◌,
}

-- `x[j] & 1`, and `x[j] >>= 1`
unfoldable pub low_bit : ℕ → List ℕ → ℕ
low_bit j [] = 0
low_bit zero (x ∷ xs) = x % 2
low_bit (suc j) (x ∷ xs) = low_bit j xs

unfoldable pub shift_at : ℕ → List ℕ → List ℕ
shift_at j [] = []
shift_at zero (x ∷ xs) = x / 2 ∷ xs
shift_at (suc j) (x ∷ xs) = x ∷ shift_at j xs

-- The first loop of `encode`, from bit `i` on, over the `rounds` that are left: `z`, and what is left
-- of the dimensions. The bits that are set are distinct, so `|=` adds them.
unfoldable pub interleave : ℕ → ℕ → ℕ → List ℕ → ℕ × List ℕ
unfolding low_bit shift_at
interleave zero i n xs = (0, xs)
interleave (suc rounds) i n xs =
    let (z, left) = interleave rounds (i + 1) n (shift_at (i % n) xs) in
    (low_bit (i % n) xs * 2 ^ i + z, left)

-- The second loop: no dimension has a bit left.
unfoldable pub all_zero : List ℕ → Bool
all_zero [] = true
all_zero (x ∷ xs) = let rest = all_zero xs in if x == 0 then rest else false

unfoldable pub encode : List ℕ → Option ℕ
unfolding interleave all_zero
encode args =
    let n = length args in
    let (z, left) = interleave 63 0 n args in
    if ltb n 2 || ltb 24 n then none else if all_zero left then some z else none

-- The loop of `decode` from bit `j` on, `k` bits done, on fuel: 63 rounds reach the last bit.
unfoldable pub collect : ℕ → ℕ → ℕ → ℕ → ℕ → ℕ
collect zero z n j k = 0
collect (suc fuel) z n j k =
    let rest = collect fuel z n (j + n) (k + 1) in
    if ltb j 63 then z / 2 ^ j % 2 * 2 ^ k + rest else 0

unfoldable pub decode : ℕ → ℕ → ℕ → Option ℕ
unfolding collect
decode z n i =
    if ltb n 2 || ltb 24 n then none else if leb n i then none else some (collect 63 z n i 0)
