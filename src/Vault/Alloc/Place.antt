-- ===== src/Vault/Alloc/Place.antt =====
-- The compactor's placement (vfs/vault/format.go): `lowestFitAbove` and `allocAt`.
use sqlite.Prelude.{
  ℕ, ◌+◌, ◌≤◌, ◌<◌, ◌≡◌, refl, Bool, true, false, Option, none, some, List, [], ◌∷◌, ltb, leb,
  if◌then◌else◌, ◌&&◌, ◌||◌, arith, inl, inr, Bool-cases, Option-cases, subst,
}
use sqlite.Vault.Alloc.{
  Extent, Allocator, fragments, alloc_at_list, alloc_at, lowest_fit_above, clip,
}
use sqlite.Vault.Alloc.Sorted.{Spaced, IsValid, Spaced-lower}

fragments-Spaced :
    (s n lo hi : ℕ) (e : Extent) (l : List Extent)
    → 0 < n
    → e.start ≤ s
    → s + n ≤ e.start + e.count
    → Spaced lo hi (e ∷ l)
    → Spaced lo hi (fragments s n e l)
unfolding fragments
fragments-Spaced s n lo hi e l p q r v = elim (Bool-cases (ltb e.start s)) [
  | inl before ↦ elim (Bool-cases (ltb (s + n) (e.start + e.count))) [
    | inl after ↦
        rw (before, after)
          (
            v.0,
            ground arith,
            ground arith,
            (
              ground arith,
              ground arith,
              ground arith,
              subst (λ m. Spaced m hi l) (ground arith) v.3,
            ),
          )
    | inr end ↦
        rw (before, end)
          (
            v.0,
            ground arith,
            ground arith,
            Spaced-lower (e.start + e.count) _ hi l (ground arith) v.3,
          )
  ]
  | inr first ↦ elim (Bool-cases (ltb (s + n) (e.start + e.count))) [
    | inl after ↦
        rw (first, after)
          (ground arith, ground arith, ground arith, subst (λ m. Spaced m hi l) (ground arith) v.3)
    | inr end ↦ rw (first, end) (Spaced-lower (e.start + e.count) lo hi l (ground arith) v.3)
  ]
]

abbrev Placed : ℕ → ℕ → Option (List Extent) → Type 0
Placed lo hi none = Unit
Placed lo hi (some r) = Spaced lo hi r

alloc_at_list-Placed :
    (s n lo hi : ℕ) (l : List Extent) → 0 < n → Spaced lo hi l → Placed lo hi (alloc_at_list s n l)
unfolding alloc_at_list
alloc_at_list-Placed s n lo hi [] p v = tt
alloc_at_list-Placed s n lo hi (e ∷ l) p v =
    elim (Bool-cases (ltb s e.start || ltb (e.start + e.count) (s + n))) [
      | inl out ↦
          rw out
            (later (alloc_at_list s n l) (alloc_at_list-Placed s n (e.start + e.count) hi l p v.3))
      | inr in_here ↦ rw in_here (fragments-Spaced s n lo hi e l p (ground arith) (ground arith) v)
    ]
  where
    later :
        (o : Option (List Extent))
        → Placed (e.start + e.count) hi o
        → Placed lo hi (elim o [ none ↦ none | some r ↦ some (e ∷ r) ])
    later none t = tt
    later (some r) t = (v.0, v.1, v.2, t)

-- `allocAt` keeps the free list sorted, coalesced and in range.
pub alloc_at-IsValid :
    (a a' : Allocator) (s n : ℕ) → 0 < n → IsValid a → alloc_at a s n ≡ some a' → IsValid a'
unfolding alloc_at
alloc_at-IsValid a a' s n p v h = elim (Option-cases (alloc_at_list s n a.free)) [
  | inl q ↦ ground arith
  | inr (r, q) ↦
      let t : Placed 1 a.high_water (some r) =
        subst (Placed 1 a.high_water) q
          (alloc_at_list-Placed s n 1 a.high_water a.free p v.spaced) in
      let w : IsValid (record a { free = r }) = record {
        spaced = t;
        past_superblocks = v.past_superblocks;
      } in
      subst IsValid (ground arith) w
]

-- The run that `lowestFitAbove` reports starts at or above the floor and lies inside one free
-- extent, so `allocAt` can reserve it.
pub lowest_fit_above-alloc_at :
    (n floor : ℕ) (l : List Extent) (s : ℕ)
    → lowest_fit_above n floor l ≡ some s
    → (floor ≤ s) × ((r : List Extent) × (alloc_at_list s n l ≡ some r))
unfolding lowest_fit_above alloc_at_list
lowest_fit_above-alloc_at n floor [] s h = cc
lowest_fit_above-alloc_at n floor (e ∷ l) s h =
    elim (Bool-cases (ltb e.start floor && leb (e.start + e.count) floor)) [
      | inl below ↦ later (lowest_fit_above-alloc_at n floor l s (rw below at h))
      | inr reaches ↦ elim (Bool-cases (leb n (clip floor e).count)) [
        | inl fits ↦
            let here : (clip floor e).start ≡ s = ground arith in
            (ground arith, (fragments s n e l, ground arith))
        | inr small ↦ later (lowest_fit_above-alloc_at n floor l s (rw (reaches, small) at h))
      ]
    ]
  where
    skip :
        (b : Bool) (o : Option (List Extent)) (r : List Extent)
        → o ≡ some r
        → (r' : List Extent) × ((if b
              then (elim o [ none ↦ none | some q ↦ some (e ∷ q) ])
              else some (fragments s n e l))
            ≡ some r')
    skip true o r q = (e ∷ r, rw q)
    skip false o r q = (fragments s n e l, refl)

    later :
        (floor ≤ s) × ((r : List Extent) × (alloc_at_list s n l ≡ some r))
        → (floor ≤ s) × ((r : List Extent) × (alloc_at_list s n (e ∷ l) ≡ some r))
    later (above, (r, found)) = (above, skip _ (alloc_at_list s n l) r found)
