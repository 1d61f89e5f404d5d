-- ===== src/StmtCache/Shape.antt =====
-- How the map and the list of stmt_cache.go belong together.
use sqlite.Prelude.{
  ℕ, ◌+◌, ◌≤◌, ◌<◌, ◌≡◌, ◌≢◌, refl, true, false, List, [], ◌∷◌, Option, none, some, length, ◌==◌,
  if◌then◌else◌, arith, Bool-cases, ==_refl, inl, inr, sym, ◌∙◌, subst,
}
use sqlite.StmtCache.{Entry, Cache, same_key, remove_elem, back, drop_entry, push_entry}

pub same_key_refl : (s : List ℕ) → same_key s s ≡ true
unfolding same_key
same_key_refl [] = refl
same_key_refl (a ∷ s) = ground (arith, same_key_refl s)

pub same_key_eq : (s t : List ℕ) → same_key s t ≡ true → s ≡ t
unfolding same_key
same_key_eq [] [] h = refl
same_key_eq [] (b ∷ t) h = cc
same_key_eq (a ∷ s) [] h = cc
same_key_eq (a ∷ s) (b ∷ t) h = ground (arith, same_key_eq s t)

-- The first entry of the list with a key.
unfoldable pub find_key : List ℕ → List Entry → Option Entry
find_key k [] = none
find_key k (e ∷ l) = if same_key e.key k then some e else find_key k l

abbrev pub NoId : ℕ → List Entry → Type 0
NoId i [] = Unit
NoId i (e ∷ l) = (e.id ≢ i) × NoId i l

-- No key and no number twice.
abbrev pub Distinct : List Entry → Type 0
Distinct [] = Unit
Distinct (e ∷ l) = (find_key e.key l ≡ none) × NoId e.id l × Distinct l

abbrev pub Below : ℕ → List Entry → Type 0
Below n [] = Unit
Below n (e ∷ l) = (e.id < n) × Below n l

pub record Inv (s : Cache) : Type 0 where
  pub indexed : (k : List ℕ) → s.m k ≡ find_key k s.ord
  pub distinct : Distinct s.ord
  pub fresh : Below s.next s.ord
  pub bounded : length s.ord ≤ s.cap

pub find_key-key :
    (k : List ℕ) (l : List Entry) (e : Entry) → find_key k l ≡ some e → same_key e.key k ≡ true
unfolding find_key
find_key-key k [] e h = cc
find_key-key k (f ∷ l) e h = ground (arith, find_key-key k l e)

find_key-NoId :
    (k : List ℕ) (l : List Entry) (e : Entry) (i : ℕ) → NoId i l → find_key k l ≡ some e → e.id ≢ i
unfolding find_key
find_key-NoId k [] e i n h = cc
find_key-NoId k (f ∷ l) e i n h = ground (arith, find_key-NoId k l e i)

pub find_key-remove_elem :
    (k j : List ℕ) (l : List Entry) (e : Entry)
    → Distinct l
    → find_key k l ≡ some e
    → find_key j (remove_elem e.id l) ≡ (if same_key k j then none else find_key j l)
unfolding find_key remove_elem
find_key-remove_elem k j [] e d h = cc
find_key-remove_elem k j (f ∷ l) e d h = elim (Bool-cases (same_key f.key k)) [
  | inl hit ↦
      let f_e : f ≡ e = ground arith in
      let k_f : f.key ≡ k = same_key_eq f.key k hit in
      let gone : find_key k l ≡ none = subst (λ i. find_key i l ≡ none) k_f d.0 in
      let i_e : (f.id == e.id) ≡ true = rw f_e (==_refl e.id) in
      elim (Bool-cases (same_key k j)) [
        | inl sj ↦ rw (i_e, sj, ← same_key_eq k j sj) gone
        | inr sj ↦ rw (i_e, sj, k_f, sj)
      ]
  | inr miss ↦
      let there : find_key k l ≡ some e = ground arith in
      let ne : (f.id == e.id) ≡ false = ground (arith, find_key-NoId k l e f.id d.1 there) in
      let ih = find_key-remove_elem k j l e d.2 there in
      elim (Bool-cases (same_key f.key j)) [
        | inl fj ↦ elim (Bool-cases (same_key k j)) [
          | inl sj ↦
              let fk : same_key f.key k ≡ true = rw (same_key_eq k j sj) fj in absurd (ground arith)
          | inr sj ↦ rw (ne, fj, sj)
        ]
        | inr fj ↦ rw (ne, fj) ih
      ]
]

NoId-remove_elem : (i j : ℕ) (l : List Entry) → NoId i l → NoId i (remove_elem j l)
unfolding remove_elem
NoId-remove_elem i j [] n = tt
NoId-remove_elem i j (f ∷ l) n = ground (arith, NoId-remove_elem i j l)

Below-remove_elem : (i j : ℕ) (l : List Entry) → Below i l → Below i (remove_elem j l)
unfolding remove_elem
Below-remove_elem i j [] n = tt
Below-remove_elem i j (f ∷ l) n = ground (arith, Below-remove_elem i j l)

find_none-remove_elem :
    (k : List ℕ) (j : ℕ) (l : List Entry)
    → find_key k l ≡ none
    → find_key k (remove_elem j l) ≡ none
unfolding remove_elem find_key
find_none-remove_elem k j [] n = refl
find_none-remove_elem k j (f ∷ l) n = ground (arith, find_none-remove_elem k j l)

Distinct-remove_elem : (j : ℕ) (l : List Entry) → Distinct l → Distinct (remove_elem j l)
unfolding remove_elem
Distinct-remove_elem j [] d = tt
Distinct-remove_elem j (f ∷ l) d = elim (Bool-cases (f.id == j)) [
  | inl h ↦ rw h d.2
  | inr h ↦ rw h (
    find_none-remove_elem f.key j l d.0,
    NoId-remove_elem f.id j l d.1,
    Distinct-remove_elem j l d.2,
  )
]

length-remove_elem :
    (k : List ℕ) (l : List Entry) (e : Entry)
    → find_key k l ≡ some e
    → length (remove_elem e.id l) + 1 ≡ length l
unfolding find_key remove_elem
length-remove_elem k [] e h = cc
length-remove_elem k (f ∷ l) e h = ground (arith, length-remove_elem k l e)

-- The back of the list is what its key finds.
pub find_key-back :
    (l : List Entry) (e : Entry) → Distinct l → back l ≡ some e → find_key e.key l ≡ some e
unfolding back find_key
find_key-back [] e d h = cc
find_key-back (f ∷ []) e d h = ground (arith, same_key_refl e.key)
find_key-back (f ∷ g ∷ l) e d h =
    let ih = find_key-back (g ∷ l) e d.2 h in
    elim (Bool-cases (same_key f.key e.key)) [
      | inl s ↦
          let gone : find_key e.key (g ∷ l) ≡ none =
            subst (λ i. find_key i (g ∷ l) ≡ none) (same_key_eq f.key e.key s) d.0 in
          absurd (ground arith)
      | inr s ↦ rw s ih
    ]

pub drop_entry-Inv :
    (s : Cache) (k : List ℕ) (e : Entry)
    → Inv s
    → s.m k ≡ some e
    → Inv (drop_entry s k e) × (length (drop_entry s k e).ord < s.cap)
unfolding drop_entry
drop_entry-Inv s k e inv h =
    let found : find_key k s.ord ≡ some e = sym (inv.indexed k) ∙ h in
    let shorter = length-remove_elem k s.ord e found in
    (
      record {
        indexed = λ j. elim (Bool-cases (same_key k j)) [
          | inl sj ↦ rw (sj, find_key-remove_elem k j s.ord e inv.distinct found, sj)
          | inr sj ↦
              rw (sj, find_key-remove_elem k j s.ord e inv.distinct found, sj) (inv.indexed j)
        ];
        distinct = Distinct-remove_elem e.id s.ord inv.distinct;
        fresh = Below-remove_elem s.next e.id s.ord inv.fresh;
        bounded = omega (arith, inv.bounded);
      },
      omega (arith, inv.bounded),
    )

Below-NoId : (i : ℕ) (l : List Entry) → Below i l → NoId i l
Below-NoId i [] b = tt
Below-NoId i (e ∷ l) b = (omega (arith, b.0), Below-NoId i l b.1)

Below-suc : (i : ℕ) (l : List Entry) → Below i l → Below (i + 1) l
Below-suc i [] b = tt
Below-suc i (e ∷ l) b = (omega (arith, b.0), Below-suc i l b.1)

pub push_entry-Inv :
    (s : Cache) (k : List ℕ) (psql pstmt : ℕ)
    → Inv s
    → s.m k ≡ none
    → length s.ord < s.cap
    → Inv (push_entry s k psql pstmt)
unfolding push_entry find_key
push_entry-Inv s k psql pstmt inv free room = record {
  indexed =
      λ j. elim (Bool-cases (same_key k j)) [ inl sj ↦ rw sj | inr sj ↦ rw sj (inv.indexed j) ];
  distinct = (sym (inv.indexed k) ∙ free, Below-NoId s.next s.ord inv.fresh, inv.distinct);
  fresh = (omega arith, Below-suc s.next s.ord inv.fresh);
  bounded = omega arith;
}

-- How many of the entries hold the statement `p`.
unfoldable pub holders : ℕ → List Entry → ℕ
holders p [] = 0
holders p (e ∷ l) = (if e.pstmt == p then 1 else 0) + holders p l

pub holders-remove_elem :
    (p : ℕ) (k : List ℕ) (l : List Entry) (e : Entry)
    → Distinct l
    → find_key k l ≡ some e
    → holders p (remove_elem e.id l) + (if e.pstmt == p then 1 else 0) ≡ holders p l
unfolding holders remove_elem find_key
holders-remove_elem p k [] e d h = cc
holders-remove_elem p k (f ∷ l) e d h = elim (Bool-cases (same_key f.key k)) [
  | inl hit ↦ ground arith
  | inr miss ↦
      let there : find_key k l ≡ some e = ground arith in
      let ne : (f.id == e.id) ≡ false = ground (arith, find_key-NoId k l e f.id d.1 there) in
      rw ne (omega (arith, holders-remove_elem p k l e d.2 there))
]

pub back-some : (l : List Entry) → 0 < length l → (e : Entry) × (back l ≡ some e)
unfolding back
back-some [] h = absurd (omega arith)
back-some (e ∷ []) h = (e, refl)
back-some (e ∷ f ∷ l) h = back-some (f ∷ l) (omega arith)
