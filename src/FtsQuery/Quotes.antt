-- ===== src/FtsQuery/Quotes.antt =====
-- The quotes and parentheses in the text of a query that fts/query.go builds.
use sqlite.Prelude.{
  ℕ, zero, suc, ◌+◌, ◌-◌, ◌/◌, ◌%◌, ◌≡◌, ◌<◌, refl, ◌∙◌, Bool, true, false, not, List, [], ◌∷◌,
  ◌++◌, Option, none, some, ltb, ◌==◌, if◌then◌else◌, arith, Bool-cases, inl, inr, subst,
}
use mathlib.Core.List.{append_assoc, append-nil}
use sqlite.Sqlid.{double, wrap}
use sqlite.FtsQuery.{
  Query, raw, term, prefix, initial_token, phrase, and_of, or_of, not_of, near, column, column_set,
  Queries, nil, cons, join, fts_quote_term, double_all, quote_all, itoa, paren, space, and_word,
  or_word, not_word, near_word, build, build_parts,
}

-- Reads a text from outside or inside a quotation, under `d` open parentheses; `none` where one is
-- closed that is not open. Parentheses in a quotation do not count.
unfoldable pub scan : List ℕ → Bool → ℕ → Option (Bool × ℕ)
scan [] quoted d = some (quoted, d)
scan (c ∷ s) quoted d =
    let flipped = scan s (not quoted) d in
    let same = scan s quoted d in
    let deeper = scan s quoted (d + 1) in
    let shallower = scan s quoted (d - 1) in
    if c == b'"'
    then flipped
    else if quoted
    then same
    else if c == b'('
    then deeper
    else if c == b')'
    then if d == 0 then none else shallower
    else same

-- A text that leaves the reader outside every quotation, under as many parentheses as before.
abbrev pub Neutral : List ℕ → Type 0
Neutral s = (d : ℕ) (t : List ℕ) → scan (s ++ t) false d ≡ scan t false d

-- A text that a quotation can hold.
abbrev InQuote : List ℕ → Type 0
InQuote s = (d : ℕ) (t : List ℕ) → scan (s ++ t) true d ≡ scan t true d

double-InQuote : (s : List ℕ) → InQuote (double b'"' s)
unfolding scan double
double-InQuote [] d t = refl
double-InQuote (c ∷ s) d t = elim (Bool-cases (c == b'"')) [
  | inl h ↦ rw h (double-InQuote s d t)
  | inr h ↦ rw (h, h) (double-InQuote s d t)
]

append-InQuote : (s u : List ℕ) → InQuote s → InQuote u → InQuote (s ++ u)
append-InQuote s u p q d t = rw append_assoc (p d (u ++ t) ∙ q d t)

append-Neutral : (s u : List ℕ) → Neutral s → Neutral u → Neutral (s ++ u)
append-Neutral s u p q d t = rw append_assoc (p d (u ++ t) ∙ q d t)

wrap-Neutral : (s : List ℕ) → InQuote s → Neutral (wrap b'"' s)
unfolding scan
wrap-Neutral s p d t = rw append_assoc (p d (b'"' ∷ t))

paren-Neutral : (s : List ℕ) → Neutral s → Neutral (paren s)
unfolding scan
paren-Neutral s p d t = rw append_assoc (
    p (d + 1) (b')' ∷ t)
    ∙ (let z : (d + 1 == 0) ≡ false = ground arith in
        let w : d + 1 - 1 ≡ d = omega arith in rw (scan, z, w)))

abbrev AllNeutral : List (List ℕ) → Type 0
AllNeutral [] = Unit
AllNeutral (s ∷ l) = Neutral s × AllNeutral l

join-Neutral :
    (sep : List ℕ) (l : List (List ℕ)) → Neutral sep → AllNeutral l → Neutral (join sep l)
unfolding join
join-Neutral sep [] p q = λ d t. refl
join-Neutral sep (s ∷ []) p q = q.0
join-Neutral sep (s ∷ u ∷ l) p q =
    append-Neutral s (sep ++ join sep (u ∷ l)) q.0
      (append-Neutral sep (join sep (u ∷ l)) p (join-Neutral sep (u ∷ l) p q.1))

join-InQuote : (l : List (List ℕ)) → InQuote (join space (double_all l))
unfolding join double_all scan
join-InQuote [] = λ d t. refl
join-InQuote (s ∷ []) = double-InQuote s
join-InQuote (s ∷ u ∷ l) =
    append-InQuote (double b'"' s) (space ++ join space (double_all (u ∷ l))) (double-InQuote s)
      (append-InQuote space (join space (double_all (u ∷ l))) (λ d t. refl) (join-InQuote (u ∷ l)))

fts_quote_term-Neutral : (s : List ℕ) → Neutral (fts_quote_term s)
unfolding fts_quote_term
fts_quote_term-Neutral s = wrap-Neutral (double b'"' s) (double-InQuote s)

quote_all-Neutral : (l : List (List ℕ)) → AllNeutral (quote_all l)
unfolding quote_all
quote_all-Neutral [] = tt
quote_all-Neutral (s ∷ l) = (fts_quote_term-Neutral s, quote_all-Neutral l)

digit-Neutral : (n : ℕ) → n < 10 → Neutral ((b'0' + n) ∷ [])
unfolding scan
digit-Neutral n h d t =
    let a : (48 + n == 34) ≡ false = ground arith in
    let b : (48 + n == 40) ≡ false = ground arith in
    let c : (48 + n == 41) ≡ false = ground arith in rw (scan, a, b, c)

itoa-Neutral : (fuel n : ℕ) → Neutral (itoa fuel n)
unfolding itoa
itoa-Neutral zero n = λ d t. refl
itoa-Neutral (suc fuel) n = elim (Bool-cases (ltb n 10)) [
  | inl h ↦ rw h (digit-Neutral n (ground arith))
  | inr h ↦ rw h (
      append-Neutral (itoa fuel (n / 10)) ((b'0' + n % 10) ∷ []) (itoa-Neutral fuel (n / 10))
        (digit-Neutral (n % 10) (omega arith)))
]

near_list-Neutral : (l : List (List ℕ)) → Neutral (join space (quote_all l))
unfolding scan
near_list-Neutral l = join-Neutral space (quote_all l) (λ d t. refl) (quote_all-Neutral l)

near-Neutral : (dist : ℕ) (l : List (List ℕ)) → Neutral (build (near dist l))
unfolding build scan
near-Neutral dist l =
    let terms = join space (quote_all l) in
    elim (Bool-cases (dist == 0)) [
      | inl h ↦
          rw (build, h)
            (append-Neutral near_word (paren terms) (λ d t. refl)
              (paren-Neutral terms (near_list-Neutral l)))
      | inr h ↦
          let inside = terms ++ (b',' ∷ b' ' ∷ itoa 19 dist) in
          rw (build, h)
            (append-Neutral near_word (paren inside) (λ d t. refl)
              (paren-Neutral inside (
                append-Neutral terms (b',' ∷ b' ' ∷ itoa 19 dist) (near_list-Neutral l) (
                  append-Neutral (b',' ∷ b' ' ∷ []) (itoa 19 dist) (λ d t. refl)
                    (itoa-Neutral 19 dist)))))
    ]

-- What the caller gives to the language unquoted, in raw queries, prefixes and column names, is neutral.
unfoldable mutual
  pub Plain : Query → Type 0
  Plain (raw s) = Neutral s
  Plain (term s) = Unit
  Plain (phrase l) = Unit
  Plain (prefix s) = Neutral s
  Plain (and_of qs) = PlainAll qs
  Plain (or_of qs) = PlainAll qs
  Plain (not_of q qs) = Plain q × PlainAll qs
  Plain (near dist l) = Unit
  Plain (column name q) = Neutral name × Plain q
  Plain (column_set cols q) = AllNeutral cols × Plain q
  Plain (initial_token s) = Unit

  pub PlainAll : Queries → Type 0
  PlainAll nil = Unit
  PlainAll (cons q qs) = Plain q × PlainAll qs

mutual
  unfolding build build_parts scan Plain PlainAll

  pub build-Neutral : (q : Query) → Plain q → Neutral (build q)
  build-Neutral (raw s) p = p
  build-Neutral (term s) p = fts_quote_term-Neutral s
  build-Neutral (phrase l) p = wrap-Neutral (join space (double_all l)) (join-InQuote l)
  build-Neutral (prefix s) p = append-Neutral s (b'*' ∷ []) p (λ d t. refl)
  build-Neutral (and_of qs) p =
      join-Neutral and_word (build_parts qs) (λ d t. refl) (build_parts-Neutral qs p)
  build-Neutral (or_of qs) p =
      join-Neutral or_word (build_parts qs) (λ d t. refl) (build_parts-Neutral qs p)
  build-Neutral (not_of q nil) p = build-Neutral q p.0
  build-Neutral (not_of q (cons r qs)) p =
      let parts = join or_word (build_parts (cons r qs)) in
      append-Neutral (paren (build q)) (not_word ++ paren parts)
        (paren-Neutral (build q) (build-Neutral q p.0))
        (append-Neutral not_word (paren parts) (λ d t. refl)
          (paren-Neutral parts (
            join-Neutral or_word (build_parts (cons r qs)) (λ d t. refl)
              (build_parts-Neutral (cons r qs) p.1))))
  build-Neutral (near dist l) p = near-Neutral dist l
  build-Neutral (column name q) p = append-Neutral name (b':' ∷ b' ' ∷ paren (build q)) p.0 (
      append-Neutral (b':' ∷ b' ' ∷ []) (paren (build q)) (λ d t. refl)
        (paren-Neutral (build q) (build-Neutral q p.1)))
  build-Neutral (column_set cols q) p =
      append-Neutral (b'{' ∷ []) (join space cols ++ (b'}' ∷ b' ' ∷ b':' ∷ b' ' ∷ paren (build q)))
        (λ d t. refl)
        (append-Neutral (join space cols) (b'}' ∷ b' ' ∷ b':' ∷ b' ' ∷ paren (build q))
          (join-Neutral space cols (λ d t. refl) p.0)
          (append-Neutral (b'}' ∷ b' ' ∷ b':' ∷ b' ' ∷ []) (paren (build q)) (λ d t. refl)
            (paren-Neutral (build q) (build-Neutral q p.1))))
  build-Neutral (initial_token s) p =
      append-Neutral (b'^' ∷ []) (fts_quote_term s) (λ d t. refl) (fts_quote_term-Neutral s)

  build_parts-Neutral : (qs : Queries) → PlainAll qs → AllNeutral (build_parts qs)
  build_parts-Neutral nil p = tt
  build_parts-Neutral (cons q qs) p =
      (paren-Neutral (build q) (build-Neutral q p.0), build_parts-Neutral qs p.1)

-- The text of a query whose unquoted parts (raw queries, prefixes and column names) are neutral has its
-- quotations closed and its parentheses matched, none of them closed too early, whatever the terms
-- and the phrases hold.
pub scan-build : (q : Query) → Plain q → scan (build q) false 0 ≡ some (false, 0)
unfolding scan
scan-build q p =
    subst (λ s. scan s false 0 ≡ some (false, 0)) (append-nil (build q)) (build-Neutral q p 0 [])
