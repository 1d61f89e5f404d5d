-- ===== src/FtsQuery.antt =====
-- The builder of full-text queries, fts/query.go. A string is the list of its code points; the distance
-- of `near`, an int in the source, is a number, with 0 for all that are not positive.
pub mod Quotes
use sqlite.Prelude.{
  ℕ, zero, suc, ◌+◌, ◌/◌, ◌%◌, Bool, List, [], ◌∷◌, ◌++◌, map, ltb, ◌==◌, if◌then◌else◌,
}
use sqlite.Sqlid.{double, wrap}

mutual
  pub data Query : Type 0 where
    raw term prefix initial_token : List ℕ → Query
    phrase : List (List ℕ) → Query
    and_of or_of : Queries → Query
    not_of : Query → Queries → Query
    near : ℕ → List (List ℕ) → Query
    column : List ℕ → Query → Query
    column_set : List (List ℕ) → Query → Query

  pub data Queries : Type 0 where
    nil : Queries
    cons : Query → Queries → Queries

-- `strings.Join`
unfoldable pub join : List ℕ → List (List ℕ) → List ℕ
join sep [] = []
join sep (s ∷ []) = s
join sep (s ∷ t ∷ l) = s ++ (sep ++ join sep (t ∷ l))

-- `ftsQuoteTerm`
unfoldable pub fts_quote_term : List ℕ → List ℕ
unfolding double
fts_quote_term s = wrap b'"' (double b'"' s)

unfoldable pub double_all : List (List ℕ) → List (List ℕ)
unfolding double
double_all [] = []
double_all (s ∷ l) = double b'"' s ∷ double_all l

unfoldable pub quote_all : List (List ℕ) → List (List ℕ)
unfolding fts_quote_term
quote_all [] = []
quote_all (s ∷ l) = fts_quote_term s ∷ quote_all l

-- `strconv.Itoa` of a number with at most `fuel` digits.
unfoldable pub itoa : ℕ → ℕ → List ℕ
itoa zero n = []
itoa (suc fuel) n =
    let front = itoa fuel (n / 10) in
    if ltb n 10 then (b'0' + n) ∷ [] else front ++ ((b'0' + n % 10) ∷ [])

abbrev pub paren : List ℕ → List ℕ
paren s = b'(' ∷ (s ++ (b')' ∷ []))

-- " ", " AND ", " OR ", ") NOT (", "NEAR(", ", ", ": (" and "} : ("
abbrev pub space : List ℕ
space = b' ' ∷ []

abbrev pub and_word : List ℕ
and_word = b' ' ∷ b'A' ∷ b'N' ∷ b'D' ∷ b' ' ∷ []

abbrev pub or_word : List ℕ
or_word = b' ' ∷ b'O' ∷ b'R' ∷ b' ' ∷ []

abbrev pub not_word : List ℕ
not_word = b' ' ∷ b'N' ∷ b'O' ∷ b'T' ∷ b' ' ∷ []

abbrev pub near_word : List ℕ
near_word = b'N' ∷ b'E' ∷ b'A' ∷ b'R' ∷ []

-- The methods `Build`; an int64 has at most 19 digits.
unfoldable mutual
  unfolding join fts_quote_term double_all quote_all itoa

  pub build : Query → List ℕ
  build (raw s) = s
  build (term s) = fts_quote_term s
  build (phrase l) = wrap b'"' (join space (double_all l))
  build (prefix s) = s ++ (b'*' ∷ [])
  build (and_of qs) = join and_word (build_parts qs)
  build (or_of qs) = join or_word (build_parts qs)
  build (not_of q nil) = build q
  build (not_of q (cons r qs)) =
      paren (build q) ++ (not_word ++ paren (join or_word (build_parts (cons r qs))))
  build (near dist l) =
      near_word
      ++ paren (
          if dist == 0
          then join space (quote_all l)
          else join space (quote_all l) ++ (b',' ∷ b' ' ∷ itoa 19 dist))
  build (column name q) = name ++ (b':' ∷ b' ' ∷ paren (build q))
  build (column_set cols q) =
      b'{' ∷ (join space cols ++ (b'}' ∷ b' ' ∷ b':' ∷ b' ' ∷ paren (build q)))
  build (initial_token s) = b'^' ∷ fts_quote_term s

  -- The parenthesised parts.
  pub build_parts : Queries → List (List ℕ)
  build_parts nil = []
  build_parts (cons q qs) = paren (build q) ∷ build_parts qs
