-- ===== src/Sqlid.antt =====
-- The quoting helpers of internal/sqlid. A string is the list of its code points. The source looks at
-- bytes; the characters that it looks for are ASCII, and no byte of another character is one of them.
pub mod Quoting
use sqlite.Prelude.{
  ℕ, ◌+◌, Bool, true, false, List, [], ◌∷◌, ◌++◌, Option, none, some, length, ltb, leb, ◌==◌,
  if◌then◌else◌, ◌&&◌, ◌||◌, not,
}
use sqlite.StmtCache.{normalize}

-- `strings.ReplaceAll(s, q, qq)`, with a quote character
unfoldable pub double : ℕ → List ℕ → List ℕ
double q [] = []
double q (c ∷ s) = let rest = double q s in if c == q then q ∷ q ∷ rest else c ∷ rest

-- `strings.ReplaceAll(s, qq, q)`
unfoldable pub halve : ℕ → List ℕ → List ℕ
halve q [] = []
halve q (c ∷ []) = c ∷ []
halve q (c ∷ d ∷ s) =
    let both = halve q s in
    let one = halve q (d ∷ s) in if c == q && d == q then q ∷ both else c ∷ one

abbrev pub wrap : ℕ → List ℕ → List ℕ
wrap q s = q ∷ (s ++ (q ∷ []))

unfoldable pub quote_ident : List ℕ → List ℕ
unfolding double
quote_ident s = wrap b'"' (double b'"' s)

unfoldable pub quote_string : List ℕ → List ℕ
unfolding double
quote_string s = wrap 0x27 (double 0x27 s)

unfoldable pub quote_ident_backtick : List ℕ → List ℕ
unfolding double
quote_ident_backtick s = wrap b'`' (double b'`' s)

-- A letter or an underscore; a digit only after the first character.
unfoldable pub ident_char : Bool → ℕ → Bool
ident_char first c =
    c == b'_'
    || (leb b'a' c && leb c b'z'
        || (leb b'A' c && leb c b'Z' || not first && (leb b'0' c && leb c b'9')))

unfoldable pub ident_rest : List ℕ → Bool
unfolding ident_char
ident_rest [] = true
ident_rest (c ∷ s) = let rest = ident_rest s in if ident_char false c then rest else false

unfoldable pub valid_ident : List ℕ → Bool
unfolding ident_rest
valid_ident [] = false
valid_ident (c ∷ s) = if ident_char true c then ident_rest s else false

-- `strings.Cut(arg, "=")`
unfoldable pub cut_eq : List ℕ → Option (List ℕ × List ℕ)
cut_eq [] = none
cut_eq (c ∷ s) =
    let rest = cut_eq s in
    if c == b'=' then some ([], s) else (elim rest [ none ↦ none | some (k, v) ↦ some (c ∷ k, v) ])

-- `NamedArg`: the key and the value.
unfoldable pub named_arg : List ℕ → List ℕ × List ℕ
unfolding cut_eq
named_arg arg = elim (cut_eq arg) [
  | none ↦ ([], normalize arg)
  | some (k, v) ↦ (normalize k, normalize v)
]

-- `val[:len(val)-1]` and `val[len(val)-1]` of what follows the first character.
unfoldable pub split_last : List ℕ → Option (List ℕ × ℕ)
split_last [] = none
split_last (c ∷ s) = elim (split_last s) [ none ↦ some ([], c) | some (i, l) ↦ some (c ∷ i, l) ]

-- `Unquote`
unfoldable pub unquote : List ℕ → List ℕ
unfolding split_last halve
unquote [] = []
unquote (first ∷ s) = elim (split_last s) [
  | none ↦ first ∷ s
  | some (inner, last) ↦
      if first == b'[' && last == b']'
      then inner
      else if not (first == last)
      then first ∷ s
      else if first == b'`' || (first == b'"' || first == 0x27)
      then halve first inner
      else first ∷ s
]
