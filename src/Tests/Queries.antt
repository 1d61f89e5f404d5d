-- ===== src/Tests/Queries.antt =====
-- The query builder of fts/query.go on a small query.
use sqlite.Prelude.{◌≡◌, refl, false, [], ◌∷◌, some, none}
use sqlite.Sqlid.{double}
use sqlite.FtsQuery.{
  Query, term, near, and_of, raw, cons, nil, build, join, fts_quote_term, quote_all, itoa,
}
use sqlite.FtsQuery.Quotes.{scan, Plain, scan-build}

-- The user has typed a"(, which must not open a group.
abbrev typed : Query
typed = and_of (cons (term (b'a' ∷ b'"' ∷ b'(' ∷ [])) (cons (near 12 ((b'b' ∷ []) ∷ [])) nil))

-- ("a""(") AND (NEAR("b", 12))
build_test :
    build typed
    ≡ b'(' ∷ b'"' ∷ b'a' ∷ b'"' ∷ b'"' ∷ b'(' ∷ b'"' ∷ b')' ∷ b' ' ∷ b'A' ∷ b'N' ∷ b'D' ∷ b' '
      ∷ b'(' ∷ b'N' ∷ b'E' ∷ b'A' ∷ b'R' ∷ b'(' ∷ b'"' ∷ b'b' ∷ b'"' ∷ b',' ∷ b' ' ∷ b'1' ∷ b'2'
      ∷ b')' ∷ b')' ∷ []
unfolding build join fts_quote_term double quote_all itoa
build_test = refl

-- A raw text can close what it has not opened.
raw_test : scan (build (raw (b')' ∷ []))) false 0 ≡ none
unfolding build scan
raw_test = refl

scan-build_example : scan (build typed) false 0 ≡ some (false, 0)
unfolding Plain
scan-build_example = scan-build typed (tt, (tt, tt))
