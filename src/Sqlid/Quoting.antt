-- ===== src/Sqlid/Quoting.antt =====
-- Reading back what internal/sqlid quoted.
use sqlite.Prelude.{
  ℕ, ◌≡◌, refl, false, List, [], ◌∷◌, ◌++◌, some, ◌==◌, arith, Bool-cases, inl, inr, ==_refl,
}
use sqlite.Sqlid.{
  double, halve, quote_ident, quote_string, quote_ident_backtick, split_last, unquote,
}

halve-other : (q c : ℕ) (s : List ℕ) → (c == q) ≡ false → halve q (c ∷ s) ≡ c ∷ halve q s
unfolding halve
halve-other q c [] h = refl
halve-other q c (d ∷ s) h = rw h

halve-double : (q : ℕ) (s : List ℕ) → halve q (double q s) ≡ s
unfolding double halve
halve-double q [] = refl
halve-double q (c ∷ s) = elim (Bool-cases (c == q)) [
  | inl h ↦
      let q_c : q ≡ c = ground arith in rw (h, halve, ==_refl q, halve-double q s) (λ i. q_c i ∷ s)
  | inr h ↦ rw (h, halve-other q c (double q s) h, halve-double q s)
]

split_last-append : (s : List ℕ) (q : ℕ) → split_last (s ++ (q ∷ [])) ≡ some (s, q)
unfolding split_last
split_last-append [] q = refl
split_last-append (c ∷ s) q = rw (split_last-append s q)

-- Each of the three ways of quoting reads back: unquoting gives the text that was quoted, whatever
-- quotes it holds.
pub unquote-quote :
    (s : List ℕ)
    → (unquote (quote_ident s) ≡ s)
      × (unquote (quote_string s) ≡ s)
      × (unquote (quote_ident_backtick s) ≡ s)
unfolding unquote quote_ident quote_string quote_ident_backtick
unquote-quote s = (
  rw (unquote, split_last-append (double b'"' s) b'"') (halve-double b'"' s),
  rw (unquote, split_last-append (double 0x27 s) 0x27) (halve-double 0x27 s),
  rw (unquote, split_last-append (double b'`' s) b'`') (halve-double b'`' s),
)
