-- ===== src/Tests/Statements.antt =====
-- The statement cache of stmt_cache.go on a short history.
use sqlite.Prelude.{ℕ, ◌+◌, ◌≡◌, refl, List, [], ◌∷◌, some, arith}
use sqlite.StmtCache.{
  Entry, Cache, new_stmt_cache, normalize, take_stmt, put_stmt, drop_entry, push_entry, back,
  same_key, drain_all,
}
use sqlite.StmtCache.Shape.{Inv, holders}
use sqlite.StmtCache.Handles.{put_stmt-take_stmt}
use sqlite.StmtCache.History.{
  Op, take, put, drain, run_op, run_ops, donated, Inv-new_stmt_cache, run_ops-conserves,
}

-- " a", "a" and "b"
abbrev spaced_a : List ℕ
spaced_a = b' ' ∷ b'a' ∷ []

abbrev text_a : List ℕ
text_a = b'a' ∷ []

abbrev text_b : List ℕ
text_b = b'b' ∷ []

normalize_test : (normalize spaced_a ≡ text_a) × (normalize text_a ≡ text_a)
unfolding normalize
normalize_test = (refl, refl)

abbrev calls : List Op
calls = put spaced_a 1 11 ∷ put text_b 2 22 ∷ take text_b ∷ put text_a 3 33 ∷ drain ∷ []

-- With room for one entry, the second `put` evicts the first.
run_ops_test :
    (run_ops (new_stmt_cache 1) calls).1
    ≡ (record { id = 0; key = text_a; psql = 1; pstmt = 11 })
      ∷ (record { id = 1; key = text_b; psql = 2; pstmt = 22 })
      ∷ (record { id = 2; key = text_a; psql = 3; pstmt = 33 })
      ∷ []
unfolding run_ops run_op take_stmt put_stmt drop_entry push_entry back normalize same_key drain_all
run_ops_test = refl

run_ops-conserves_example :
    Inv (run_ops (new_stmt_cache 1) calls).0
    × (holders 11 (run_ops (new_stmt_cache 1) calls).0.ord
          + holders 11 (run_ops (new_stmt_cache 1) calls).1
        ≡ donated 11 calls)
run_ops-conserves_example = run_ops-conserves 1 11 calls

put_stmt-take_stmt_example :
    (take_stmt (put_stmt (new_stmt_cache 1) spaced_a 1 11).0 text_a).1
    ≡ some (record { id = 0; key = text_a; psql = 1; pstmt = 11 })
unfolding normalize
put_stmt-take_stmt_example =
    put_stmt-take_stmt (new_stmt_cache 1) spaced_a text_a 1 11 (Inv-new_stmt_cache 1) (omega arith)
      refl

abbrev full : Cache
full = (put_stmt (new_stmt_cache 1) text_a 1 11).0

abbrev first : Entry
first = record { id = 0; key = text_a; psql = 1; pstmt = 11 }

full_test : (put_stmt full text_b 2 22).1 ≡ some first
unfolding put_stmt drop_entry push_entry back normalize same_key
full_test = refl

take_test : (take_stmt full text_a).1 ≡ some first
unfolding take_stmt put_stmt push_entry normalize same_key
take_test = refl
