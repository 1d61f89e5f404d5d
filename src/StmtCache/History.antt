-- ===== src/StmtCache/History.antt =====
-- Histories of a statement cache of stmt_cache.go: the calls of a connection, in order, with all the
-- entries that they hand back.
use mathlib.Core.List.{◌++◌}
use sqlite.Prelude.{
  ℕ, ◌+◌, ◌≡◌, refl, List, [], ◌∷◌, Option, none, some, ◌==◌, if◌then◌else◌, arith, Bool-cases, inl,
  inr,
}
use sqlite.StmtCache.{Entry, Cache, new_stmt_cache, take_stmt, put_stmt, drain_all}
use sqlite.StmtCache.Shape.{Inv, holders, find_key}
use sqlite.StmtCache.Laws.{take_stmt-Inv, put_stmt-Inv}
use sqlite.StmtCache.Handles.{held, holders-put_stmt, holders-take_stmt}

pub data Op : Type 0 where
  take : List ℕ → Op
  put : List ℕ → ℕ → ℕ → Op
  drain : Op

abbrev pub handed : Option Entry → List Entry
handed none = []
handed (some e) = e ∷ []

unfoldable pub run_op : Cache → Op → Cache × List Entry
run_op s (take sql) = let (r, e) = take_stmt s sql in (r, handed e)
run_op s (put sql psql pstmt) = let (r, e) = put_stmt s sql psql pstmt in (r, handed e)
run_op s drain = drain_all s

unfoldable pub run_ops : Cache → List Op → Cache × List Entry
unfolding run_op
run_ops s [] = (s, [])
run_ops s (o ∷ os) = let (r, l) = run_op s o in let (t, m) = run_ops r os in (t, l ++ m)

-- How often the statement `p` is donated.
unfoldable pub donated : ℕ → List Op → ℕ
donated p [] = 0
donated p (put sql psql pstmt ∷ os) = (if pstmt == p then 1 else 0) + donated p os
donated p (take sql ∷ os) = donated p os
donated p (drain ∷ os) = donated p os

holders-append : (p : ℕ) (l m : List Entry) → holders p (l ++ m) ≡ holders p l + holders p m
unfolding holders
holders-append p [] m = omega arith
holders-append p (e ∷ l) m = omega (arith, holders-append p l m)

holders-handed : (p : ℕ) (e : Option Entry) → holders p (handed e) ≡ held p e
unfolding holders
holders-handed p none = refl
holders-handed p (some e) = omega arith

run_op-Inv : (s : Cache) (o : Op) → Inv s → Inv (run_op s o).0
unfolding run_op drain_all find_key
run_op-Inv s (take sql) inv = take_stmt-Inv s sql inv
run_op-Inv s (put sql psql pstmt) inv = put_stmt-Inv s sql psql pstmt inv
run_op-Inv s drain inv = elim (Bool-cases (s.cap == 0)) [
  | inl off ↦ rw off inv
  | inr on ↦
      rw on (record { indexed = λ k. refl; distinct = tt; fresh = tt; bounded = omega arith })
]

holders-run_op :
    (p : ℕ) (s : Cache) (o : Op)
    → Inv s
    → holders p (run_op s o).0.ord + holders p (run_op s o).1 ≡ holders p s.ord + donated p (o ∷ [])
unfolding run_op donated drain_all holders
holders-run_op p s (take sql) inv =
    omega (arith, holders-take_stmt s sql p inv, holders-handed p (take_stmt s sql).1)
holders-run_op p s (put sql psql pstmt) inv =
    omega (
      arith,
      holders-put_stmt s sql psql pstmt p inv,
      holders-handed p (put_stmt s sql psql pstmt).1,
    )
holders-run_op p s drain inv = elim (Bool-cases (s.cap == 0)) [
  | inl off ↦ rw off (omega arith)
  | inr on ↦ rw on (omega arith)
]

donated-cons :
    (p : ℕ) (o : Op) (os : List Op) → donated p (o ∷ os) ≡ donated p (o ∷ []) + donated p os
unfolding donated
donated-cons p (take sql) os = omega arith
donated-cons p (put sql psql pstmt) os = omega arith
donated-cons p drain os = omega arith

history :
    (p : ℕ) (os : List Op) (s : Cache)
    → Inv s
    → Inv (run_ops s os).0
      × (holders p (run_ops s os).0.ord + holders p (run_ops s os).1
          ≡ holders p s.ord + donated p os)
unfolding run_ops donated holders
history p [] s inv = (inv, omega arith)
history p (o ∷ os) s inv =
    let (r, l) = run_op s o in
    let ih = history p os r (run_op-Inv s o inv) in
    (
      ih.0,
      omega (
        arith,
        ih.1,
        holders-run_op p s o inv,
        donated-cons p o os,
        holders-append p l (run_ops r os).1,
      ),
    )

pub Inv-new_stmt_cache : (capacity : ℕ) → Inv (new_stmt_cache capacity)
unfolding find_key
Inv-new_stmt_cache capacity = record {
  indexed = λ k. refl;
  distinct = tt;
  fresh = tt;
  bounded = omega arith;
}

-- After any calls on a new cache the map and the list agree, hold each key once and no more entries
-- than the capacity; and every statement is in the cache and handed back together exactly as often as
-- it was donated: none is lost, and none is handed back twice.
pub run_ops-conserves :
    (capacity p : ℕ) (os : List Op)
    → Inv (run_ops (new_stmt_cache capacity) os).0
      × (holders p (run_ops (new_stmt_cache capacity) os).0.ord
            + holders p (run_ops (new_stmt_cache capacity) os).1
          ≡ donated p os)
unfolding holders
run_ops-conserves capacity p os =
    let (shape, sum) = history p os (new_stmt_cache capacity) (Inv-new_stmt_cache capacity) in
    (shape, omega (arith, sum))
