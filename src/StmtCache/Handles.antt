-- ===== src/StmtCache/Handles.antt =====
-- The prepared statements that pass through the cache of stmt_cache.go.
use sqlite.Prelude.{
  ℕ, ◌+◌, ◌<◌, ◌≡◌, refl, false, List, Option, none, some, ◌==◌, if◌then◌else◌, arith, Bool-cases,
  Option-cases, inl, inr, sym, ◌∙◌, subst,
}
use sqlite.StmtCache.{Entry, Cache, drop_entry, push_entry, normalize, take_stmt, put_stmt}
use sqlite.StmtCache.Shape.{Inv, same_key_refl, find_key, holders, holders-remove_elem}
use sqlite.StmtCache.Laws.{Evicted, Outcome, put_stmt-Outcome}

-- 1 for the entry that is handed back, if it holds the statement `p`.
abbrev pub held : ℕ → Option Entry → ℕ
held p none = 0
held p (some e) = if e.pstmt == p then 1 else 0

-- `put` loses no statement: each is in the cache and handed back to the caller together as often as it
-- was in the cache and donated before.
pub holders-put_stmt :
    (s : Cache) (sql : List ℕ) (psql pstmt p : ℕ)
    → Inv s
    → holders p (put_stmt s sql psql pstmt).0.ord + held p (put_stmt s sql psql pstmt).1
      ≡ holders p s.ord + (if pstmt == p then 1 else 0)
unfolding push_entry holders put_stmt
holders-put_stmt s sql psql pstmt p inv = elim (Bool-cases (s.cap == 0)) [
  | inl off ↦ rw (put_stmt, off)
  | inr on ↦
      count (put_stmt s sql psql pstmt) (put_stmt-Outcome s sql psql pstmt inv (ground arith))
]
  where
    count :
        (r : Cache × Option Entry)
        → Outcome s (normalize sql) psql pstmt r
        → holders p r.0.ord + held p r.1 ≡ holders p s.ord + (if pstmt == p then 1 else 0)
    count (r, none) o = rw o.0 (omega arith)
    count (r, some e) o =
        let (t, is, ord, n, c) = o.2 in
        rw (is, ord) (omega (arith, holders-remove_elem p e.key s.ord e inv.distinct o.1))

-- An entry that `put` to an enabled cache hands back is the one with the same key or, of a full cache
-- without that key, the least recently used.
pub put_stmt-Evicted :
    (s : Cache) (sql : List ℕ) (psql pstmt : ℕ) (e : Entry)
    → Inv s
    → 0 < s.cap
    → (put_stmt s sql psql pstmt).1 ≡ some e
    → Evicted s (normalize sql) e
put_stmt-Evicted s sql psql pstmt e inv pos h =
    pick (put_stmt s sql psql pstmt) (put_stmt-Outcome s sql psql pstmt inv pos) h
  where
    pick :
        (r : Cache × Option Entry)
        → Outcome s (normalize sql) psql pstmt r
        → r.1 ≡ some e
        → Evicted s (normalize sql) e
    pick (r, none) o h = cc
    pick (r, some f) o h =
        let f_e : f ≡ e = ground arith in subst (Evicted s (normalize sql)) f_e o.0

-- `take` loses no statement: each is in the cache and handed out together as often as it was in the
-- cache before.
pub holders-take_stmt :
    (s : Cache) (sql : List ℕ) (p : ℕ)
    → Inv s
    → holders p (take_stmt s sql).0.ord + held p (take_stmt s sql).1 ≡ holders p s.ord
unfolding take_stmt drop_entry
holders-take_stmt s sql p inv = elim (Bool-cases (s.cap == 0)) [
  | inl off ↦ rw (take_stmt, off) (omega arith)
  | inr on ↦ elim (Option-cases (s.m (normalize sql))) [
    | inl miss ↦ rw (take_stmt, on, miss) (omega arith)
    | inr (e, hit) ↦
        let found : find_key (normalize sql) s.ord ≡ some e =
          sym (inv.indexed (normalize sql)) ∙ hit in
        rw (take_stmt, on, hit)
          (omega (arith, holders-remove_elem p (normalize sql) s.ord e inv.distinct found))
  ]
]

-- A statement that `take` hands out is gone: the next `take` of the same text finds nothing.
pub take_stmt-once :
    (s : Cache) (sql : List ℕ) (e : Entry)
    → (take_stmt s sql).1 ≡ some e
    → (take_stmt (take_stmt s sql).0 sql).1 ≡ none
unfolding take_stmt drop_entry
take_stmt-once s sql e h = elim (Bool-cases (s.cap == 0)) [
  | inl off ↦
      let z : (take_stmt s sql).1 ≡ none = rw (take_stmt, off) in
      let w : some e ≡ none = sym h ∙ z in cc
  | inr on ↦ elim (Option-cases (s.m (normalize sql))) [
    | inl miss ↦
        let z : (take_stmt s sql).1 ≡ none = rw (take_stmt, on, miss) in
        let w : some e ≡ none = sym h ∙ z in cc
    | inr (f, hit) ↦ rw (take_stmt, on, hit, same_key_refl (normalize sql), drop_entry, on)
  ]
]

-- `take` from an enabled cache that holds an entry under the key.
take_stmt-pushed :
    (t : Cache) (key sql : List ℕ) (psql pstmt n : ℕ)
    → 0 < t.cap
    → t.next ≡ n
    → normalize sql ≡ key
    → (take_stmt (push_entry t key psql pstmt) sql).1
      ≡ some (record { id = n; key = key; psql = psql; pstmt = pstmt })
unfolding take_stmt push_entry
take_stmt-pushed t key sql psql pstmt n pos next same =
    let on : (t.cap == 0) ≡ false = ground arith in
    rw (take_stmt, push_entry, on, same, same_key_refl key, next)

-- A statement donated to an enabled cache that is in order is what the next `take` of a text with the same key hands
-- out.
pub put_stmt-take_stmt :
    (s : Cache) (sql sql' : List ℕ) (psql pstmt : ℕ)
    → Inv s
    → 0 < s.cap
    → normalize sql' ≡ normalize sql
    → (take_stmt (put_stmt s sql psql pstmt).0 sql').1
      ≡ some (record { id = s.next; key = normalize sql; psql = psql; pstmt = pstmt })
put_stmt-take_stmt s sql sql' psql pstmt inv pos same =
    again (put_stmt s sql psql pstmt) (put_stmt-Outcome s sql psql pstmt inv pos)
  where
    again :
        (r : Cache × Option Entry)
        → Outcome s (normalize sql) psql pstmt r
        → (take_stmt r.0 sql').1
          ≡ some (record { id = s.next; key = normalize sql; psql = psql; pstmt = pstmt })
    again (r, none) o =
        rw o.0 (take_stmt-pushed s (normalize sql) sql' psql pstmt s.next pos refl same)
    again (r, some e) o =
        let (t, is, ord, next, cap) = o.2 in
        rw is (take_stmt-pushed t (normalize sql) sql' psql pstmt s.next (omega arith) next same)
