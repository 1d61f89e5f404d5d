-- ===== src/StmtCache/Laws.antt =====
-- The operations of the statement cache of stmt_cache.go, one by one.
use sqlite.Prelude.{
  ℕ, ◌+◌, ◌≤◌, ◌<◌, ◌≡◌, refl, false, List, Option, none, some, length, leb, ◌==◌, arith,
  Bool-cases, Option-cases, inl, inr, ◌⊎◌, sym, ◌∙◌, subst,
}
use sqlite.StmtCache.{
  Entry, Cache, same_key, remove_elem, back, drop_entry, push_entry, normalize, take_stmt, put_stmt,
}
use sqlite.StmtCache.Shape.{
  Inv, same_key_refl, same_key_eq, find_key, find_key-key, find_key-back, back-some, drop_entry-Inv,
  push_entry-Inv,
}

-- `take` keeps the map and the list in agreement, each key once, within the capacity.
pub take_stmt-Inv : (s : Cache) (sql : List ℕ) → Inv s → Inv (take_stmt s sql).0
unfolding take_stmt
take_stmt-Inv s sql inv = elim (Bool-cases (s.cap == 0)) [
  | inl off ↦ rw (take_stmt, off) inv
  | inr on ↦ elim (Option-cases (s.m (normalize sql))) [
    | inl miss ↦
        rw (take_stmt, on, miss)
          (record {
            indexed = inv.indexed;
            distinct = inv.distinct;
            fresh = inv.fresh;
            bounded = inv.bounded;
          })
    | inr (e, hit) ↦
        let counted : Inv (record s { hits = s.hits + 1 }) = record {
          indexed = inv.indexed;
          distinct = inv.distinct;
          fresh = inv.fresh;
          bounded = inv.bounded;
        } in
        rw (take_stmt, on, hit)
          (drop_entry-Inv (record s { hits = s.hits + 1 }) (normalize sql) e counted hit).0
  ]
]

-- `put` keeps the map and the list in agreement, each key once, within the capacity.
pub put_stmt-Inv :
    (s : Cache) (sql : List ℕ) (psql pstmt : ℕ) → Inv s → Inv (put_stmt s sql psql pstmt).0
unfolding put_stmt drop_entry
put_stmt-Inv s sql psql pstmt inv = elim (Bool-cases (s.cap == 0)) [
  | inl off ↦ rw (put_stmt, off) inv
  | inr on ↦
      let key = normalize sql in
      elim (Option-cases (s.m key)) [
        | inr (e, hit) ↦
            let d = drop_entry-Inv s key e inv hit in
            let gone : (drop_entry s key e).m key ≡ none = rw (same_key_refl key) in
            rw (put_stmt, on, hit) (push_entry-Inv (drop_entry s key e) key psql pstmt d.0 gone d.1)
        | inl miss ↦ elim (Bool-cases (leb s.cap (length s.ord))) [
          | inr room ↦
              rw (put_stmt, on, miss, room)
                (push_entry-Inv s key psql pstmt inv miss (ground arith))
          | inl full ↦ elim (Option-cases (back s.ord)) [
            | inl empty ↦ rw (put_stmt, on, miss, full, empty) inv
            | inr (e, last) ↦
                let found : s.m e.key ≡ some e =
                  inv.indexed e.key ∙ find_key-back s.ord e inv.distinct last in
                let d = drop_entry-Inv s e.key e inv found in
                let gone : (drop_entry s e.key e).m key ≡ none =
                  elim (Bool-cases (same_key e.key key)) [ inl k ↦ rw k | inr k ↦ rw (k, miss) ] in
                let t = record (drop_entry s e.key e) { evictions = s.evictions + 1 } in
                let counted : Inv t = record {
                  indexed = d.0.indexed;
                  distinct = d.0.distinct;
                  fresh = d.0.fresh;
                  bounded = d.0.bounded;
                } in
                rw (put_stmt, on, miss, full, last)
                  (push_entry-Inv t key psql pstmt counted gone d.1)
          ]
        ]
      ]
]

-- The entry that `put` pushes out: the one with the same key, or the least recently used of a cache
-- that is full.
abbrev pub Evicted : Cache → List ℕ → Entry → Type 0
Evicted s key e =
    (s.m key ≡ some e) ⊎ (s.m key ≡ none) × (s.cap ≤ length s.ord) × (back s.ord ≡ some e)

-- What `put` to an enabled cache does, by the three cases of its code.
abbrev pub Outcome : Cache → List ℕ → ℕ → ℕ → Cache × Option Entry → Type 0
Outcome s key psql pstmt (r, none) =
    (r ≡ push_entry s key psql pstmt) × (s.m key ≡ none) × (length s.ord < s.cap)
Outcome s key psql pstmt (r, some e) =
    Evicted s key e
    × (find_key e.key s.ord ≡ some e)
    × ((t : Cache) × (r ≡ push_entry t key psql pstmt)
        × (t.ord ≡ remove_elem e.id s.ord)
        × (t.next ≡ s.next)
        × (t.cap ≡ s.cap))

pub put_stmt-Outcome :
    (s : Cache) (sql : List ℕ) (psql pstmt : ℕ)
    → Inv s
    → 0 < s.cap
    → Outcome s (normalize sql) psql pstmt (put_stmt s sql psql pstmt)
unfolding put_stmt drop_entry
put_stmt-Outcome s sql psql pstmt inv pos =
    let key = normalize sql in
    let on : (s.cap == 0) ≡ false = ground arith in
    elim (Option-cases (s.m key)) [
      | inr (e, hit) ↦
          let found : find_key key s.ord ≡ some e = sym (inv.indexed key) ∙ hit in
          let k_e = same_key_eq e.key key (find_key-key key s.ord e found) in
          rw (put_stmt, on, hit)
            (
              inl hit,
              subst (λ k. find_key k s.ord ≡ some e) (sym k_e) found,
              (drop_entry s key e, refl, refl, refl, refl),
            )
      | inl miss ↦ elim (Bool-cases (leb s.cap (length s.ord))) [
        | inr room ↦ rw (put_stmt, on, miss, room) (refl, miss, ground arith)
        | inl full ↦
            let (e, last) = back-some s.ord (ground arith) in
            rw (put_stmt, on, miss, full, last)
              (
                inr (miss, ground arith, last),
                find_key-back s.ord e inv.distinct last,
                (
                  record (drop_entry s e.key e) { evictions = s.evictions + 1 },
                  refl,
                  refl,
                  refl,
                  refl,
                ),
              )
      ]
    ]
