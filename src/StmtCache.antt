-- ===== src/StmtCache.antt =====
-- The cache of prepared statements, stmt_cache.go. A string is the list of its code points. Entries and
-- list elements are pointers in the source, one element for one entry: both are the number `id` that
-- the entry was made with. Addresses (psql, pstmt) are plain numbers.
pub mod Shape
pub mod Laws
pub mod Handles
pub mod History
use sqlite.Prelude.{
  ℕ, ◌+◌, Bool, true, false, List, [], ◌∷◌, reverse, Option, none, some, length, leb, ◌==◌,
  if◌then◌else◌, ◌||◌, ◌&&◌,
}

-- `unicode.IsSpace`
unfoldable pub is_space : ℕ → Bool
is_space c =
    leb 9 c && leb c 13
    || (c == 0x20
        || c == 0x85
        || c == 0xa0
        || c == 0x1680
        || leb 0x2000 c && leb c 0x200a
        || c == 0x2028
        || c == 0x2029
        || c == 0x202f
        || c == 0x205f
        || c == 0x3000)

unfoldable pub trim_left : List ℕ → List ℕ
unfolding is_space
trim_left [] = []
trim_left (c ∷ s) = let rest = trim_left s in if is_space c then rest else c ∷ s

-- `normalize`, which is `strings.TrimSpace`
unfoldable pub normalize : List ℕ → List ℕ
unfolding trim_left
normalize sql = reverse (trim_left (reverse (trim_left sql)))

-- The equality of keys.
unfoldable pub same_key : List ℕ → List ℕ → Bool
same_key [] [] = true
same_key (a ∷ s) (b ∷ t) = let rest = same_key s t in if a == b then rest else false
same_key _ _ = false

pub record Entry : Type 0 where
  pub id : ℕ
  pub key : List ℕ
  pub psql : ℕ
  pub pstmt : ℕ

-- `ord` is front first: the most recently used entry. `next` is the number of the next entry.
pub record Cache : Type 0 where
  pub cap : ℕ
  pub m : List ℕ → Option Entry
  pub ord : List Entry
  pub next : ℕ
  pub hits : ℕ
  pub misses : ℕ
  pub evictions : ℕ

-- `newStmtCache`; a capacity of 0 stands for all that are not positive.
abbrev pub new_stmt_cache : ℕ → Cache
new_stmt_cache capacity = record {
  cap = capacity;
  m = λ _. none;
  ord = [];
  next = 0;
  hits = 0;
  misses = 0;
  evictions = 0;
}

-- `delete(s.m, key)`
abbrev pub delete_key : List ℕ → (List ℕ → Option Entry) → List ℕ → Option Entry
delete_key key m k = if same_key key k then none else m k

-- `s.ord.Remove(elem)`
unfoldable pub remove_elem : ℕ → List Entry → List Entry
remove_elem id [] = []
remove_elem id (e ∷ l) = let rest = remove_elem id l in if e.id == id then l else e ∷ rest

-- `s.ord.Back()`
unfoldable pub back : List Entry → Option Entry
back [] = none
back (e ∷ []) = some e
back (e ∷ f ∷ l) = back (f ∷ l)

-- The entry out of the map and the list.
unfoldable pub drop_entry : Cache → List ℕ → Entry → Cache
unfolding remove_elem
drop_entry s key e = record s { m = delete_key key s.m; ord = remove_elem e.id s.ord }

-- `entry := ...; entry.elem = s.ord.PushFront(entry); s.m[key] = entry`
unfoldable pub push_entry : Cache → List ℕ → ℕ → ℕ → Cache
push_entry s key psql pstmt =
    let e : Entry = record { id = s.next; key = key; psql = psql; pstmt = pstmt } in
    record s {
      m = λ k. if same_key key k then some e else s.m k;
      ord = e ∷ s.ord;
      next = s.next + 1;
    }

-- `take`
unfoldable pub take_stmt : Cache → List ℕ → Cache × Option Entry
unfolding drop_entry
take_stmt s sql =
    let key = normalize sql in
    if s.cap == 0 then (s, none) else (elim (s.m key) [
      | none ↦ (record s { misses = s.misses + 1 }, none)
      | some e ↦ (drop_entry (record s { hits = s.hits + 1 }) key e, some e)
    ])

-- `put`, and the entry that it evicts.
unfoldable pub put_stmt : Cache → List ℕ → ℕ → ℕ → Cache × Option Entry
unfolding drop_entry push_entry back
put_stmt s sql psql pstmt =
    let key = normalize sql in
    if s.cap == 0
    then (s, some (record { id = s.next; key = sql; psql = psql; pstmt = pstmt }))
    else (elim (s.m key) [
      | some old ↦ (push_entry (drop_entry s key old) key psql pstmt, some old)
      | none ↦
          if leb s.cap (length s.ord)
          then (elim (back s.ord) [
            | none ↦ (s, none)
            | some oldest ↦ (
              push_entry (record (drop_entry s oldest.key oldest) { evictions = s.evictions + 1 })
                  key psql pstmt,
              some oldest,
            )
          ])
          else (push_entry s key psql pstmt, none)
    ])

-- `drainAll`
unfoldable pub drain_all : Cache → Cache × List Entry
drain_all s = if s.cap == 0 then (s, []) else (record s { m = λ _. none; ord = [] }, s.ord)
