-- ===== src/PageCache.antt =====
-- The bounded page cache of pcache/pcache.go. A page is known by the address of its C block; `heap` has
-- the fields of the page of each block, `by_ptr` says which blocks are registered, and `by_key` is the
-- map from page number to block. An element of the list `lru` is a number and the block in it; the
-- front is the least recently used page. What libc.Xcalloc returns, 0 on failure, is an argument.
pub mod Bounds
use sqlite.Prelude.{
  ℕ, zero, suc, ◌+◌, ◌-◌, Bool, true, false, List, [], ◌∷◌, Option, none, some, length, ltb, leb,
  ◌==◌, if◌then◌else◌, ◌&&◌, ◌++◌, not, update,
}

pub record Page : Type 0 where
  pub key : ℕ
  pub pinned : Bool
  pub elem : Option ℕ

pub record Stats : Type 0 where
  pub hits : ℕ
  pub misses : ℕ
  pub evictions : ℕ
  pub pages : ℕ

pub record Cache : Type 0 where
  pub max_pages : ℕ
  pub by_key : List (ℕ × ℕ)
  pub by_ptr : ℕ → Bool
  pub heap : ℕ → Page
  pub lru : List (ℕ × ℕ)
  pub next_elem : ℕ
  pub stats : Stats

unfoldable pub lookup_key : ℕ → List (ℕ × ℕ) → Option ℕ
lookup_key k [] = none
lookup_key k ((j, b) ∷ m) = let rest = lookup_key k m in if j == k then some b else rest

unfoldable pub delete_key : ℕ → List (ℕ × ℕ) → List (ℕ × ℕ)
delete_key k [] = []
delete_key k ((j, b) ∷ m) = let rest = delete_key k m in if j == k then rest else (j, b) ∷ rest

-- `c.byKey[k] = p`
unfoldable pub set_key : ℕ → ℕ → List (ℕ × ℕ) → List (ℕ × ℕ)
unfolding delete_key
set_key k b m = (k, b) ∷ delete_key k m

-- `c.lru.Remove(elem)`
unfoldable pub remove_elem : ℕ → List (ℕ × ℕ) → List (ℕ × ℕ)
remove_elem e [] = []
remove_elem e ((f, b) ∷ l) = let rest = remove_elem e l in if f == e then l else (f, b) ∷ rest

-- The page off the list, if it stands there.
unfoldable pub unlist : Cache → ℕ → Cache
unfolding remove_elem
unlist c b = elim (c.heap b).elem [
  | none ↦ c
  | some e ↦ record c {
    lru = remove_elem e c.lru;
    heap = update c.heap b (record (c.heap b) { elem = none });
  }
]

-- `allocPage`, with the block that the allocation returned.
unfoldable pub alloc_page : Cache → ℕ → ℕ → Cache × ℕ
unfolding set_key
alloc_page c key block = if block == 0 then (c, 0) else (
  record c {
    by_key = set_key key block c.by_key;
    by_ptr = update c.by_ptr block true;
    heap = update c.heap block (record { key = key; pinned = true; elem = none });
    stats = record c.stats { pages = c.stats.pages + 1 };
  },
  block,
)

-- `freePage`
unfoldable pub free_page : Cache → ℕ → Cache
unfolding unlist delete_key
free_page c b =
    let d = unlist c b in
    record d {
      by_key = delete_key (c.heap b).key d.by_key;
      by_ptr = update d.by_ptr b false;
      stats = record d.stats { pages = d.stats.pages - 1 };
    }

-- `evictLRU`
unfoldable pub evict_lru : Cache → Cache × Bool
unfolding free_page
evict_lru c = elim c.lru [
  | [] ↦ (c, false)
  | (e, b) ∷ l ↦
      let d = free_page c b in
      (record d { stats = record d.stats { evictions = d.stats.evictions + 1 } }, true)
]

unfoldable pub x_pagecount : Cache → ℕ
x_pagecount c = length c.by_key

-- `xFetch`: the block that it returns, 0 for none. `create_flag` is 0, 1 or 2.
unfoldable pub x_fetch : Cache → ℕ → ℕ → ℕ → Cache × ℕ
unfolding unlist lookup_key evict_lru alloc_page
x_fetch c key create_flag block = elim (lookup_key key c.by_key) [
  | some b ↦
      let d = if (c.heap b).pinned then c else unlist c b in
      (
        record d {
          heap = update d.heap b (record (d.heap b) { pinned = true });
          stats = record d.stats { hits = d.stats.hits + 1 };
        },
        b,
      )
  | none ↦
      let d = record c { stats = record c.stats { misses = c.stats.misses + 1 } } in
      let (d', gone) = evict_lru d in
      if create_flag == 0
      then (d, 0)
      else if leb d.max_pages (length d.by_key)
      then if not gone && create_flag == 1 then (d', 0) else alloc_page d' key block
      else alloc_page d key block
]

-- The loop of `xUnpin`, on fuel; Bounds.antt shows that the length of the list is enough.
unfoldable pub trim : ℕ → Cache → Cache
unfolding evict_lru
trim zero c = c
trim (suc n) c =
    let (d, gone) = evict_lru c in
    let rest = trim n d in
    if ltb c.max_pages (length c.by_key) then (if gone then rest else c) else c

-- `xUnpin`
unfoldable pub x_unpin : Cache → ℕ → Bool → Cache
unfolding free_page trim
x_unpin c b discard =
    let d = record c { heap = update c.heap b (record (c.heap b) { pinned = false }) } in
    let e = record d {
      heap = update d.heap b (record (d.heap b) { elem = some d.next_elem });
      lru = d.lru ++ ((d.next_elem, b) ∷ []);
      next_elem = d.next_elem + 1;
    } in
    if not (c.by_ptr b) then c else if discard then free_page d b else trim (length e.lru) e

-- `xRekey`
unfoldable pub x_rekey : Cache → ℕ → ℕ → ℕ → Cache
unfolding free_page set_key delete_key lookup_key
x_rekey c b old_key new_key =
    let d : Cache = elim (lookup_key new_key c.by_key) [
      | none ↦ c
      | some x ↦ if x == b then c else free_page c x
    ] in
    if not (c.by_ptr b) then c else record d {
      by_key = set_key new_key b (delete_key old_key d.by_key);
      heap = update d.heap b (record (d.heap b) { key = new_key });
    }

-- `xTruncate`: the loop over the pairs that the map had.
unfoldable pub truncate_loop : ℕ → List (ℕ × ℕ) → Cache → Cache
unfolding free_page
truncate_loop limit [] c = c
truncate_loop limit ((k, b) ∷ m) c =
    truncate_loop limit m (if leb limit k then free_page c b else c)

unfoldable pub x_truncate : Cache → ℕ → Cache
unfolding truncate_loop
x_truncate c limit = truncate_loop limit c.by_key c

-- `xShrink`, on fuel.
unfoldable pub shrink_loop : ℕ → Cache → Cache
unfolding evict_lru
shrink_loop zero c = c
shrink_loop (suc n) c =
    let (d, gone) = evict_lru c in let rest = shrink_loop n d in if gone then rest else d

unfoldable pub x_shrink : Cache → Cache
unfolding shrink_loop
x_shrink c = shrink_loop (length c.lru) c
