-- ===== src/Tests/Caches.antt =====
-- The page cache of pcache/pcache.go on a small cache.
use sqlite.Prelude.{◌≡◌, refl, true, false, [], ◌∷◌, some, none, update}
use sqlite.PageCache.{
  Cache, x_fetch, x_unpin, evict_lru, free_page, unlist, remove_elem, alloc_page, set_key,
  delete_key, lookup_key, trim, x_pagecount,
}
use sqlite.PageCache.Bounds.{Trimmed, x_unpin-Trimmed}

abbrev new_cache : Cache
new_cache = record {
  max_pages = 1;
  by_key = [];
  by_ptr = λ _. false;
  heap = λ _. record { key = 0; pinned = false; elem = none };
  lru = [];
  next_elem = 0;
  stats = record { hits = 0; misses = 0; evictions = 0; pages = 0 };
}

-- Pages 5 and 6 are fetched, in blocks 100 and 200; then the first is released.
abbrev two_pages : Cache
two_pages = (x_fetch (x_fetch new_cache 5 2 100).0 6 2 200).0

abbrev released : Cache
released = record two_pages {
  heap = update two_pages.heap 100 (record { key = 5; pinned = false; elem = some 0 });
  lru = (0, 100) ∷ [];
  next_elem = 1;
}

program : Unit {0}
unfolding x_fetch x_unpin evict_lru free_page unlist remove_elem alloc_page set_key delete_key
    lookup_key trim x_pagecount
program = tt

fetch_test :
    (x_pagecount two_pages ≡ 2)
    × ((x_fetch two_pages 5 0 0).1 ≡ 100)
    × ((x_fetch two_pages 7 0 300).1 ≡ 0)
    × ((x_fetch two_pages 7 1 300).1 ≡ 0)
    × (two_pages.by_ptr 100 ≡ true)
    × ((x_unpin two_pages 100 false).by_key ≡ (6, 200) ∷ [])
    × (two_pages.lru ≡ [])
    × ((two_pages.heap 200).pinned ≡ true)
unfolding program
fetch_test = (refl, refl, refl, refl, refl, refl, refl, refl)

x_unpin-Trimmed_example : Trimmed 1 (x_unpin two_pages 100 false)
unfolding program
x_unpin-Trimmed_example = x_unpin-Trimmed two_pages 100 tt tt fetch_test.4
