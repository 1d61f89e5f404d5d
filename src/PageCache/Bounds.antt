-- ===== src/PageCache/Bounds.antt =====
-- The bound of the page cache of pcache/pcache.go.
use sqlite.Prelude.{
  ℕ, zero, suc, ◌+◌, ◌≤◌, ◌≡◌, ◌≢◌, refl, true, false, List, [], ◌∷◌, ◌++◌, none, some, length, ltb,
  ◌==◌, update, arith, ◌⊎◌, inl, inr, Bool-cases, ==_refl, subst, sym,
}
use sqlite.PageCache.{
  Page, Cache, remove_elem, unlist, free_page, evict_lru, trim, x_unpin, x_pagecount,
}

-- The list holds unpinned pages, each where it says that it stands, and none twice.
abbrev pub NoBlock : ℕ → List (ℕ × ℕ) → Type 0
NoBlock b [] = Unit
NoBlock b ((f, d) ∷ l) = (d ≢ b) × NoBlock b l

abbrev pub Listed : (ℕ → Page) → List (ℕ × ℕ) → Type 0
Listed heap [] = Unit
Listed heap ((e, b) ∷ l) =
    ((heap b).elem ≡ some e) × ((heap b).pinned ≡ false) × NoBlock b l × Listed heap l

Listed-update :
    (heap : ℕ → Page) (b : ℕ) (p : Page) (l : List (ℕ × ℕ))
    → NoBlock b l
    → Listed heap l
    → Listed (update heap b p) l
Listed-update heap b p [] n v = tt
Listed-update heap b p ((e, d) ∷ l) n v =
    let ne : (d == b) ≡ false = ground (arith, n.0) in
    (rw ne v.0, rw ne v.1, v.2, Listed-update heap b p l n.1 v.3)

-- An eviction takes the front of the list, and leaves a list of the same kind.
evict_lru-Listed :
    (c : Cache) (e b : ℕ) (l : List (ℕ × ℕ))
    → c.lru ≡ (e, b) ∷ l
    → Listed c.heap ((e, b) ∷ l)
    → ((evict_lru c).1 ≡ true)
      × ((evict_lru c).0.lru ≡ l)
      × ((evict_lru c).0.max_pages ≡ c.max_pages)
      × Listed (evict_lru c).0.heap l
unfolding evict_lru free_page unlist remove_elem
evict_lru-Listed c e b l front v =
    rw (evict_lru, front, free_page, unlist, v.0, front, ==_refl e)
      (refl, refl, refl, Listed-update c.heap b (record (c.heap b) { elem = none }) l v.2 v.3)

-- In a cache whose list is in order, an eviction leaves a pinned page as it was, and registered.
pub evict_lru-pinned :
    (c : Cache) (x : ℕ)
    → Listed c.heap c.lru
    → (c.heap x).pinned ≡ true
    → ((evict_lru c).0.heap x ≡ c.heap x) × ((evict_lru c).0.by_ptr x ≡ c.by_ptr x)
unfolding evict_lru free_page unlist
evict_lru-pinned c x v p = split c.lru refl v
  where
    split :
        (q : List (ℕ × ℕ))
        → c.lru ≡ q
        → Listed c.heap q
        → ((evict_lru c).0.heap x ≡ c.heap x) × ((evict_lru c).0.by_ptr x ≡ c.by_ptr x)
    split [] at w = rw (evict_lru, at) (refl, refl)
    split ((e, b) ∷ l) at w =
        let ne : (x == b) ≡ false = elim (Bool-cases (x == b)) [
          | inl same ↦
              let x_b : x ≡ b = ground arith in
              let u : (c.heap x).pinned ≡ false = rw x_b w.1 in absurd (ground arith)
          | inr other ↦ other
        ] in
        rw (evict_lru, at, free_page, unlist, w.0, ne) (refl, refl)

-- What the loop of `xUnpin` ends with: the cache is within its bound, or no page is left to evict.
abbrev pub Trimmed : ℕ → Cache → Type 0
Trimmed bound c = (x_pagecount c ≤ bound) ⊎ (c.lru ≡ [])

trim-Trimmed :
    (n : ℕ) (c : Cache) → Listed c.heap c.lru → length c.lru ≤ n → Trimmed c.max_pages (trim n c)
unfolding trim evict_lru x_pagecount
trim-Trimmed zero c v h = inr (empty c.lru h)
  where
    empty : (l : List (ℕ × ℕ)) → length l ≤ 0 → l ≡ []
    empty [] h = refl
    empty (x ∷ l) h = absurd (omega arith)
trim-Trimmed (suc n) c v h = elim (Bool-cases (ltb c.max_pages (length c.by_key))) [
  | inr fits ↦ rw fits (inl (ground arith))
  | inl over ↦ split over c.lru refl v h (λ d. trim-Trimmed n d)
]
  where
    split :
        ltb c.max_pages (length c.by_key) ≡ true
        → (q : List (ℕ × ℕ)) → c.lru ≡ q
        → Listed c.heap q
        → length q ≤ suc n
        → ((d : Cache) → Listed d.heap d.lru → length d.lru ≤ n → Trimmed d.max_pages (trim n d))
        → Trimmed c.max_pages (trim (suc n) c)
    split over [] at w le ih =
        let none_left : (evict_lru c).1 ≡ false = rw (evict_lru, at) in
        rw (over, none_left) (inr at)
    split over ((e, b) ∷ l) at w le ih =
        let (took, rest, same, v') = evict_lru-Listed c e b l at w in
        let d = (evict_lru c).0 in
        rw (over, took)
          (subst (λ m. Trimmed m (trim n d)) same
            (ih d (subst (Listed d.heap) (sym rest) v') (rw rest (omega arith))))

NoBlock-append :
    (d e b : ℕ) (l : List (ℕ × ℕ)) → b ≢ d → NoBlock d l → NoBlock d (l ++ ((e, b) ∷ []))
NoBlock-append d e b [] ne n = (ne, tt)
NoBlock-append d e b (x ∷ l) ne n = (n.0, NoBlock-append d e b l ne n.1)

Listed-append :
    (heap : ℕ → Page) (e b : ℕ) (l : List (ℕ × ℕ))
    → NoBlock b l
    → (heap b).elem ≡ some e
    → (heap b).pinned ≡ false
    → Listed heap l
    → Listed heap (l ++ ((e, b) ∷ []))
Listed-append heap e b [] n p q v = (p, q, tt, tt)
Listed-append heap e b ((f, d) ∷ l) n p q v =
    (v.0, v.1, NoBlock-append d e b l (λ h. n.0 (sym h)) v.2, Listed-append heap e b l n.1 p q v.3)

-- Once SQLite has released a pinned page of a cache whose list is in order, the cache is within its
-- bound, or no page is left to evict: the loop of the source ends.
pub x_unpin-Trimmed :
    (c : Cache) (b : ℕ)
    → Listed c.heap c.lru
    → NoBlock b c.lru
    → c.by_ptr b ≡ true
    → Trimmed c.max_pages (x_unpin c b false)
unfolding x_unpin
x_unpin-Trimmed c b v n there =
    let free : Page = record (c.heap b) { pinned = false } in
    let heap1 = update c.heap b free in
    let last : Page = record (heap1 b) { elem = some c.next_elem } in
    let heap = update heap1 b last in
    let lru = c.lru ++ ((c.next_elem, b) ∷ []) in
    let own1 : heap1 b ≡ free = rw (==_refl b) in
    let own : heap b ≡ last = rw (==_refl b) in
    let listed : Listed heap lru =
      Listed-append heap c.next_elem b c.lru n (rw own) (rw (own, own1))
        (Listed-update heap1 b last c.lru n (Listed-update c.heap b free c.lru n v)) in
    let e : Cache = record c { heap = heap; lru = lru; next_elem = c.next_elem + 1 } in
    rw there (trim-Trimmed (length lru) e listed (omega arith))
