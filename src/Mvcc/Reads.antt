-- ===== src/Mvcc/Reads.antt =====
-- Reading, writing, committing and rolling back in vfs/mvcc.
use sqlite.Prelude.{
  ℕ, ◌+◌, ◌≤◌, ◌<◌, ◌≡◌, ◌∙◌, refl, true, false, List, none, some, leb, ltb, arith, length, max,
  Option-cases, ap, inl, inr, subst, sym,
}
use sqlite.Mvcc.Locks.{opened}
use sqlite.Pages.{Pages, get_page, put_page}
use sqlite.Pages.Laws.{
  get_page-put_page, KeysOnce, OthersApart, put_page-KeysOnce, read_from_pages-get_page,
}
use sqlite.Mvcc.{
  Db, Handle, ok, lock_none, lock_reserved, x_read, x_write, x_sync, x_unlock, ensure_write_buf,
  read_pending,
}

-- The write buffer changes neither the level of a handle nor its mode.
ensure_write_buf_same :
    (db : Db) (h : Handle)
    → ((ensure_write_buf db h).lock_lvl ≡ h.lock_lvl)
      × ((ensure_write_buf db h).read_only ≡ h.read_only)
unfolding ensure_write_buf
ensure_write_buf_same db h = elim (Option-cases h.write_buf) [
  | inl q ↦ (rw q refl, rw q refl)
  | inr (m, q) ↦ (rw q refl, rw q refl)
]

written_handle :
    (db : Db) (h : Handle) (page : List ℕ) (off : ℕ)
    → h.read_only ≡ false
    → ((x_write db h page off).0.lock_lvl ≡ h.lock_lvl)
      × ((x_write db h page off).0.read_only ≡ false)
      × ((x_write db h page off).0.has_write ≡ true)
unfolding x_write
written_handle db h page off may =
    let (level, mode) = ensure_write_buf_same db h in
    (simp may level, simp may (mode ∙ may), simp may)

rolled_back :
    (db : Db) (h : Handle)
    → h.read_only ≡ false
    → lock_reserved ≤ h.lock_lvl
    → h.has_write ≡ true
    → x_unlock db h lock_none ≡ (record db { write_mu = false }, opened false)
unfolding x_unlock
rolled_back db h may held wrote =
    let a : leb h.lock_lvl lock_none ≡ false = ground arith in
    let b : leb lock_reserved h.lock_lvl ≡ true = ground arith in
    let e : x_unlock db h lock_none
        ≡ (record db { write_mu = false }, record (opened false) { read_only = h.read_only }) =
      simp (a, b, wrote) in
    e ∙ ap (λ r. (record db { write_mu = false }, record (opened false) { read_only = r })) may

-- Rollback: when a handle that holds RESERVED or more writes and then goes down to NONE without a sync,
-- the published snapshot and the next number are the old ones, the mutex is free, and every read and the file
-- size are those of a handle that was just opened.
pub x_write-x_unlock :
    (db : Db) (h : Handle) (page : List ℕ) (off amt at : ℕ)
    → h.read_only ≡ false
    → lock_reserved ≤ h.lock_lvl
    → (x_unlock db (x_write db h page off).0 lock_none
        ≡ (record db { write_mu = false }, opened false))
      × (x_read
            (x_unlock db (x_write db h page off).0 lock_none).0
            (x_unlock db (x_write db h page off).0 lock_none).1
            amt
            at
          ≡ x_read db (opened false) amt at)
unfolding x_read
x_write-x_unlock db h page off amt at may held =
    let (level, mode, wrote) = written_handle db h page off may in
    let e = rolled_back db (x_write db h page off).0 mode (omega (arith, level)) wrote in
    (e, ap (λ (x : Db × Handle). x_read x.0 x.1 amt at) e)

-- A handle without a snapshot and pending writes reads a page of the published snapshot whole.
x_read_page :
    (db : Db) (k : Handle) (page : List ℕ) (off : ℕ)
    → k.snap ≡ none
    → k.write_buf ≡ none
    → get_page off db.snap.pages ≡ some page
    → KeysOnce db.snap.pages
    → OthersApart off (length page) db.snap.pages
    → 0 < length page
    → off + length page ≤ db.snap.size
    → x_read db k (length page) off ≡ (page, ok)
unfolding x_read read_pending
x_read_page db k page off fresh clean at once apart pos fits =
    let e = read_from_pages-get_page off page db.snap.pages at once apart pos in
    let z : ltb (max db.snap.size k.write_sz) (off + length page) ≡ false = ground arith in
    let f : ltb 0 (length page) ≡ true = ground arith in
    let g : ltb (length page) (length page) ≡ false = ground arith in
    rw (x_read, fresh, clean, read_pending, e, z, f, g)

-- What a sync after a write publishes.
published :
    (db : Db) (h : Handle) (m : Pages) (page : List ℕ) (off : ℕ)
    → h.read_only ≡ false
    → h.write_buf ≡ some m
    → ((x_sync db (x_write db h page off).0).0.snap.pages ≡ put_page off page m)
      × (off + length page ≤ (x_sync db (x_write db h page off).0).0.snap.size)
unfolding x_sync x_write ensure_write_buf
published db h m page off may buf =
    rw (x_write, ensure_write_buf, may, buf, x_sync) (ground arith, ground arith)

-- Write, commit, read: what a writer with pending writes puts at `off` and syncs, a handle without a
-- snapshot reads back whole and without an error, if no other run of the writer's buffer overlaps it.
pub x_write-x_sync-x_read :
    (db : Db) (h k : Handle) (m : Pages) (page : List ℕ) (off : ℕ)
    → h.read_only ≡ false
    → h.write_buf ≡ some m
    → KeysOnce m
    → OthersApart off (length page) (put_page off page m)
    → 0 < length page
    → k.snap ≡ none
    → k.write_buf ≡ none
    → x_read (x_sync db (x_write db h page off).0).0 k (length page) off ≡ (page, ok)
x_write-x_sync-x_read db h k m page off rw_ok buf once apart pos fresh clean =
    let db' = (x_sync db (x_write db h page off).0).0 in
    let (ps, sz) = published db h m page off rw_ok buf in
    x_read_page db' k page off fresh clean
      (rw ps (ground (arith, get_page-put_page off off page m)))
      (rw ps (put_page-KeysOnce off page m once))
      (subst (OthersApart off (length page)) (sym ps) apart) pos sz
