-- ===== src/Memdb/Sharing.antt =====
-- The sharing of databases by name in vfs/memdb, and its page map.
use sqlite.Prelude.{
  ℕ, ◌+◌, ◌<◌, ◌≡◌, refl, true, false, List, [], ◌∷◌, some, length, ltb, if◌then◌else◌, arith,
  Bool-cases, Option-cases, inl, inr, update,
}
use sqlite.Pages.{put_page}
use sqlite.Pages.Laws.{
  get_page-put_page, KeysOnce, OthersApart, put_page-KeysOnce, read_from_pages-get_page,
}
use sqlite.Memdb.{
  Db, Fs, ok, x_read, x_write, acquire_db, shared_key, same_name, is_shared, add_ref, new_db,
}

-- What a handle writes at `off` any handle reads back whole at once, if no other run of the map
-- overlaps it.
pub x_write-x_read :
    (db : Db) (page : List ℕ) (off : ℕ)
    → KeysOnce db.pages
    → OthersApart off (length page) (put_page off page db.pages)
    → 0 < length page
    → x_read (x_write db false page off).0 (length page) off ≡ (page, ok)
unfolding x_read x_write
x_write-x_read db page off once apart pos =
    let e =
      read_from_pages-get_page off page (put_page off page db.pages)
        (ground (arith, get_page-put_page off off page db.pages))
        (put_page-KeysOnce off page db.pages once) apart pos in
    let f : ltb (length page) (length page) ≡ false = ground arith in
    elim (Bool-cases (ltb db.size (off + length page))) [
      | inl grow ↦
          let z : ltb (off + length page) (off + length page) ≡ false = ground arith in
          rw (grow, e, z, f)
      | inr stay ↦ rw (stay, e, stay, f)
    ]

same_name_refl : (s : List ℕ) → same_name s s ≡ true
unfolding same_name
same_name_refl [] = refl
same_name_refl (a ∷ s) = ground (arith, same_name_refl s)

-- The first open of a shared name.
abbrev opened : Fs → List ℕ → Fs
opened f name =
    add_ref
      (record f {
        mem_dbs = λ k. if same_name (shared_key name) k then some f.next else f.mem_dbs k;
        dbs = update f.dbs f.next (new_db (shared_key name));
        next = f.next + 1;
      })
      f.next

-- Two opens of shared names with the same key, one after the other, get the same database, and the
-- second adds one reference to it.
pub acquire_db-shared :
    (f : Fs) (name name' : List ℕ)
    → is_shared name ≡ true
    → is_shared name' ≡ true
    → shared_key name' ≡ shared_key name
    → ((acquire_db (acquire_db f name).0 name').1 ≡ (acquire_db f name).1)
      × (((acquire_db (acquire_db f name).0 name').0.dbs (acquire_db f name).1).refs
          ≡ ((acquire_db f name).0.dbs (acquire_db f name).1).refs + 1)
unfolding acquire_db
acquire_db-shared f name name' sh sh' same = elim (Option-cases (f.mem_dbs (shared_key name))) [
  | inr (d, old) ↦
      let first : acquire_db f name ≡ (add_ref f d, d, true) = rw (acquire_db, sh, old) in
      rw (first, acquire_db, sh', same, old) (refl, ground arith)
  | inl fresh ↦
      let first : acquire_db f name ≡ (opened f name, f.next, true) = rw (acquire_db, sh, fresh) in
      rw (first, acquire_db, sh', same, same_name_refl (shared_key name)) (refl, ground arith)
]
