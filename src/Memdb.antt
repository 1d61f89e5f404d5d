-- ===== src/Memdb.antt =====
-- The shared in-memory file system of vfs/memdb: one page map for all handles of a database, and the
-- reference counts of the named databases. A name is the list of its code points. A database is known by a
-- number, as the source compares pointers.
pub mod Sharing
use sqlite.Prelude.{
  ℕ, ◌+◌, ◌-◌, Bool, true, false, List, [], ◌∷◌, Option, none, some, length, replicate, ltb, ◌==◌,
  if◌then◌else◌, update, ◌||◌, ◌&&◌, not,
}
use sqlite.Pages.{Pages, put_page, truncate_pages, read_from_pages}

pub record Db : Type 0 where
  pub name : List ℕ
  pub pages : Pages
  pub size : ℕ
  pub refs : ℕ

pub data Code : Type 0 where
  ok readonly short_read : Code

-- `xRead`
unfoldable pub x_read : Db → ℕ → ℕ → List ℕ × Code
x_read db amt off =
    let end = off + amt in
    let (dst, n) = read_from_pages db.pages off end (replicate amt 0, 0) in
    (dst, if ltb db.size end then short_read else if ltb n amt then short_read else ok)

-- `xWrite`
unfoldable pub x_write : Db → Bool → List ℕ → ℕ → Db × Code
x_write db read_only page off = if read_only then (db, readonly) else (
  record db {
    pages = put_page off page db.pages;
    size = if ltb db.size (off + length page) then off + length page else db.size;
  },
  ok,
)

-- `xTruncate`
unfoldable pub x_truncate : Db → Bool → ℕ → Db × Code
x_truncate db read_only size =
    if read_only
    then (db, readonly)
    else (record db { pages = truncate_pages size db.pages; size = size }, ok)

unfoldable pub x_file_size : Db → ℕ
x_file_size db = db.size

-- `strings.HasPrefix` and `strings.TrimPrefix`
unfoldable pub has_prefix : List ℕ → List ℕ → Bool
has_prefix [] s = true
has_prefix (a ∷ p) [] = false
has_prefix (a ∷ p) (b ∷ s) = let rest = has_prefix p s in if a == b then rest else false

unfoldable pub drop_prefix : List ℕ → List ℕ → List ℕ
drop_prefix [] s = s
drop_prefix (a ∷ p) [] = []
drop_prefix (a ∷ p) (b ∷ s) = drop_prefix p s

unfoldable pub trim_prefix : List ℕ → List ℕ → List ℕ
unfolding has_prefix drop_prefix
trim_prefix p s = if has_prefix p s then drop_prefix p s else s

-- `strings.TrimLeft(key, "/")`
unfoldable pub trim_slashes : List ℕ → List ℕ
trim_slashes [] = []
trim_slashes (b ∷ s) = let rest = trim_slashes s in if b == b'/' then rest else b ∷ s

-- "file:"
abbrev pub file_scheme : List ℕ
file_scheme = b'f' ∷ b'i' ∷ b'l' ∷ b'e' ∷ b':' ∷ []

abbrev pub is_shared : List ℕ → Bool
is_shared name =
    has_prefix (b'/' ∷ []) name || has_prefix (b'f' ∷ b'i' ∷ b'l' ∷ b'e' ∷ b':' ∷ b'/' ∷ []) name

unfoldable pub shared_key : List ℕ → List ℕ
unfolding trim_prefix trim_slashes
shared_key name = trim_slashes (trim_prefix file_scheme name)

unfoldable pub same_name : List ℕ → List ℕ → Bool
same_name [] [] = true
same_name (a ∷ s) (b ∷ t) = let rest = same_name s t in if a == b then rest else false
same_name _ _ = false

-- `FS`: the named databases, every database by its number, and the next number.
pub record Fs : Type 0 where
  pub mem_dbs : List ℕ → Option ℕ
  pub dbs : ℕ → Db
  pub next : ℕ

abbrev pub new_db : List ℕ → Db
new_db name = record { name = name; pages = []; size = 0; refs = 0 }

abbrev pub add_ref : Fs → ℕ → Fs
add_ref f d = record f { dbs = update f.dbs d (record (f.dbs d) { refs = (f.dbs d).refs + 1 }) }

-- `acquireDB`: the number of the database, and whether it is shared.
unfoldable pub acquire_db : Fs → List ℕ → Fs × ℕ × Bool
unfolding shared_key has_prefix same_name
acquire_db f name =
    let key = shared_key name in
    if is_shared name
    then (elim (f.mem_dbs key) [
      | some d ↦ (add_ref f d, d, true)
      | none ↦ (
        add_ref
            (record f {
              mem_dbs = λ k. if same_name key k then some f.next else f.mem_dbs k;
              dbs = update f.dbs f.next (new_db key);
              next = f.next + 1;
            })
            f.next,
        f.next,
        true,
      )
    ])
    else (
      add_ref (record f { dbs = update f.dbs f.next (new_db name); next = f.next + 1 }) f.next,
      f.next,
      false,
    )

-- `cur, ok := f.memDBs[db.name]; ok && cur == db`
abbrev pub names : Fs → ℕ → Bool
names f d = elim (f.mem_dbs (f.dbs d).name) [ none ↦ false | some e ↦ e == d ]

-- `releaseDB`
unfoldable pub release_db : Fs → ℕ → Bool → Fs
unfolding same_name
release_db f d shared =
    let g = record f { dbs = update f.dbs d (record (f.dbs d) { refs = (f.dbs d).refs - 1 }) } in
    if not shared
    then g
    else if (g.dbs d).refs == 0 && names g d
    then record g { mem_dbs = λ k. if same_name (f.dbs d).name k then none else g.mem_dbs k }
    else g
