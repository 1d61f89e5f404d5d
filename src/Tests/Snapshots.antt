-- ===== src/Tests/Snapshots.antt =====
-- The page maps and the snapshot file system of vfs/mvcc on short runs.
use sqlite.Prelude.{ℕ, ◌≤◌, ◌≡◌, refl, true, false, [], ◌∷◌, some, arith, inl}
use sqlite.Pages.{Pages, put_page, get_page, truncate_pages, read_from_pages, read_step, splice}
use sqlite.Mvcc.{
  Db, Handle, System, lock, write, sync, ok, lock_none, lock_reserved, with_handle, run, x_read,
  x_write, x_sync, x_lock, x_unlock, ensure_write_buf, read_pending,
}
use sqlite.Mvcc.Locks.{empty, opened, Reach, start, later, opens, calls, single_writer}
use sqlite.Mvcc.Reads.{x_write-x_unlock, x_write-x_sync-x_read}

-- Two runs of two bytes.
abbrev map2 : Pages
map2 = (0, 1 ∷ 2 ∷ []) ∷ (2, 3 ∷ 4 ∷ []) ∷ []

truncate_pages_test : truncate_pages 3 map2 ≡ (0, 1 ∷ 2 ∷ []) ∷ (2, 3 ∷ []) ∷ []
unfolding truncate_pages
truncate_pages_test = refl

-- Handle 0 has taken RESERVED, and handle 1 is open.
abbrev opened_two : System
opened_two =
    let one = with_handle empty 0 (opened false) empty.db in
    with_handle one 1 (opened false) empty.db

abbrev writing : System
writing = (run opened_two 0 (opened false) (lock lock_reserved)).0

abbrev writer : Handle
writer = (x_lock empty.db (opened false) lock_reserved).1

opened_two-Reach : Reach opened_two
opened_two-Reach = later (later start (opens 0 false refl)) (opens 1 false refl)

writing-Reach : Reach writing
writing-Reach = later opened_two-Reach (calls 0 (opened false) (lock lock_reserved) refl tt)

writer_there :
    (writing.handles 0 ≡ some writer) × (writer.lock_lvl ≡ 2) × (writer.snap ≡ some empty.db.snap)
unfolding run x_lock
writer_there = (refl, refl, refl)

writer_holds : lock_reserved ≤ writer.lock_lvl
writer_holds = omega (arith, writer_there.1)

single_writer_example :
    (writing.db.write_mu ≡ true) × (lock_reserved ≤ (opened false).lock_lvl → ◌≡◌ {A = ℕ} 0 1)
unfolding run
single_writer_example =
    single_writer writing-Reach 0 1 writer (opened false) writer_there.0 refl writer_holds

-- Handle 0 writes two bytes and commits.
abbrev wrote : System
wrote = (run writing 0 writer (write (7 ∷ 8 ∷ []) 0)).0

abbrev full : Handle
full = (x_write writing.db writer (7 ∷ 8 ∷ []) 0).0

abbrev committed : System
committed = (run wrote 0 full sync).0

committed_pages : committed.db.snap.pages ≡ (0, 7 ∷ 8 ∷ []) ∷ []
unfolding run x_lock x_write ensure_write_buf x_sync put_page
committed_pages = refl

-- A handle with two bytes to commit.
abbrev dirty : Handle
dirty = record (opened false) {
  write_buf = some ((0, 7 ∷ 8 ∷ []) ∷ []);
  write_sz = 2;
  has_write = true;
  lock_lvl = lock_reserved;
}

abbrev dirty_system : System
dirty_system = with_handle empty 0 dirty (record empty.db { write_mu = true })

x_write-x_unlock_example :
    (x_unlock dirty_system.db (x_write dirty_system.db dirty (5 ∷ []) 0).0 lock_none
      ≡ (record dirty_system.db { write_mu = false }, opened false))
    × (x_read
          (x_unlock dirty_system.db (x_write dirty_system.db dirty (5 ∷ []) 0).0 lock_none).0
          (x_unlock dirty_system.db (x_write dirty_system.db dirty (5 ∷ []) 0).0 lock_none).1
          2
          0
        ≡ x_read dirty_system.db (opened false) 2 0)
x_write-x_unlock_example = x_write-x_unlock dirty_system.db dirty (5 ∷ []) 0 2 0 refl (omega arith)

x_write-x_sync-x_read_example :
    x_read
      (x_sync dirty_system.db (x_write dirty_system.db dirty (5 ∷ 6 ∷ []) 2).0).0
      (opened false)
      2
      2
    ≡ (5 ∷ 6 ∷ [], ok)
unfolding put_page get_page
x_write-x_sync-x_read_example =
    x_write-x_sync-x_read dirty_system.db dirty (opened false) ((0, 7 ∷ 8 ∷ []) ∷ []) (5 ∷ 6 ∷ []) 2
      refl refl (refl, tt) ((λ _. inl (omega arith)), ((λ ne. absurd (ne refl)), tt)) (omega arith)
      refl refl

-- A handle that rewrites a page of its snapshot reads the old bytes back until it syncs: the pages of
-- the snapshot are copied over the pending ones.
abbrev published_db : Db
published_db = (x_sync dirty_system.db dirty).0

abbrev rewriting : Handle
rewriting =
    (x_write published_db
      (record (opened false) { snap = some published_db.snap; lock_lvl = lock_reserved })
      (9 ∷ 9 ∷ []) 0).0

read_own_write :
    (rewriting.write_buf ≡ some ((0, 9 ∷ 9 ∷ []) ∷ []))
    × (x_read published_db rewriting 2 0 ≡ (7 ∷ 8 ∷ [], ok))
unfolding x_sync x_write ensure_write_buf x_read read_pending put_page read_from_pages read_step
    splice
read_own_write = (refl, refl)
