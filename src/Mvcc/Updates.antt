-- ===== src/Mvcc/Updates.antt =====
-- The write buffers of vfs/mvcc, in the states that SQLite's calls can reach.
use sqlite.Prelude.{ℕ, ◌+◌, ◌≤◌, ◌≡◌, true, false, List, length, none, some, ltb, if◌then◌else◌}
use sqlite.Pages.{Pages, put_page, truncate_pages}
use sqlite.Mvcc.{Snapshot, Db, Handle, System, lock_reserved}

-- The page maps and sizes that writes and truncations make of a snapshot.
pub data Edit (s : Snapshot) : Pages → ℕ → Type 0 where
  same : Edit s s.pages s.size
  put :
      {m : Pages} {z : ℕ} (page : List ℕ) (off : ℕ)
      → Edit s m z
      → Edit s (put_page off page m) (if ltb z (off + length page) then off + length page else z)
  cut : {m : Pages} {z : ℕ} (size : ℕ) → Edit s m z → Edit s (truncate_pages size m) size

-- A handle with a write buffer holds RESERVED or more and has written, and the buffer is made of the
-- published snapshot.
abbrev Pending : Snapshot → Handle → Type 0
Pending t h =
    (m : Pages)
    → h.write_buf ≡ some m
    → (lock_reserved ≤ h.lock_lvl) × (h.has_write ≡ true) × Edit t m h.write_sz

abbrev AllPending : System → Type 0
AllPending s = (i : ℕ) (h : Handle) → s.handles i ≡ some h → Pending s.db.snap h

-- What a sync publishes.
abbrev after_publish : Db → Handle → Pages → Db × Handle
after_publish db h m = (
  record db {
    snap = record { serial = db.next; pages = m; size = h.write_sz };
    next = db.next + 1;
  },
  record h { write_buf = none; has_write = false; snap = none },
)
