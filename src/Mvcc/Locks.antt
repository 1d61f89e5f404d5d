-- ===== src/Mvcc/Locks.antt =====
-- The writers of vfs/mvcc, in the states that SQLite's calls can reach.
use sqlite.Prelude.{ℕ, ◌≤◌, ◌<◌, ◌≡◌, Bool, true, false, List, [], none, some, arith}
use sqlite.Mvcc.{
  Snapshot, Handle, System, Call, lock, unlock, write, truncate, sync, close, lock_none,
  lock_reserved, x_write, x_truncate, x_sync, x_lock, x_unlock, x_close, run, with_handle,
}

pub record Inv (s : System) : Type 0 where
  pub mutex :
      (i : ℕ) (h : Handle)
      → s.handles i ≡ some h
      → lock_reserved ≤ h.lock_lvl
      → s.db.write_mu ≡ true
  pub single :
      (i j : ℕ) (h k : Handle)
      → s.handles i ≡ some h
      → s.handles j ≡ some k
      → lock_reserved ≤ h.lock_lvl
      → lock_reserved ≤ k.lock_lvl
      → i ≡ j
  pub writes_locked :
      (i : ℕ) (h : Handle) → s.handles i ≡ some h → h.has_write ≡ true → lock_reserved ≤ h.lock_lvl
  pub known :
      (i : ℕ) (h : Handle) (t : Snapshot)
      → s.handles i ≡ some h
      → h.snap ≡ some t
      → (t.serial < s.db.next) × (t.serial ≡ s.db.snap.serial → t ≡ s.db.snap)
  pub current : s.db.snap.serial < s.db.next
  pub based :
      (i : ℕ) (h : Handle) (t : Snapshot)
      → s.handles i ≡ some h
      → lock_reserved ≤ h.lock_lvl
      → h.snap ≡ some t
      → t ≡ s.db.snap

-- SQLite writes and truncates only under RESERVED or more.
abbrev pub Allowed : Handle → Call → Type 0
Allowed h (write page off) = lock_reserved ≤ h.lock_lvl
Allowed h (truncate size) = lock_reserved ≤ h.lock_lvl
Allowed h _ = Unit

-- A handle as xOpen makes it.
abbrev pub opened : Bool → Handle
opened read_only = record {
  read_only = read_only;
  snap = none;
  write_buf = none;
  write_sz = 0;
  has_write = false;
  lock_lvl = lock_none;
}

abbrev pub empty : System
empty = record {
  db = record { snap = record { serial = 0; pages = []; size = 0 }; next = 1; write_mu = false };
  handles = λ _. none;
}

pub data Step (s : System) : System → Type 0 where
  opens :
      (i : ℕ) (read_only : Bool)
      → s.handles i ≡ none
      → Step s (with_handle s i (opened read_only) s.db)
  calls :
      (i : ℕ) (h : Handle) (c : Call) → s.handles i ≡ some h → Allowed h c → Step s (run s i h c).0

pub data Reach : System → Type 0 where
  start : Reach empty
  later : {s t : System} → Reach s → Step s t → Reach t

Inv-empty : Inv empty
Inv-empty = record {
  mutex = λ i h e l. cc;
  single = λ i j h k e f l m. cc;
  writes_locked = λ i h e w. cc;
  known = λ i h t e f. cc;
  current = omega arith;
  based = λ i h t e l f. cc;
}

module _ {s : System} (inv : Inv s) (i : ℕ) where
  open inv use {mutex, single, writes_locked, known, current, based}

  opens-Inv : (ro : Bool) → s.handles i ≡ none → Inv (with_handle s i (opened ro) s.db)
  opens-Inv ro free = record {
    mutex = λ p x e l. ground (arith, mutex p x);
    single = λ p q x y e f l m. ground (arith, single p q x y);
    writes_locked = λ p x e w. ground (arith, writes_locked p x);
    known = λ p x t e f. ground (arith, known p x t);
    current = current;
    based = λ p x t e l f. ground (arith, based p x t);
  }

  module _ (h : Handle) (here : s.handles i ≡ some h) where
    lock-Inv : (level : ℕ) → Inv (run s i h (lock level)).0
    unfolding run x_lock
    lock-Inv level = record {
      mutex = λ p x e l. ground (arith, mutex p x, mutex i h here);
      single = λ p q x y e f l m.
          ground (arith, single p q x y, single i q h y here, single p i x h, mutex p x, mutex q y);
      writes_locked = λ p x e w. ground (arith, writes_locked p x, writes_locked i h here);
      known = λ p x t e f. ground (arith, known p x t, known i h t here, current);
      current = ground (arith, current);
      based = λ p x t e l f. ground (arith, based p x t, based i h t here);
    }

    unlock-Inv : (level : ℕ) → Inv (run s i h (unlock level)).0
    unfolding run x_unlock
    unlock-Inv level = record {
      mutex = λ p x e l. ground (arith, mutex p x, mutex i h here, single p i x h);
      single =
          λ p q x y e f l m. ground (arith, single p q x y, single i q h y here, single p i x h);
      writes_locked = λ p x e w. ground (arith, writes_locked p x, writes_locked i h here);
      known = λ p x t e f. ground (arith, known p x t, known i h t here);
      current = ground (arith, current);
      based = λ p x t e l f. ground (arith, based p x t, based i h t here);
    }

    write-Inv :
        (page : List ℕ) (off : ℕ) → lock_reserved ≤ h.lock_lvl → Inv (run s i h (write page off)).0
    unfolding run x_write
    write-Inv page off held = record {
      mutex = λ p x e l. ground (arith, mutex p x, mutex i h here);
      single =
          λ p q x y e f l m. ground (arith, single p q x y, single i q h y here, single p i x h);
      writes_locked = λ p x e w. ground (arith, writes_locked p x, writes_locked i h here);
      known = λ p x t e f. ground (arith, known p x t, known i h t here);
      current = ground (arith, current);
      based = λ p x t e l f. ground (arith, based p x t, based i h t here);
    }

    truncate-Inv : (size : ℕ) → lock_reserved ≤ h.lock_lvl → Inv (run s i h (truncate size)).0
    unfolding run x_truncate
    truncate-Inv size held = record {
      mutex = λ p x e l. ground (arith, mutex p x, mutex i h here);
      single =
          λ p q x y e f l m. ground (arith, single p q x y, single i q h y here, single p i x h);
      writes_locked = λ p x e w. ground (arith, writes_locked p x, writes_locked i h here);
      known = λ p x t e f. ground (arith, known p x t, known i h t here);
      current = ground (arith, current);
      based = λ p x t e l f. ground (arith, based p x t, based i h t here);
    }

    sync-Inv : Inv (run s i h sync).0
    unfolding run x_sync
    sync-Inv = record {
      mutex = λ p x e l. ground (arith, mutex p x, mutex i h here);
      single =
          λ p q x y e f l m. ground (arith, single p q x y, single i q h y here, single p i x h);
      writes_locked = λ p x e w. ground (arith, writes_locked p x, writes_locked i h here);
      known = λ p x t e f. ground (arith, known p x t, known i h t here);
      current = ground (arith, current);
      based = λ p x t e l f. ground (
        arith,
        based p x t,
        based i h t here,
        writes_locked i h here,
        single p i x h,
        known p x t,
      );
    }

    close-Inv : Inv (run s i h close).0
    unfolding run x_close
    close-Inv = record {
      mutex = λ p x e l. ground (arith, mutex p x, mutex i h here, single p i x h);
      single = λ p q x y e f l m. ground (arith, single p q x y);
      writes_locked = λ p x e w. ground (arith, writes_locked p x);
      known = λ p x t e f. ground (arith, known p x t);
      current = ground (arith, current);
      based = λ p x t e l f. ground (arith, based p x t);
    }

    run-Inv : (c : Call) → Allowed h c → Inv (run s i h c).0
    run-Inv (lock level) a = lock-Inv level
    run-Inv (unlock level) a = unlock-Inv level
    run-Inv (write page off) a = write-Inv page off a
    run-Inv (truncate size) a = truncate-Inv size a
    run-Inv sync a = sync-Inv
    run-Inv close a = close-Inv

Step-Inv : {s t : System} → Step s t → Inv s → Inv t
Step-Inv (opens i ro free) inv = opens-Inv inv i ro free
Step-Inv (calls i h c here a) inv = run-Inv inv i h here c a

-- Every state that the calls reach satisfies the invariant.
pub Reach-Inv : {s : System} → Reach s → Inv s
Reach-Inv start = Inv-empty
Reach-Inv (later r st) = Step-Inv st (Reach-Inv r)

-- In a reachable state two handles never hold RESERVED or more together, and the mutex is locked
-- while one does.
pub single_writer :
    {s : System}
    → Reach s
    → (i j : ℕ) (h k : Handle) → s.handles i ≡ some h
    → s.handles j ≡ some k
    → lock_reserved ≤ h.lock_lvl
    → (s.db.write_mu ≡ true) × (lock_reserved ≤ k.lock_lvl → i ≡ j)
single_writer r i j h k e f l =
    let inv = Reach-Inv r in (inv.mutex i h e l, inv.single i j h k e f l)
