-- ===== src/ShmGroups.antt =====
-- The shared-memory groups of vfs/shm.go: the files of one sharing key attach to one group, which lives
-- until the last of them detaches. Keys, groups and files are known by number; a group's regions are
-- the addresses of its C blocks, and the answer of `detach_shm` says which of them are freed. `key` is
-- what the file's `ShmGroup` method returns, `none` for a file that has no such method.
use sqlite.Prelude.{ℕ, ◌+◌, ◌-◌, List, [], Option, none, some, ◌==◌, if◌then◌else◌, update}

pub record Group : Type 0 where
  pub refs : ℕ
  pub regions : List ℕ

pub record Groups : Type 0 where
  pub by_key : ℕ → Option ℕ
  pub groups : ℕ → Group
  pub next : ℕ
  pub attached : ℕ → Option (ℕ × ℕ)

-- A reference more, and the file pinned to the group `g`.
unfoldable pub pin : Groups → ℕ → ℕ → ℕ → Groups
pin s file g key = record s {
  groups = update s.groups g (record (s.groups g) { refs = (s.groups g).refs + 1 });
  attached = update s.attached file (some (g, key));
}

-- `attachShm`: the group of the file, if it can have one.
unfoldable pub attach_shm : Groups → ℕ → Option ℕ → Groups × Option ℕ
unfolding pin
attach_shm s file key = elim (s.attached file) [
  | some (g, k) ↦ (s, some g)
  | none ↦ elim key [
    | none ↦ (s, none)
    | some k ↦ elim (s.by_key k) [
      | some g ↦ (pin s file g k, some g)
      | none ↦ (
        pin
            (record s {
              by_key = update s.by_key k (some s.next);
              groups = update s.groups s.next (record { refs = 0; regions = [] });
              next = s.next + 1;
            })
            file s.next k,
        some s.next,
      )
    ]
  ]
]

-- The group without a reference, its key dropped and its regions freed with the last.
unfoldable pub drop_ref : Groups → ℕ → ℕ → Groups × List ℕ
drop_ref s g key =
    let refs = (s.groups g).refs - 1 in
    let dropped = record s { groups = update s.groups g (record (s.groups g) { refs = refs }) } in
    let freed = record s {
      by_key = update s.by_key key none;
      groups = update s.groups g (record { refs = refs; regions = [] });
    } in
    if refs == 0 then (freed, (s.groups g).regions) else (dropped, [])

-- `detachShm`
unfoldable pub detach_shm : Groups → ℕ → Groups × List ℕ
unfolding drop_ref
detach_shm s file = elim (s.attached file) [
  | none ↦ (s, [])
  | some (g, key) ↦ drop_ref (record s { attached = update s.attached file none }) g key
]
