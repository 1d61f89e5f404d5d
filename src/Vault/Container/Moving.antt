-- ===== src/Vault/Container/Moving.antt =====
-- A move of a slot (vfs/vault/compact_online.go): the blocks that the container holds afterwards, and
-- the offset of the slot.
use native.Mathlib.Nat.{mul-div_cancel}
use sqlite.Prelude.{
  ℕ, zero, suc, ◌+◌, ◌*◌, ◌/◌, ◌<◌, ◌≡◌, ◌≢◌, refl, ap, sym, Bool, true, false, List, [], ◌∷◌, ◌++◌,
  Option, none, some, length, get_elem?, All, arith, leb, inl, inr, Bool-cases, Option-cases,
}
use sqlite.Vault.Alloc.{Extent, Allocator, alloc_at_list, alloc_at, release}
use sqlite.Vault.Alloc.Cover.{cover, hit, cover-append, cover-alloc_at}
use sqlite.Vault.Disk.{Disk, write_at, read_at, bytes_from}
use sqlite.Vault.Disk.Keeps.{Keeps, Keeps-refl, write_at-Keeps}
use sqlite.Vault.Format.{DirEntry}
use sqlite.Vault.Container.{Config, Container, Result, set_entry, release_later}
use sqlite.Vault.Container.Owned.{Room, Room-release, EntryOk, held, cover-held, usage, Sound}
use sqlite.Vault.Container.Entries.{
  by_entry, All-get, All-set, mark_segment_dirty_shape, cover-used_by_dir_set,
}
use sqlite.Vault.Container.Storing.{Lawful, Extends, Extends-refl}
use sqlite.Vault.Container.Compact.{
  Candidate, repoint, copy_slot, move_slot, undo_reservation, move_reserved, move_to,
}

-- The sum of the slot offsets of a directory.
pub total_offset : List DirEntry → ℕ
total_offset [] = 0
total_offset (e ∷ l) = e.phys_offset + total_offset l

pub total_offset-set :
    (n : ℕ) (e old : DirEntry) (l : List DirEntry)
    → get_elem? l n ≡ some old
    → total_offset (set_entry n e l) + old.phys_offset ≡ total_offset l + e.phys_offset
unfolding total_offset set_entry
total_offset-set n e old [] h = cc
total_offset-set zero e old (f ∷ l) h = let same : f ≡ old = cc in rw (sym same) (omega arith)
total_offset-set (suc n) e old (f ∷ l) h = omega (arith, total_offset-set n e old l h)

-- The entry of a candidate's page is the one that made it a candidate.
abbrev pub Stands : Container → Candidate → Type 0
Stands c cd =
    (e : DirEntry) × (get_elem? c.dir cd.page ≡ some e)
    × (e.phys_offset ≡ cd.off)
    × (e.blocks ≡ cd.blocks)

-- No page is a candidate twice.
abbrev pub Distinct : List Candidate → Type 0
Distinct [] = Unit
Distinct (cd ∷ l) = All (λ x. x.page ≢ cd.page) l × Distinct l

-- `allocAt` leaves the high-water mark.
high_water-alloc_at :
    (a a' : Allocator) (s n : ℕ) → alloc_at a s n ≡ some a' → a'.high_water ≡ a.high_water
unfolding alloc_at
high_water-alloc_at a a' s n h = elim (Option-cases (alloc_at_list s n a.free)) [
  | inl q ↦ ground arith
  | inr (r, q) ↦ ground arith
]

module _ (k : Config) (laws : Lawful k) where
  -- What a move does to the directory: nothing, or one slot goes down.
  abbrev pub Moved : Candidate → Container → Result × Bool → Type 0
  Moved cd c ((c', some e), m) = c'.dir ≡ c.dir
  Moved cd c ((c', none), false) = c'.dir ≡ c.dir
  Moved cd c ((c', none), true) =
      (e : DirEntry) × (new_off : ℕ) × (get_elem? c.dir cd.page ≡ some e)
      × (new_off < e.phys_offset)
      × (c'.dir ≡ set_entry cd.page (record e { phys_offset = new_off }) c.dir)

  abbrev pub MoveOk : List Extent → Candidate → Container → Result × Bool → Type 0
  MoveOk other cd c (r, m) = Extends k laws other c r.0 × Moved cd c (r, m)

  length-bytes_from : (f : ℕ → ℕ) (off n : ℕ) → length (bytes_from f off n) ≡ n
  unfolding bytes_from
  length-bytes_from f off zero = refl
  length-bytes_from f off (suc n) = ap suc (length-bytes_from f (suc off) n)

  length-read_at : (d : Disk) (off n : ℕ) (l : List ℕ) → read_at d off n ≡ some l → length l ≡ n
  unfolding read_at
  length-read_at d off n l h = elim (Bool-cases (d.unreadable off n)) [
    | inl bad ↦ let e : read_at d off n ≡ none = rw bad refl in cc
    | inr good ↦ elim (Bool-cases (leb (off + n) d.size)) [
      | inl inside ↦
          let e : read_at d off n ≡ some (bytes_from d.bytes off n) = rw (good, inside) refl in
          let same : l ≡ bytes_from d.bytes off n = cc in rw same (length-bytes_from d.bytes off n)
      | inr past ↦ let e : read_at d off n ≡ none = rw (good, past) refl in cc
    ]
  ]

  -- The free list may change where the room stays.
  Extends-release :
      (other : List Extent) (c : Container) (a' : Allocator) (d : Disk)
      → Sound k other c
      → Room (usage k other c) a'
      → Keeps k.block_size (usage k other c) c.disk d
      → Extends k laws other c (record c { allocator = a'; disk = d })
  unfolding held
  Extends-release other c a' d sound room keeps = record {
    sound = record {
      room = room;
      slots = sound.slots;
      segs = sound.segs;
      ping_pong = sound.ping_pong;
    };
    keeps = keeps;
    more = λ b. omega arith;
  }

  move_reserved-MoveOk :
      (other : List Extent) (cd : Candidate) (start : ℕ) (e : DirEntry) (a : Allocator)
      (c : Container)
      → Sound k other c
      → get_elem? c.dir cd.page ≡ some e
      → e.blocks ≡ cd.blocks
      → start * k.block_size < e.phys_offset
      → alloc_at c.allocator start cd.blocks ≡ some a
      → MoveOk other cd c (move_reserved k cd start (some e) (some a) c)
  unfolding move_reserved move_slot undo_reservation copy_slot cover repoint release_later
  move_reserved-MoveOk other cd start e a c sound there same_blocks down reserve =
      by_read (read_at c.disk e.phys_offset (e.blocks * k.block_size))
        (length-read_at c.disk e.phys_offset (e.blocks * k.block_size))
    where
      bs : ℕ
      bs = k.block_size

      taken : Container
      taken = record c { allocator = a }

      top : a.high_water ≡ c.allocator.high_water
      top = high_water-alloc_at c.allocator a start cd.blocks reserve

      room : Room (λ b. hit start cd.blocks b + usage k other c b) a
      room = (
        omega (arith, top, sound.room.0),
        λ b.
            rw top (
              omega
                (arith, cover-alloc_at c.allocator a start cd.blocks reserve b, sound.room.1 b)),
      )

      given_back :
          (d : Disk)
          → Keeps bs (usage k other c) c.disk d
          → Extends k laws other c (record c { allocator = release a start cd.blocks; disk = d })
      given_back d keeps =
          Extends-release other c (release a start cd.blocks) d sound
            (Room-release (λ b. hit start cd.blocks b + usage k other c b) (usage k other c) a start
              cd.blocks (λ b. refl) room)
            keeps

      written :
          (l : List ℕ)
          → length l ≡ e.blocks * bs
          → Keeps bs (usage k other c) c.disk (write_at c.disk (start * bs) l).0
      written l len =
          write_at-Keeps bs (usage k other c) laws.block_pos c.disk start cd.blocks l
            (omega (arith, len, ap (λ n. n * bs) same_blocks)) (λ b. ground (arith, room.1 b))

      moved : DirEntry
      moved = record e { phys_offset = start * bs }

      -- A run that starts at block 0 is empty, since the superblocks are there.
      none_there : start ≡ 0 → e.blocks ≡ 0
      none_there z = ground (arith, room.1 0)

      fits : EntryOk bs moved
      fits =
          let slot : EntryOk bs e = All-get (EntryOk bs) c.dir cd.page e sound.slots there in
          record {
            start = start;
            aligned = refl;
            roomy = slot.roomy;
            none_at_zero = none_there;
            hash_short = slot.hash_short;
          }

      by_entry-moved : (b : ℕ) → by_entry bs moved b ≡ hit start cd.blocks b
      by_entry-moved b = rw (mul-div_cancel start laws.block_pos, same_blocks) refl

      uses :
          (ds : List ℕ) (d : Disk) (b : ℕ)
          → usage k other
              (record c {
                allocator = a;
                pending_release =
                    c.pending_release
                    ++ (record { start = e.phys_offset / bs; count = e.blocks }) ∷ [];
                dir = set_entry cd.page moved c.dir;
                disk = d;
                dirty = true;
                dirty_segs = ds;
              })
              b
            ≡ hit start cd.blocks b + usage k other c b
      uses ds d b = omega (
        arith,
        cover-held k c b,
        cover-held k
            (record c {
              allocator = a;
              pending_release =
                  c.pending_release
                  ++ (record { start = e.phys_offset / bs; count = e.blocks }) ∷ [];
              dir = set_entry cd.page moved c.dir;
              disk = d;
              dirty = true;
              dirty_segs = ds;
            })
            b,
        cover-append c.pending_release
            ((record { start = e.phys_offset / bs; count = e.blocks }) ∷ []) b,
        cover-used_by_dir_set bs cd.page moved e c.dir b there,
        by_entry-moved b,
      )

      repointed :
          (d : Disk)
          → Keeps bs (usage k other c) c.disk d
          → Extends k laws other c (repoint k cd.page e (start * bs) (record taken { disk = d }))
            × ((repoint k cd.page e (start * bs) (record taken { disk = d })).dir
                ≡ set_entry cd.page moved c.dir)
      repointed d keeps =
          let ready : Container = record taken {
            pending_release =
                c.pending_release ++ (record { start = e.phys_offset / bs; count = e.blocks }) ∷ [];
            dir = set_entry cd.page moved c.dir;
            disk = d;
            dirty = true;
          } in
          let (ds, shape) = mark_segment_dirty_shape k laws.block_pos cd.page ready in
          let after : Container = record ready { dirty_segs = ds } in
          let same : repoint k cd.page e (start * bs) (record taken { disk = d }) ≡ after = shape in
          rw same (
            record {
              sound = record {
                room = (room.0, λ b. omega (arith, room.1 b, uses ds d b));
                slots = All-set bs cd.page moved c.dir fits sound.slots;
                segs = sound.segs;
                ping_pong = sound.ping_pong;
              };
              keeps = keeps;
              more = λ b. omega (arith, uses ds d b);
            },
            refl,
          )

      by_read :
          (o : Option (List ℕ))
          → ((l : List ℕ) → o ≡ some l → length l ≡ e.blocks * bs)
          → MoveOk other cd c (
            undo_reservation k start cd.blocks (copy_slot k cd.page e (start * bs) o taken),
            true,
          )
      by_read none len =
          (given_back c.disk (Keeps-refl bs (usage k other c) laws.block_pos c.disk), refl)
      by_read (some l) len = elim (Bool-cases (write_at c.disk (start * bs) l).1) [
        | inl w ↦
            let (step, dir) =
              repointed (write_at c.disk (start * bs) l).0 (written l (len l refl)) in
            rw (w, copy_slot) (step, (e, start * bs, there, down, dir))
        | inr w ↦
            rw (w, copy_slot)
              (given_back (write_at c.disk (start * bs) l).0 (written l (len l refl)), refl)
      ]

  pub move_to-MoveOk :
      (other : List Extent) (cd : Candidate) (o : Option ℕ) (c : Container)
      → Sound k other c
      → Stands c cd
      → MoveOk other cd c (move_to k cd o c)
  unfolding move_to move_reserved
  move_to-MoveOk other cd none c sound stands = (Extends-refl k laws other c sound, refl)
  move_to-MoveOk other cd (some start) c sound (e, there, at, blocks) =
      elim (Bool-cases (leb cd.off (start * k.block_size))) [
        | inl up ↦ rw up (Extends-refl k laws other c sound, refl)
        | inr down ↦
            let below : start * k.block_size < e.phys_offset = ground arith in
            elim (Option-cases (alloc_at c.allocator start cd.blocks)) [
              | inl q ↦ rw (down, there, q) (Extends-refl k laws other c sound, refl)
              | inr (a, q) ↦
                  let ok = move_reserved-MoveOk other cd start e a c sound there blocks below q in
                  rw (down, there, q) ok
            ]
      ]
