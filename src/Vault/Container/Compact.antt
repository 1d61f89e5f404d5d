-- ===== src/Vault/Container/Compact.antt =====
-- The relocation of slots in the open container (vfs/vault/compact_online.go): live slots move down
-- into free holes, the slots at the highest offsets first.
use sqlite.Prelude.{
  ℕ, suc, ◌+◌, ◌-◌, ◌*◌, Bool, true, false, List, [], ◌∷◌, get_elem?, Option, none, some, leb, ◌==◌,
  if◌then◌else◌,
}
use sqlite.Vault.Alloc.{Extent, Allocator, lowest_fit_above, alloc_at, release}
use sqlite.Vault.Disk.{write_at, read_at}
use sqlite.Vault.Format.{DirEntry, SegDesc}
use sqlite.Vault.Container.{
  Config, Container, io_error, Result, set_entry, mark_segment_dirty, release_later,
}

-- `cand`
pub record Candidate : Type 0 where
  pub page : ℕ
  pub off : ℕ
  pub blocks : ℕ

-- The candidates among the entries of the pages from `p` on: those with a slot.
unfoldable pub candidates_from : ℕ → List DirEntry → List Candidate
candidates_from p [] = []
candidates_from p (e ∷ dir) =
    let rest = candidates_from (suc p) dir in
    if e.phys_offset == 0
    then rest
    else (record { page = p; off = e.phys_offset; blocks = e.blocks }) ∷ rest

-- `sort.Slice` by offset, the highest first.
unfoldable pub insert_highest : Candidate → List Candidate → List Candidate
insert_highest cd [] = cd ∷ []
insert_highest cd (x ∷ l) = if leb x.off cd.off then cd ∷ x ∷ l else x ∷ insert_highest cd l

unfoldable pub sort_highest : List Candidate → List Candidate
unfolding insert_highest
sort_highest [] = []
sort_highest (cd ∷ l) = insert_highest cd (sort_highest l)

unfoldable pub segment_blocks : List SegDesc → ℕ
segment_blocks [] = 0
segment_blocks (d ∷ l) = d.blocks + segment_blocks l

-- The scan of `dirReserveFloor` over the free list, past `acc` blocks.
unfoldable pub floor_from : ℕ → ℕ → List Extent → ℕ → ℕ
floor_from reserve acc [] high_water = high_water
floor_from reserve acc (e ∷ l) high_water =
    let rest = floor_from reserve (acc + e.count) l high_water in
    if leb reserve (acc + e.count) then e.start + (reserve - acc) else rest

-- `dirReserveFloor`
unfoldable pub dir_reserve_floor : Container → ℕ
unfolding segment_blocks floor_from
dir_reserve_floor c =
    floor_from (segment_blocks c.seg_index + c.committed_dir_blocks + 2) 0 c.allocator.free
      c.allocator.high_water

module _ (k : Config) where
  -- `moveSlot`, from the entry on.
  unfoldable pub repoint : ℕ → DirEntry → ℕ → Container → Container
  unfolding release_later set_entry mark_segment_dirty
  repoint page_no e new_off c =
      let r = release_later k e.phys_offset e.blocks c in
      mark_segment_dirty k page_no (record r {
        dir = set_entry page_no (record e { phys_offset = new_off }) r.dir;
        dirty = true;
      })

  unfoldable pub copy_slot : ℕ → DirEntry → ℕ → Option (List ℕ) → Container → Result
  unfolding write_at repoint
  copy_slot page_no e new_off none c = (c, some io_error)
  copy_slot page_no e new_off (some bytes) c =
      let (disk, wrote) = write_at c.disk new_off bytes in
      let copied = record c { disk = disk } in
      if wrote then (repoint page_no e new_off copied, none) else (copied, some io_error)

  unfoldable pub move_slot : ℕ → DirEntry → ℕ → Container → Result
  unfolding copy_slot read_at
  move_slot page_no e new_off c =
      copy_slot page_no e new_off (read_at c.disk e.phys_offset (e.blocks * k.block_size)) c

  -- A failed move gives the reserved run back.
  unfoldable pub undo_reservation : ℕ → ℕ → Result → Result
  unfolding release
  undo_reservation start blocks (c, none) = (c, none)
  undo_reservation start blocks (c, some e) =
      (record c { allocator = release c.allocator start blocks }, some e)

  -- The move of a candidate to a run, `none` where `allocAt` would panic. The flag says if it moved.
  unfoldable pub move_reserved :
      Candidate → ℕ → Option DirEntry → Option Allocator → Container → Result × Bool
  unfolding move_slot undo_reservation
  move_reserved cd start none a c = ((c, none), false)
  move_reserved cd start (some e) none c = ((c, none), false)
  move_reserved cd start (some e) (some a) c = (
    undo_reservation start cd.blocks
        (move_slot cd.page e (start * k.block_size) (record c { allocator = a })),
    true,
  )

  unfoldable pub move_to : Candidate → Option ℕ → Container → Result × Bool
  unfolding move_reserved alloc_at
  move_to cd none c = ((c, none), false)
  move_to cd (some start) c =
      if leb cd.off (start * k.block_size)
      then ((c, none), false)
      else move_reserved cd start (get_elem? c.dir cd.page) (alloc_at c.allocator start cd.blocks) c

  -- The blocks moved so far, and how the batch goes on.
  unfoldable pub batch_step : ℕ → ℕ → Result × Bool → (ℕ → Container → ℕ × Result) → ℕ × Result
  batch_step moved blocks ((c, some e), m) go = (moved, (c, some e))
  batch_step moved blocks ((c, none), true) go = go (moved + blocks) c
  batch_step moved blocks ((c, none), false) go = go moved c

  -- The loop of `relocateBatch`.
  unfoldable pub relocate_loop : ℕ → ℕ → List Candidate → ℕ → Container → ℕ × Result
  unfolding batch_step move_to lowest_fit_above
  relocate_loop max_blocks floor [] moved c = (moved, (c, none))
  relocate_loop max_blocks floor (cd ∷ l) moved c =
      if leb max_blocks moved
      then (moved, (c, none))
      else batch_step moved cd.blocks
          (move_to cd (lowest_fit_above cd.blocks floor c.allocator.free) c)
          (relocate_loop max_blocks floor l)

  -- `relocateBatch`: the blocks moved, and the first error.
  unfoldable pub relocate_batch : ℕ → Container → ℕ × Result
  unfolding candidates_from sort_highest dir_reserve_floor relocate_loop
  relocate_batch max_blocks c =
      relocate_loop max_blocks (dir_reserve_floor c) (sort_highest (candidates_from 0 c.dir)) 0 c
