-- ===== src/Vault/Container/Trim.antt =====
-- The trimming of the open container (vfs/vault/trim.go): the free blocks at the end of the file are
-- cut off.
pub mod Tail
use sqlite.Prelude.{
  ℕ, zero, suc, ◌+◌, ◌-◌, ◌*◌, ◌/◌, Bool, true, false, List, [], ◌∷◌, Option, none, some, ltb, ◌==◌,
  if◌then◌else◌,
}
use sqlite.Vault.Alloc.{Extent, Allocator}
use sqlite.Vault.Disk.{Disk, Fault, done, torn}
use sqlite.Vault.Container.{
  Config, Container, io_error, read_only_database, read_only_recipient_refused, Result,
}

-- `Truncate` of the file: past the new size it holds zeros when it grows again.
unfoldable pub truncate_under : List Fault → Disk → ℕ → Disk × Bool
truncate_under [] d size =
    (record d { bytes = λ i. if ltb i size then d.bytes i else 0; size = size }, true)
truncate_under (done ∷ rest) d size = (
  record d { bytes = λ i. if ltb i size then d.bytes i else 0; size = size; faults = rest },
  true,
)
truncate_under (torn n ∷ rest) d size = (record d { faults = rest }, false)

-- The free extent at the end of the list.
unfoldable pub last_free : List Extent → Option Extent
last_free [] = none
last_free (e ∷ []) = some e
last_free (e ∷ f ∷ l) = last_free (f ∷ l)

-- The list without the last `n` blocks of its last extent.
unfoldable pub cut_last : ℕ → List Extent → List Extent
cut_last n [] = []
cut_last n (e ∷ []) = if n == e.count then [] else (record e { count = e.count - n }) ∷ []
cut_last n (e ∷ f ∷ l) = e ∷ cut_last n (f ∷ l)

-- The blocks to give back: no more than `max_bytes`, where 0 stands for no limit.
unfoldable pub release_count : ℕ → ℕ → ℕ → ℕ
release_count bs max_bytes count =
    if ltb 0 max_bytes then if ltb (max_bytes / bs) count then max_bytes / bs else count else count

module _ (k : Config) where
  unfoldable pub shrunk : ℕ → Disk × Bool → Container → ℕ × Result
  unfolding cut_last
  shrunk n (d, false) c = (0, (record c { disk = d }, some io_error))
  shrunk n (d, true) c =
      let a = c.allocator in
      (
        n * k.block_size,
        (
          record c {
            disk = d;
            allocator = record { free = cut_last n a.free; high_water = a.high_water - n };
          },
          none,
        ),
      )

  unfoldable pub trim_tail : ℕ → Option Extent → Container → ℕ × Result
  unfolding release_count truncate_under shrunk
  trim_tail max_bytes none c = (0, (c, none))
  trim_tail max_bytes (some last) c =
      let n = release_count k.block_size max_bytes last.count in
      if last.start + last.count == c.allocator.high_water
      then if n == 0
        then (0, (c, none))
        else shrunk n
            (truncate_under c.disk.faults c.disk ((c.allocator.high_water - n) * k.block_size)) c
      else (0, (c, none))

  -- `trimLocked`: the bytes given back, and the error.
  unfoldable pub trim_locked : ℕ → Container → ℕ × Result
  unfolding trim_tail last_free
  trim_locked max_bytes c = trim_tail max_bytes (last_free c.allocator.free) c

  -- `trim`
  unfoldable pub trim : ℕ → Container → ℕ × Result
  unfolding trim_locked
  trim max_bytes c =
      if k.read_only
      then (0, (c, some read_only_database))
      else if k.read_only_recipient
      then (0, (c, some read_only_recipient_refused))
      else trim_locked max_bytes c
