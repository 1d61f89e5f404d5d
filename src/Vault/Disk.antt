-- ===== src/Vault/Disk.antt =====
-- The backing file of a container (the `backing` interface of vfs/vault/container.go): its bytes, its
-- size, and the failures it will show. A call that fails is a value: a write may stop after some of
-- its bytes. Reads see `bytes`; `durable` are the bytes as of the last sync. Which of the unsynced writes
-- outlive a loss of power is not modelled.
pub mod Keeps
pub mod ReadBack
use sqlite.Prelude.{
  ℕ, zero, suc, ◌+◌, ◌-◌, Bool, true, false, List, [], ◌∷◌, Option, none, some, length, take, ltb,
  leb, if◌then◌else◌, max,
}

-- How the next call that changes the file ends: it is done, or it fails after `n` bytes.
pub data Fault : Type 0 where
  done : Fault
  torn : ℕ → Fault

-- After the last entry of `faults` every call succeeds.
pub record Disk : Type 0 where
  pub bytes : ℕ → ℕ
  pub durable : ℕ → ℕ
  pub size : ℕ
  pub unreadable : ℕ → ℕ → Bool
  pub faults : List Fault

-- The bytes with `bs` laid over them from `off` on.
unfoldable pub byte_at : ℕ → List ℕ → ℕ → ℕ
byte_at old [] i = old
byte_at old (b ∷ bs) zero = b
byte_at old (b ∷ bs) (suc i) = byte_at old bs i

unfoldable pub overlay : ℕ → List ℕ → (ℕ → ℕ) → ℕ → ℕ
unfolding byte_at
overlay off bs f i = if ltb i off then f i else byte_at (f i) bs (i - off)

unfoldable pub place : Disk → List Fault → ℕ → List ℕ → Disk
unfolding overlay
place d rest off bs = record d {
  bytes = overlay off bs d.bytes;
  size = max d.size (off + length bs);
  faults = rest;
}

-- `WriteAt`: the file afterwards, and whether the call succeeded.
unfoldable pub write_under : List Fault → Disk → ℕ → List ℕ → Disk × Bool
unfolding place
write_under [] d off bs = (place d [] off bs, true)
write_under (done ∷ rest) d off bs = (place d rest off bs, true)
write_under (torn n ∷ rest) d off bs = (place d rest off (take n bs), false)

unfoldable pub write_at : Disk → ℕ → List ℕ → Disk × Bool
unfolding write_under
write_at d off bs = write_under d.faults d off bs

-- `Sync`: what was written is durable.
unfoldable pub sync_under : List Fault → Disk → Disk × Bool
sync_under [] d = (record d { durable = d.bytes }, true)
sync_under (done ∷ rest) d = (record d { durable = d.bytes; faults = rest }, true)
sync_under (torn n ∷ rest) d = (record d { faults = rest }, false)

unfoldable pub sync_disk : Disk → Disk × Bool
unfolding sync_under
sync_disk d = sync_under d.faults d

unfoldable pub bytes_from : (ℕ → ℕ) → ℕ → ℕ → List ℕ
bytes_from f off zero = []
bytes_from f off (suc n) = f off ∷ bytes_from f (suc off) n

-- `ReadAt`: a short read at the end of the file is an error (io.EOF).
unfoldable pub read_at : Disk → ℕ → ℕ → Option (List ℕ)
unfolding bytes_from
read_at d off n =
    if d.unreadable off n
    then none
    else if leb (off + n) d.size
    then some (bytes_from d.bytes off n)
    else none
