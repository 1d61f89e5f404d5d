-- ===== src/Pages.antt =====
-- The page maps of the in-memory file systems (vfs/internal/memio, and the loops of xWrite and
-- xTruncate in vfs/memdb and vfs/mvcc): stored runs of bytes keyed by byte offset. A Go map is a list
-- of pairs, each key once; where the source ranges over it, the order of the list stands for the
-- unspecified order. Offsets and sizes, int64 in the source, are plain numbers.
pub mod Laws
use sqlite.Prelude.{
  ℕ, ◌+◌, ◌-◌, ◌≡◌, Bool, List, [], ◌∷◌, ◌++◌, Option, none, some, length, take, drop, replicate,
  ltb, leb, ◌==◌, if◌then◌else◌, min, max,
}

abbrev pub Pages : Type 0
Pages = List (ℕ × List ℕ)

-- `m[k] = v`
unfoldable pub put_page : ℕ → List ℕ → Pages → Pages
put_page k v [] = (k, v) ∷ []
put_page k v ((j, w) ∷ m) = if j == k then (k, v) ∷ m else (j, w) ∷ put_page k v m

unfoldable pub get_page : ℕ → Pages → Option (List ℕ)
get_page k [] = none
get_page k ((j, w) ∷ m) = if j == k then some w else get_page k m

-- The loop of xTruncate: runs from `size` on are deleted, one that straddles it is cut.
unfoldable pub truncate_pages : ℕ → Pages → Pages
truncate_pages size [] = []
truncate_pages size ((k, v) ∷ m) =
    let rest = truncate_pages size m in
    if leb size k
    then rest
    else if ltb size (k + length v)
    then (k, take (size - k) v) ∷ rest
    else (k, v) ∷ rest

-- `copy(dst[at:at+len(src)], src)` where it fits.
unfoldable pub splice : ℕ → List ℕ → List ℕ → List ℕ
splice at src dst = take at dst ++ (src ++ drop (at + length src) dst)

-- One round of `ReadFromPages`: the buffer, and the longest run copied so far.
unfoldable pub read_step : ℕ → ℕ → ℕ × List ℕ → List ℕ × ℕ → List ℕ × ℕ
unfolding splice
read_step off end (start, v) (dst, filled) =
    let s = max start off in
    let e = min (start + length v) end in
    if leb e s then (dst, filled) else (
      splice (s - off) (take (e - s) (drop (s - start) v)) dst,
      if ltb filled (e - s) then e - s else filled,
    )

-- `ReadFromPages`: the buffer after the loop, and `filled`.
unfoldable pub read_from_pages : Pages → ℕ → ℕ → List ℕ × ℕ → List ℕ × ℕ
unfolding read_step
read_from_pages [] off end acc = acc
read_from_pages (p ∷ m) off end acc = read_from_pages m off end (read_step off end p acc)
