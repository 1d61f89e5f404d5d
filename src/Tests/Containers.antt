-- ===== src/Tests/Containers.antt =====
-- The container of vfs/vault/container.go on concrete configurations: an encrypted, authenticated one
-- with a toy compression, and files that fail in the middle of a write.
use mathlib.Core.List.{map}
use sqlite.Prelude.{
  ℕ, zero, suc, ◌+◌, ◌-◌, ◌<◌, ◌≡◌, refl, ap, subst, true, false, List, [], ◌∷◌, ◌++◌, Option, none,
  some, length, replicate, get_elem?, arith,
}
use sqlite.Vault.Alloc.Cover.{cover}
use sqlite.Vault.Rebuild.{add_used, used_by_dir, used_by_segs}
use sqlite.Vault.Format.{segment_count}
use sqlite.Vault.Disk.{Disk, done, torn}
use sqlite.Vault.Container.{Config, Cipher, Container, ok, load_found, load_page}
use sqlite.Vault.Container.Owned.{Sound, held}
use sqlite.Vault.Container.Store.{store_page, truncate, pages_for}
use sqlite.Vault.Container.Storing.{Lawful, Extends, store_page-Extends}
use sqlite.Vault.Container.Commit.{commit}
use sqlite.Vault.Container.Index.{Indexable}
use sqlite.Vault.Container.Durable.{Committed, commit-Committed}
use sqlite.Vault.Container.Shows.{
  Shows, stored_array, store_page-Shows, truncated_array, truncate-Shows,
}
use sqlite.Vault.Container.Reload.{load_page-store_page}
use sqlite.Vault.Container.Compact.{relocate_batch}
use sqlite.Vault.Container.Trim.{trim_locked}
use sqlite.Vault.Container.Trim.Tail.{Trimmed, trim_locked-Trimmed}
use sqlite.Vault.Container.Batches.{BatchOk, relocate_batch-BatchOk}
use sqlite.Vault.Container.CrashSafe.{
  Call, put, cut, run_calls, run_calls-Extends, load_page-transaction, commit-Shows,
}

-- Two leading zeros become one byte.
unfoldable squeeze : List ℕ → List ℕ
squeeze [] = 2 ∷ []
squeeze (suc x ∷ l) = 2 ∷ suc x ∷ l
squeeze (zero ∷ []) = 2 ∷ 0 ∷ []
squeeze (zero ∷ suc y ∷ l) = 2 ∷ 0 ∷ suc y ∷ l
squeeze (zero ∷ zero ∷ l) = 1 ∷ l

unfoldable expand : List ℕ → Option (List ℕ)
expand [] = none
expand (zero ∷ l) = none
expand (suc zero ∷ l) = some (0 ∷ 0 ∷ l)
expand (suc (suc x) ∷ l) = some l

abbrev add_tweak : ℕ → ℕ → ℕ
add_tweak t x = x + t

abbrev drop_tweak : ℕ → ℕ → ℕ
drop_tweak t x = x - t

abbrev shift : Cipher
shift = record {
  encrypt = λ l t d. map (add_tweak (t + d)) l;
  decrypt = λ l t d. map (drop_tweak (t + d)) l;
}

abbrev config : Config
config = record {
  block_size = 256;
  page_size = 4;
  seg_entries = 2;
  compressed = true;
  compress = λ page. some (squeeze page);
  decompress = expand;
  cipher = some shift;
  sha256 = λ l. replicate 32 (length l);
  enc = 1;
  keyslot_offset = 0;
  authenticated = true;
  sign = λ l. some (replicate 64 9);
  anchor = none;
  read_only = false;
  read_only_recipient = false;
}

expand-squeeze : (page : List ℕ) → expand (squeeze page) ≡ some page
unfolding squeeze expand
expand-squeeze [] = refl
expand-squeeze (suc x ∷ l) = refl
expand-squeeze (zero ∷ []) = refl
expand-squeeze (zero ∷ suc y ∷ l) = refl
expand-squeeze (zero ∷ zero ∷ l) = refl

squeeze_pos : (page : List ℕ) → 0 < length (squeeze page)
unfolding squeeze
squeeze_pos [] = omega arith
squeeze_pos (suc x ∷ l) = omega arith
squeeze_pos (zero ∷ []) = omega arith
squeeze_pos (zero ∷ suc y ∷ l) = omega arith
squeeze_pos (zero ∷ zero ∷ l) = omega arith

length-map_shift : (t : ℕ) (l : List ℕ) → length (map (add_tweak t) l) ≡ length l
length-map_shift t [] = refl
length-map_shift t (x ∷ l) = ap suc (length-map_shift t l)

unshift : (t : ℕ) (l : List ℕ) → map (drop_tweak t) (map (add_tweak t) l) ≡ l
unshift t [] = refl
unshift t (x ∷ l) = let back : x + t - t ≡ x = omega arith in rw (back, unshift t l) refl

laws : Lawful config
laws = record {
  block_pos = omega arith;
  page_pos = omega arith;
  page_small = omega arith;
  segment_small = omega arith;
  superblock_small = omega arith;
  length-sha256 = λ l. refl;
  length-sign =
      λ l sig h. let same : replicate 64 9 ≡ sig = cc in subst (λ x. length x ≡ 64) same refl;
  lossless = λ page z h.
      let same : squeeze page ≡ z = cc in
      subst (λ x. expand x ≡ some page) same (expand-squeeze page);
  frame_pos = λ page z h.
      let same : squeeze page ≡ z = cc in subst (λ x. 0 < length x) same (squeeze_pos page);
  length-encrypt = λ c l t d h.
      let same : shift ≡ c = cc in
      subst (λ x. length (x.encrypt l t d) ≡ length l) same (length-map_shift (t + d) l);
  decrypt-encrypt = λ c l t d h.
      let same : shift ≡ c = cc in
      subst (λ x. x.decrypt (x.encrypt l t d) t d ≡ l) same (unshift (t + d) l);
}

-- A file that fails its third write after 5 bytes.
abbrev disk : Disk
disk = record {
  bytes = λ i. 0;
  durable = λ i. 0;
  size = 0;
  unreadable = λ off n. false;
  faults = done ∷ done ∷ torn 5 ∷ [];
}

-- The container that is made over an empty file.
abbrev fresh : Container
fresh = record {
  disk = disk;
  page_count = 0;
  dir = [];
  allocator = record { free = []; high_water = 2 };
  seg_index = [];
  dirty_segs = [];
  committed_gen = 0;
  committed_dir_offset = 0;
  committed_dir_blocks = 0;
  next_slot = 0;
  pending_release = [];
  dirty = false;
}

fresh-Sound : Sound config [] fresh
unfolding held cover used_by_dir used_by_segs add_used
fresh-Sound = record {
  room = (omega arith, λ b. omega arith);
  slots = tt;
  segs = tt;
  ping_pong = omega arith;
}

zeros : ℕ → List ℕ
zeros n = 0 ∷ 0 ∷ 0 ∷ 0 ∷ []

fresh-Shows : Shows config laws fresh zeros
unfolding zeros load_page load_found
fresh-Shows n = refl

-- A page that compresses, and one that does not.
abbrev page_a : List ℕ
page_a = 0 ∷ 0 ∷ 7 ∷ 8 ∷ []

abbrev page_b : List ℕ
page_b = 5 ∷ 6 ∷ 7 ∷ 8 ∷ []

store_page-Shows_example :
    load_page config (store_page config 3 page_a fresh).0 3
    ≡ ok (stored_array config laws (store_page config 3 page_a fresh).1 zeros 3 page_a 3)
store_page-Shows_example =
    store_page-Shows config laws [] 3 page_a fresh zeros refl fresh-Sound (λ off n. refl)
      fresh-Shows 3

-- Two pages and the start of a third; the write of the third fails.
abbrev calls : List Call
calls = put (page_a ++ page_b) 0 ∷ put (9 ∷ []) 9 ∷ cut 4 ∷ []

run_calls-Extends_example : Extends config laws [] fresh (run_calls config calls fresh)
run_calls-Extends_example = run_calls-Extends config laws [] calls fresh fresh-Sound

-- The container with one page stored.
abbrev one : Container
one = (store_page config 0 page_b fresh).0

one-Sound : Sound config [] one
one-Sound = (store_page-Extends config laws [] 0 page_b fresh refl fresh-Sound).sound

stored : (store_page config 0 page_b fresh).1 ≡ none
unfolding store_page squeeze
stored = refl

one_page : load_page config one 0 ≡ ok page_b
one_page =
    load_page-store_page config laws [] 0 page_b fresh refl fresh-Sound (λ off n. refl) stored

one-Shows : Shows config laws one (stored_array config laws none zeros 0 page_b)
one-Shows =
    subst (λ e. Shows config laws one (stored_array config laws e zeros 0 page_b)) stored
      (store_page-Shows config laws [] 0 page_b fresh zeros refl fresh-Sound (λ off n. refl)
        fresh-Shows)

one-Indexable : Indexable config laws one
unfolding segment_count store_page squeeze
one-Indexable = omega arith

-- The page is cut off, and another takes its place.
abbrev later_calls : List Call
later_calls = cut 0 ∷ put page_a 0 ∷ []

later-Indexable : Indexable config laws (run_calls config later_calls one)
unfolding segment_count run_calls store_page squeeze
later-Indexable = omega arith

-- The page goes when the container is cut to no pages.
truncate-Shows_example :
    load_page config (truncate config 0 one).0 0
    ≡ ok (
        truncated_array config laws
          (truncate config 0 one).1
          (pages_for config 0)
          (stored_array config laws none zeros 0 page_b)
          0)
truncate-Shows_example =
    truncate-Shows config laws [] 0 one (stored_array config laws none zeros 0 page_b) one-Sound
      one-Shows 0

load_page-transaction_example :
    load_found config
      (commit config (run_calls config later_calls one)).0.disk
      0
      (get_elem? one.dir 0)
    ≡ ok page_b
load_page-transaction_example =
    load_page-transaction config laws [] later_calls one 0 page_b one-Sound later-Indexable one_page

commit-Committed_example : Committed config laws [] one (commit config one)
commit-Committed_example = commit-Committed config laws [] one one-Indexable one-Sound

commit-Shows_example :
    Shows config laws (commit config one).0 (stored_array config laws none zeros 0 page_b)
commit-Shows_example =
    commit-Shows config laws [] one (stored_array config laws none zeros 0 page_b) one-Indexable
      one-Sound one-Shows

-- A page whose slot lies above a hole of four blocks.
abbrev scattered : Container
scattered = record fresh {
  disk = record {
    bytes = λ i. 7;
    durable = λ i. 7;
    size = 1792;
    unreadable = λ off n. false;
    faults = [];
  };
  dir =
      (record {
        phys_offset = 1536;
        stored_len = 4;
        blocks = 1;
        flags = 0;
        checksum = 0;
        hash = [];
      })
      ∷ [];
  allocator = record { free = (record { start = 2; count = 4 }) ∷ []; high_water = 7 };
  page_count = 1;
}

scattered-Sound : Sound config [] scattered
unfolding held cover used_by_dir used_by_segs add_used
scattered-Sound = record {
  room = (omega arith, λ b. ground arith);
  slots = (
    record {
      start = 6;
      aligned = refl;
      roomy = omega arith;
      none_at_zero = λ z. omega arith;
      hash_short = omega arith;
    },
    tt,
  );
  segs = tt;
  ping_pong = omega arith;
}

-- The slot moves to block 4: blocks 2 and 3 are kept for the directory.
scattered_moves : (relocate_batch config 8 scattered).0 ≡ 1
unfolding relocate_batch
scattered_moves = refl

relocate_batch-BatchOk_example :
    BatchOk config laws [] 0 scattered (relocate_batch config 8 scattered)
relocate_batch-BatchOk_example = relocate_batch-BatchOk config laws [] 8 scattered scattered-Sound

-- A page whose slot lies below a hole of four blocks at the end of the file.
abbrev slack : Container
slack = record scattered {
  dir =
      (record { phys_offset = 512; stored_len = 4; blocks = 1; flags = 0; checksum = 0; hash = [] })
      ∷ [];
  allocator = record { free = (record { start = 3; count = 4 }) ∷ []; high_water = 7 };
}

slack-Sound : Sound config [] slack
unfolding held cover used_by_dir used_by_segs add_used
slack-Sound = record {
  room = (omega arith, λ b. ground arith);
  slots = (
    record {
      start = 2;
      aligned = refl;
      roomy = omega arith;
      none_at_zero = λ z. omega arith;
      hash_short = omega arith;
    },
    tt,
  );
  segs = tt;
  ping_pong = omega arith;
}

-- Of the four blocks, two fit into 600 bytes.
slack_trimmed : (trim_locked config 600 slack).0 ≡ 512
unfolding trim_locked
slack_trimmed = refl

trim_locked-Trimmed_example : Trimmed config laws [] slack (trim_locked config 600 slack)
trim_locked-Trimmed_example = trim_locked-Trimmed config laws [] 600 slack slack-Sound
