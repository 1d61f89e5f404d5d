-- ===== src/Vault/Container/CrashSafe.antt =====
-- Whole transactions on the container of vfs/vault/container.go: any sequence of `writeAt` and
-- `truncate`, then a `commit`, with failures anywhere.
use sqlite.Prelude.{ℕ, ◌-◌, ◌≡◌, arith, ap, ◌∙◌, List, [], ◌∷◌, length, get_elem?, inl, inr}
use sqlite.Vault.Alloc.{Extent}
use sqlite.Vault.Disk.Keeps.{Keeps, Keeps-trans, Keeps-weaken}
use sqlite.Vault.Container.{Config, Container, Result, ok, load_found, load_page}
use sqlite.Vault.Container.Owned.{usage, Sound}
use sqlite.Vault.Container.Store.{write_data, truncate}
use sqlite.Vault.Container.Storing.{Lawful, Extends, Extends-trans, Extends-refl}
use sqlite.Vault.Container.Running.{write_data-Extends, truncate-Extends}
use sqlite.Vault.Container.Refine.{load_page-Keeps, load_found_grown}
use sqlite.Vault.Container.Shows.{Shows}
use sqlite.Vault.Container.Commit.{pad_directory, commit}
use sqlite.Vault.Container.Index.{Indexable}
use sqlite.Vault.Container.Durable.{with_authority, Committed, commit-Committed}

-- The calls of a transaction; their errors are ignored, as by a caller that goes on.
pub data Call : Type 0 where
  put : List ℕ → ℕ → Call
  cut : ℕ → Call

unfoldable pub perform : Config → Call → Container → Container
unfolding write_data truncate
perform k (put input off) c = (write_data k input off c).0
perform k (cut size) c = (truncate k size c).0

unfoldable pub run_calls : Config → List Call → Container → Container
unfolding perform
run_calls k [] c = c
run_calls k (x ∷ calls) c = run_calls k calls (perform k x c)

module _ (k : Config) (laws : Lawful k) where
  -- Under a lawful configuration, writes and truncations in any order, failing or not, keep a
  -- well-formed container well formed, leave the
  -- bytes of every block in use as they are, and give no block back.
  pub run_calls-Extends :
      (other : List Extent) (calls : List Call) (c : Container)
      → Sound k other c
      → Extends k laws other c (run_calls k calls c)
  unfolding run_calls perform
  run_calls-Extends other [] c sound = Extends-refl k laws other c sound
  run_calls-Extends other (put input off ∷ calls) c sound =
      let d = (write_data k input off c).0 in
      let first = write_data-Extends k laws other input off c sound in
      Extends-trans k laws other c d (run_calls k calls d) first
        (run_calls-Extends other calls d first.sound)
  run_calls-Extends other (cut size ∷ calls) c sound =
      let d = (truncate k size c).0 in
      let first = truncate-Extends k laws other size c sound in
      Extends-trans k laws other c d (run_calls k calls d) first
        (run_calls-Extends other calls d first.sound)

  Committed-Keeps :
      (other : List Extent) (c : Container) (r : Result)
      → Committed k laws other c r
      → Keeps k.block_size (usage k other c) c.disk r.0.disk × (r.0.dir ≡ (pad_directory k c).dir)
  Committed-Keeps other c r (inl failed) = (
    Keeps-weaken k.block_size (with_authority k laws other c) (usage k other c) c.disk r.0.disk
        (λ b. omega arith) failed.kept.1.keeps,
    failed.same.3,
  )
  Committed-Keeps other c r (inr flipped) = (
    Keeps-weaken k.block_size (with_authority k laws other c) (usage k other c) c.disk r.0.disk
        (λ b. omega arith) flipped.keeps,
    flipped.dir,
  )

  -- From a well-formed container under a lawful configuration: whatever a transaction writes, and
  -- wherever its commit fails, a page that loaded when it began still loads from the disk with its old
  -- bytes through its old entry, if the segment index fits its uint32 length at the commit.
  pub load_page-transaction :
      (other : List Extent) (calls : List Call) (c : Container) (n : ℕ) (page : List ℕ)
      → Sound k other c
      → Indexable k laws (run_calls k calls c)
      → load_page k c n ≡ ok page
      → load_found k (commit k (run_calls k calls c)).0.disk n (get_elem? c.dir n) ≡ ok page
  load_page-transaction other calls c n page sound small h =
      let d = run_calls k calls c in
      let written = run_calls-Extends other calls c sound in
      let (keeps, dir) =
        Committed-Keeps other d (commit k d)
          (commit-Committed k laws other d small written.sound) in
      load_page-Keeps k laws other c (commit k d).0.disk n page sound
        (Keeps-trans k.block_size (usage k other c) laws.block_pos (usage k other d) c.disk d.disk
          (commit k d).0.disk written.more written.keeps keeps)
        h

  -- A commit of a well-formed container changes no page, whether it succeeds or fails, under a lawful
  -- configuration and if the segment index fits its uint32 length.
  pub commit-Shows :
      (other : List Extent) (c : Container) (f : ℕ → List ℕ)
      → Indexable k laws c
      → Sound k other c
      → Shows k laws c f
      → Shows k laws (commit k c).0 f
  unfolding load_page pad_directory
  commit-Shows other c f small sound shows n =
      let (keeps, dir) =
        Committed-Keeps other c (commit k c) (commit-Committed k laws other c small sound) in
      let d = (commit k c).0.disk in
      ap (λ l. load_found k d n (get_elem? l n)) dir
      ∙ load_found_grown k laws d n n (c.page_count - length c.dir) c.dir
      ∙ load_page-Keeps k laws other c d n (f n) sound keeps (shows n)
