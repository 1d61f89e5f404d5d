-- ===== src/Vault/Container/Trim/Tail.antt =====
-- The tail of the file and of the free list under the trimming of vfs/vault/trim.go.
use native.Mathlib.Nat.{div-lt_iff_lt-mul, add-mul}
use sqlite.Prelude.{
  ℕ, ◌+◌, ◌-◌, ◌*◌, ◌/◌, ◌≤◌, ◌<◌, ◌≡◌, refl, ap, sym, ◌∙◌, true, List, [], ◌∷◌, Option, none, some,
  arith, ◌⊎◌, inl, inr, Bool-cases, Option-cases, ltb, ◌==◌, if◌then◌else◌,
}
use sqlite.Vault.Alloc.{Extent, Allocator}
use sqlite.Vault.Alloc.Cover.{cover, hit}
use sqlite.Vault.Disk.{Fault, done, torn}
use sqlite.Vault.Container.{Config, Container, Error, io_error, Result}
use sqlite.Vault.Container.Owned.{Room, usage, held, Sound}
use sqlite.Vault.Container.Storing.{Lawful}
use sqlite.Vault.Container.Trim.{
  truncate_under, last_free, cut_last, release_count, shrunk, trim_tail, trim_locked,
}

-- The blocks that leave the free list are the last ones.
cover-cut_last :
    (n : ℕ) (e : Extent) (l : List Extent) (b : ℕ)
    → last_free l ≡ some e
    → n ≤ e.count
    → cover (cut_last n l) b + hit (e.start + e.count - n) n b ≡ cover l b
unfolding last_free cut_last cover
cover-cut_last n e [] b h le = cc
cover-cut_last n e (f ∷ []) b h le =
    let same : f ≡ e = cc in
    rw same (elim (Bool-cases (n == e.count)) [
      | inl q ↦ rw q (ground arith)
      | inr q ↦ rw q (ground arith)
    ])
cover-cut_last n e (f ∷ g ∷ l) b h le = omega (arith, cover-cut_last n e (g ∷ l) b h le)

cover-last_free :
    (e : Extent) (l : List Extent) (b : ℕ)
    → last_free l ≡ some e
    → hit e.start e.count b ≤ cover l b
unfolding last_free cover
cover-last_free e [] b h = cc
cover-last_free e (f ∷ []) b h = let same : f ≡ e = cc in rw same (omega arith)
cover-last_free e (f ∷ g ∷ l) b h = omega (arith, cover-last_free e (g ∷ l) b h)

-- The room after the last `n` blocks of a tail extent are gone.
Room-cut :
    (u : ℕ → ℕ) (a : Allocator) (e : Extent) (n : ℕ)
    → last_free a.free ≡ some e
    → e.start + e.count ≡ a.high_water
    → n ≤ e.count
    → 0 < n
    → Room u a
    → Room u (record { free = cut_last n a.free; high_water = a.high_water - n })
Room-cut u a e n last tail le pos (past, room) =
    let first : 2 ≤ e.start = ground (arith, room e.start, cover-last_free e a.free e.start last) in
    (omega arith, λ b. ground (arith, room b, cover-cut_last n e a.free b last le))

module _ (k : Config) (laws : Lawful k) where
  -- What trimming does. `used` is what the container and its neighbours hold, which stays the same.
  pub record Trimmed (other : List Extent) (c : Container) (r : ℕ × Result) : Type 0 where
    pub sound : Sound k other r.1.0
    pub used : (b : ℕ) → usage k other r.1.0 b ≡ usage k other c b
    pub same :
        (i : ℕ) → 1 ≤ usage k other c (i / k.block_size) → r.1.0.disk.bytes i ≡ c.disk.bytes i
    pub reclaimed :
        r.0 + r.1.0.allocator.high_water * k.block_size ≡ c.allocator.high_water * k.block_size
    pub tail :
        (r.1.0.disk.size ≡ c.disk.size)
        ⊎ (r.1.0.disk.size ≡ r.1.0.allocator.high_water * k.block_size)

  untouched :
      (other : List Extent) (c : Container) (o : Option Error)
      → Sound k other c
      → Trimmed other c (0, (c, o))
  untouched other c o sound = record {
    sound = sound;
    used = λ b. refl;
    same = λ i h. refl;
    reclaimed = omega arith;
    tail = inl refl;
  }

  refused :
      (other : List Extent) (c : Container) (faults : List Fault) (o : Option Error)
      → Sound k other c
      → Trimmed other c (0, (record c { disk = record c.disk { faults = faults } }, o))
  unfolding held
  refused other c faults o sound = record {
    sound = record {
      room = sound.room;
      slots = sound.slots;
      segs = sound.segs;
      ping_pong = sound.ping_pong;
    };
    used = λ b. refl;
    same = λ i h. refl;
    reclaimed = omega arith;
    tail = inl refl;
  }

  released :
      (other : List Extent) (c : Container) (e : Extent) (n : ℕ) (faults : List Fault)
      → last_free c.allocator.free ≡ some e
      → e.start + e.count ≡ c.allocator.high_water
      → n ≤ e.count
      → 0 < n
      → Sound k other c
      → Trimmed other c (
          shrunk k n
            (
              record c.disk {
                bytes = λ i.
                    if ltb i ((c.allocator.high_water - n) * k.block_size)
                    then c.disk.bytes i
                    else 0;
                size = (c.allocator.high_water - n) * k.block_size;
                faults = faults;
              },
              true,
            )
            c)
  unfolding held shrunk
  released other c e n faults last at le pos sound = record {
    sound = record {
      room = room;
      slots = sound.slots;
      segs = sound.segs;
      ping_pong = sound.ping_pong;
    };
    used = λ b. refl;
    same = λ i h.
        let low : i / k.block_size < c.allocator.high_water - n =
          ground (arith, room.1 (i / k.block_size)) in
        let inside : i < (c.allocator.high_water - n) * k.block_size =
          (div-lt_iff_lt-mul laws.block_pos).0 low in
        ground arith;
    reclaimed =
        let all : n + (c.allocator.high_water - n) ≡ c.allocator.high_water = omega arith in
        sym (add-mul n (c.allocator.high_water - n) k.block_size) ∙ ap (λ x. x * k.block_size) all;
    tail = inr refl;
  }
    where
      room :
          Room
            (usage k other c)
            (record { free = cut_last n c.allocator.free; high_water = c.allocator.high_water - n })
      room = Room-cut (usage k other c) c.allocator e n last at le pos sound.room

  release_count_le : (bs max_bytes count : ℕ) → release_count bs max_bytes count ≤ count
  unfolding release_count
  release_count_le bs max_bytes count = ground arith

  cut_file :
      (other : List Extent) (c : Container) (e : Extent) (n : ℕ) (faults : List Fault)
      → last_free c.allocator.free ≡ some e
      → e.start + e.count ≡ c.allocator.high_water
      → n ≤ e.count
      → 0 < n
      → Sound k other c
      → Trimmed other c (
          shrunk k n (truncate_under faults c.disk ((c.allocator.high_water - n) * k.block_size)) c)
  unfolding truncate_under shrunk
  cut_file other c e n [] last at le pos sound =
      released other c e n c.disk.faults last at le pos sound
  cut_file other c e n (done ∷ rest) last at le pos sound =
      released other c e n rest last at le pos sound
  cut_file other c e n (torn m ∷ rest) last at le pos sound =
      refused other c rest (some io_error) sound

  -- Under a lawful configuration, trimming a well-formed container leaves it well formed, whether it fails or not: the blocks in use
  -- are the same and keep their bytes. The bytes that it reports are those by which the high-water
  -- mark fell, and the file keeps its size or ends exactly at the new mark.
  pub trim_locked-Trimmed :
      (other : List Extent) (max_bytes : ℕ) (c : Container)
      → Sound k other c
      → Trimmed other c (trim_locked k max_bytes c)
  unfolding trim_locked trim_tail
  trim_locked-Trimmed other max_bytes c sound = elim (Option-cases (last_free c.allocator.free)) [
    | inl q ↦ rw q (untouched other c none sound)
    | inr (e, q) ↦ elim (Bool-cases (e.start + e.count == c.allocator.high_water)) [
      | inr inner ↦ rw (q, inner) (untouched other c none sound)
      | inl at ↦ elim (Bool-cases (release_count k.block_size max_bytes e.count == 0)) [
        | inl z ↦ rw (q, at, z) (untouched other c none sound)
        | inr z ↦
            let cut =
              cut_file other c e (release_count k.block_size max_bytes e.count) c.disk.faults q
                (ground arith) (release_count_le k.block_size max_bytes e.count) (ground arith)
                sound in
            rw (q, at, z) cut
      ]
    ]
  ]
