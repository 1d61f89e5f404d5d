-- ===== src/Vault/Container/Batches.antt =====
-- The batches of relocation (vfs/vault/compact_online.go).
use sqlite.Prelude.{
  ℕ, suc, ◌+◌, ◌-◌, ◌≤◌, ◌<◌, ◌≡◌, ◌≢◌, refl, ap, ◌∙◌, sym, Bool, true, false, List, [], ◌∷◌, none,
  some, get_elem?, All, arith, leb, ◌==◌, inl, inr, ◌⊎◌, Bool-cases,
}
use sqlite.Vault.Alloc.{Extent, lowest_fit_above}
use sqlite.Vault.Format.{DirEntry}
use sqlite.Vault.Container.{Config, Container, Result, set_entry}
use sqlite.Vault.Container.Owned.{Sound}
use sqlite.Vault.Container.Entries.{get_elem?-set_other}
use sqlite.Vault.Container.Storing.{Lawful, Extends, Extends-trans, Extends-refl}
use sqlite.Vault.Container.Moving.{
  total_offset, total_offset-set, Stands, Distinct, MoveOk, move_to-MoveOk,
}
use sqlite.Vault.Container.Compact.{
  Candidate, candidates_from, insert_highest, sort_highest, move_to, batch_step, relocate_loop,
  relocate_batch, dir_reserve_floor,
}

module _ (k : Config) (laws : Lawful k) where
  -- What a batch does: the container stays well formed, the sum of the offsets does not grow, and it
  -- shrinks unless the count of moved blocks stays.
  abbrev pub BatchOk : List Extent → ℕ → Container → ℕ × Result → Type 0
  BatchOk other moved c r =
      Extends k laws other c r.1.0
      × (total_offset r.1.0.dir ≤ total_offset c.dir)
      × ((r.0 ≡ moved) ⊎ (total_offset r.1.0.dir < total_offset c.dir))

  Stands-kept :
      (cd : Candidate) (c c' : Container) (l : List Candidate)
      → ((n : ℕ) → n ≢ cd.page → get_elem? c'.dir n ≡ get_elem? c.dir n)
      → All (λ x. x.page ≢ cd.page) l
      → All (Stands c) l
      → All (Stands c') l
  Stands-kept cd c c' [] same apart stands = tt
  Stands-kept cd c c' (x ∷ l) same (ne, apart) ((e, there, at, blocks), stands) =
      ((e, same x.page ne ∙ there, at, blocks), Stands-kept cd c c' l same apart stands)

  batch_step-BatchOk :
      (other : List Extent) (cd : Candidate) (l : List Candidate) (moved : ℕ) (c : Container)
      (r : Result × Bool) (go : ℕ → Container → ℕ × Result)
      → All (λ x. x.page ≢ cd.page) l
      → All (Stands c) l
      → MoveOk k laws other cd c r
      → ((m : ℕ) (c' : Container)
          → Sound k other c'
          → All (Stands c') l
          → BatchOk other m c' (go m c'))
      → BatchOk other moved c (batch_step k moved cd.blocks r go)
  unfolding batch_step
  batch_step-BatchOk other cd l moved c ((c', some e), m) go apart stands (step, same) rest =
      (step, rw same (omega arith), inl refl)
  batch_step-BatchOk other cd l moved c ((c', none), false) go apart stands (step, same) rest =
      let (more, low, strict) =
        rest moved c' step.sound
          (Stands-kept cd c c' l (λ n ne. ap (λ d. get_elem? d n) same) apart stands) in
      let sum : total_offset c'.dir ≡ total_offset c.dir = ap total_offset same in
      (
        Extends-trans k laws other c c' (go moved c').1.0 step more,
        omega arith,
        elim strict [ inl q ↦ inl q | inr s ↦ inr (omega (arith, sum, s)) ],
      )
  batch_step-BatchOk other cd l moved c ((c', none), true) go apart stands
        (step, (e, new_off, there, below, same)) rest =
      let (more, low, strict) = rest (moved + cd.blocks) c' step.sound (
        Stands-kept cd c c' l
          (λ n ne.
            ap (λ d. get_elem? d n) same
            ∙ get_elem?-set_other cd.page n (record e { phys_offset = new_off }) c.dir ne)
          apart stands) in
      let sum : total_offset c'.dir
          ≡ total_offset (set_entry cd.page (record e { phys_offset = new_off }) c.dir) =
        ap total_offset same in
      let shrink : total_offset c'.dir < total_offset c.dir =
        omega (
          arith,
          sum,
          total_offset-set cd.page (record e { phys_offset = new_off }) e c.dir there,
        ) in
      (
        Extends-trans k laws other c c' (go (moved + cd.blocks) c').1.0 step more,
        omega (arith, low, shrink),
        inr (omega (arith, low, shrink)),
      )

  relocate_loop-BatchOk :
      (other : List Extent) (max_blocks floor : ℕ) (l : List Candidate) (moved : ℕ) (c : Container)
      → Sound k other c
      → All (Stands c) l
      → Distinct l
      → BatchOk other moved c (relocate_loop k max_blocks floor l moved c)
  unfolding relocate_loop
  relocate_loop-BatchOk other max_blocks floor [] moved c sound stands distinct =
      (Extends-refl k laws other c sound, omega arith, inl refl)
  relocate_loop-BatchOk other max_blocks floor (cd ∷ l) moved c sound (s, stands)
        (apart, distinct) =
      elim (Bool-cases (leb max_blocks moved)) [
        | inl full ↦ rw full (Extends-refl k laws other c sound, omega arith, inl refl)
        | inr more ↦
            let o = lowest_fit_above cd.blocks floor c.allocator.free in
            let ok =
              batch_step-BatchOk other cd l moved c (move_to k cd o c)
                (relocate_loop k max_blocks floor l) apart stands
                (move_to-MoveOk k laws other cd o c sound s)
                (λ m c' sound' stands'.
                  relocate_loop-BatchOk other max_blocks floor l m c' sound' stands' distinct) in
            rw more ok
      ]

-- The candidates of a directory.
abbrev pub Fresh : ℕ → List DirEntry → Candidate → Type 0
Fresh p dir cd =
    (p ≤ cd.page)
    × ((e : DirEntry) × (get_elem? dir (cd.page - p) ≡ some e)
        × (e.phys_offset ≡ cd.off)
        × (e.blocks ≡ cd.blocks))

Fresh-cons :
    (p : ℕ) (e : DirEntry) (dir : List DirEntry) (l : List Candidate)
    → All (Fresh (suc p) dir) l
    → All (Fresh p (e ∷ dir)) l
Fresh-cons p e dir [] h = tt
Fresh-cons p e dir (cd ∷ l) ((le, (f, there, same, blocks)), h) =
    let at : cd.page - p ≡ suc (cd.page - suc p) = omega arith in
    ((omega arith, (f, ap (get_elem? (e ∷ dir)) at ∙ there, same, blocks)), Fresh-cons p e dir l h)

candidates_from-Fresh : (p : ℕ) (dir : List DirEntry) → All (Fresh p dir) (candidates_from p dir)
unfolding candidates_from
candidates_from-Fresh p [] = tt
candidates_from-Fresh p (e ∷ dir) =
    let rest =
      Fresh-cons p e dir (candidates_from (suc p) dir) (candidates_from-Fresh (suc p) dir) in
    let start : p - p ≡ 0 = omega arith in
    let here : get_elem? (e ∷ dir) (p - p) ≡ some e = ap (get_elem? (e ∷ dir)) start in
    elim (Bool-cases (e.phys_offset == 0)) [
      | inl z ↦ rw z rest
      | inr z ↦ rw z ((omega arith, (e, here, refl, refl)), rest)
    ]

Fresh-apart :
    (p : ℕ) (dir : List DirEntry) (l : List Candidate)
    → All (Fresh (suc p) dir) l
    → All (λ x. x.page ≢ p) l
Fresh-apart p dir [] h = tt
Fresh-apart p dir (cd ∷ l) ((le, f), h) = (λ q. omega arith, Fresh-apart p dir l h)

candidates_from-Distinct : (p : ℕ) (dir : List DirEntry) → Distinct (candidates_from p dir)
unfolding candidates_from
candidates_from-Distinct p [] = tt
candidates_from-Distinct p (e ∷ dir) =
    let rest = candidates_from-Distinct (suc p) dir in
    let apart =
      Fresh-apart p dir (candidates_from (suc p) dir) (candidates_from-Fresh (suc p) dir) in
    elim (Bool-cases (e.phys_offset == 0)) [ inl z ↦ rw z rest | inr z ↦ rw z (apart, rest) ]

Fresh-Stands : (c : Container) (l : List Candidate) → All (Fresh 0 c.dir) l → All (Stands c) l
Fresh-Stands c [] h = tt
Fresh-Stands c (cd ∷ l) ((le, (e, there, same, blocks)), h) =
    let at : cd.page ≡ cd.page - 0 = omega arith in
    ((e, ap (get_elem? c.dir) at ∙ there, same, blocks), Fresh-Stands c l h)

All-insert_highest :
    (P : Candidate → Type 0) (cd : Candidate) (l : List Candidate)
    → P cd
    → All P l
    → All P (insert_highest cd l)
unfolding insert_highest
All-insert_highest P cd [] p h = (p, tt)
All-insert_highest P cd (x ∷ l) p (q, h) = elim (Bool-cases (leb x.off cd.off)) [
  | inl b ↦ rw b (p, (q, h))
  | inr b ↦ let rest = All-insert_highest P cd l p h in rw b (q, rest)
]

All-sort_highest : (P : Candidate → Type 0) (l : List Candidate) → All P l → All P (sort_highest l)
unfolding sort_highest
All-sort_highest P [] h = tt
All-sort_highest P (cd ∷ l) (p, h) =
    All-insert_highest P cd (sort_highest l) p (All-sort_highest P l h)

Distinct-insert_highest :
    (cd : Candidate) (l : List Candidate)
    → All (λ x. x.page ≢ cd.page) l
    → Distinct l
    → Distinct (insert_highest cd l)
unfolding insert_highest
Distinct-insert_highest cd [] apart h = (tt, tt)
Distinct-insert_highest cd (x ∷ l) (ne, apart) (away, h) = elim (Bool-cases (leb x.off cd.off)) [
  | inl b ↦ rw b ((ne, apart), (away, h))
  | inr b ↦
      let here = All-insert_highest (λ y. y.page ≢ x.page) cd l (λ q. ne (sym q)) away in
      let rest = Distinct-insert_highest cd l apart h in rw b (here, rest)
]

Distinct-sort_highest : (l : List Candidate) → Distinct l → Distinct (sort_highest l)
unfolding sort_highest
Distinct-sort_highest [] h = tt
Distinct-sort_highest (cd ∷ l) (apart, h) =
    Distinct-insert_highest cd (sort_highest l) (All-sort_highest (λ x. x.page ≢ cd.page) l apart)
      (Distinct-sort_highest l h)

-- Under a lawful configuration a relocation batch on a well-formed container leaves it well formed, whether it fails or not: no
-- block is held twice, no block that was in use before becomes free, and the bytes of those blocks
-- on the disk stay as they are. The sum of the slot offsets never grows, and either the batch
-- reports no moved block or that sum strictly shrinks: only finitely many batches in a row report any.
pub relocate_batch-BatchOk :
    (k : Config) (laws : Lawful k) (other : List Extent) (max_blocks : ℕ) (c : Container)
    → Sound k other c
    → BatchOk k laws other 0 c (relocate_batch k max_blocks c)
unfolding relocate_batch
relocate_batch-BatchOk k laws other max_blocks c sound =
    relocate_loop-BatchOk k laws other max_blocks (dir_reserve_floor c)
      (sort_highest (candidates_from 0 c.dir)) 0 c sound
      (All-sort_highest (Stands c) (candidates_from 0 c.dir)
        (Fresh-Stands c (candidates_from 0 c.dir) (candidates_from-Fresh 0 c.dir)))
      (Distinct-sort_highest (candidates_from 0 c.dir) (candidates_from-Distinct 0 c.dir))
