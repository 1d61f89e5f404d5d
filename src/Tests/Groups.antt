-- ===== src/Tests/Groups.antt =====
-- The z-order curve of ext/zorder and the shared-memory groups of vfs/shm.go on small inputs.
use sqlite.Prelude.{◌≡◌, ◌^◌, refl, [], ◌∷◌, none, some}
use sqlite.Zorder.{encode, decode, interleave, all_zero, collect, low_bit, shift_at}
use sqlite.ShmGroups.{Groups, attach_shm, detach_shm, pin, drop_ref}

zorder_test :
    (encode (3 ∷ 5 ∷ []) ≡ some 39)
    × (decode 39 2 0 ≡ some 3)
    × (decode 39 2 1 ≡ some 5)
    × (encode (1 ∷ []) ≡ none)
    × (encode (2 ^ 32 ∷ 0 ∷ []) ≡ none)
    × (decode 39 2 2 ≡ none)
unfolding encode decode interleave all_zero collect low_bit shift_at
zorder_test = (refl, refl, refl, refl, refl, refl)

abbrev no_groups : Groups
no_groups = record {
  by_key = λ _. none;
  groups = λ _. record { refs = 0; regions = [] };
  next = 0;
  attached = λ _. none;
}

-- Files 1 and 2 share key 9; the group goes with the last of them.
abbrev both : Groups
both = (attach_shm (attach_shm no_groups 1 (some 9)).0 2 (some 9)).0

groups_test :
    ((both.groups 0).refs ≡ 2)
    × ((detach_shm both 1).0.by_key 9 ≡ some 0)
    × ((detach_shm (detach_shm both 1).0 2).0.by_key 9 ≡ none)
    × ((detach_shm (detach_shm both 1).0 1).0.by_key 9 ≡ some 0)
unfolding attach_shm detach_shm pin drop_ref
groups_test = (refl, refl, refl, refl)
