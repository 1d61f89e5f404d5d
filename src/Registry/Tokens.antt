-- ===== src/Registry/Tokens.antt =====
-- The tokens of internal/cabi/registry.go.
use sqlite.Prelude.{ℕ, ◌+◌, ◌<◌, ◌≡◌, ◌≢◌, refl, Bool, none, some, arith}
use sqlite.Registry.{Registry, new_registry, register, lookup, unregister, delete_where}

-- The registries that the calls can reach.
pub data Reach {ℓ} {T : Type ℓ} : Registry T → Type ℓ where
  start : Reach new_registry
  registers : {r : Registry T} → Reach r → (v : T) → Reach (register r v).0
  unregisters : {r : Registry T} → Reach r → (tok : ℕ) → Reach (unregister r tok)
  deletes : {r : Registry T} → Reach r → (pred : ℕ → T → Bool) → Reach (delete_where r pred)

-- A token past the counter names nothing.
Reach-unused {ℓ} :
    {T : Type ℓ} {r : Registry T} → Reach r → (tok : ℕ) → r.next < tok → r.m tok ≡ none
unfolding register unregister delete_where
Reach-unused start tok h = refl
Reach-unused (registers {r} p v) tok h = ground (arith, Reach-unused p tok)
Reach-unused (unregisters {r} p t) tok h = ground (arith, Reach-unused p tok)
Reach-unused (deletes {r} p pred) tok h = rw (Reach-unused p tok h)

-- In a reachable registry a new token is not 0 and named nothing before; it names the value that was
-- registered, and every other token names what it named.
pub register-fresh {ℓ} :
    {T : Type ℓ} {r : Registry T}
    → Reach r
    → (v : T) (tok : ℕ)
    → ((register r v).1 ≢ 0)
      × (lookup r (register r v).1 ≡ none)
      × (lookup (register r v).0 (register r v).1 ≡ some v)
      × (tok ≢ (register r v).1 → lookup (register r v).0 tok ≡ lookup r tok)
unfolding register lookup
register-fresh {r} p v tok =
    (ground arith, ground (arith, Reach-unused p (r.next + 1)), ground arith, λ h. ground arith)
