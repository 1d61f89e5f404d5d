-- ===== src/Registry.antt =====
-- The token registry of internal/cabi/registry.go, through which C code names Go values. Tokens,
-- uintptr in the source, are plain numbers: their counter does not wrap in the life of a process.
pub mod Tokens
use sqlite.Prelude.{ℕ, ◌+◌, Bool, Option, none, some, ◌==◌, if◌then◌else◌, update}

pub record Registry {ℓ} (T : Type ℓ) : Type ℓ where
  pub next : ℕ
  pub m : ℕ → Option T

abbrev pub new_registry {ℓ} : {T : Type ℓ} → Registry T
new_registry = record { next = 0; m = λ _. none }

unfoldable pub register {ℓ} : {T : Type ℓ} → Registry T → T → Registry T × ℕ
register r v = let tok = r.next + 1 in (record { next = tok; m = update r.m tok (some v) }, tok)

unfoldable pub lookup {ℓ} : {T : Type ℓ} → Registry T → ℕ → Option T
lookup r tok = if tok == 0 then none else r.m tok

unfoldable pub unregister {ℓ} : {T : Type ℓ} → Registry T → ℕ → Registry T
unregister r tok = record r { m = update r.m tok none }

-- `DeleteWhere`
unfoldable pub delete_where {ℓ} : {T : Type ℓ} → Registry T → (ℕ → T → Bool) → Registry T
delete_where r pred = record r {
  m = λ tok. elim (r.m tok) [ none ↦ none | some v ↦ if pred tok v then none else some v ];
}
