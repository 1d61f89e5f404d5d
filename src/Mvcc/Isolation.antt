-- ===== src/Mvcc/Isolation.antt =====
-- What the calls of vfs/mvcc publish.
use sqlite.Prelude.{ℕ, List, [], ◌∷◌}
use sqlite.Mvcc.{System, Call, step}

-- Calls of handles, one after the other.
unfoldable pub run_all : System → List (ℕ × Call) → System
unfolding step
run_all s [] = s
run_all s ((j, c) ∷ l) = run_all (step s j c).0 l
