-- ===== src/Schema/Rows.antt =====
-- Equality of the rows of each table, as `EXCEPT` compares them.
use native.Mathlib.Decide.{ℕ_discrete}
use gascamp.Common.{String, eq_iff, Bool-cases, inl, inr, ◌==◌, true, ◌≡◌}
use gascamp.Schema.{Bead, Meta, Dep, Session, SearchRow, Counter, Permission}

equal_texts : (s t : String) → s ≡ t → (s == t) ≡ true
equal_texts s t p = (eq_iff s t).1 p

pub String-discrete : Discrete String
String-discrete s t = elim (Bool-cases (s == t)) [
  | inl h ↦ yes ((eq_iff s t).0 h)
  | inr h ↦ no (λ p. cc (h, equal_texts s t p))
]

pub Bead-discrete : Discrete Bead
Bead-discrete = hlevel String-discrete

pub Meta-discrete : Discrete Meta
Meta-discrete = hlevel String-discrete

pub Dep-discrete : Discrete Dep
Dep-discrete = hlevel String-discrete

pub Session-discrete : Discrete Session
Session-discrete = hlevel (String-discrete, ℕ_discrete)

pub SearchRow-discrete : Discrete SearchRow
SearchRow-discrete = hlevel String-discrete

pub Counter-discrete : Discrete Counter
Counter-discrete = hlevel (String-discrete, ℕ_discrete)

pub Permission-discrete : Discrete Permission
Permission-discrete = hlevel String-discrete
