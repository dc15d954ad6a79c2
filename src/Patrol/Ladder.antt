-- ===== src/Patrol/Ladder.antt =====
-- crates/camp-core/src/patrol/mod.rs: the escalation ladder, a state for each bead. The map is an
-- association list; the counters are `u32`, and a count stays below the budget before it grows.
pub mod States
pub mod Budget
use gascamp.Common.{
  ℕ, ◌+◌, ◌*◌, ◌^◌, min, String, Bool, true, false, Option, none, some, List, [], ◌∷◌, ◌++◌, find,
  is_some, update_where, delete_where, ltb, leb, if◌then◌else◌, ◌==◌,
}

pub data LadderAction : Type 0 where
  nudge restart exhausted : LadderAction

pub data Next : Type 0 where
  nudge_next restart_next : Next

pub record LadderState : Type 0 where
  pub bead : String
  pub restarts : ℕ
  pub next : Next

abbrev pub state_key : LadderState → String
state_key s = s.bead

pub record Ladder : Type 0 where
  pub restart_budget : ℕ
  pub states : List LadderState

unfoldable pub new_ladder : ℕ → Ladder
new_ladder budget = record { restart_budget = budget; states = [] }

abbrev pub first_state : String → LadderState
first_state bead = record { bead = bead; restarts = 0; next = nudge_next }

abbrev pub or_first : String → Option LadderState → LadderState
or_first bead none = first_state bead
or_first bead (some s) = s

abbrev pub state_of : String → Ladder → LadderState
state_of bead l = or_first bead (find state_key bead l.states)

abbrev pub is_state_of : String → LadderState → Bool
is_state_of bead s = s.bead == bead

-- writes through `entry(bead).or_insert(..)`
unfoldable pub put_state : String → (LadderState → LadderState) → Ladder → Ladder
put_state bead f l = record l {
  states =
      if is_some (find state_key bead l.states)
      then update_where (is_state_of bead) f l.states
      else l.states ++ f (first_state bead) ∷ [];
}

abbrev pub with_next : Next → LadderState → LadderState
with_next next s = record s { next = next }

abbrev pub restarted : LadderState → LadderState
restarted s = record s { restarts = s.restarts + 1; next = nudge_next }

abbrev pub fire_at : String → Ladder → Next → LadderAction × Ladder
fire_at bead l nudge_next = (nudge, put_state bead (with_next restart_next) l)
fire_at bead l restart_next =
    if ltb (state_of bead l).restarts l.restart_budget
    then (restart, put_state bead restarted l)
    else (exhausted, put_state bead (λ s. s) l)

unfoldable pub on_fire : String → Ladder → LadderAction × Ladder
on_fire bead l = fire_at bead l (state_of bead l).next

-- `get_mut`: a bead without a state gets none
unfoldable pub on_activity : String → Ladder → Ladder
on_activity bead l = record l {
  states = update_where (is_state_of bead) (with_next nudge_next) l.states;
}

unfoldable pub nudge_failed : String → Ladder → Ladder
nudge_failed bead l = put_state bead (with_next restart_next) l

unfoldable pub restarts : String → Ladder → ℕ
restarts bead l = (state_of bead l).restarts

unfoldable pub set_restart_budget : ℕ → Ladder → Ladder
set_restart_budget budget l = record l { restart_budget = budget }

-- `checked_mul`, in nanoseconds, below the largest `SignedDuration`
unfoldable pub effective_threshold : ℕ → String → ℕ → Ladder → ℕ
effective_threshold duration_max bead base l =
    min (base * 2 ^ min (restarts bead l) 20) duration_max

unfoldable pub forget : String → Ladder → Ladder
forget bead l = record l { states = delete_where (is_state_of bead) l.states }
