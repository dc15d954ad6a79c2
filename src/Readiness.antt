-- ===== src/Readiness.antt =====
-- crates/camp-core/src/readiness.rs: which beads are ready, the queries on the state tables that
-- `camp ls`, the status surface and the dispatcher read.
pub mod Lists
pub mod Queries
pub mod Unblocking
use Prim.Native.Nat.{Ordering}
use Prim.Native.Char.{code}
use Prim.Native.String.{compare}
use gascamp.Common.{
  ℕ, String, Bool, true, false, not, ◌&&◌, ◌||◌, Option, none, some, List, [], ◌∷◌, map, is_some,
  is_none, is_text, any, select, length, eqb, if◌then◌else◌, ◌==◌,
}
use gascamp.Error.{Result, ok, unknown_bead, ok_or, ◌>>=◌, ◌>>◌}
use gascamp.Schema.{Tables, Bead, BeadStatus, is_open, is_closed, Dep, bead_row}
use gascamp.Fold.Guards.{bead_status}

-- the projection BEAD_COLS of a row of `beads`
pub record BeadRow : Type 0 where
  pub id : String
  pub rig : String
  pub kind : String
  pub title : String
  pub status : BeadStatus
  pub assignee : Option String
  pub claimed_by : Option String
  pub outcome : Option String
  pub work_outcome : Option String
  pub dispatch_failure : Option String
  pub labels : List String
  pub created_ts : String
  pub updated_ts : String

abbrev pub row_to_bead : Bead → BeadRow
row_to_bead b = record {
  id = b.id;
  rig = b.rig;
  kind = b.kind;
  title = b.title;
  status = b.status;
  assignee = b.assignee;
  claimed_by = b.claimed_by;
  outcome = b.outcome;
  work_outcome = b.work_outcome;
  dispatch_failure = b.dispatch_failure;
  labels = b.labels;
  created_ts = b.created_ts;
  updated_ts = b.updated_ts;
}

pub record ListFilter : Type 0 where
  pub rig : Option String
  pub mine : Option String

-- `?1 IS NULL OR column = ?1`
abbrev pub is_wanted : Option String → Option String → Bool
is_wanted none column = true
is_wanted (some wanted) column = is_text wanted column

-- ORDER BY created_ts, id
abbrev pub before : String → String → String → String → Bool
before ts₁ id₁ ts₂ id₂ = elim (compare ts₁ ts₂) [
  | Ordering.lt ↦ true
  | Ordering.gt ↦ false
  | Ordering.eq ↦ elim (compare id₁ id₂) [ Ordering.gt ↦ false | _ ↦ true ]
]

unfoldable pub insert_in_order : Bead → List Bead → List Bead
insert_in_order b [] = b ∷ []
insert_in_order b (x ∷ rows) =
    let rest = insert_in_order b rows in
    if before b.created_ts b.id x.created_ts x.id then b ∷ x ∷ rows else x ∷ rest

unfoldable pub order_by : List Bead → List Bead
order_by [] = []
order_by (b ∷ rows) = insert_in_order b (order_by rows)

-- UNMET_DEP, with `t` the LEFT JOIN of `beads` at `needs_id`
abbrev pub is_unmet : Option Bead → Bool
is_unmet none = true
is_unmet (some t) = not (is_closed t.status) || not (is_text "pass" t.outcome)

abbrev pub unmet_dep : Tables → String → Dep → Bool
unmet_dep t bead d = d.bead_id == bead && is_unmet (bead_row t d.needs_id)

-- TASK
abbrev pub is_task : Bead → Bool
is_task b = b.kind == "task"

unfoldable pub is_ready : Tables → String → Result Bool
is_ready t bead = do
  status ← ok_or (bead_status t bead) (unknown_bead bead)
  ok (is_open status && eqb (length (select (unmet_dep t bead) t.deps)) 0)

-- `b.status = 'open' AND NOT EXISTS (...)`
abbrev pub is_unblocked : Tables → Bead → Bool
is_unblocked t b = is_open b.status && not (any (unmet_dep t b.id) t.deps)

unfoldable pub ready_beads : Tables → Option String → List BeadRow
ready_beads t rig =
    map row_to_bead
      (order_by (select (λ b. is_wanted rig (some b.rig) && is_unblocked t b) t.beads))

-- `run_id IS NOT NULL AND step_id IS NULL`
abbrev pub is_run_root : Bead → Bool
is_run_root b = is_some b.run_id && is_none b.step_id

-- the conditions that `ready_task_count` and `dispatchable_beads` share
abbrev pub is_ready_task : Tables → Bead → Bool
is_ready_task t b =
    is_task b && is_none b.dispatch_failure && not (is_run_root b) && is_unblocked t b

abbrev pub is_dispatchable : Tables → Bead → Bool
is_dispatchable t b = is_ready_task t b && not (any (λ s. is_text b.id s.bead) t.sessions)

unfoldable pub dispatchable_beads : Tables → List BeadRow
dispatchable_beads t = map row_to_bead (order_by (select (is_dispatchable t) t.beads))

unfoldable pub ready_task_count : Tables → ℕ
ready_task_count t = length (select (is_ready_task t) t.beads)

unfoldable pub open_task_count : Tables → ℕ
open_task_count t = length (select (λ b. is_open b.status && is_task b) t.beads)

-- `reason.starts_with(prefix)`
unfoldable pub starts_with : String → String → Bool
starts_with String.[] s = true
starts_with (String.◌∷◌ c p) String.[] = false
starts_with (String.◌∷◌ c p) (String.◌∷◌ d s) =
    let rest = starts_with p s in eqb (code c) (code d) && rest

abbrev pub deferred_dispatch_prefix : String
deferred_dispatch_prefix = "patrol respawn deferred:"

abbrev pub is_deferred_dispatch_failure : String → Bool
is_deferred_dispatch_failure reason = starts_with deferred_dispatch_prefix reason

-- SELECT DISTINCT bead_id ... ORDER BY bead_id
unfoldable pub insert_distinct : String → List String → List String
insert_distinct s [] = s ∷ []
insert_distinct s (x ∷ rest) =
    let later = insert_distinct s rest in
    elim (compare s x) [
      | Ordering.lt ↦ s ∷ x ∷ rest
      | Ordering.eq ↦ x ∷ rest
      | Ordering.gt ↦ x ∷ later
    ]

unfoldable pub distinct : List Dep → List String
distinct [] = []
distinct (d ∷ rest) = insert_distinct d.bead_id (distinct rest)

-- the loop of `newly_ready`
unfoldable pub keep_ready : Tables → List String → Result (List String)
keep_ready t [] = ok []
keep_ready t (dep ∷ rest) = do
  ready ← is_ready t dep
  later ← keep_ready t rest
  ok (if ready then dep ∷ later else later)

unfoldable pub newly_ready : Tables → String → Result (List String)
newly_ready t closed_bead = keep_ready t (distinct (select (λ d. d.needs_id == closed_bead) t.deps))

unfoldable pub list_beads : Tables → ListFilter → List BeadRow
list_beads t filter = map row_to_bead (
    order_by (
      select (λ b. is_wanted filter.rig (some b.rig) && is_wanted filter.mine b.claimed_by)
        t.beads))

abbrev pub get_bead : Tables → String → Option BeadRow
get_bead t id = elim (bead_row t id) [ none ↦ none | some b ↦ some (row_to_bead b) ]
