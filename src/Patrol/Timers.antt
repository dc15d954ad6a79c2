-- ===== src/Patrol/Timers.antt =====
-- crates/camp-core/src/patrol/timers.rs: one armed timer for each tracked session. The map is a list
-- of entries with one for a session; times are numbers of nanoseconds, below `timestamp_max`.
pub mod Sorted
pub mod Firing
use Prim.Native.Nat.{compare as compare_ℕ, Ordering}
use Prim.Native.String.{compare}
use gascamp.Common.{
  ℕ, zero, suc, ◌+◌, ◌-◌, min, String, Bool, true, false, not, ◌&&◌, Option, none, some, List, [],
  ◌∷◌, ◌++◌, find, is_some, select, update_where, delete_where, leb, if◌then◌else◌, ◌==◌, length,
  map,
}

pub data TimerKind : Type 0 where
  stall release : TimerKind

abbrev pub is_stall : TimerKind → Bool
is_stall stall = true
is_stall release = false

-- an entry of the map, with its key
pub record Entry : Type 0 where
  pub session : String
  pub kind : TimerKind
  pub deadline : ℕ
  pub threshold : ℕ

-- `StallFire` has the same fields
pub record StallFire : Type 0 where
  pub session : String
  pub kind : TimerKind
  pub deadline : ℕ
  pub threshold : ℕ

abbrev pub entry_key : Entry → String
entry_key e = e.session

abbrev pub fired : Entry → StallFire
fired e = record {
  session = e.session;
  kind = e.kind;
  deadline = e.deadline;
  threshold = e.threshold;
}

abbrev pub is_of : String → Entry → Bool
is_of session e = e.session == session

abbrev pub is_due : ℕ → Entry → Bool
is_due now e = leb e.deadline now

-- by (deadline, session)
abbrev pub fires_before : Entry → Entry → Bool
fires_before a b = elim (compare_ℕ a.deadline b.deadline) [
  | Ordering.lt ↦ true
  | Ordering.gt ↦ false
  | Ordering.eq ↦ elim (compare a.session b.session) [ Ordering.gt ↦ false | _ ↦ true ]
]

unfoldable pub insert_fire : Entry → List Entry → List Entry
insert_fire e [] = e ∷ []
insert_fire e (x ∷ due) =
    let rest = insert_fire e due in if fires_before e x then e ∷ x ∷ due else x ∷ rest

unfoldable pub in_order : List Entry → List Entry
in_order [] = []
in_order (e ∷ due) = insert_fire e (in_order due)

abbrev pub min_deadline : Option ℕ → ℕ → Option ℕ
min_deadline none d = some d
min_deadline (some a) d = some (min a d)

unfoldable pub next_deadline : List Entry → Option ℕ
next_deadline [] = none
next_deadline (e ∷ rest) = min_deadline (next_deadline rest) e.deadline

module _ (timestamp_max : ℕ) where
  unfoldable pub deadline_of : ℕ → ℕ → ℕ
  deadline_of now threshold = min (now + threshold) timestamp_max

  unfoldable pub arm : String → TimerKind → ℕ → ℕ → List Entry → List Entry
  arm session kind threshold now entries =
      delete_where (is_of session) entries
      ++ record {
        session = session;
        kind = kind;
        deadline = deadline_of now threshold;
        threshold = threshold;
      }
        ∷ []

  -- whether a timer moved, and the timers
  unfoldable pub reset : String → ℕ → List Entry → Bool × List Entry
  reset session now entries = elim (find entry_key session entries) [
    | none ↦ (false, entries)
    | some e ↦ (
      is_stall e.kind,
      update_where (λ x. is_of session x && is_stall x.kind)
          (λ x. record x { deadline = deadline_of now x.threshold }) entries,
    )
  ]

unfoldable pub disarm : String → List Entry → Bool × List Entry
disarm session entries =
    (is_some (find entry_key session entries), delete_where (is_of session) entries)

abbrev pub is_armed : String → List Entry → Bool
is_armed session entries = is_some (find entry_key session entries)

-- what fires, in order, and the timers that are left
unfoldable pub fire_due : ℕ → List Entry → List StallFire × List Entry
fire_due now entries =
    (map fired (in_order (select (is_due now) entries)), delete_where (is_due now) entries)

-- `until + 1 ms` of a deadline to come, in nanoseconds
unfoldable pub poll_timeout : ℕ → List Entry → Option ℕ
poll_timeout now entries = elim (next_deadline entries) [
  | none ↦ none
  | some deadline ↦ some (if leb deadline now then 0 else (deadline - now) + 1000000)
]
