-- ===== src/Patrol/Timers/Firing.antt =====
-- What fires, and when the daemon wakes.
use gascamp.Common.{
  ◌≡◌, refl, String, not, ◌&&◌, ◌∙◌, ℕ, Bool, true, List, [], ◌∷◌, select, delete_where, leb,
  length, map, arith,
}
use gascamp.Patrol.Timers.{
  Entry, StallFire, TimerKind, fired, is_due, insert_fire, in_order, fire_due,
}
use gascamp.Patrol.Timers.Sorted.{IsSorted, Sorted-in_order, Sorted-fired}

-- How many of the entries and of the fires have columns of which `p` holds.
abbrev pub Columns : Type 0
Columns = String → TimerKind → ℕ → ℕ → Bool

abbrev pub entries_with : Columns → (Entry → Bool) → List Entry → ℕ
entries_with p q es =
    length (select (λ (e : Entry). q e && p e.session e.kind e.deadline e.threshold) es)

abbrev pub fires_with : Columns → List StallFire → ℕ
fires_with p fs = length (select (λ (f : StallFire). p f.session f.kind f.deadline f.threshold) fs)

insert_fire-with :
    (p : Columns) (e : Entry) (due : List Entry)
    → fires_with p (map fired (insert_fire e due)) ≡ fires_with p (map fired (e ∷ due))
unfolding insert_fire select
insert_fire-with p e [] = refl
insert_fire-with p e (x ∷ due) = ground (arith, insert_fire-with p e due)

in_order-with :
    (p : Columns) (due : List Entry)
    → fires_with p (map fired (in_order due)) ≡ fires_with p (map fired due)
unfolding in_order select
in_order-with p [] = refl
in_order-with p (e ∷ due) =
    insert_fire-with p e (in_order due) ∙ (ground (arith, in_order-with p due))

due-with :
    (p : Columns) (now : ℕ) (es : List Entry)
    → fires_with p (map fired (select (is_due now) es))
      ≡ entries_with p (λ e. leb e.deadline now) es
unfolding select
due-with p now [] = refl
due-with p now (e ∷ es) = ground (arith, due-with p now es)

left-with :
    (p : Columns) (now : ℕ) (es : List Entry)
    → entries_with p (λ e. true) (delete_where (is_due now) es)
      ≡ entries_with p (λ e. not (leb e.deadline now)) es
unfolding select delete_where
left-with p now [] = refl
left-with p now (e ∷ es) = ground (arith, left-with p now es)

-- What `fire_due` does at a time `now`.
pub record IsFired (now : ℕ) (es : List Entry) : Type 0 where
  pub sorted : IsSorted (fire_due now es).0
  pub fires :
      (p : Columns) → fires_with p (fire_due now es).0 ≡ entries_with p (λ e. leb e.deadline now) es
  pub rest :
      (p : Columns)
      → entries_with p (λ e. true) (fire_due now es).1
        ≡ entries_with p (λ e. not (leb e.deadline now)) es

-- `fire_due` fires exactly the timers that are due, each with its session, kind, deadline and threshold
-- and as often as it stands in the list, in the order of their deadlines and, at one deadline, of
-- their sessions; the timers that are left are
-- exactly those that are not due, as they were.
pub fire_due-IsFired : (now : ℕ) (es : List Entry) → IsFired now es
unfolding fire_due
fire_due-IsFired now es = record {
  sorted =
      Sorted-fired (in_order (select (is_due now) es)) (Sorted-in_order (select (is_due now) es));
  fires = λ p. in_order-with p (select (is_due now) es) ∙ due-with p now es;
  rest = λ p. left-with p now es;
}

abbrev pub millisecond : ℕ
millisecond = 1000000
