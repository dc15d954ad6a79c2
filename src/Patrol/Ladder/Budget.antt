-- ===== src/Patrol/Ladder/Budget.antt =====
-- The ladder under any sequence of calls.
use mathlib.Core.Path.{subst}
use gascamp.Common.{
  ◌≡◌, refl, sym, ap, ◌∙◌, ℕ, ◌+◌, ◌≤◌, ◌*◌, String, false, List, delete_where, [], ◌∷◌, find, ltb,
  if◌then◌else◌, ◌==◌, eq_iff, find-update_where, arith, Bool-cases, inl, inr, ltb→lt,
}
use gascamp.Patrol.Ladder.{
  Ladder, LadderAction, restart, Next, nudge_next, restart_next, LadderState, state_key, new_ladder,
  state_of, is_state_of, put_state, with_next, restarted, fire_at, on_fire, on_activity,
  nudge_failed, restarts, forget, set_restart_budget, or_first,
}
use gascamp.Patrol.Ladder.States.{state_of-put_state, state_of-put_state_other}

-- The calls of the patrol that change the ladder, each for a bead but the reload of the budget.
pub data Call : Type 0 where
  fire activity undelivered closed : Call
  reloaded : (budget : ℕ) → Call

abbrev pub call : String → Call → Ladder → Ladder
call bead fire l = (on_fire bead l).1
call bead activity l = on_activity bead l
call bead undelivered l = nudge_failed bead l
call bead closed l = forget bead l
call bead (reloaded budget) l = set_restart_budget budget l

abbrev pub is_restart : LadderAction → ℕ
is_restart restart = 1
is_restart _ = 0

-- the restarts that the call orders
abbrev pub ordered : String → Call → Ladder → ℕ
ordered bead fire l = is_restart (on_fire bead l).0
ordered bead _ l = 0

abbrev pub run : List (String × Call) → Ladder → Ladder
run [] l = l
run ((bead, c) ∷ rest) l = run rest (call bead c l)

-- the restarts that a sequence of calls orders for a bead
abbrev pub ordered_for : String → List (String × Call) → Ladder → ℕ
ordered_for bead [] l = 0
ordered_for bead ((b, c) ∷ rest) l =
    (if b == bead then ordered b c l else 0) + ordered_for bead rest (call b c l)

module _ (bead : String) (l : Ladder) where
  budget-fire : (on_fire bead l).1.restart_budget ≡ l.restart_budget
  unfolding on_fire put_state
  budget-fire = ground arith

  fire_at-restarts :
      (n : Next)
      → (state_of bead (fire_at bead l n).1).restarts
        ≡ (state_of bead l).restarts + is_restart (fire_at bead l n).0
  fire_at-restarts nudge_next =
      ap (λ (s : LadderState). s.restarts)
        (state_of-put_state bead (with_next restart_next) (λ s. refl) l)
      ∙ (omega arith)
  fire_at-restarts restart_next =
      elim (Bool-cases (ltb (state_of bead l).restarts l.restart_budget)) [
        | inl y ↦
            rw y (
              ap (λ (s : LadderState). s.restarts)
                (state_of-put_state bead restarted (λ s. refl) l))
        | inr n ↦ rw n (
            ap (λ (s : LadderState). s.restarts) (state_of-put_state bead (λ s. s) (λ s. refl) l)
            ∙ (omega arith))
      ]

  restarts-fire : restarts bead (on_fire bead l).1 ≡ restarts bead l + is_restart (on_fire bead l).0
  unfolding restarts on_fire
  restarts-fire = fire_at-restarts (state_of bead l).next

  restarts-fire_other :
      (k : String) → (bead == k) ≡ false → restarts k (on_fire bead l).1 ≡ restarts k l
  unfolding restarts on_fire
  restarts-fire_other k differ = go (state_of bead l).next
    where
      go : (n : Next) → (state_of k (fire_at bead l n).1).restarts ≡ (state_of k l).restarts
      go nudge_next =
          ap (λ (s : LadderState). s.restarts)
            (state_of-put_state_other bead (with_next restart_next) (λ s. refl) l k differ)
      go restart_next = elim (Bool-cases (ltb (state_of bead l).restarts l.restart_budget)) [
        | inl y ↦ rw y (
            ap (λ (s : LadderState). s.restarts)
              (state_of-put_state_other bead restarted (λ s. refl) l k differ))
        | inr n ↦ rw n (
            ap (λ (s : LadderState). s.restarts)
              (state_of-put_state_other bead (λ s. s) (λ s. refl) l k differ))
      ]

  within-fire :
      (most : ℕ)
      → restarts bead l ≤ most
      → l.restart_budget ≤ most
      → restarts bead (on_fire bead l).1 ≤ most
  unfolding restarts on_fire
  within-fire most h k = go (state_of bead l).next
    where
      go : (n : Next) → (state_of bead (fire_at bead l n).1).restarts ≤ most
      go nudge_next = rw (state_of-put_state bead (with_next restart_next) (λ s. refl) l) h
      go restart_next = elim (Bool-cases (ltb (state_of bead l).restarts l.restart_budget)) [
        | inl y ↦ rw y (
            rw (state_of-put_state bead restarted (λ s. refl) l)
              (ground (arith, k, ltb→lt (state_of bead l).restarts l.restart_budget y)))
        | inr n ↦ rw n (rw (state_of-put_state bead (λ s. s) (λ s. refl) l) h)
      ]

  restarts-activity : (k : String) → restarts k (on_activity bead l) ≡ restarts k l
  unfolding restarts on_activity
  restarts-activity k = ground (
    arith,
    find-update_where state_key (is_state_of bead) (with_next nudge_next) (λ s. refl) k l.states,
  )

  restarts-undelivered : (k : String) → restarts k (nudge_failed bead l) ≡ restarts k l
  unfolding restarts nudge_failed
  restarts-undelivered k = elim (Bool-cases (bead == k)) [
    | inl y ↦
        (let q : bead ≡ k = (eq_iff bead k).0 y in
          rw (← q) (
            ap (λ (s : LadderState). s.restarts)
              (state_of-put_state bead (with_next restart_next) (λ s. refl) l)))
    | inr n ↦
        ap (λ (s : LadderState). s.restarts)
          (state_of-put_state_other bead (with_next restart_next) (λ s. refl) l k n)
  ]

-- the budgets that are in force during the calls are at most `most`
abbrev pub AreAtMost : ℕ → List (String × Call) → Type 0
AreAtMost most [] = Unit
AreAtMost most ((b, reloaded budget) ∷ rest) = (budget ≤ most) × AreAtMost most rest
AreAtMost most ((b, _) ∷ rest) = AreAtMost most rest

abbrev closes_of : String → String → Call → ℕ
closes_of bead b closed = if b == bead then 1 else 0
closes_of bead b _ = 0

-- how often the ladder is told that the bead has closed
abbrev pub closes : String → List (String × Call) → ℕ
closes bead [] = 0
closes bead ((b, c) ∷ rest) = closes_of bead b c + closes bead rest

find-forget :
    (bead b : String) (rows : List LadderState)
    → (or_first bead (find state_key bead (delete_where (is_state_of b) rows))).restarts
      ≡ (if b == bead then 0 else (or_first bead (find state_key bead rows)).restarts)
unfolding find delete_where
find-forget bead b [] = ground arith
find-forget bead b (s ∷ rows) =
    ground (arith, find-forget bead b rows, eq_iff b bead, eq_iff s.bead b, eq_iff s.bead bead)

restarts-forget :
    (bead b : String) (l : Ladder)
    → restarts bead (forget b l) ≡ (if b == bead then 0 else restarts bead l)
unfolding restarts forget
restarts-forget bead b l = find-forget bead b l.states

-- What a call does to the count of a bead.
restarts-fire_at :
    (bead b : String) (l : Ladder)
    → restarts bead (on_fire b l).1 ≡ restarts bead l + (if b == bead then ordered b fire l else 0)
restarts-fire_at bead b l = elim (Bool-cases (b == bead)) [
  | inl y ↦ (let q : b ≡ bead = (eq_iff b bead).0 y in rw y (rw (← q) (restarts-fire b l)))
  | inr n ↦ rw n (restarts-fire_other b l bead n ∙ (omega arith))
]

within-fire_at :
    (bead b : String) (l : Ladder) (most : ℕ)
    → restarts bead l ≤ most
    → l.restart_budget ≤ most
    → restarts bead (on_fire b l).1 ≤ most
within-fire_at bead b l most h k = elim (Bool-cases (b == bead)) [
  | inl y ↦
      (let q : b ≡ bead = (eq_iff b bead).0 y in
        subst (λ (x : String). restarts x (on_fire b l).1 ≤ most) q
          (within-fire b l most (subst (λ (x : String). restarts x l ≤ most) (sym q) h) k))
  | inr n ↦ rw (restarts-fire_other b l bead n) h
]

-- a bead's count and the budget are within the bound
record IsWithin (most : ℕ) (bead : String) (l : Ladder) : Type 0 where
  count : restarts bead l ≤ most
  budget : l.restart_budget ≤ most

ordered-run :
    (most : ℕ) (bead : String) (cs : List (String × Call)) (l : Ladder)
    → AreAtMost most cs
    → IsWithin most bead l
    → restarts bead l + ordered_for bead cs l ≤ most + most * closes bead cs
unfolding on_activity nudge_failed put_state forget set_restart_budget restarts
ordered-run most bead [] l r h = omega (arith, h.count)
ordered-run most bead ((b, activity) ∷ rest) l r h =
    let same = restarts-activity b l bead in
    let later =
      ordered-run most bead rest (on_activity b l) r
        (record { count = rw same h.count; budget = h.budget }) in
    ground (arith, same, later)
ordered-run most bead ((b, undelivered) ∷ rest) l r h =
    let same = restarts-undelivered b l bead in
    let later =
      ordered-run most bead rest (nudge_failed b l) r
        (record { count = rw same h.count; budget = h.budget }) in
    ground (arith, same, later)
ordered-run most bead ((b, fire) ∷ rest) l r h =
    let more = restarts-fire_at bead b l in
    let later = ordered-run most bead rest (on_fire b l).1 r (record {
      count = within-fire_at bead b l most h.count h.budget;
      budget = rw (budget-fire b l) h.budget;
    }) in
    omega (arith, more, later)
ordered-run most bead ((b, closed) ∷ rest) l r h =
    let gone = restarts-forget bead b l in
    let later =
      ordered-run most bead rest (forget b l) r
        (record { count = ground (arith, gone, h.count); budget = h.budget }) in
    elim (Bool-cases (b == bead)) [
      | inl y ↦ rw y (omega (arith, h.count, later))
      | inr n ↦ rw n (ground (arith, gone, n, later))
    ]
ordered-run most bead ((b, reloaded budget) ∷ rest) l r h =
    let later =
      ordered-run most bead rest (set_restart_budget budget l) r.1
        (record { count = h.count; budget = r.0 }) in
    ground (arith, later)

-- Whatever the patrol calls for whatever beads, in whatever order: where no budget in force is above `most`,
-- a new ladder orders at most `most` restarts of one bead, and at most `most` more for each time that it is
-- told that the bead has closed.
pub restarts_bounded :
    (bead : String) (cs : List (String × Call)) (budget most : ℕ)
    → budget ≤ most
    → AreAtMost most cs
    → ordered_for bead cs (new_ladder budget) ≤ most + most * closes bead cs
unfolding new_ladder restarts find
restarts_bounded bead cs budget most first all = omega (
  arith,
  ordered-run most bead cs (new_ladder budget) all (record { count = omega arith; budget = first }),
)
