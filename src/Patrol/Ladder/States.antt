-- ===== src/Patrol/Ladder/States.antt =====
-- The state of a bead, seen through a write to the map.
use gascamp.Common.{
  ◌≡◌, refl, ap, ◌∙◌, String, Bool, true, false, Option, none, some, find, is_some, ◌==◌, eq_iff,
  eq_refl, find-append, find-update_where, find-key, Bool-cases, inl, inr, changed, or_else,
}
use gascamp.Patrol.Ladder.{
  Ladder, LadderState, state_key, state_of, or_first, first_state, is_state_of, put_state,
}

module _ (bead : String) (f : LadderState → LadderState)
    (keeps : (s : LadderState) → (f s).bead ≡ s.bead) (l : Ladder) where
  same_row : (x : LadderState) → find state_key bead l.states ≡ some x → is_state_of bead x ≡ true
  same_row x e = rw (find-key state_key bead l.states x e) (eq_refl bead)

  other_row :
      (k : String)
      → (bead == k) ≡ false
      → (x : LadderState) → find state_key k l.states ≡ some x
      → is_state_of bead x ≡ false
  other_row k differ x e = rw (find-key state_key k l.states x e) (not_equal (k == bead) refl)
    where
      not_equal : (b : Bool) → (k == bead) ≡ b → b ≡ false
      not_equal true h =
          (let q : k ≡ bead = (eq_iff k bead).0 h in
            let t : (bead == k) ≡ true = rw q (eq_refl bead) in cc)
      not_equal false h = refl

  -- A change of the state of `bead`, seen through that state:
  pub state_of-put_state : state_of bead (put_state bead f l) ≡ f (state_of bead l)
  unfolding put_state
  state_of-put_state = go (find state_key bead l.states) refl
    where
      go :
          (r : Option LadderState)
          → find state_key bead l.states ≡ r
          → state_of bead (put_state bead f l) ≡ f (or_first bead r)
      go none e = rw e (
          ap (or_first bead) {y = some (f (first_state bead))} (
            find-append state_key bead l.states (f (first_state bead))
            ∙ (rw e (rw (keeps (first_state bead)) (rw (eq_refl bead) refl)))))
      go (some x) e = rw e (
          ap (or_first bead) {y = some (f x)} (
            find-update_where state_key (is_state_of bead) f keeps bead l.states
            ∙ (rw e (rw (same_row x e) refl))))

  -- ... and through that of another bead.
  pub state_of-put_state_other :
      (k : String) → (bead == k) ≡ false → state_of k (put_state bead f l) ≡ state_of k l
  unfolding put_state
  state_of-put_state_other k differ = elim (Bool-cases (is_some (find state_key bead l.states))) [
    | inl y ↦ rw y (
        ap (or_first k) (
          find-update_where state_key (is_state_of bead) f keeps k l.states
          ∙ unmoved (find state_key k l.states) refl))
    | inr n ↦ rw n (
        ap (or_first k) {y = find state_key k l.states} (
          find-append state_key k l.states (f (first_state bead))
          ∙ (rw (keeps (first_state bead)) (rw differ (none_after (find state_key k l.states))))))
  ]
    where
      unmoved :
          (r : Option LadderState)
          → find state_key k l.states ≡ r
          → changed (is_state_of bead) f r ≡ r
      unmoved none e = refl
      unmoved (some x) e = rw (other_row k differ x e) refl

      none_after : (r : Option LadderState) → or_else r none ≡ r
      none_after none = refl
      none_after (some x) = refl
