-- ===== src/Run/Finalization/Final.antt =====
-- crates/camp-core/src/formula/runtime.rs: what a run is finalized on.
use gascamp.Common.{
  ◌≡◌, refl, sym, ap, ◌∙◌, String, Bool, true, false, not, ◌||◌, Option, some, List, [], ◌∷◌, map,
  any, select, if◌then◌else◌, All, All-map, arith, eq_iff, ◌==◌, Bool-cases, inl, inr, ◌↔◌,
}
use gascamp.Error.{Result, ok, err}
use gascamp.Ledger.{Db}
use gascamp.Run.Needs.Verdict.{Unsatisfiable}
use gascamp.Run.Needs.Returns.{IsVerdict, unsatisfiable-IsVerdict}
use gascamp.Run.Finalization.{RunContext, Tally, no_tally, is_nil, words}
use gascamp.Run.Finalization.Anchors.{
  anchor_of, passes, waits, skips, fails_soft, fails_hard, IsSettled, passes-IsSettled, IsTallied,
}

is_nil-select : (p : String → Bool) (xs : List String) → is_nil (select p xs) ≡ not (any p xs)
unfolding select any
is_nil-select p [] = refl
is_nil-select p (x ∷ xs) = ground (arith, is_nil-select p xs)

-- what is on none of three lists
none_of :
    (p q r s : String → Bool) (xs : List String)
    → All (λ x. s x ≡ not (p x || q x || r x)) xs
    → (not (any p xs || any q xs || any r xs) ≡ true) ↔ All (λ x. s x ≡ true) xs
unfolding any
none_of p q r s [] h = (λ _. tt, λ _. refl)
none_of p q r s (x ∷ xs) h =
    let rest = none_of p q r s xs h.1 in
    let one = h.0 in
    (
      λ e. (ground arith, rest.0 (ground arith)),
      λ a. let b = rest.1 a.1 in let c = a.0 in ground arith,
    )

module _ {V : Type 0} (fields : V → String → Option String) (db : Db V) (ctx : RunContext) where
  -- What a run is finalized on.
  pub record IsFinal (outcome disposition : String) (soft_failed skipped to_skip : List String)
      : Type 0 where
    pub settled : All (IsSettled fields db ctx) ctx.steps
    pub soft : soft_failed ≡ select (fails_soft fields db ctx) ctx.steps
    pub skip : skipped ≡ select (skips fields db ctx) ctx.steps
    pub close : to_skip ≡ map (anchor_of fields db ctx) (select (waits fields db ctx) ctx.steps)
    pub never : All (Unsatisfiable db.tables) to_skip
    pub passed : outcome ≡ (
        if any (fails_hard fields db ctx) ctx.steps || any (skips fields db ctx) ctx.steps
        then "fail"
        else "pass")
    pub hard : (disposition ≡ "hard_fail") ↔ (any (fails_hard fields db ctx) ctx.steps ≡ true)
    pub clean : (disposition ≡ "pass") ↔ All (λ s. passes fields db ctx s ≡ true) ctx.steps

  skipped_never :
      (steps : List String)
      → All (IsSettled fields db ctx) steps
      → All
          (Unsatisfiable db.tables)
          (map (anchor_of fields db ctx) (select (waits fields db ctx) steps))
  unfolding select
  skipped_never [] h = tt
  skipped_never (step ∷ rest) h = elim (Bool-cases (waits fields db ctx step)) [
    | inr e ↦ rw e (skipped_never rest h.1)
    | inl e ↦ rw e (one h.0 e, skipped_never rest h.1)
  ]
    where
      one :
          IsSettled fields db ctx step
          → waits fields db ctx step ≡ true
          → Unsatisfiable db.tables (anchor_of fields db ctx step)
      one (inl (b, row, done)) w = absurd (ground (arith, row, done, w))
      one (inr (b, row, going, u)) w =
          let (r, e, v) = unsatisfiable-IsVerdict db.tables (anchor_of fields db ctx step) in
          decided r (sym e ∙ u) v
        where
          decided :
              (r : Result Bool)
              → some r ≡ some (ok true)
              → IsVerdict db.tables (anchor_of fields db ctx step) r
              → Unsatisfiable db.tables (anchor_of fields db ctx step)
          decided (ok true) e v = v
          decided (ok false) e v = absurd (cc)
          decided (err x) e v = absurd (cc)

  differ : (a b : String) → (a == b) ≡ false → a ≡ b → ⊥
  differ a b h e = absurd (let same = (eq_iff a b).1 e in ground arith)

  words_lem :
      (tally : Tally) (h s f : Bool)
      → tally.hard ≡ h
      → is_nil tally.skipped ≡ not s
      → is_nil tally.soft_failed ≡ not f
      → ((words tally).0 ≡ (if h || s then "fail" else "pass"))
        × (((words tally).1 ≡ "hard_fail") ↔ (h ≡ true))
        × (((words tally).1 ≡ "pass") ↔ (not (h || s || f) ≡ true))
  words_lem tally true s f eh es ef = rw eh (
    refl,
    (λ _. refl, λ _. refl),
    (λ x. absurd (differ "hard_fail" "pass" refl x), λ x. absurd (ground arith)),
  )
  words_lem tally false true f eh es ef =
      rw (eh, es)
        (
          refl,
          (λ x. absurd (differ "soft_fail" "hard_fail" refl x), λ x. absurd (ground arith)),
          (λ x. absurd (differ "soft_fail" "pass" refl x), λ x. absurd (ground arith)),
        )
  words_lem tally false false true eh es ef =
      rw (eh, es, ef)
        (
          refl,
          (λ x. absurd (differ "soft_fail" "hard_fail" refl x), λ x. absurd (ground arith)),
          (λ x. absurd (differ "soft_fail" "pass" refl x), λ x. absurd (ground arith)),
        )
  words_lem tally false false false eh es ef =
      rw (eh, es, ef)
        (
          refl,
          (λ x. absurd (differ "pass" "hard_fail" refl x), λ x. absurd (ground arith)),
          (λ _. refl, λ _. refl),
        )

  pub verdict_of-IsFinal :
      (tally : Tally)
      → IsTallied fields db ctx ctx.steps no_tally tally
      → IsFinal (words tally).0 (words tally).1 tally.soft_failed tally.skipped tally.to_skip
  verdict_of-IsFinal tally h =
      let (out, hard', clean') =
        words_lem tally _ _ _ h.hard
          (ap is_nil h.skipped ∙ is_nil-select (skips fields db ctx) ctx.steps)
          (ap is_nil h.soft_failed ∙ is_nil-select (fails_soft fields db ctx) ctx.steps) in
      let all =
        none_of (fails_hard fields db ctx) (skips fields db ctx) (fails_soft fields db ctx)
          (passes fields db ctx) ctx.steps
          (All-map (IsSettled fields db ctx) _ (passes-IsSettled fields db ctx) ctx.steps
            h.settled) in
      record {
        settled = h.settled;
        soft = h.soft_failed;
        skip = h.skipped;
        close = h.to_skip;
        never = rw h.to_skip (skipped_never ctx.steps h.settled);
        passed = out;
        hard = hard';
        clean = (λ d. all.0 (clean'.0 d), λ a. clean'.1 (all.1 a));
      }
