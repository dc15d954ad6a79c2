-- ===== src/Error.antt =====
-- crates/camp-core/src/error.rs: the errors that the modelled code returns. A `reason` that the
-- source renders by `format!` is a constructor of `Reason` with the values that are rendered.
use gascamp.Common.{◌≡◌, refl, String, Bool, true, false, Option, none, some}

pub data Reason : Type 0 where
  -- `serde_json::from_value` refused the payload
  malformed : String → Reason
  missing_bead_id missing_rig missing_rig_name : Reason
  unknown_bead_type : String → Reason
  empty_title blank_title nothing_to_update : Reason
  bead_exists bead_already_closed : Reason
  duplicate_needs : String → Reason
  -- metadata: the key, and the column that it is projected from
  projected_key : String → String → Reason
  -- the bead, the drain that holds it, and the drain that wants it
  already_reserved : String → String → String → Reason
  cannot_claim : Reason
  not_in_vocabulary : String → String → Reason
  requires_outcome : String → String → Reason
  artifact_without_shipped shipped_without_artifact : Reason
  artifact_not_allowed : String → Reason
  not_well_formed_id : String → Reason
  empty : String → Reason
  unknown_action : String → Reason
  nudge_failed_without_error via_not_allowed : Reason
  attempts_start_at_one no_evidence empty_error : Reason
  not_the_root : String → String → Reason
  not_a_seq : Reason
  session_registered : String → Reason
  blank_text : Reason
  unknown_via : String → Reason
  session_already_ended : Reason
  cron_without_schedule cron_with_cause event_without_cause event_with_schedule : Reason
  manual_with_schedule : Reason
  unknown_trigger : String → Reason
  outcome_not_pass : String → Reason
  error_with_run_fields run_without_id run_without_fail neither_shape : Reason
  applied_with_error applied_without_orders rejected_without_error : Reason
  unknown_cause : String → Reason
  unknown_decision : String → Reason
  deny_without_reason : Reason
  not_pending : String → Reason
  -- "order.fired without an order name", "bead.closed without an outcome"
  no_order_name no_outcome : Reason

pub data CoreError : Type 0 where
  -- a statement that breaks a constraint of the table that is named
  sqlite : String → CoreError
  corrupt : String → CoreError
  -- `Corrupt`, "needs cycle involving bead ..."
  needs_cycle : String → CoreError
  -- the event type, as it is spelled in the ledger, and the reason
  invalid_event_data : String → Reason → CoreError
  invalid_transition : String → Reason → CoreError
  unknown_bead : String → CoreError
  unknown_session : String → CoreError
  unknown_event_type : String → CoreError
  invalid_prefix : String → CoreError

pub data Result {ℓ} (A : Type ℓ) : Type ℓ where
  ok : A → Result A
  err : CoreError → Result A

-- `if refused { return Err(e); }`
abbrev pub refuse_if : Bool → CoreError → Result (Unit {0})
refuse_if true e = err e
refuse_if false e = ok tt

-- `o.ok_or(e)`
abbrev pub ok_or {ℓ} : {A : Type ℓ} → Option A → CoreError → Result A
ok_or none e = err e
ok_or (some a) e = ok a

-- `?`, and the code after it
infixl 5 ◌>>=◌
abbrev pub ◌>>=◌ {ℓ μ} : {A : Type ℓ} {C : Type μ} → Result A → (A → Result C) → Result C
err e >>= rest = err e
ok a >>= rest = rest a

-- `?` on a check
infixl 5 ◌>>◌
abbrev pub ◌>>◌ {ℓ} : {C : Type ℓ} → Result (Unit {0}) → Result C → Result C
check >> rest = check >>= λ _. rest

-- Past a `?` both parts have succeeded.
pub >>=-eq-ok {ℓ μ} :
    {A : Type ℓ} {C : Type μ} (m : Result A) (rest : A → Result C) {c : C}
    → (m >>= rest) ≡ ok c
    → (a : A) × (m ≡ ok a) × (rest a ≡ ok c)
>>=-eq-ok (err e) rest h = absurd (cc)
>>=-eq-ok (ok a) rest h = (a, refl, h)

pub >>-eq-ok {ℓ} :
    {B : Type ℓ} (m : Result (Unit {0})) (k : Result B) {b : B} → (m >> k) ≡ ok b → k ≡ ok b
>>-eq-ok (ok _) k h = h
>>-eq-ok (err e) k h = absurd (cc)

pub ok_or-eq-ok {ℓ} :
    {A : Type ℓ} (o : Option A) (e : CoreError) {a : A} → ok_or o e ≡ ok a → o ≡ some a
ok_or-eq-ok none e h = absurd (cc)
ok_or-eq-ok (some a) e h = cc

-- Past a refusal, its test is false.
pub refuse_if-eq-ok {ℓ} :
    {B : Type ℓ} (c : Bool) (e : CoreError) (k : Result B) {b : B}
    → (refuse_if c e >> k) ≡ ok b
    → (c ≡ false) × (k ≡ ok b)
refuse_if-eq-ok true e k h = absurd (cc)
refuse_if-eq-ok false e k h = (refl, h)
