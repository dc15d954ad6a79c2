-- ===== src/Fold/Orders.antt =====
-- crates/camp-core/src/ledger/fold.rs: what an order event must say (`order_fired`,
-- `order_completed`, `order_failed`), and `config_changed`. None changes the tables.
use gascamp.Common.{
  String, Bool, not, ◌||◌, Option, none, some, true, if◌then◌else◌, is_some, is_none, is_empty,
  is_text, ◌==◌,
}
use gascamp.Error.{
  Result, err, cron_without_schedule, cron_with_cause, event_without_cause, event_with_schedule,
  manual_with_schedule, unknown_trigger, outcome_not_pass, empty_error, error_with_run_fields,
  run_without_id, run_without_fail, neither_shape, applied_with_error, applied_without_orders,
  rejected_without_error, refuse_if, ◌>>=◌, ◌>>◌,
}
use gascamp.Event.{Event}
use gascamp.Payload.{Serde, OrderFired, OrderFailed}
use gascamp.Fold.Guards.{bad, payload, non_empty}

-- `o.as_deref().is_none_or(str::is_empty)`
abbrev pub none_or_empty : Option String → Bool
none_or_empty none = true
none_or_empty (some s) = is_empty s

module _ {V : Type 0} where
  unfoldable pub check_trigger : Event V → OrderFired → Result (Unit {0})
  check_trigger e p =
      if p.trigger == "cron"
      then (do
        refuse_if (is_none p.scheduled_ts) (bad e cron_without_schedule)
        refuse_if (is_some p.cause_seq) (bad e cron_with_cause))
      else if p.trigger == "event"
      then (do
        refuse_if (is_none p.cause_seq) (bad e event_without_cause)
        refuse_if (is_some p.scheduled_ts || is_some p.catch_up) (bad e event_with_schedule))
      else if p.trigger == "manual"
      then refuse_if (is_some p.scheduled_ts || is_some p.catch_up || is_some p.cause_seq)
          (bad e manual_with_schedule)
      else err (bad e (unknown_trigger p.trigger))

  -- exactly two legal shapes: `error` alone, or the fields of a run
  unfoldable pub check_failure_shape :
      Event V → OrderFailed → Option String → Option String → Result (Unit {0})
  check_failure_shape e p (some error) none = do
    refuse_if (is_empty error) (bad e empty_error)
    refuse_if (is_some p.run_id || is_some p.outcome) (bad e error_with_run_fields)
  check_failure_shape e p none (some root_bead) = do
    non_empty e "root_bead" root_bead
    refuse_if (none_or_empty p.run_id) (bad e run_without_id)
    refuse_if (not (is_text "fail" p.outcome)) (bad e run_without_fail)
  check_failure_shape e p none none = err (bad e neither_shape)
  check_failure_shape e p (some _) (some _) = err (bad e neither_shape)

module _ (S : Serde) where
  open S use {Value}

  unfoldable pub order_fired : Event Value → Result (Unit {0})
  order_fired e = do
    p ← payload e (S.as_order_fired e.payload)
    non_empty e "order" p.order
    check_trigger e p

  unfoldable pub order_completed : Event Value → Result (Unit {0})
  order_completed e = do
    p ← payload e (S.as_order_completed e.payload)
    non_empty e "order" p.order
    non_empty e "root_bead" p.root_bead
    non_empty e "run_id" p.run_id
    refuse_if (not (p.outcome == "pass")) (bad e (outcome_not_pass p.outcome))

  unfoldable pub order_failed : Event Value → Result (Unit {0})
  order_failed e = do
    p ← payload e (S.as_order_failed e.payload)
    non_empty e "order" p.order
    check_failure_shape e p p.error p.root_bead

  unfoldable pub config_changed : Event Value → Result (Unit {0})
  config_changed e = do
    p ← payload e (S.as_config_changed e.payload)
    non_empty e "path" p.path
    if p.applied
        then (do
          refuse_if (is_some p.error) (bad e applied_with_error)
          refuse_if (is_none p.orders) (bad e applied_without_orders))
        else refuse_if (none_or_empty p.error) (bad e rejected_without_error)
