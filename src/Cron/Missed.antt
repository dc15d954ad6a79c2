-- ===== src/Cron/Missed.antt =====
-- crates/camp-core/src/orders/cron.rs: `most_recent_missed`, the catch-up selection. Durations are
-- numbers of nanoseconds. The loop is on fuel, one more than the nanoseconds from its first cursor to
-- `now`: each pass moves the cursor forward and stops past `now`.
pub mod Selection
use gascamp.Common.{
  ℕ, zero, suc, ◌+◌, ◌-◌, ◌*◌, ◌^◌, Bool, true, false, ◌&&◌, ◌||◌, Option, none, some, ltb, leb,
  if◌then◌else◌,
}
use gascamp.Cron.{CronExpr, Zone, next_after}

abbrev pub nanos : ℕ
nanos = 1000000000

abbrev pub on_time_tolerance : ℕ
on_time_tolerance = 60 * nanos

-- the longest SignedDuration
abbrev pub signed_max : ℕ
signed_max = (2 ^ 63 - 1) * nanos + (nanos - 1)

-- `SignedDuration::try_from(window)`
abbrev pub signed : ℕ → Option ℕ
signed window = if leb window signed_max then some window else none

-- `t.checked_sub(d)`
abbrev pub checked_sub : ℕ → ℕ → Option ℕ
checked_sub t d = if leb d t then some (t - d) else none

unfoldable pub window_allows : ℕ → ℕ → Bool
window_allows window lateness = elim (signed window) [
  | none ↦ false
  | some w ↦ ltb 0 w && leb lateness w
]

-- `floor`
abbrev pub earliest : ℕ → ℕ → ℕ → ℕ
earliest window now last_seen = elim (checked_sub now window) [
  | none ↦ last_seen
  | some t ↦ elim (checked_sub t on_time_tolerance) [ none ↦ last_seen | some floor ↦ floor ]
]

abbrev pub scan_start : ℕ → ℕ → ℕ → ℕ
scan_start window now last_seen =
    if ltb last_seen (earliest window now last_seen)
    then earliest window now last_seen
    else last_seen

module _ (tz : Zone) (expr : CronExpr) (window now : ℕ) where
  abbrev pub is_recent : ℕ → Bool
  is_recent fire = leb (now - fire) on_time_tolerance || window_allows window (now - fire)

  -- `while let Some(fire) = expr.next_after(cursor, tz)`; none where the fuel is used up
  unfoldable pub scan : ℕ → ℕ → Option ℕ → Option (Option ℕ)
  scan zero cursor most_recent = none
  scan (suc fuel) cursor most_recent = elim (next_after tz expr cursor) [
    | none ↦ some most_recent
    | some fire ↦ elim (leb fire now) [
      | false ↦ some most_recent
      | true ↦ scan fuel fire (if is_recent fire then some fire else most_recent)
    ]
  ]

  unfoldable pub most_recent_missed : ℕ → Option (Option ℕ)
  most_recent_missed last_seen = elim (signed window) [
    | none ↦ some none
    | some w ↦
        if ltb 0 w
        then (let start = scan_start w now last_seen in scan (suc (now - start)) start none)
        else some none
  ]
