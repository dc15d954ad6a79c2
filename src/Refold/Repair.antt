-- ===== src/Refold/Repair.antt =====
-- The repair: the live tables become the fold of the log, whatever they were.
use mathlib.Core.Path.{subst}
use mathlib.Core.List.{reverse}
use gascamp.Common.{
  ◌≡◌, refl, ℕ, ◌+◌, Bool, true, false, List, [], ◌∷◌, any, All, is_some, is_none, arith,
}
use gascamp.Error.{Result, ok, >>=-eq-ok}
use gascamp.Event.{Event}
use gascamp.Schema.{Tables, no_rows, Meta, Dep, bead_row}
use gascamp.Payload.{Serde}
use gascamp.Fold.{apply}
use gascamp.Fold.Write.{Writes-keep}
use gascamp.Fold.Write.Apply.{apply-Writes}
use gascamp.Invariants.Integrity.{HasReferences, Write-HasReferences}
use gascamp.Ledger.{Db}
use gascamp.Refold.{
  state_tables, delete_from, insert_from, for_each, replace_state_from_shadow, replay, build_shadow,
  refold_check, refold_repair,
}
use gascamp.Refold.Exact.{diff_all-same}

-- The children go first, so that no foreign key stops a deletion.
cleared : (live : Tables) → for_each delete_from (reverse state_tables) live ≡ ok no_rows
unfolding for_each delete_from any
cleared live = refl

no_orphans :
    {R : Type 0} (p : R → Bool) (q : R → Bool)
    → ((r : R) → p r ≡ true → q r ≡ false)
    → (rows : List R) → All (λ r. p r ≡ true) rows
    → any q rows ≡ false
unfolding any
no_orphans p q f [] h = refl
no_orphans p q f (r ∷ rows) h = ground (arith, f r h.0, no_orphans p q f rows h.1)

-- The parents come first, so that every foreign key finds its row.
refilled :
    (shadow : Tables)
    → HasReferences shadow
    → for_each (insert_from shadow) state_tables no_rows ≡ ok shadow
unfolding for_each insert_from
refilled shadow h =
    let metas =
      no_orphans (λ (m : Meta). is_some (bead_row shadow m.bead_id))
        (λ m. is_none (bead_row shadow m.bead_id)) (λ m q. ground arith) shadow.bead_meta h.metas in
    let deps =
      no_orphans (λ (d : Dep). is_some (bead_row shadow d.bead_id))
        (λ d. is_none (bead_row shadow d.bead_id)) (λ m q. ground arith) shadow.deps h.deps in
    rw metas (rw deps refl)

second : {n m : ℕ} {t u : Tables} → ◌≡◌ {A = Result (ℕ × Tables)} (ok (n, t)) (ok (m, u)) → t ≡ u
second h = cc

module _ (S : Serde) where
  open S use {Value}

  replay-HasReferences :
      (events : List (Event Value)) (t : Tables) (n m : ℕ) {u : Tables}
      → replay S events t n ≡ ok (m, u)
      → HasReferences t
      → HasReferences u
  unfolding replay
  replay-HasReferences [] t n m h r = subst HasReferences (second h) r
  replay-HasReferences (e ∷ rest) t n m h r =
      let (t', first, h') = >>=-eq-ok (apply S e t) _ h in
      replay-HasReferences rest t' (n + 1) m h'
        (Writes-keep HasReferences Write-HasReferences (apply-Writes S e t first) r)

  -- Whatever the live tables hold, if the log replays then `refold_repair` succeeds: it replaces them
  -- by the tables of the replay, leaves the log, its counter and the cursors as they are, and the
  -- check that follows reports no drift.
  pub refold_repair_exact :
      (db : Db Value) (n : ℕ) (shadow : Tables)
      → build_shadow S db ≡ ok (n, shadow)
      → refold_repair S db
        ≡ ok (record { events_replayed = n; drift = [] }, record db { tables = shadow })
  unfolding refold_repair replace_state_from_shadow refold_check build_shadow
  refold_repair_exact db n shadow h =
      let refs =
        replay-HasReferences db.events no_rows 0 n h
          (record { metas = tt; deps = tt; unprojected = tt }) in
      rw h (rw (cleared db.tables) (rw (refilled shadow refs) (rw (diff_all-same shadow) refl)))
