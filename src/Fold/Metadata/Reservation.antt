-- ===== src/Fold/Metadata/Reservation.antt =====
-- The drain reservation: a compare-and-set in `write_meta`.
use gascamp.Common.{
  ◌≡◌, String, true, false, ◌&&◌, some, List, [], ◌∷◌, ◌++◌, is_some, ◌==◌, eq_refl, eq_iff,
  update_where, arith, Bool-cases, inl, inr,
}
use gascamp.Error.{ok, projected_key, >>=-eq-ok, refuse_if-eq-ok}
use gascamp.Event.{Event}
use gascamp.Schema.{Tables, Meta}
use gascamp.Fold.Guards.{bad}
use gascamp.Fold.Metadata.{
  exclusive_drain_reservation, is_row, meta_value, put_meta, is_other, write_meta, refuse_column,
  column_of, projected_metadata, text_or_empty,
}

module _ (bead key value : String) where
  updated :
      (rows : List Meta)
      → is_some (meta_value bead key rows) ≡ true
      → meta_value bead key (update_where (is_row bead key) (λ m. record m { value = value }) rows)
        ≡ some value
  unfolding meta_value update_where
  updated [] h = absurd (cc)
  updated (m ∷ rows) h = ground (arith, updated rows)

  appended :
      (rows : List Meta)
      → is_some (meta_value bead key rows) ≡ false
      → meta_value bead key (rows ++ record { bead_id = bead; key = key; value = value } ∷ [])
        ≡ some value
  unfolding meta_value
  appended [] h = ground (arith, eq_refl bead, eq_refl key)
  appended (m ∷ rows) h = ground (arith, appended rows)

  meta_value-put_meta :
      (rows : List Meta) → meta_value bead key (put_meta bead key value rows) ≡ some value
  unfolding put_meta
  meta_value-put_meta rows = elim (Bool-cases (is_some (meta_value bead key rows))) [
    | inl y ↦ rw y (updated rows y)
    | inr n ↦ rw n (appended rows n)
  ]

-- A metadata write that is accepted stores the value; and if it is a drain reservation of a bead that
-- a drain holds, then by the same drain: a holder is never replaced.
pub write_meta_lem :
    {V : Type 0} (e : Event V) (bead key value : String) (t u : Tables)
    → write_meta e bead key value t ≡ ok u
    → (meta_value bead key u.bead_meta ≡ some value)
      × ((holder : String)
          → key ≡ exclusive_drain_reservation
          → meta_value bead key t.bead_meta ≡ some holder
          → holder ≡ value)
unfolding write_meta
write_meta_lem e bead key value t u h =
    let column = column_of key projected_metadata in
    let (x, free, h₁) =
      >>=-eq-ok (refuse_column (bad e (projected_key key (text_or_empty column))) column) _ h in
    let held = meta_value bead key t.bead_meta in
    let (alone, h₂) =
      refuse_if-eq-ok (key == exclusive_drain_reservation && is_other value held) _ _ h₁ in
    let written : put_meta bead key value t.bead_meta ≡ u.bead_meta = ground arith in
    (
      rw (← written) (meta_value-put_meta bead key value t.bead_meta),
      λ holder k m.
          let reserves : (key == exclusive_drain_reservation) ≡ true =
            (eq_iff key exclusive_drain_reservation).1 k in
          let same : (holder == value) ≡ true = ground arith in (eq_iff holder value).0 same,
    )
