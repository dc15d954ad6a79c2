-- ===== src/Fold/Metadata.antt =====
-- crates/camp-core/src/ledger/fold.rs (`write_meta`) and readiness.rs: bead metadata, one row for a
-- bead and a key.
pub mod Reservation
use gascamp.Common.{
  String, Bool, false, not, ◌&&◌, Option, none, some, List, [], ◌∷◌, ◌++◌, if◌then◌else◌, is_some,
  ◌==◌, update_where, delete_where,
}
use gascamp.Error.{
  CoreError, Result, ok, err, projected_key, already_reserved, refuse_if, ◌>>=◌, ◌>>◌,
}
use gascamp.Event.{Event}
use gascamp.Schema.{Tables, Meta}
use gascamp.Fold.Guards.{bad}

-- readiness.rs: the keys that are columns of `beads`, and which
abbrev pub projected_metadata : List (String × String)
projected_metadata =
    ("gc.routed_to", "assignee")
    ∷ ("gc.work_branch", "work_branch")
    ∷ ("gc.final_disposition", "final_disposition")
    ∷ []

abbrev pub exclusive_drain_reservation : String
exclusive_drain_reservation = "gc.exclusive_drain_reservation"

unfoldable pub column_of : String → List (String × String) → Option String
column_of key [] = none
column_of key ((k, column) ∷ rest) = if k == key then some column else column_of key rest

abbrev pub is_row : String → String → Meta → Bool
is_row bead key m = m.bead_id == bead && m.key == key

-- `SELECT value FROM bead_meta WHERE bead_id = ?1 AND key = ?2`
unfoldable pub meta_value : String → String → List Meta → Option String
meta_value bead key [] = none
meta_value bead key (m ∷ rows) =
    if is_row bead key m then some m.value else meta_value bead key rows

-- `INSERT INTO bead_meta ... ON CONFLICT (bead_id, key) DO UPDATE SET value = excluded.value`
unfoldable pub put_meta : String → String → String → List Meta → List Meta
put_meta bead key value rows =
    if is_some (meta_value bead key rows)
    then update_where (is_row bead key) (λ m. record m { value = value }) rows
    else rows ++ record { bead_id = bead; key = key; value = value } ∷ []

-- `DELETE FROM bead_meta WHERE bead_id = ?1 AND key = ?2`
unfoldable pub unset_meta : String → String → List Meta → List Meta
unset_meta bead key rows = delete_where (is_row bead key) rows

abbrev pub refuse_column : CoreError → Option String → Result (Unit {0})
refuse_column e none = ok tt
refuse_column e (some column) = err e

-- held by another: the reservation is a compare-and-set
abbrev pub is_other : String → Option String → Bool
is_other value none = false
is_other value (some holder) = not (holder == value)

abbrev pub text_or_empty : Option String → String
text_or_empty none = ""
text_or_empty (some s) = s

module _ {V : Type 0} where
  unfoldable pub write_meta : Event V → String → String → String → Tables → Result Tables
  write_meta e bead key value t = do
    let column = column_of key projected_metadata
    refuse_column (bad e (projected_key key (text_or_empty column))) column
    let held = meta_value bead key t.bead_meta
    refuse_if (key == exclusive_drain_reservation && is_other value held)
        (bad e (already_reserved bead (text_or_empty held) value))
    ok (record t { bead_meta = put_meta bead key value t.bead_meta })

  -- `for (key, value) in &p.metadata` of `bead_created`
  unfoldable pub write_each : Event V → String → List (String × String) → Tables → Result Tables
  write_each e bead [] t = ok t
  write_each e bead ((key, value) ∷ rest) t = do
    t' ← write_meta e bead key value t
    write_each e bead rest t'

  abbrev pub set_or_unset : Event V → String → String → Option String → Tables → Result Tables
  set_or_unset e bead key (some value) t = write_meta e bead key value t
  set_or_unset e bead key none t = ok (record t { bead_meta = unset_meta bead key t.bead_meta })

  -- `for (key, value) in &p.metadata` of `bead_updated`
  unfoldable pub update_each :
      Event V → String → List (String × Option String) → Tables → Result Tables
  update_each e bead [] t = ok t
  update_each e bead ((key, value) ∷ rest) t = do
    t' ← set_or_unset e bead key value t
    update_each e bead rest t'
