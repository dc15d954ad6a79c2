-- ===== src/Fold/Beads.antt =====
-- crates/camp-core/src/ledger/fold.rs: creating, claiming and updating a bead (`bead_created`,
-- `bead_claimed`, `bead_updated`).
use gascamp.Common.{
  String, Bool, true, false, not, ◌&&◌, Option, none, some, List, [], ◌∷◌, is_some, is_none,
  is_blank, contains, any,
}
use gascamp.Error.{
  Result, ok, err, unknown_bead, invalid_transition, missing_rig, unknown_bead_type, empty_title,
  blank_title, nothing_to_update, bead_exists, duplicate_needs, cannot_claim, refuse_if, ok_or,
  ◌>>=◌, ◌>>◌,
}
use gascamp.Event.{Event}
use gascamp.Schema.{Tables, BeadStatus, open', body}
use gascamp.Payload.{Serde, BeadClaimed}
use gascamp.Ids.{bump_counter}
use gascamp.Fold.Guards.{bad, payload, required_bead, bead_status}
use gascamp.Fold.Metadata.{write_each, update_each}
use gascamp.Fold.Rows.{
  new_bead, is_dep, insert_bead, insert_dep, insert_search, search_text, update_beads, with_id,
  with_failure, without_failure, claimed, patched, rewrite_body_search_row,
}

abbrev pub bead_types : List String
bead_types = "task" ∷ "mail" ∷ "memory" ∷ []

abbrev pub is_blank_title : Option String → Bool
is_blank_title none = false
is_blank_title (some title) = is_blank title

abbrev pub no_entries {ℓ} : {A : Type ℓ} → List A → Bool
no_entries [] = true
no_entries (_ ∷ _) = false

module _ {V : Type 0} where
  -- `for needs_id in &p.needs`: `INSERT OR IGNORE`, and a row that was there is an error
  unfoldable pub insert_deps : Event V → String → List String → Tables → Result Tables
  insert_deps e id [] t = ok t
  insert_deps e id (needs ∷ rest) t = do
    refuse_if (any (is_dep id needs) t.deps) (bad e (duplicate_needs needs))
    insert_deps e id rest (insert_dep id needs t)

  unfoldable pub claim_at :
      Event V → String → BeadClaimed → Tables → Option BeadStatus → Result Tables
  claim_at e id p t none = err (unknown_bead id)
  claim_at e id p t (some open') = ok (
      update_beads (with_failure id) without_failure (update_beads (with_id id) (claimed e.ts p) t))
  claim_at e id p t (some _) = err (invalid_transition id cannot_claim)

module _ (S : Serde) where
  open S use {Value}

  unfoldable pub bead_created : Event Value → Tables → Result Tables
  bead_created e t = do
    id ← required_bead e
    rig ← ok_or e.rig (bad e missing_rig)
    p ← payload e (S.as_bead_created e.payload)
    refuse_if (not (contains bead_types p.bead_type)) (bad e (unknown_bead_type p.bead_type))
    refuse_if (is_blank p.title) (bad e empty_title)
    refuse_if (is_some (bead_status t id)) (invalid_transition id bead_exists)
    t₁ ← insert_deps e id p.needs (insert_bead (new_bead id rig p e.ts) t)
    t₂ ← write_each e id p.metadata t₁
    bump_counter id (
        insert_search
          (record { bead_id = id; kind = body; content = search_text p.title p.description }) t₂)

  unfoldable pub bead_claimed : Event Value → Tables → Result Tables
  bead_claimed e t = do
    id ← required_bead e
    p ← payload e (S.as_bead_claimed e.payload)
    claim_at e id p t (bead_status t id)

  unfoldable pub bead_updated : Event Value → Tables → Result Tables
  bead_updated e t = do
    id ← required_bead e
    p ← payload e (S.as_bead_updated e.payload)
    refuse_if (is_none p.title && is_none p.description && no_entries p.metadata)
        (bad e nothing_to_update)
    refuse_if (is_blank_title p.title) (bad e blank_title)
    refuse_if (is_none (bead_status t id)) (unknown_bead id)
    t₁ ← update_each e id p.metadata t
    ok (rewrite_body_search_row id (update_beads (with_id id) (patched e.ts p) t₁))
