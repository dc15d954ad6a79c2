-- ===== src/Readiness/Queries.antt =====
-- The queries agree: a bead by itself, the lists, and the counts.
use gascamp.Common.{
  ◌≡◌, refl, sym, ap, ◌∙◌, String, Bool, true, false, ◌&&◌, none, some, List, map, is_text, any,
  length, select, arith, ◌==◌, ◌≤◌,
}
use gascamp.Error.{ok}
use gascamp.Schema.{Tables, Bead, is_open, bead_key, bead_row}
use gascamp.Payload.{Serde}
use gascamp.Invariants.Integrity.{keys_unique}
use gascamp.Ledger.{Db}
use gascamp.Ledger.Reached.{Reached}
use gascamp.Common.{find-key}
use gascamp.Readiness.{
  is_ready, ready_beads, is_unblocked, unmet_dep, order_by, row_to_bead, dispatchable_beads,
  is_dispatchable, is_ready_task, is_run_root, ready_task_count, open_task_count, is_task, BeadRow,
}
use gascamp.Readiness.Lists.{
  any-select, any-map, any-order_by, any-Unique, none_selected, length-select, length-map,
  length-order_by,
}

-- the list has a row of this bead
abbrev pub lists : String → List BeadRow → Bool
lists id rows = any (λ r. r.id == id) rows

pub is_ready-row :
    (t : Tables) (id : String) (b : Bead)
    → bead_row t id ≡ some b
    → is_ready t id ≡ ok (is_unblocked t b)
unfolding is_ready
is_ready-row t id b row =
    let key : b.id ≡ id = find-key bead_key id t.beads b row in
    rw row (rw (none_selected (unmet_dep t id) t.deps, key) refl)

module _ (S : Serde) {db : Db S.Value} (r : Reached S db) (id : String) (b : Bead)
    (row : bead_row db.tables id ≡ some b) where
  listed :
      (p : Bead → Bool) → lists id (map row_to_bead (order_by (select p db.tables.beads))) ≡ p b
  listed p =
      any-map (λ (x : BeadRow). x.id == id) row_to_bead (order_by (select p db.tables.beads))
      ∙ (any-order_by (λ x. x.id == id) (select p db.tables.beads)
          ∙ (any-select (λ (x : Bead). x.id == id) p db.tables.beads
              ∙ any-Unique bead_key id p db.tables.beads b (keys_unique S r).beads row))

  -- In every history `is_ready` of a bead that exists answers without an error, and answers that the
  -- bead is ready exactly if `ready_beads` lists it.
  pub is_ready-ready_beads : is_ready db.tables id ≡ ok (lists id (ready_beads db.tables none))
  unfolding ready_beads
  is_ready-ready_beads =
      is_ready-row db.tables id b row ∙ ap ok (sym (listed (is_unblocked db.tables)))

  -- What `dispatchable_beads` promises of a bead that it lists.
  pub record IsDispatchable : Type 0 where
    pub ready : is_ready db.tables id ≡ ok true
    pub task : (b.kind == "task") ≡ true
    pub not_failed : b.dispatch_failure ≡ none
    pub no_root : is_run_root b ≡ false
    pub never_dispatched : any (λ s. is_text id s.bead) db.tables.sessions ≡ false

  -- In every history a bead that `dispatchable_beads` lists is ready, is a task, has no failed
  -- dispatch and is no run root, and no session was ever bound to it.
  pub dispatchable_beads-IsDispatchable :
      lists id (dispatchable_beads db.tables) ≡ true → IsDispatchable
  unfolding dispatchable_beads
  dispatchable_beads-IsDispatchable h =
      let key : b.id ≡ id = find-key bead_key id db.tables.beads b row in
      let all : is_dispatchable db.tables b ≡ true = sym (listed (is_dispatchable db.tables)) ∙ h in
      record {
        ready = is_ready-row db.tables id b row ∙ ap ok (ground arith);
        task = ground arith;
        not_failed = ground arith;
        no_root = ground arith;
        never_dispatched = rw (← key) (ground arith);
      }

-- The beads that can be dispatched are no more than the ready tasks that the status surface counts,
-- and those no more than the open tasks.
pub counts_ordered :
    (t : Tables)
    → (length (dispatchable_beads t) ≤ ready_task_count t)
      × (ready_task_count t ≤ open_task_count t)
unfolding dispatchable_beads ready_task_count open_task_count
counts_ordered t = (
  rw
      (
        length-map row_to_bead (order_by (select (is_dispatchable t) t.beads)),
        length-order_by (select (is_dispatchable t) t.beads),
      )
      (length-select (is_dispatchable t) (is_ready_task t) (λ b h. ground arith) t.beads),
  length-select (is_ready_task t) (λ b. is_open b.status && is_task b) (λ b h. ground arith)
      t.beads,
)
