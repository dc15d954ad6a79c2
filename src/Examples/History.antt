-- ===== src/Examples/History.antt =====
-- A camp with two beads, made by one batch.
use gascamp.Common
use gascamp.Common.{◌≡◌, refl, none, some, [], String}
use gascamp.Ids
use gascamp.Fold
use gascamp.Fold.Beads
use gascamp.Fold.Metadata
use gascamp.Fold.Rows
use gascamp.Ledger
use gascamp.Ledger.{Db, new_db, append_batch}
use gascamp.Ledger.Reached.{Reached}
use gascamp.Schema.{Bead, open', bead_row}
use gascamp.Examples.Camp.{Json, json, two_beads}

abbrev pub camp : Db Json
camp = (append_batch json "t" two_beads (new_db Json)).1

pub camp_reached : Reached json camp
camp_reached = Reached.batch "t" two_beads Reached.start

abbrev pub first_bead : Bead
first_bead = record {
  id = "gc-1";
  rig = "gc";
  kind = "task";
  title = "First";
  description = "";
  status = open';
  assignee = none;
  claimed_by = none;
  outcome = none;
  close_reason = none;
  work_outcome = none;
  work_commit = none;
  work_branch = none;
  final_disposition = none;
  dispatch_failure = none;
  labels = [];
  run_id = none;
  step_id = none;
  created_ts = "t";
  updated_ts = "t";
  closed_ts = none;
}

pub first_row : bead_row camp.tables "gc-1" ≡ some first_bead
unfolding append_batch Ledger.insert_all Ledger.insert_and_fold Ledger.committed Fold.apply
    Fold.handle Beads.bead_created Beads.insert_deps Metadata.write_each Rows.insert_bead
    Rows.new_bead Rows.insert_search Rows.insert_dep Ids.bump_counter Ids.parse_bead_id
    Ids.split_once Ids.parse_number Ids.all_digits Ids.leading_zero Ids.parse_i64 Ids.digits_value
    Ids.is_prefix Ids.all_alphanumeric Ids.raise Common.find Common.update_where Common.any
    Common.is_blank new_db
first_row = refl
