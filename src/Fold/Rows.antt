-- ===== src/Fold/Rows.antt =====
-- crates/camp-core/src/ledger/fold.rs: the SQL statements of the bead handlers, on the rows.
use gascamp.Common.{
  String, Bool, true, false, ◌&&◌, Option, none, some, List, [], ◌∷◌, ◌++◌, if◌then◌else◌, is_some,
  is_empty, ◌==◌, update_where, delete_where, text_append, or_else,
}
use gascamp.Schema.{Tables, Bead, open', in_progress, Dep, SearchRow, body, close, bead_row}
use gascamp.Payload.{BeadCreated, BeadClaimed, BeadUpdated}

-- the row that `INSERT INTO beads` writes; the columns that it leaves out are NULL
unfoldable pub new_bead : String → String → BeadCreated → String → Bead
new_bead id rig p ts = record {
  id = id;
  rig = rig;
  kind = p.bead_type;
  title = p.title;
  description = p.description;
  status = open';
  assignee = p.assignee;
  claimed_by = none;
  outcome = none;
  close_reason = none;
  work_outcome = none;
  work_commit = none;
  work_branch = none;
  final_disposition = none;
  dispatch_failure = none;
  labels = p.labels;
  run_id = p.run_id;
  step_id = p.step_id;
  created_ts = ts;
  updated_ts = ts;
  closed_ts = none;
}

abbrev pub is_dep : String → String → Dep → Bool
is_dep bead needs d = d.bead_id == bead && d.needs_id == needs

unfoldable pub insert_bead : Bead → Tables → Tables
insert_bead b t = record t { beads = t.beads ++ b ∷ [] }

unfoldable pub insert_dep : String → String → Tables → Tables
insert_dep id needs t = record t { deps = t.deps ++ record { bead_id = id; needs_id = needs } ∷ [] }

unfoldable pub insert_search : SearchRow → Tables → Tables
insert_search r t = record t { search = t.search ++ r ∷ [] }

abbrev pub search_text : String → String → String
search_text title description = text_append title (text_append "\n" description)

-- `UPDATE beads SET ... WHERE id = ?` and its kin
unfoldable pub update_beads : (Bead → Bool) → (Bead → Bead) → Tables → Tables
update_beads p f t = record t { beads = update_where p f t.beads }

abbrev pub with_id : String → Bead → Bool
with_id id b = b.id == id

-- `WHERE id = ?1 AND dispatch_failure IS NOT NULL`
abbrev pub with_failure : String → Bead → Bool
with_failure id b = b.id == id && is_some b.dispatch_failure

abbrev pub without_failure : Bead → Bead
without_failure b = record b { dispatch_failure = none }

abbrev pub is_body_of : String → SearchRow → Bool
is_body_of id r = r.bead_id == id && elim r.kind [ body ↦ true | close ↦ false ]

abbrev pub body_rows : Option Bead → List SearchRow
body_rows none = []
body_rows (some b) =
    record { bead_id = b.id; kind = body; content = search_text b.title b.description } ∷ []

unfoldable pub rewrite_body_search_row : String → Tables → Tables
rewrite_body_search_row id t = record t {
  search = delete_where (is_body_of id) t.search ++ body_rows (bead_row t id);
}

abbrev pub claimed : String → BeadClaimed → Bead → Bead
claimed ts p b = record b {
  status = in_progress;
  claimed_by = some p.session;
  work_branch = or_else p.work_branch b.work_branch;
  updated_ts = ts;
}

abbrev pub patched : String → BeadUpdated → Bead → Bead
patched ts p b = record b {
  title = elim p.title [ none ↦ b.title | some title ↦ title ];
  description = elim p.description [ none ↦ b.description | some text ↦ text ];
  updated_ts = ts;
}

-- the close note is searchable, unless there is none
unfoldable pub index_reason : String → Option String → Tables → Tables
index_reason id none t = t
index_reason id (some reason) t =
    if is_empty reason
    then t
    else insert_search (record { bead_id = id; kind = close; content = reason }) t
