-- ===== src/Refold.antt =====
-- crates/camp-core/src/ledger/refold.rs: the state tables are rebuilt from the event log, compared
-- with the live ones, and replaced.
pub mod Exact
pub mod Drift
pub mod Repair
use mathlib.Core.List.{reverse}
use gascamp.Common.{
  ℕ, ◌+◌, String, Bool, true, false, not, ◌&&◌, List, [], ◌∷◌, ◌++◌, map, find, is_none, is_some,
  any, text_append, ◌≡◌,
}
use gascamp.Error.{Result, ok, err, sqlite, refuse_if, ◌>>=◌, ◌>>◌}
use gascamp.Event.{Event}
use gascamp.Schema.{
  Tables, Bead, Meta, Dep, Session, SearchRow, SearchKind, body, close, Counter, Permission,
  no_rows, bead_key,
}
use gascamp.Schema.Rows.{
  Bead-discrete, Meta-discrete, Dep-discrete, Session-discrete, SearchRow-discrete,
  Counter-discrete, Permission-discrete,
}
use gascamp.Payload.{Serde}
use gascamp.Fold.{apply}
use gascamp.Ledger.{Db}

-- which of the two databases holds the row
pub data Side : Type 0 where
  missing_in_live : Side
  not_produced : Side

pub record DriftEntry : Type 0 where
  pub table : String
  pub key : String
  pub side : Side

pub record RefoldReport : Type 0 where
  pub events_replayed : ℕ
  pub drift : List DriftEntry

module _ {ℓ} {R : Type ℓ} (dec : Discrete R) where
  unfoldable pub member : R → List R → Bool
  member r [] = false
  member r (x ∷ rows) = elim (dec r x) [ yes _ ↦ true | no _ ↦ member r rows ]

  -- `SELECT ... FROM have EXCEPT SELECT ... FROM lack`: distinct rows
  unfoldable pub except : List R → List R → List R
  except [] lack = []
  except (r ∷ have) lack =
      let rest = except have lack in
      elim (member r lack) [
        | true ↦ rest
        | false ↦ elim (member r rest) [ true ↦ rest | false ↦ r ∷ rest ]
      ]

  unfoldable pub collect_keys : (R → String) → String → Side → List R → List R → List DriftEntry
  collect_keys key table side have lack =
      map (λ r. record { table = table; key = key r; side = side }) (except have lack)

  -- both directions of one table
  unfoldable pub diff_table : (R → String) → String → List R → List R → List DriftEntry
  diff_table key table live fold =
      collect_keys key table missing_in_live fold live
      ++ collect_keys key table not_produced live fold

abbrev kind_text : SearchKind → String
kind_text body = "body"
kind_text close = "close"

abbrev joined : String → String → String → String
joined a sep b = text_append a (text_append sep b)

-- STATE_TABLES, with the key expression of each
unfoldable pub diff_all : Tables → Tables → List DriftEntry
diff_all live fold =
    diff_table Bead-discrete (λ b. b.id) "beads" live.beads fold.beads
    ++ (diff_table Meta-discrete (λ m. joined m.bead_id "/" m.key) "bead_meta" live.bead_meta
          fold.bead_meta
        ++ (diff_table Dep-discrete (λ d. joined d.bead_id " needs " d.needs_id) "deps" live.deps
              fold.deps
            ++ (diff_table Session-discrete (λ s. s.name) "sessions" live.sessions fold.sessions
                ++ (diff_table SearchRow-discrete (λ r. joined r.bead_id "/" (kind_text r.kind))
                      "search" live.search fold.search
                    ++ (diff_table Counter-discrete (λ c. c.prefix) "counters" live.counters
                          fold.counters
                        ++ diff_table Permission-discrete (λ p. p.request_id) "permissions"
                            live.permissions fold.permissions)))))

-- the tables of STATE_TABLES, a parent before its children
pub data TableName : Type 0 where
  beads bead_meta deps sessions search counters permissions : TableName

abbrev pub state_tables : List TableName
state_tables = beads ∷ bead_meta ∷ deps ∷ sessions ∷ search ∷ counters ∷ permissions ∷ []

-- `foreign_keys = ON`: a row that refers to a bead which is not there is refused
abbrev orphan_meta : List Bead → Meta → Bool
orphan_meta rows m = is_none (find bead_key m.bead_id rows)

abbrev orphan_dep : List Bead → Dep → Bool
orphan_dep rows d = is_none (find bead_key d.bead_id rows)

unfoldable pub delete_from : TableName → Tables → Result Tables
delete_from beads t = do
  refuse_if (any (orphan_meta []) t.bead_meta) (sqlite "FOREIGN KEY")
  refuse_if (any (orphan_dep []) t.deps) (sqlite "FOREIGN KEY")
  ok (record t { beads = [] })
delete_from bead_meta t = ok (record t { bead_meta = [] })
delete_from deps t = ok (record t { deps = [] })
delete_from sessions t = ok (record t { sessions = [] })
delete_from search t = ok (record t { search = [] })
delete_from counters t = ok (record t { counters = [] })
delete_from permissions t = ok (record t { permissions = [] })

unfoldable pub insert_from : Tables → TableName → Tables → Result Tables
insert_from shadow beads t = ok (record t { beads = t.beads ++ shadow.beads })
insert_from shadow bead_meta t = do
  refuse_if (any (orphan_meta t.beads) shadow.bead_meta) (sqlite "FOREIGN KEY")
  ok (record t { bead_meta = t.bead_meta ++ shadow.bead_meta })
insert_from shadow deps t = do
  refuse_if (any (orphan_dep t.beads) shadow.deps) (sqlite "FOREIGN KEY")
  ok (record t { deps = t.deps ++ shadow.deps })
insert_from shadow sessions t = ok (record t { sessions = t.sessions ++ shadow.sessions })
insert_from shadow search t = ok (record t { search = t.search ++ shadow.search })
insert_from shadow counters t = ok (record t { counters = t.counters ++ shadow.counters })
insert_from shadow permissions t =
    ok (record t { permissions = t.permissions ++ shadow.permissions })

unfoldable pub for_each :
    (TableName → Tables → Result Tables) → List TableName → Tables → Result Tables
for_each f [] t = ok t
for_each f (name ∷ rest) t = do t' ← f name t; for_each f rest t'

unfoldable pub replace_state_from_shadow : Tables → Tables → Result Tables
replace_state_from_shadow shadow live = do
  cleared ← for_each delete_from (reverse state_tables) live
  for_each (insert_from shadow) state_tables cleared

module _ (S : Serde) where
  open S use {Value}

  -- the loop of `build_shadow`, with the count of the events replayed
  unfoldable pub replay : List (Event Value) → Tables → ℕ → Result (ℕ × Tables)
  replay [] t n = ok (n, t)
  replay (e ∷ rest) t n = do t' ← apply S e t; replay rest t' (n + 1)

  unfoldable pub build_shadow : Db Value → Result (ℕ × Tables)
  build_shadow db = replay db.events no_rows 0

  unfoldable pub refold_check : Db Value → Result RefoldReport
  refold_check db = do
    (replayed, shadow) ← build_shadow db
    ok (record { events_replayed = replayed; drift = diff_all db.tables shadow })

  -- the database after the repair, and the report of the check that follows it
  unfoldable pub refold_repair : Db Value → Result (RefoldReport × Db Value)
  refold_repair db = do
    (replayed, shadow) ← build_shadow db
    live ← replace_state_from_shadow shadow db.tables
    report ← refold_check (record db { tables = live })
    ok (report, record db { tables = live })
