-- ===== src/Ledger.antt =====
-- crates/camp-core/src/ledger/mod.rs: the ledger, an append-only event log with the state tables
-- folded from it, and the one write path. A transaction is a function into `Result`: where it
-- errs, the database is the one before it.
pub mod Log
pub mod Reached
pub mod Numbering
pub mod Consume
pub mod Names
pub mod Blocked
use gascamp.Common.{
  ℕ, ◌+◌, String, Bool, true, Option, none, some, List, [], ◌∷◌, ◌++◌, find, select, any,
  update_where, is_some, is_text, ◌==◌, ◌&&◌, leb, ltb, if◌then◌else◌,
}
use gascamp.Error.{Result, ok, err, corrupt, ◌>>=◌, ◌>>◌}
use gascamp.Event.{Event, EventInput, EventType, as_str}
use gascamp.Schema.{Tables, no_rows}
use gascamp.Payload.{Serde}
use gascamp.Fold.{apply}

pub record Cursor : Type 0 where
  pub name : String
  pub seq : ℕ

abbrev pub cursor_key : Cursor → String
cursor_key c = c.name

-- `last_seq` is the AUTOINCREMENT counter of `events`.
pub record Db (V : Type 0) : Type 0 where
  pub events : List (Event V)
  pub last_seq : ℕ
  pub tables : Tables
  pub cursors : List Cursor

-- `?2 IS NULL OR seq <= ?2`
abbrev pub up_to : Option ℕ → ℕ → Bool
up_to none seq = true
up_to (some to) seq = leb seq to

module _ (V : Type 0) where
  -- a database that `init_schema` has just created
  unfoldable pub new_db : Db V
  new_db = record { events = []; last_seq = 0; tables = no_rows; cursors = [] }

module _ {V : Type 0} where
  -- the row that an append inserts
  unfoldable pub committed : String → ℕ → EventInput V → Event V
  committed ts seq input = record {
    seq = seq;
    ts = ts;
    kind = input.kind;
    rig = input.rig;
    actor = input.actor;
    bead = input.bead;
    payload = input.payload;
  }

  unfoldable pub cursor : String → Db V → ℕ
  cursor name db = elim (find cursor_key name db.cursors) [ none ↦ 0 | some c ↦ c.seq ]

  -- `INSERT INTO cursors ... ON CONFLICT(name) DO UPDATE SET seq = excluded.seq`
  unfoldable pub set_cursor : String → ℕ → Db V → Db V
  set_cursor name seq db = record db {
    cursors =
        if is_some (find cursor_key name db.cursors)
        then update_where (λ c. c.name == name) (λ c. record c { seq = seq }) db.cursors
        else db.cursors ++ record { name = name; seq = seq } ∷ [];
  }

  -- the reads of the log, in the order of `seq`
  unfoldable pub events_range : ℕ → Option ℕ → Db V → List (Event V)
  events_range from to db = select (λ e. leb from e.seq && up_to to e.seq) db.events

  unfoldable pub has_events_past : ℕ → Db V → Bool
  has_events_past seq db = any (λ e. ltb seq e.seq) db.events

  unfoldable pub events_for_bead : String → Db V → List (Event V)
  events_for_bead bead db = select (λ e. is_text bead e.bead) db.events

  unfoldable pub events_of_type : EventType → Db V → List (Event V)
  events_of_type kind db = select (λ e. as_str e.kind == as_str kind) db.events

  unfoldable pub has_event_with_actor : EventType → String → Db V → Bool
  has_event_with_actor kind actor db =
      any (λ e. as_str e.kind == as_str kind && e.actor == actor) db.events

-- Runs in a transaction: the new state, or the error that rolls it back.
abbrev pub in_transaction {ℓ} :
    {V : Type 0} {A : Type ℓ} → Db V → Result (A × Db V) → Result A × Db V
in_transaction db (ok (a, db')) = (ok a, db')
in_transaction db (err e) = (err e, db)

module _ (S : Serde) where
  open S use {Value}

  unfoldable pub insert_and_fold : String → EventInput Value → Db Value → Result (ℕ × Db Value)
  insert_and_fold ts input db = do
    let seq = db.last_seq + 1
    let event = committed ts seq input
    tables ← apply S event db.tables
    ok (seq, record db { events = db.events ++ event ∷ []; last_seq = seq; tables = tables })

  -- the loop of `append_batch`
  unfoldable pub insert_all :
      String → List (EventInput Value) → Db Value → Result (List ℕ × Db Value)
  insert_all ts [] db = ok ([], db)
  insert_all ts (input ∷ rest) db = do
    (seq, db₁) ← insert_and_fold ts input db
    (seqs, db₂) ← insert_all ts rest db₁
    ok (seq ∷ seqs, db₂)

  unfoldable pub append_batch :
      String → List (EventInput Value) → Db Value → Result (List ℕ) × Db Value
  append_batch ts inputs db = in_transaction db (insert_all ts inputs db)

  abbrev pub only : Result (List ℕ) → Result ℕ
  only (ok (seq ∷ [])) = ok seq
  only (ok _) = err (corrupt "append_batch(1 input) did not return exactly one seq")
  only (err e) = err e

  unfoldable pub append : String → EventInput Value → Db Value → Result ℕ × Db Value
  append ts input db = let (seqs, db') = append_batch ts (input ∷ []) db in (only seqs, db')

  unfoldable pub append_on : String → EventInput Value → Db Value → Result (ℕ × Db Value)
  append_on ts input db = insert_and_fold ts input db
