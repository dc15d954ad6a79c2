-- ===== src/Lib.antt =====
-- Gas Camp keeps the work of a team of coding agents in one SQLite file, camp.db. The file holds an
-- append-only log of events and the state tables (beads, sessions, permissions, ...) that are folded
-- from it. This library models the ledger of crates/camp-core and what reads it.
--
-- The parts, and how they interact. An append (crates/camp-core/src/ledger/mod.rs) inserts an event
-- in the log and calls the fold (ledger/fold.rs), which refuses the event or changes the state tables
-- (ledger/schema.rs), all in one transaction. Refold (ledger/refold.rs) replays the log through the
-- same fold, to check the tables or to repair them. The readiness queries (readiness.rs) read the
-- tables and tell the daemon what to dispatch; the patrol (patrol/) decides about workers that are
-- silent. A formula that runs is a set of beads with needs between them; formula/runtime.rs decides
-- from the tables and the log when a run is over and with what outcome. Orders (orders/) fire
-- formulas by cron or by events: a fire is an event in the log, and its cook answers it.
--
-- The files, with the code under crates/camp-core/src/ that each models:
--   Error            error.rs, the errors that are returned here; a `format!` is a constructor
--   Vocab, Event     vocab.rs, event.rs: the closed vocabularies and the event types
--   Schema           ledger/schema.rs: a list of rows for each state table
--   Payload          the payload structs of ledger/fold.rs, and the decoders
--   Ids              id.rs: prefixes, the parser of ids, the counters
--   Fold             `fold::apply`; its children have the handlers: Guards (what handlers share),
--                    Metadata (`write_meta`), Rows (SQL statements), Beads, Closing, Dispatch,
--                    Sessions, Permissions, Orders, Audit (the events that only are recorded)
--   Fold/Write       the statements of the fold as a relation on the state tables, with the guards of
--                    the handlers that the invariants rest on; they are proved on it
--   Ledger           ledger/mod.rs: append, append_batch, append_on, the cursors, reads of the log;
--                    Ledger/Reached has the histories of a ledger, Ledger/Consume
--                    `process_past_cursor` with the consumer's closure as a parameter,
--                    Ledger/Names `next_session_name`, Ledger/Blocked the reads of permissions
--   Refold           ledger/refold.rs: build_shadow, refold_check, refold_repair
--   Readiness        readiness.rs: is_ready, ready_beads, dispatchable_beads, newly_ready, the counts
--   Patrol           patrol/mod.rs and patrol/timers.rs: the escalation ladder, the stall timers
--   Run              formula/runtime.rs: Run itself has the reads, Run/Needs `unsatisfiable`,
--                    Run/Finalization `finalization`, Run/DeadEnd `dead_end_inputs`, Run/Labels the
--                    labels of roots
--   Cron             orders/cron.rs: Cron itself has `next_after`, Cron/Parse the parser, Cron/Missed
--                    `most_recent_missed`, Cron/Heap the heap
--   Orders           orders/mod.rs: actors, pending cooks, responses
--   Invariants       what every history keeps: keys, references, the columns of a bead, the ends of
--                    beads, sessions and permission requests, the numbers of the ids
--   Examples         runs at concrete values
--
-- How code becomes definitions. A function that returns `Result<T, CoreError>` is a function into
-- `Result`. A transaction is a function from the database to `Result` of the new one: an error leaves
-- the old one. SELECT, UPDATE and DELETE are functions on lists of rows (Common/Table); a constraint
-- that the code relies on (PRIMARY KEY, foreign keys) is an explicit test. The handlers that only
-- validate return `Result Unit`. `serde_json` is a parameter, the record `Serde`: a type of JSON
-- values and, for each payload struct, a decoder that gives the struct or a refusal. Nothing is
-- assumed of it. A payload stays a value: its text in the column `data` is not modelled, and the
-- replay reads the value that was appended. The clock is the argument `ts`.
-- Where code reads a field of a payload by its key, a function of the value and the key is the
-- parameter. jiff is the parameter `Zone`: a calendar, and the instant of a civil time.
--
-- Bounds. Numbers are natural numbers; sequence numbers stay below 2^63 in practice and are not
-- wrapped. The number of an event is one more than the last, as SQLite gives it here where no row of
-- `events` is ever deleted, though AUTOINCREMENT promises only a larger one. A bead number is an `i64`: the parser refuses more than 2^63 - 1, and `next_bead_id` wraps
-- as a release build does. `decimal` runs on fuel n + 1 for n, which is enough since every step
-- divides by 10. The page loop of `process_past_cursor` runs on fuel, one unit for a page of 500
-- events: one more than there are events past the cursor is enough. `unsatisfiable` runs on two more
-- than there are beads, since every call but the first is at a bead that is not on its path; `most_recent_missed` on one more than
-- the nanoseconds to `now`, since each pass moves forward; `fire_due` on one more than the entries of
-- the heap, since what it pushes is later than `now`. The theorems show that the fuel is enough. A
-- timestamp is a number of nanoseconds from the least one.
--
-- Not modelled: opening, locking and backing up the database, PRAGMAs and indexes; the shadow file of
-- a refold (its content is); rows that SQLite lists in no stated order; `stuck_task_count` (LIKE) and
-- `bead_metadata`; stream cursors; the saturation of a sleep; the compiler of formulas, the
-- directories of runs, the configuration of orders, imports, packs, export and
-- search; the daemon, its sockets and processes; the command line.
pub mod Common
pub mod Error
pub mod Vocab
pub mod Event
pub mod Schema
pub mod Ids
pub mod Payload
pub mod Fold
pub mod Ledger
pub mod Refold
pub mod Invariants
pub mod Readiness
pub mod Patrol
pub mod Run
pub mod Cron
pub mod Orders
pub mod Examples
