-- ===== src/Ledger/Numbering.antt =====
-- The numbers of the log: AUTOINCREMENT, one by one from 1.
use gascamp.Common.{
  ◌≡◌, refl, ◌∙◌, ℕ, ◌+◌, String, List, [], ◌∷◌, ◌++◌, length, length-append, arith,
}
use gascamp.Error.{ok}
use gascamp.Event.{Event, EventInput}
use gascamp.Payload.{Serde}
use gascamp.Ledger.{Db, new_db, committed, set_cursor, insert_and_fold}
use gascamp.Ledger.Log.{insert_and_fold-IsAppended}
use gascamp.Ledger.Reached.{Reached, Reached-keeps}

-- The events are numbered n, n + 1, ...
abbrev pub IsNumberedFrom : {V : Type 0} → ℕ → List (Event V) → Type 0
IsNumberedFrom n [] = Unit
IsNumberedFrom n (e ∷ rest) = (e.seq ≡ n) × IsNumberedFrom (n + 1) rest

IsNumberedFrom-append :
    {V : Type 0} (n : ℕ) (events : List (Event V)) (e : Event V)
    → IsNumberedFrom n events
    → e.seq ≡ n + length events
    → IsNumberedFrom n (events ++ e ∷ [])
IsNumberedFrom-append n [] e h s = (omega arith, tt)
IsNumberedFrom-append n (x ∷ events) e h s =
    (h.0, IsNumberedFrom-append (n + 1) events e h.1 (omega arith))

-- The log has no gap, and the counter stands at its last number.
pub record IsNumbered {V : Type 0} (db : Db V) : Type 0 where
  pub events : IsNumberedFrom 1 db.events
  pub counter : db.last_seq ≡ length db.events

module _ (S : Serde) where
  open S use {Value}

  insert_and_fold-IsNumbered :
      (ts : String) (input : EventInput Value) (seq : ℕ) (db db' : Db Value)
      → insert_and_fold S ts input db ≡ ok (seq, db')
      → IsNumbered db
      → IsNumbered db'
  unfolding committed
  insert_and_fold-IsNumbered ts input seq db db' h n =
      let a = insert_and_fold-IsAppended S ts input db h in
      record {
        events = rw a.logged (
            IsNumberedFrom-append 1 db.events (committed ts (db.last_seq + 1) input) n.events
              (omega (arith, n.counter)));
        counter =
            a.counted
            ∙ (rw (a.logged, length-append db.events (committed ts (db.last_seq + 1) input ∷ []))
                (omega (arith, n.counter)));
      }

  -- In every history the events of the log carry the numbers 1, 2, 3, ... in order, without a gap
  -- (a refused batch uses up no number), and the counter is the number of events.
  pub log-IsNumbered : {db : Db Value} → Reached S db → IsNumbered db
  log-IsNumbered =
      Reached-keeps S IsNumbered insert_and_fold-IsNumbered
        (unfold new_db in record { events = tt; counter = refl })
        (λ name seq db n. unfold set_cursor in record { events = n.events; counter = n.counter })
