-- ===== src/Ledger/Consume/Once.antt =====
-- Each event past the cursor is processed once, in order; the pages do not show.
use gascamp.Common.{◌≡◌, ℕ, String, Option, some, List, [], ◌∷◌}
use gascamp.Error.{Result, ok, err}
use gascamp.Event.{Event}
use gascamp.Ledger.{Db}
use gascamp.Ledger.Consume.{drain}

module _ {V M : Type 0} (process : Event V → M → Db V → Result (Db V) × M) (name : String)
    (keeps : (e : Event V) (m : M) (db db' : Db V)
      → (process e m db).0 ≡ ok db'
      → db'.events ≡ db.events) where
  -- the choice after a page
  abbrev loop :
      ℕ → ℕ → M → Db V → List (Event V) → Result ℕ × M × Db V → Option (Result ℕ × M × Db V)
  loop fuel at m db [] r = some (ok at, m, db)
  loop fuel at m db (_ ∷ _) (ok at', m', db') = drain process name fuel at' m' db'
  loop fuel at m db (_ ∷ _) (err x, m', db') = some (err x, m', db')
