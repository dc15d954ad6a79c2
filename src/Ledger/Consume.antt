-- ===== src/Ledger/Consume.antt =====
-- crates/camp-core/src/ledger/mod.rs: `process_past_cursor`, what a consumer does with the events past
-- its cursor. The consumer's closure is a parameter: with its own state `M`, which it may change also
-- where it errs, and the transaction's database, which an error rolls back. The loop over the pages
-- runs on fuel, one unit for a page.
pub mod Pages
pub mod Effect
pub mod Once
use gascamp.Common.{ℕ, zero, suc, ◌+◌, String, Option, none, some, List, [], ◌∷◌, leb, select}
use gascamp.Error.{Result, ok, err}
use gascamp.Event.{Event}
use gascamp.Ledger.{Db, cursor, set_cursor}

abbrev pub take {ℓ} : {A : Type ℓ} → ℕ → List A → List A
take zero xs = []
take (suc n) [] = []
take (suc n) (x ∷ xs) = x ∷ take n xs

abbrev pub catch_up_page_size : ℕ
catch_up_page_size = 500

-- `SELECT ... WHERE seq >= ?1 ORDER BY seq LIMIT ?2`
abbrev pub events_page : {V : Type 0} → ℕ → ℕ → Db V → List (Event V)
events_page from limit db = take limit (select (λ e. leb from e.seq) db.events)

module _ {V M : Type 0} (process : Event V → M → Db V → Result (Db V) × M) (name : String) where
  -- `for event in page`: one transaction for each event
  unfoldable pub process_page : List (Event V) → ℕ → M → Db V → Result ℕ × M × Db V
  process_page [] at m db = (ok at, m, db)
  process_page (e ∷ rest) at m db = elim (process e m db).0 [
    | ok db' ↦ process_page rest e.seq (process e m db).1 (set_cursor name e.seq db')
    | err x ↦ (err x, (process e m db).1, db)
  ]

  -- the outer `loop`
  unfoldable pub drain : ℕ → ℕ → M → Db V → Option (Result ℕ × M × Db V)
  drain zero at m db = none
  drain (suc fuel) at m db =
      let page = events_page (at + 1) catch_up_page_size db in
      let (result, m', db') = process_page page at m db in
      elim page [
        | [] ↦ some (ok at, m, db)
        | _ ∷ _ ↦ elim result [ ok at' ↦ drain fuel at' m' db' | err x ↦ some (err x, m', db') ]
      ]

  unfoldable pub process_past_cursor : ℕ → M → Db V → Option (Result ℕ × M × Db V)
  process_past_cursor fuel m db = drain fuel (cursor name db) m db
