-- ===== src/Ledger/Consume/Effect.antt =====
-- What one page does.
use mathlib.Core.Path.{subst}
use gascamp.Common.{
  ◌≡◌, refl, sym, ap, ◌∙◌, ℕ, suc, ◌+◌, String, List, [], ◌∷◌, ◌++◌, select, length, arith,
}
use gascamp.Error.{Result, ok, err}
use gascamp.Event.{Event}
use gascamp.Ledger.{Db, set_cursor}
use gascamp.Ledger.Numbering.{IsNumberedFrom}
use gascamp.Ledger.Consume.Pages.{
  pending, drop, from, select-drop, select-select, numbered-take, numbered-drop,
}
use gascamp.Ledger.Consume.{take, process_page}

module _ {V M : Type 0} (process : Event V → M → Db V → Result (Db V) × M) (name : String) where
  abbrev pub then_page : List (Event V) → Result ℕ × M × Db V → Result ℕ × M × Db V
  then_page ys (ok at, m, db) = process_page process name ys at m db
  then_page ys (err x, m, db) = (err x, m, db)

  pub process_page-append :
      (xs ys : List (Event V)) (at : ℕ) (m : M) (db : Db V)
      → process_page process name (xs ++ ys) at m db
        ≡ then_page ys (process_page process name xs at m db)
  unfolding process_page
  process_page-append [] ys at m db = refl
  process_page-append (e ∷ xs) ys at m db =
      go (process e m db).0
        (λ db'. process_page-append xs ys e.seq (process e m db).1 (set_cursor name e.seq db'))
    where
      go :
          (r : Result (Db V))
          → ((db' : Db V)
              → process_page process name
                  (xs ++ ys)
                  e.seq
                  (process e m db).1
                  (set_cursor name e.seq db')
                ≡ then_page ys (
                    process_page process name xs e.seq
                      (process e m db).1
                      (set_cursor name e.seq db')))
          → ◌≡◌ {A = Result ℕ × M × Db V}
              (elim r [
                | ok db' ↦
                    process_page process name
                      (xs ++ ys)
                      e.seq
                      (process e m db).1
                      (set_cursor name e.seq db')
                | err x ↦ (err x, (process e m db).1, db)
              ])
              (then_page ys (elim r [
                | ok db' ↦
                    process_page process name xs e.seq
                      (process e m db).1
                      (set_cursor name e.seq db')
                | err x ↦ (err x, (process e m db).1, db)
              ]))
      go (ok db') h = h db'
      go (err x) h = refl

  module _
      (keeps : (e : Event V) (m : M) (db db' : Db V)
        → (process e m db).0 ≡ ok db'
        → db'.events ≡ db.events) where
    -- What a page that succeeds leaves behind.
    page_effect :
        (xs : List (Event V)) (at : ℕ) (m : M) (db : Db V) (at' : ℕ) (m' : M) (db' : Db V)
        → IsNumberedFrom (at + 1) xs
        → ◌≡◌ {A = Result ℕ × M × Db V} (process_page process name xs at m db) (ok at', m', db')
        → (at' ≡ at + length xs) × (db'.events ≡ db.events)
    unfolding process_page set_cursor
    page_effect [] at m db at' m' db' n h = (ground arith, ground arith)
    page_effect (e ∷ xs) at m db at' m' db' n h = go (process e m db).0 refl h (λ db₁ h'.
        page_effect xs e.seq (process e m db).1 (set_cursor name e.seq db₁) at' m' db' (rw n.0 n.1)
          h')
      where
        go :
            (r : Result (Db V))
            → (process e m db).0 ≡ r
            → ◌≡◌ {A = Result ℕ × M × Db V}
                (elim r [
                  | ok db₁ ↦
                      process_page process name xs e.seq
                        (process e m db).1
                        (set_cursor name e.seq db₁)
                  | err x ↦ (err x, (process e m db).1, db)
                ])
                (ok at', m', db')
            → ((db₁ : Db V)
                → ◌≡◌ {A = Result ℕ × M × Db V}
                    (process_page process name xs e.seq
                      (process e m db).1
                      (set_cursor name e.seq db₁))
                    (ok at', m', db')
                → (at' ≡ e.seq + length xs) × (db'.events ≡ db₁.events))
            → (at' ≡ at + suc (length xs)) × (db'.events ≡ db.events)
        go (ok db₁) q h ih =
            let (a, b) = ih db₁ h in (omega (arith, a, n.0), b ∙ keeps e m db db₁ q)
        go (err x) q h ih = absurd (cc)

    pub after_page :
        (k : ℕ) (xs : List (Event V)) (at : ℕ) (m : M) (db : Db V) (at' : ℕ) (m' : M) (db' : Db V)
        → pending at db ≡ xs
        → IsNumberedFrom (at + 1) xs
        → ◌≡◌ {A = Result ℕ × M × Db V}
            (process_page process name (take k xs) at m db)
            (ok at', m', db')
        → (pending at' db' ≡ drop k xs) × IsNumberedFrom (at' + 1) (drop k xs)
    after_page k xs at m db at' m' db' p n h =
        let (moved, same) =
          page_effect (take k xs) at m db at' m' db' (numbered-take (at + 1) k xs n) h in
        let events : pending at' db' ≡ select (from (at' + 1)) db.events =
          ap (select (from (at' + 1))) same in
        let rest : select (from (at' + 1)) db.events ≡ select (from (at' + 1)) xs =
          sym (select-select (at + 1) (at' + 1) db.events (omega (arith, moved)))
          ∙ ap (select (from (at' + 1))) p in
        (
          events ∙ (rest ∙ select-drop (at + 1) k (at' + 1) xs n (omega (arith, moved))),
          subst (λ (b : ℕ). IsNumberedFrom b (drop k xs)) (omega (arith, moved))
              (numbered-drop (at + 1) k xs n),
        )
