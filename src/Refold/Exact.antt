-- ===== src/Refold/Exact.antt =====
-- The refold property: the state tables of a ledger are the fold of its log.
use gascamp.Common.{◌≡◌, refl, ap, ℕ, ◌+◌, String, true, List, [], ◌∷◌, ◌++◌, length, length-append}
use gascamp.Error.{Result, ok, >>=-eq-ok}
use gascamp.Event.{Event, EventInput}
use gascamp.Schema.{Tables, no_rows}
use gascamp.Payload.{Serde}
use gascamp.Fold.{apply}
use gascamp.Ledger.{Db, new_db, committed, set_cursor, insert_and_fold}
use gascamp.Ledger.Log.{insert_and_fold-IsAppended}
use gascamp.Ledger.Reached.{Reached, Reached-keeps}
use gascamp.Refold.{member, except, collect_keys, diff_table, diff_all, replay, build_shadow}

module _ {ℓ} {R : Type ℓ} (dec : Discrete R) where
  member-cons :
      (r x : R) (rows : List R) → member dec r rows ≡ true → member dec r (x ∷ rows) ≡ true
  unfolding member
  member-cons r x rows h =
      elim (dec r x) as (λ d. (elim d [ yes _ ↦ true | no _ ↦ member dec r rows ]) ≡ true) [
        | yes _ ↦ refl
        | no _ ↦ h
      ]

  member_self : (r : R) (rows : List R) → member dec r (r ∷ rows) ≡ true
  unfolding member
  member_self r rows =
      elim (dec r r) as (λ d. (elim d [ yes _ ↦ true | no _ ↦ member dec r rows ]) ≡ true) [
        | yes _ ↦ refl
        | no h ↦ absurd (h refl)
      ]

  except-within :
      (have lack : List R)
      → ((r : R) → member dec r have ≡ true → member dec r lack ≡ true)
      → except dec have lack ≡ []
  unfolding except
  except-within [] lack h = refl
  except-within (r ∷ have) lack h =
      rw (h r (member_self r have), except)
        (except-within have lack (λ x m. h x (member-cons x r have m)))

  diff_table-same :
      (key : R → String) (table : String) (rows : List R) → diff_table dec key table rows rows ≡ []
  unfolding diff_table collect_keys
  diff_table-same key table rows = rw (except-within rows rows (λ r m. m))

pub diff_all-same : (t : Tables) → diff_all t t ≡ []
unfolding diff_all
diff_all-same t = simp diff_table-same

fields :
    {n m : ℕ} {t u : Tables}
    → ◌≡◌ {A = Result (ℕ × Tables)} (ok (n, t)) (ok (m, u))
    → (n ≡ m) × (t ≡ u)
fields h = (cc, cc)

module _ (S : Serde) where
  open S use {Value}

  replay-append :
      (events : List (Event Value)) (e : Event Value) (t : Tables) (n m : ℕ) {u v : Tables}
      → replay S events t n ≡ ok (m, u)
      → apply S e u ≡ ok v
      → replay S (events ++ e ∷ []) t n ≡ ok (m + 1, v)
  unfolding replay
  replay-append [] e t n m {u} {v} h a =
      let start : apply S e t ≡ ok v = rw ((fields h).1) a in
      rw start (ap (λ (k : ℕ). ok (k + 1, v)) ((fields h).0))
  replay-append (x ∷ events) e t n m h a =
      let (t', first, h') = >>=-eq-ok (apply S x t) _ h in
      rw first (replay-append events e t' (n + 1) m h' a)

  IsFold : Db Value → Type 0
  IsFold db = build_shadow S db ≡ ok (length db.events, db.tables)

  insert_and_fold-IsFold :
      (ts : String) (input : EventInput Value) (seq : ℕ) (db db' : Db Value)
      → insert_and_fold S ts input db ≡ ok (seq, db')
      → IsFold db
      → IsFold db'
  unfolding IsFold build_shadow
  insert_and_fold-IsFold ts input seq db db' h f =
      let a = insert_and_fold-IsAppended S ts input db h in
      rw (a.logged, length-append db.events (committed ts (db.last_seq + 1) input ∷ []))
        (replay-append db.events (committed ts (db.last_seq + 1) input) no_rows 0 (length db.events)
          f a.folded)

  -- In every history the replay of the whole log rebuilds the live state tables, row for row, and
  -- counts every event.
  pub build_shadow_exact :
      {db : Db Value} → Reached S db → build_shadow S db ≡ ok (length db.events, db.tables)
  unfolding IsFold
  build_shadow_exact =
      Reached-keeps S IsFold insert_and_fold-IsFold (unfold build_shadow replay new_db in refl)
        (λ name seq db f. unfold build_shadow set_cursor in f)
