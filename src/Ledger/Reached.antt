-- ===== src/Ledger/Reached.antt =====
-- The histories of a ledger: batches (accepted or refused), appends inside an open transaction, and
-- moves of a consumer's cursor, from the database that `init_schema` creates.
use mathlib.Core.Path.{subst}
use gascamp.Common.{Option, ◌≡◌, refl, ℕ, String, List, [], ◌∷◌}
use gascamp.Error.{Result, ok, err, >>=-eq-ok}
use gascamp.Event.{EventInput}
use gascamp.Schema.{Tables, no_rows}
use gascamp.Payload.{Serde}
use gascamp.Fold.Write.{Write, Writes-keep}
use gascamp.Fold.Write.Apply.{apply-Writes}
use gascamp.Ledger.{
  Db, new_db, set_cursor, in_transaction, insert_and_fold, insert_all, append_batch,
}
use gascamp.Ledger.Log.{insert_and_fold-IsAppended}

second {ℓ κ} :
    {A : Type ℓ} {B : Type κ} {a a' : A} {b b' : B}
    → ◌≡◌ {A = Result (A × B)} (ok (a, b)) (ok (a', b'))
    → b ≡ b'
second h = cc

module _ (S : Serde) where
  open S use {Value}

  pub data Reached : Db Value → Type 0 where
    start : Reached (new_db Value)
    batch :
        {db : Db Value} (ts : String) (inputs : List (EventInput Value))
        → Reached db
        → Reached (append_batch S ts inputs db).1
    within :
        {db db' : Db Value} (ts : String) (input : EventInput Value) (seq : ℕ)
        → Reached db
        → insert_and_fold S ts input db ≡ ok (seq, db')
        → Reached db'
    advance :
        {db : Db Value} (name : String) (seq : ℕ) → Reached db → Reached (set_cursor name seq db)

  module _ (P : Db Value → Type 0)
      (inserted : (ts : String) (input : EventInput Value) (seq : ℕ) (db db' : Db Value)
        → insert_and_fold S ts input db ≡ ok (seq, db')
        → P db
        → P db') where
    insert_all-keeps :
        (ts : String) (inputs : List (EventInput Value)) (db db' : Db Value) {seqs : List ℕ}
        → insert_all S ts inputs db ≡ ok (seqs, db')
        → P db
        → P db'
    unfolding insert_all
    insert_all-keeps ts [] db db' h p = subst P (second h) p
    insert_all-keeps ts (input ∷ rest) db db' h p =
        let ((seq, db₁), h₁, h₂) = >>=-eq-ok (insert_and_fold S ts input db) _ h in
        let ((seqs, db₂), h₃, h₄) = >>=-eq-ok (insert_all S ts rest db₁) _ h₂ in
        subst P (second h₄)
          (insert_all-keeps ts rest db₁ db₂ h₃ (inserted ts input seq db db₁ h₁ p))

    batch-keeps :
        (ts : String) (inputs : List (EventInput Value)) (db : Db Value)
        → P db
        → P (append_batch S ts inputs db).1
    unfolding append_batch
    batch-keeps ts inputs db p = go (insert_all S ts inputs db) refl
      where
        go :
            (r : Result (List ℕ × Db Value))
            → insert_all S ts inputs db ≡ r
            → P (in_transaction db r).1
        go (ok (seqs, db')) h = insert_all-keeps ts inputs db db' h p
        go (err e) h = p

    -- What a new database has, and an append and a move of a cursor keep, every history keeps.
    pub Reached-keeps :
        P (new_db Value)
        → ((name : String) (seq : ℕ) (db : Db Value) → P db → P (set_cursor name seq db))
        → {db : Db Value} → Reached db
        → P db
    Reached-keeps first moved start = first
    Reached-keeps first moved (batch {db = db} ts inputs r) =
        batch-keeps ts inputs db (Reached-keeps first moved r)
    Reached-keeps first moved (within {db = db} {db' = db'} ts input seq r h) =
        inserted ts input seq db db' h (Reached-keeps first moved r)
    Reached-keeps first moved (advance {db = db} name seq r) =
        moved name seq db (Reached-keeps first moved r)

  -- What every statement of the fold keeps of the state tables holds in every history.
  pub Reached-tables :
      (P : Tables → Type 0)
      → P no_rows
      → ((created : Option String) (t u : Tables) → Write Value created t u → P t → P u)
      → {db : Db Value} → Reached db
      → P db.tables
  Reached-tables P empty keep =
      Reached-keeps (λ db. P db.tables)
        (λ ts input seq db db' h p.
          Writes-keep P (keep _)
            (apply-Writes S _ db.tables (insert_and_fold-IsAppended S ts input db h).folded) p)
        (unfold new_db in empty) (λ name seq db p. unfold set_cursor in p)
