-- ===== src/Ledger/Log.antt =====
-- The log: what an append commits, and what every history of the ledger keeps.
use mathlib.Core.Path.{subst}
use mathlib.Core.List.{append_assoc, append-nil}
use gascamp.Common.{
  ◌≡◌, refl, ap, ◌∙◌, ℕ, ◌+◌, String, List, [], ◌∷◌, ◌++◌, length, ◌⊎◌, inl, inr, arith,
}
use gascamp.Error.{CoreError, Result, ok, err, ◌>>=◌, >>=-eq-ok}
use gascamp.Event.{Event, EventInput}
use gascamp.Schema.{Tables}
use gascamp.Payload.{Serde}
use gascamp.Fold.{apply}
use gascamp.Ledger.{Db, committed, in_transaction, insert_and_fold, insert_all, append_batch}

-- n, n + 1, ...: as many as there are inputs
abbrev pub count_from {ℓ} : {A : Type ℓ} → ℕ → List A → List ℕ
count_from n [] = []
count_from n (_ ∷ rest) = n ∷ count_from (n + 1) rest

-- the rows of a batch
abbrev pub commit_all : {V : Type 0} → String → ℕ → List (EventInput V) → List (Event V)
commit_all ts n [] = []
commit_all ts n (input ∷ rest) = committed ts n input ∷ commit_all ts (n + 1) rest

ok_injective {ℓ} : {A : Type ℓ} {a b : A} → ok a ≡ ok b → a ≡ b
ok_injective h = cc

module _ (S : Serde) where
  open S use {Value}

  -- the fold of some events over the tables
  unfoldable pub fold_all : List (Event Value) → Tables → Result Tables
  fold_all [] t = ok t
  fold_all (e ∷ rest) t = do t' ← apply S e t; fold_all rest t'

  -- What a committed batch leaves behind.
  pub record IsCommitted (ts : String) (inputs : List (EventInput Value)) (db : Db Value)
      (seqs : List ℕ) (db' : Db Value) : Type 0 where
    pub numbered : seqs ≡ count_from (db.last_seq + 1) inputs
    pub logged : db'.events ≡ db.events ++ commit_all ts (db.last_seq + 1) inputs
    pub counted : db'.last_seq ≡ db.last_seq + length inputs
    pub folded : fold_all (commit_all ts (db.last_seq + 1) inputs) db.tables ≡ ok db'.tables
    pub cursors_kept : db'.cursors ≡ db.cursors

  -- What one append leaves behind.
  pub record IsAppended (ts : String) (input : EventInput Value) (db : Db Value) (seq : ℕ)
      (db' : Db Value) : Type 0 where
    pub assigned : seq ≡ db.last_seq + 1
    pub logged : db'.events ≡ db.events ++ committed ts (db.last_seq + 1) input ∷ []
    pub counted : db'.last_seq ≡ db.last_seq + 1
    pub folded : apply S (committed ts (db.last_seq + 1) input) db.tables ≡ ok db'.tables
    pub cursors_kept : db'.cursors ≡ db.cursors

  pub insert_and_fold-IsAppended :
      (ts : String) (input : EventInput Value) (db : Db Value) {seq : ℕ} {db' : Db Value}
      → insert_and_fold S ts input db ≡ ok (seq, db')
      → IsAppended ts input db seq db'
  unfolding insert_and_fold
  insert_and_fold-IsAppended ts input db {seq} {db'} h =
      let (tables, folded, h') =
        >>=-eq-ok (apply S (committed ts (db.last_seq + 1) input) db.tables) _ h in
      record {
        assigned = ground arith;
        logged = ground arith;
        counted = ground arith;
        folded = folded ∙ ap ok (ground arith);
        cursors_kept = ground arith;
      }

  IsCommitted-cons :
      {ts : String} {input : EventInput Value} {rest : List (EventInput Value)}
      {db db₁ db₂ : Db Value} {seq : ℕ} {seqs : List ℕ}
      → IsAppended ts input db seq db₁
      → IsCommitted ts rest db₁ seqs db₂
      → IsCommitted ts (input ∷ rest) db (seq ∷ seqs) db₂
  unfolding fold_all
  IsCommitted-cons {ts} {input} {rest} {db} {db₁} first later = record {
    numbered = cc (first.assigned, first.counted, later.numbered);
    logged =
        later.logged
        ∙ (rw (first.logged, first.counted)
            (append_assoc db.events (committed ts (db.last_seq + 1) input ∷ []) _));
    counted = omega (arith, first.counted, later.counted);
    folded = rw first.folded (rw first.counted at later.folded);
    cursors_kept = later.cursors_kept ∙ first.cursors_kept;
  }

  insert_all-IsCommitted :
      (ts : String) (inputs : List (EventInput Value)) (db : Db Value) {seqs : List ℕ}
      {db' : Db Value}
      → insert_all S ts inputs db ≡ ok (seqs, db')
      → IsCommitted ts inputs db seqs db'
  unfolding insert_all fold_all
  insert_all-IsCommitted ts [] db h = record {
    numbered = ground arith;
    logged = ground (arith, append-nil db.events);
    counted = ground arith;
    folded = ground arith;
    cursors_kept = ground arith;
  }
  insert_all-IsCommitted ts (input ∷ rest) db {seqs} {db'} h =
      let ((seq, db₁), h₁, h₂) = >>=-eq-ok (insert_and_fold S ts input db) _ h in
      let ((seqs', db₂), h₃, h₄) = >>=-eq-ok (insert_all S ts rest db₁) _ h₂ in
      subst (λ (r : List ℕ × Db Value). IsCommitted ts (input ∷ rest) db r.0 r.1) (ok_injective h₄)
        (IsCommitted-cons (insert_and_fold-IsAppended ts input db h₁)
          (insert_all-IsCommitted ts rest db₁ h₃))

  -- An append of a batch either refuses and leaves the ledger as it was, or commits every input: the
  -- inputs get the next numbers, the log grows by them in order, the state tables are the fold of the
  -- new events over the old tables, and the cursors stay.
  pub append_batch_atomic :
      (ts : String) (inputs : List (EventInput Value)) (db : Db Value)
      → ((e : CoreError) × (append_batch S ts inputs db ≡ (err e, db)))
        ⊎ ((seqs : List ℕ) × (db' : Db Value) × (append_batch S ts inputs db ≡ (ok seqs, db'))
            × IsCommitted ts inputs db seqs db')
  unfolding append_batch
  append_batch_atomic ts inputs db = go (insert_all S ts inputs db) refl
    where
      go :
          (r : Result (List ℕ × Db Value))
          → insert_all S ts inputs db ≡ r
          → ((e : CoreError) × (in_transaction db r ≡ (err e, db)))
            ⊎ ((seqs : List ℕ) × (db' : Db Value) × (in_transaction db r ≡ (ok seqs, db'))
                × IsCommitted ts inputs db seqs db')
      go (ok (seqs, db')) h = inr (seqs, db', refl, insert_all-IsCommitted ts inputs db h)
      go (err e) h = inl (e, refl)
