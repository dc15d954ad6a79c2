-- ===== src/Invariants/Requests.antt =====
-- crates/camp-core/src/ledger/mod.rs: in every history, what the reads of permission requests say of a
-- request fits together.
use gascamp.Common.{
  ◌≡◌, refl, ◌∙◌, String, Bool, true, false, not, Option, none, some, List, [], ◌∷◌, ◌&&◌, ◌||◌,
  find, any, is_some, arith, All, All-append, All-update_where, All-find, Unique, Option-cases, inl,
  inr, ◌==◌, eq_iff,
}
use gascamp.Schema.{Tables, Permission, is_pending, permission_key}
use gascamp.Payload.{Serde}
use gascamp.Readiness.Lists.{absent, any-Unique}
use gascamp.Ledger.{Db}
use gascamp.Ledger.Reached.{Reached, Reached-tables}
use gascamp.Ledger.Blocked.{
  decider, permission_exists, permission_decider, pending_request, pending_permission_for_session,
}
use gascamp.Fold.Rows
use gascamp.Fold.Sessions
use gascamp.Fold.Permissions
use gascamp.Fold.Permissions.{is_pending_request, decided_as, new_permission}
use gascamp.Fold.Write.{Write}
use gascamp.Invariants.Integrity.{keys_unique}

-- what is not pending has been answered by someone
abbrev IsAnswered : Permission → Type 0
IsAnswered p = is_pending p.status ≡ false → is_some p.decided_by ≡ true

abbrev AreAnswered : Tables → Type 0
AreAnswered t = All IsAnswered t.permissions

Write-AreAnswered :
    {V : Type 0} {created : Option String} (t u : Tables)
    → Write V created t u
    → AreAnswered t
    → AreAnswered u
unfolding Rows.insert_bead Rows.update_beads Rows.insert_dep Rows.insert_search
    Rows.rewrite_body_search_row Sessions.insert_session Sessions.update_sessions
    Permissions.new_permission
Write-AreAnswered t u (Write.ask q ts alive fresh) h =
    All-append IsAnswered t.permissions _ h (pending_first, tt)
  where
    pending_first : IsAnswered (new_permission q ts)
    pending_first c = absurd (cc)
Write-AreAnswered t u (Write.decide d ts known) h =
    All-update_where IsAnswered _ _ t.permissions (λ r is p c. refl) h
Write-AreAnswered t u _ h = h

all_answered : (S : Serde) {db : Db S.Value} → Reached S db → AreAnswered db.tables
all_answered S r = Reached-tables S AreAnswered tt (λ created t u. Write-AreAnswered t u) r

exists_row :
    (id : String) (ps : List Permission)
    → any (λ p. p.request_id == id) ps ≡ is_some (find permission_key id ps)
unfolding any find
exists_row id [] = refl
exists_row id (p ∷ ps) = ground (arith, exists_row id ps)

abbrev pends : Option Permission → Bool
pends none = false
pends (some p) = is_pending p.status

swapped :
    (id : String) (ps : List Permission)
    → any (is_pending_request id) ps ≡ any (λ p. is_pending p.status && permission_key p == id) ps
unfolding any
swapped id [] = refl
swapped id (p ∷ ps) = ground (arith, swapped id ps)

pending_row :
    (id : String) (ps : List Permission)
    → Unique permission_key ps
    → any (is_pending_request id) ps ≡ pends (find permission_key id ps)
pending_row id ps u = swapped id ps ∙ elim (Option-cases (find permission_key id ps)) [
  | inl new ↦ absent permission_key id (λ p. is_pending p.status) ps new ∙ (rw new refl)
  | inr (p, row) ↦
      any-Unique permission_key id (λ p. is_pending p.status) ps p u row ∙ (rw row refl)
]

-- the request that is returned is pending
pending_request-IsPending :
    (session id : String) (ps : List Permission)
    → pending_request session ps ≡ some id
    → any (is_pending_request id) ps ≡ true
unfolding pending_request any
pending_request-IsPending session id [] h = absurd (cc)
pending_request-IsPending session id (p ∷ ps) h =
    ground (arith, h, pending_request-IsPending session id ps, eq_iff p.request_id id)

decided_row :
    (id : String) (ps : List Permission)
    → All IsAnswered ps
    → is_some (decider (find permission_key id ps))
      ≡ (is_some (find permission_key id ps) && not (pends (find permission_key id ps)))
decided_row id ps h = elim (Option-cases (find permission_key id ps)) [
  | inl new ↦ rw new refl
  | inr (p, row) ↦
      (let own = All-find permission_key IsAnswered id ps p h row in rw row (ground (arith, own)))
]

-- In every history a request that is in the ledger either is pending or has a decider, and never both; and the
-- request that a session is blocked on has no decider.
pub requests_agree :
    (S : Serde) {db : Db S.Value}
    → Reached S db
    → (id : String)
    → (permission_exists db.tables id ≡ (
        is_some (permission_decider db.tables id)
        || any (is_pending_request id) db.tables.permissions))
      × ((is_some (permission_decider db.tables id)
            && any (is_pending_request id) db.tables.permissions)
          ≡ false)
      × ((session : String)
          → pending_permission_for_session db.tables session ≡ some id
          → permission_decider db.tables id ≡ none)
unfolding permission_decider
requests_agree S {db} r id =
    let ps = db.tables.permissions in
    let there = exists_row id ps in
    let open' = pending_row id ps (keys_unique S r).permissions in
    let shut = decided_row id ps (all_answered S r) in
    (
      ground (arith, there, open', shut),
      ground (arith, open', shut),
      λ session h. ground (arith, open', shut, pending_request-IsPending session id ps h),
    )
