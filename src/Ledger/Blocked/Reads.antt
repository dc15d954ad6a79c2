-- ===== src/Ledger/Blocked/Reads.antt =====
-- crates/camp-core/src/ledger/mod.rs: the reads of permission requests agree.
use gascamp.Common.{
  ◌≡◌, refl, ap, ◌∙◌, String, Bool, List, [], ◌∷◌, ◌&&◌, ◌||◌, any, contains, select, is_some,
  arith, ◌==◌, eq_iff, eq_refl,
}
use gascamp.Schema.{Tables, is_live, Permission}
use gascamp.Readiness.Unblocking.{contains-insert_distinct}
use gascamp.Ledger.Blocked.{
  is_blocking, distinct_sessions, blocked_sessions, pending_request, pending_permission_for_session,
}

contains-distinct_sessions :
    (name : String) (ps : List Permission)
    → contains (distinct_sessions ps) name ≡ any (λ p. name == p.session) ps
unfolding distinct_sessions any
contains-distinct_sessions name [] = refl
contains-distinct_sessions name (p ∷ ps) =
    contains-insert_distinct p.session name (distinct_sessions ps)
    ∙ ap (λ b. name == p.session || b) (contains-distinct_sessions name ps)

-- the session is in the registry and lives
abbrev pub lives : Tables → String → Bool
lives t name = any (λ s. s.name == name && is_live s.status) t.sessions

blocking :
    (t : Tables) (name : String) (ps : List Permission)
    → any (λ p. name == p.session) (select (is_blocking t) ps)
      ≡ (is_some (pending_request name ps) && lives t name)
unfolding any select pending_request
blocking t name [] = refl
blocking t name (p ∷ ps) =
    ground (arith, blocking t name ps, eq_iff name p.session, eq_iff p.session name, eq_refl name)

-- A session is listed as blocked exactly when it lives and has a request that is not decided.
pub blocked_sessions_lem :
    (t : Tables) (name : String)
    → contains (blocked_sessions t) name
      ≡ (is_some (pending_permission_for_session t name) && lives t name)
unfolding blocked_sessions
blocked_sessions_lem t name =
    contains-distinct_sessions name (select (is_blocking t) t.permissions)
    ∙ blocking t name t.permissions
