-- ===== src/Ledger/Blocked.antt =====
-- The reads of permission requests in crates/camp-core/src/ledger/mod.rs: `blocked_sessions`,
-- `permission_exists`, `permission_decider`, `pending_permission_for_session`. SQLite states no order for a
-- `LIMIT 1` without ORDER BY; the first row of the table stands for the one that it picks.
pub mod Reads
use gascamp.Common.{
  String, Bool, true, false, Option, none, some, List, [], ◌∷◌, ◌&&◌, map, any, find, select,
  is_some, if◌then◌else◌, ◌==◌,
}
use gascamp.Schema.{
  Tables, Session, is_live, session_key, session_row, Permission, is_pending, permission_key,
  permission_row,
}
use gascamp.Readiness.{insert_distinct}

-- the row of `sessions` that a permission request joins with is live
abbrev pub has_live_session : Tables → Permission → Bool
has_live_session t p = any (λ s. s.name == p.session && is_live s.status) t.sessions

abbrev pub is_blocking : Tables → Permission → Bool
is_blocking t p = is_pending p.status && has_live_session t p

-- SELECT DISTINCT p.session ... ORDER BY p.session
unfoldable pub distinct_sessions : List Permission → List String
distinct_sessions [] = []
distinct_sessions (p ∷ rest) = insert_distinct p.session (distinct_sessions rest)

unfoldable pub blocked_sessions : Tables → List String
blocked_sessions t = distinct_sessions (select (is_blocking t) t.permissions)

abbrev pub permission_exists : Tables → String → Bool
permission_exists t request_id = any (λ p. p.request_id == request_id) t.permissions

-- no row where the request is pending, and no name where the column is NULL
abbrev pub decider : Option Permission → Option String
decider none = none
decider (some p) = if is_pending p.status then none else p.decided_by

unfoldable pub permission_decider : Tables → String → Option String
permission_decider t request_id = decider (permission_row t request_id)

-- the first row that is pending for the session
unfoldable pub pending_request : String → List Permission → Option String
pending_request session [] = none
pending_request session (p ∷ rest) =
    let later = pending_request session rest in
    if p.session == session && is_pending p.status then some p.request_id else later

abbrev pub pending_permission_for_session : Tables → String → Option String
pending_permission_for_session t session = pending_request session t.permissions
