-- ===== src/Fold/Permissions.antt =====
-- crates/camp-core/src/ledger/fold.rs: the permission plane (`permission_pending`,
-- `permission_decided`).
use gascamp.Common.{
  String, Bool, not, true, ◌&&◌, Option, none, some, List, [], ◌∷◌, ◌++◌, any, is_some, is_blank,
  contains, ◌==◌, update_where,
}
use gascamp.Error.{
  Result, ok, sqlite, unknown_session, unknown_decision, deny_without_reason, not_pending,
  refuse_if, ◌>>=◌, ◌>>◌,
}
use gascamp.Event.{Event}
use gascamp.Schema.{
  Tables, Session, is_live, Permission, pending, decided, is_pending, permission_row,
}
use gascamp.Payload.{Serde, PermissionPending, PermissionDecided}
use gascamp.Fold.Guards.{bad, payload}

unfoldable pub new_permission : PermissionPending → String → Permission
new_permission p ts = record {
  request_id = p.request_id;
  session = p.session;
  tool_name = p.tool_name;
  status = pending;
  decision = none;
  decided_by = none;
  requested_ts = ts;
  decided_ts = none;
}

abbrev pub is_live_session : String → Session → Bool
is_live_session name s = s.name == name && is_live s.status

abbrev pub permission_decisions : List String
permission_decisions = "allow" ∷ "allow_always" ∷ "deny" ∷ []

-- `reason.as_deref().map(str::trim).unwrap_or("").is_empty()`
abbrev pub is_blank_reason : Option String → Bool
is_blank_reason none = true
is_blank_reason (some reason) = is_blank reason

-- `WHERE request_id = ?4 AND status = 'pending'`
abbrev pub is_pending_request : String → Permission → Bool
is_pending_request id p = p.request_id == id && is_pending p.status

abbrev pub decided_as : PermissionDecided → String → Permission → Permission
decided_as d ts p = record p {
  status = decided;
  decision = some d.decision;
  decided_by = some d.decided_by;
  decided_ts = some ts;
}

module _ (S : Serde) where
  open S use {Value}

  -- a second row with one PRIMARY KEY is refused by the database
  unfoldable pub permission_pending : Event Value → Tables → Result Tables
  permission_pending e t = do
    p ← payload e (S.as_permission_pending e.payload)
    refuse_if (not (any (is_live_session p.session) t.sessions)) (unknown_session p.session)
    refuse_if (is_some (permission_row t p.request_id)) (sqlite "permissions.request_id")
    ok (record t { permissions = t.permissions ++ new_permission p e.ts ∷ [] })

  -- zero rows changed is a refusal: the first answer wins
  unfoldable pub permission_decided : Event Value → Tables → Result Tables
  permission_decided e t = do
    p ← payload e (S.as_permission_decided e.payload)
    refuse_if (not (contains permission_decisions p.decision)) (bad e (unknown_decision p.decision))
    refuse_if (p.decision == "deny" && is_blank_reason p.reason) (bad e deny_without_reason)
    refuse_if (not (any (is_pending_request p.request_id) t.permissions))
        (bad e (not_pending p.request_id))
    ok (record t {
      permissions =
          update_where (is_pending_request p.request_id) (decided_as p e.ts) t.permissions;
    })
