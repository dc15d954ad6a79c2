-- ===== src/Fold/Write.antt =====
-- The statements that the fold executes, with the guards of the handlers that the invariants rest on:
-- the rows change in these ways and no other. A statement does not say which event it stands for. An invariant of the state tables is proved once, on this
-- relation, and holds of every accepted event.
pub mod Handlers
pub mod Apply
use gascamp.Common.{
  ◌≡◌, String, ℕ, Bool, true, false, ◌&&◌, ◌||◌, not, Option, none, some, List, [], ◌∷◌, ◌++◌,
  contains, any, is_some, is_blank, ◌==◌, update_where,
}
use gascamp.Error.{Result, ok}
use gascamp.Schema.{
  Tables, Bead, BeadStatus, open', closed, is_closed, Session, SessionStatus, live, is_live,
  SearchRow, Permission, bead_row, session_row, permission_row, ℤ,
}
use gascamp.Event.{Event, EventType}
use gascamp.Payload.{
  BeadCreated, BeadClaimed, BeadUpdated, BeadClosed, SessionWoke, PermissionPending,
  PermissionDecided,
}
use gascamp.Ids.{raise}
use gascamp.Fold.Guards.{bead_status}
use gascamp.Fold.Metadata.{
  column_of, projected_metadata, exclusive_drain_reservation, is_other, meta_value, put_meta,
  unset_meta,
}
use gascamp.Fold.Rows
use gascamp.Fold.Rows.{
  new_bead, is_dep, update_beads, with_id, with_failure, without_failure, claimed, patched,
  rewrite_body_search_row,
}
use gascamp.Fold.Closing.{check_close, closed_with}
use gascamp.Fold.Beads.{bead_types, is_blank_title}
use gascamp.Fold.Dispatch.{failed_with, rearmed}
use gascamp.Fold.Sessions
use gascamp.Fold.Sessions.{new_session, update_sessions, with_name, ended, is_held_by, released}
use gascamp.Fold.Permissions.{
  new_permission, is_live_session, permission_decisions, is_pending_request, decided_as,
}

-- The bead that the fold of an event inserts: that of `bead.created`, else none.
abbrev pub created_by : EventType → Option String → Option String
created_by EventType.bead_created bead = bead
created_by _ bead = none

-- `created` is the bead that may be inserted.
pub data Write (V : Type 0) (created : Option String) (t : Tables) : Tables → Type 0 where
  insert_bead :
      (id rig ts : String) (p : BeadCreated)
      → created ≡ some id
      → bead_row t id ≡ none
      → contains bead_types p.bead_type ≡ true
      → is_blank p.title ≡ false
      → Write V created t (Rows.insert_bead (new_bead id rig p ts) t)
  insert_dep :
      (id needs : String)
      → is_some (bead_row t id) ≡ true
      → any (is_dep id needs) t.deps ≡ false
      → Write V created t (Rows.insert_dep id needs t)
  put :
      (id key value : String)
      → is_some (bead_row t id) ≡ true
      → column_of key projected_metadata ≡ none
      → (key == exclusive_drain_reservation && is_other value (meta_value id key t.bead_meta))
        ≡ false
      → Write V created t (record t { bead_meta = put_meta id key value t.bead_meta })
  unset :
      (id key : String) → Write V created t (record t { bead_meta = unset_meta id key t.bead_meta })
  index : (r : SearchRow) → Write V created t (Rows.insert_search r t)
  reindex : (id : String) → Write V created t (rewrite_body_search_row id t)
  count :
      (prefix : String) (n : ℕ)
      → Write V created t (record t { counters = raise prefix n t.counters })
  claim :
      (id ts : String) (p : BeadClaimed)
      → bead_status t id ≡ some open'
      → Write V created t (update_beads (with_id id) (claimed ts p) t)
  clear : (id : String) → Write V created t (update_beads (with_failure id) without_failure t)
  patch :
      (id ts : String) (p : BeadUpdated)
      → is_blank_title p.title ≡ false
      → Write V created t (update_beads (with_id id) (patched ts p) t)
  close :
      (id : String) (e : Event V) (p : BeadClosed V) (s : BeadStatus)
      → check_close e p ≡ ok tt
      → bead_status t id ≡ some s
      → is_closed s ≡ false
      → Write V created t (update_beads (with_id id) (closed_with e.ts p) t)
  fail :
      (id ts reason : String)
      → Write V created t (update_beads (with_id id) (failed_with ts reason) t)
  rearm : (id ts : String) → Write V created t (update_beads (with_failure id) (rearmed ts) t)
  register :
      (p : SessionWoke) (ts : String)
      → session_row t p.name ≡ none
      → Write V created t (Sessions.insert_session (new_session p ts) t)
  set_pid :
      (name : String) (pid : ℤ)
      → Write V created t (update_sessions (with_name name) (λ s. record s { pid = some pid }) t)
  finish :
      (name ts : String) (status : SessionStatus) (s : Session)
      → session_row t name ≡ some s
      → s.status ≡ live
      → is_live status ≡ false
      → Write V created t (update_sessions (with_name name) (ended status ts) t)
  release : (name ts : String) → Write V created t (update_beads (is_held_by name) (released ts) t)
  ask :
      (p : PermissionPending) (ts : String)
      → any (is_live_session p.session) t.sessions ≡ true
      → permission_row t p.request_id ≡ none
      → Write V created t (record t { permissions = t.permissions ++ new_permission p ts ∷ [] })
  decide :
      (d : PermissionDecided) (ts : String)
      → contains permission_decisions d.decision ≡ true
      → Write V created t (record t {
        permissions =
            update_where (is_pending_request d.request_id) (decided_as d ts) t.permissions;
      })

pub data Writes (V : Type 0) (created : Option String) (t : Tables) : Tables → Type 0 where
  done : Writes V created t t
  next : {u v : Tables} → Writes V created t u → Write V created u v → Writes V created t v

-- What every statement keeps, a sequence of them keeps.
pub Writes-keep {ℓ} :
    {V : Type 0} {created : Option String} (P : Tables → Type ℓ)
    → ((t u : Tables) → Write V created t u → P t → P u)
    → {t u : Tables} → Writes V created t u
    → P t
    → P u
Writes-keep P keep done h = h
Writes-keep P keep (next {u = u} {v = v} ws w) h = keep u v w (Writes-keep P keep ws h)

pub Writes-append :
    {V : Type 0} {created : Option String} {t u v : Tables}
    → Writes V created t u
    → Writes V created u v
    → Writes V created t v
Writes-append ws done = ws
Writes-append ws (next vs w) = next (Writes-append ws vs) w
