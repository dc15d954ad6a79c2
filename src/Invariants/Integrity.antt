-- ===== src/Invariants/Integrity.antt =====
-- Keys of the state tables: primary keys are unique, and what refers to a bead refers to one that is
-- there (schema.rs: PRIMARY KEY, REFERENCES).
use gascamp.Common.{
  Option, ◌≡◌, refl, String, Bool, true, none, List, is_some, All, All-map, All-append,
  All-update_where, All-delete_where, Unique, Unique-append, Unique-update_where, Bool-cases, inl,
  inr,
}
use gascamp.Schema.{Tables, Bead, Meta, Session, bead_key, session_key, permission_key, bead_row}
use gascamp.Payload.{Serde}
use gascamp.Fold.Metadata.{put_meta, unset_meta, is_row, meta_value, column_of, projected_metadata}
use gascamp.Fold.Rows
use gascamp.Fold.Rows.{new_bead}
use gascamp.Fold.Sessions
use gascamp.Fold.Sessions.{new_session}
use gascamp.Fold.Permissions.{new_permission}
use gascamp.Fold.Write.{Write}
use gascamp.Ledger.{Db}
use gascamp.Ledger.Reached.{Reached, Reached-tables}
use gascamp.Invariants.Rows.{row_stays}

-- A predicate of the metadata rows that does not look at the value.
put_meta-All :
    (P : Meta → Type 0) (bead key value : String) (rows : List Meta)
    → ((m : Meta) → is_row bead key m ≡ true → P m → P (record m { value = value }))
    → P (record { bead_id = bead; key = key; value = value })
    → All P rows
    → All P (put_meta bead key value rows)
unfolding put_meta
put_meta-All P bead key value rows kept new h =
    elim (Bool-cases (is_some (meta_value bead key rows))) [
      | inl e ↦ rw e (All-update_where P _ _ rows kept h)
      | inr e ↦ rw e (All-append P rows _ h (new, tt))
    ]

-- The foreign keys of `bead_meta` and `deps`, and the rule that no key of a dedicated column is
-- stored as metadata.
pub record HasReferences (t : Tables) : Type 0 where
  pub metas : All (λ m. is_some (bead_row t m.bead_id) ≡ true) t.bead_meta
  pub deps : All (λ d. is_some (bead_row t d.bead_id) ≡ true) t.deps
  pub unprojected : All (λ m. column_of m.key projected_metadata ≡ none) t.bead_meta

module _ {V : Type 0} {created : Option String} {t u : Tables} (w : Write V created t u) where
  carried_metas :
      All (λ m. is_some (bead_row t m.bead_id) ≡ true) t.bead_meta
      → All (λ m. is_some (bead_row u m.bead_id) ≡ true) t.bead_meta
  carried_metas = All-map _ _ (λ m. row_stays w m.bead_id) t.bead_meta

  carried_deps :
      All (λ d. is_some (bead_row t d.bead_id) ≡ true) t.deps
      → All (λ d. is_some (bead_row u d.bead_id) ≡ true) t.deps
  carried_deps = All-map _ _ (λ d. row_stays w d.bead_id) t.deps

  carried : u.bead_meta ≡ t.bead_meta → u.deps ≡ t.deps → HasReferences t → HasReferences u
  carried same_meta same_deps h = record {
    metas = rw same_meta (carried_metas h.metas);
    deps = rw same_deps (carried_deps h.deps);
    unprojected = rw same_meta h.unprojected;
  }

pub Write-HasReferences :
    {V : Type 0} {created : Option String} (t u : Tables)
    → Write V created t u
    → HasReferences t
    → HasReferences u
unfolding Rows.insert_bead Rows.update_beads Rows.insert_dep Rows.insert_search
    Rows.rewrite_body_search_row Sessions.insert_session Sessions.update_sessions unset_meta
Write-HasReferences {V} {created} t u (Write.insert_dep id needs there fresh) h = record {
  metas = h.metas;
  deps = All-append _ t.deps _ h.deps (there, tt);
  unprojected = h.unprojected;
}
Write-HasReferences {V} {created} t u (Write.put id key value there unprojected free) h = record {
  metas = put_meta-All _ id key value t.bead_meta (λ m _ r. r) there h.metas;
  deps = h.deps;
  unprojected = put_meta-All _ id key value t.bead_meta (λ m _ r. r) unprojected h.unprojected;
}
Write-HasReferences {V} {created} t u (Write.unset id key) h = record {
  metas = All-delete_where _ _ t.bead_meta h.metas;
  deps = h.deps;
  unprojected = All-delete_where _ _ t.bead_meta h.unprojected;
}
Write-HasReferences {V} {created} t u (Write.insert_bead i r ts p made a b c) h =
    carried {V = V} {created = created} (Write.insert_bead i r ts p made a b c) refl refl h
Write-HasReferences {V} {created} t u (Write.claim i ts p a) h =
    carried {V = V} {created = created} (Write.claim i ts p a) refl refl h
Write-HasReferences {V} {created} t u (Write.clear i) h =
    carried {V = V} {created = created} (Write.clear i) refl refl h
Write-HasReferences {V} {created} t u (Write.patch i ts p a) h =
    carried {V = V} {created = created} (Write.patch i ts p a) refl refl h
Write-HasReferences {V} {created} t u (Write.close i e p s a b c) h =
    carried {V = V} {created = created} (Write.close i e p s a b c) refl refl h
Write-HasReferences {V} {created} t u (Write.fail i ts r) h =
    carried {V = V} {created = created} (Write.fail i ts r) refl refl h
Write-HasReferences {V} {created} t u (Write.rearm i ts) h =
    carried {V = V} {created = created} (Write.rearm i ts) refl refl h
Write-HasReferences {V} {created} t u (Write.release n ts) h =
    carried {V = V} {created = created} (Write.release n ts) refl refl h
Write-HasReferences {V} {created} t u _ h = record {
  metas = h.metas;
  deps = h.deps;
  unprojected = h.unprojected;
}

-- In every history each metadata row and each dependency row belongs to a bead that exists, and no
-- metadata row has a key that is projected from a column of `beads`.
pub references_hold : (S : Serde) {db : Db S.Value} → Reached S db → HasReferences db.tables
references_hold S =
    Reached-tables S HasReferences (record { metas = tt; deps = tt; unprojected = tt })
      (λ created t u w. Write-HasReferences t u w)

-- The primary keys of `beads`, `sessions` and `permissions`.
pub record HasKeys (t : Tables) : Type 0 where
  pub beads : Unique bead_key t.beads
  pub sessions : Unique session_key t.sessions
  pub permissions : Unique permission_key t.permissions

updated_beads :
    (p : Bead → Bool) (f : Bead → Bead)
    → ((b : Bead) → (f b).id ≡ b.id)
    → (t : Tables) → HasKeys t
    → HasKeys (Rows.update_beads p f t)
unfolding Rows.update_beads
updated_beads p f keeps t h = record {
  beads = Unique-update_where bead_key p f keeps t.beads h.beads;
  sessions = h.sessions;
  permissions = h.permissions;
}

updated_sessions :
    (p : Session → Bool) (f : Session → Session)
    → ((s : Session) → (f s).name ≡ s.name)
    → (t : Tables) → HasKeys t
    → HasKeys (Sessions.update_sessions p f t)
unfolding Sessions.update_sessions
updated_sessions p f keeps t h = record {
  beads = h.beads;
  sessions = Unique-update_where session_key p f keeps t.sessions h.sessions;
  permissions = h.permissions;
}

Write-HasKeys :
    {V : Type 0} {created : Option String} (t u : Tables)
    → Write V created t u
    → HasKeys t
    → HasKeys u
unfolding Rows.insert_bead Rows.insert_dep Rows.insert_search Rows.rewrite_body_search_row
    Sessions.insert_session new_bead new_session new_permission
Write-HasKeys t u (Write.insert_bead i r ts p made fresh b c) h = record {
  beads = Unique-append bead_key t.beads _ h.beads fresh;
  sessions = h.sessions;
  permissions = h.permissions;
}
Write-HasKeys t u (Write.register p ts fresh) h = record {
  beads = h.beads;
  sessions = Unique-append session_key t.sessions _ h.sessions fresh;
  permissions = h.permissions;
}
Write-HasKeys t u (Write.ask p ts alive fresh) h = record {
  beads = h.beads;
  sessions = h.sessions;
  permissions = Unique-append permission_key t.permissions _ h.permissions fresh;
}
Write-HasKeys t u (Write.decide d ts _) h = record {
  beads = h.beads;
  sessions = h.sessions;
  permissions = Unique-update_where permission_key _ _ (λ p. refl) t.permissions h.permissions;
}
Write-HasKeys t u (Write.claim i ts p a) h = updated_beads _ _ (λ b. refl) t h
Write-HasKeys t u (Write.clear i) h = updated_beads _ _ (λ b. refl) t h
Write-HasKeys t u (Write.patch i ts p a) h = updated_beads _ _ (λ b. refl) t h
Write-HasKeys t u (Write.close i e p s a b c) h = updated_beads _ _ (λ b. refl) t h
Write-HasKeys t u (Write.fail i ts r) h = updated_beads _ _ (λ b. refl) t h
Write-HasKeys t u (Write.rearm i ts) h = updated_beads _ _ (λ b. refl) t h
Write-HasKeys t u (Write.release n ts) h = updated_beads _ _ (λ b. refl) t h
Write-HasKeys t u (Write.set_pid n pid) h = updated_sessions _ _ (λ b. refl) t h
Write-HasKeys t u (Write.finish n ts st s a b c) h = updated_sessions _ _ (λ b. refl) t h
Write-HasKeys t u _ h = record {
  beads = h.beads;
  sessions = h.sessions;
  permissions = h.permissions;
}

-- In every history no two beads share an id, no two sessions a name, and no two permission requests
-- a request id.
pub keys_unique : (S : Serde) {db : Db S.Value} → Reached S db → HasKeys db.tables
keys_unique S =
    Reached-tables S HasKeys (record { beads = tt; sessions = tt; permissions = tt })
      (λ created t u w. Write-HasKeys t u w)
