-- ===== src/Event/Names.antt =====
-- The spellings of the event types (`EventType::as_str`, `EventType::parse`).
use gascamp.Common.{◌≡◌, refl, String, ap, find, find-key, ◌∙◌, sym, ◌↔◌}
use gascamp.Error.{ok, unknown_event_type, ok_or-eq-ok}
use gascamp.Event.{EventType, bead_created, as_str, parse, all_types}

-- Every event type is read back from its spelling.
pub parse-as_str : (k : EventType) → parse (as_str k) ≡ ok k
unfolding parse as_str find
parse-as_str bead_created = refl
parse-as_str _ = refl

-- A spelling that is read as an event type is the spelling of that type.
pub as_str-parse : (s : String) (k : EventType) → parse s ≡ ok k → as_str k ≡ s
unfolding parse
as_str-parse s k h =
    find-key as_str s all_types k (ok_or-eq-ok (find as_str s all_types) (unknown_event_type s) h)

ok_injective : {j k : EventType} → ok j ≡ ok k → j ≡ k
ok_injective h = cc

-- No two event types share a spelling.
pub as_str-injective : (j k : EventType) → as_str j ≡ as_str k → j ≡ k
as_str-injective j k h = ok_injective (sym (parse-as_str j) ∙ ap parse h ∙ parse-as_str k)

-- A text is read as an event type exactly when it is the spelling of that type.
pub parse_iff : (s : String) (k : EventType) → (parse s ≡ ok k) ↔ (as_str k ≡ s)
parse_iff s k = (as_str-parse s k, λ h. ap parse (sym h) ∙ parse-as_str k)
