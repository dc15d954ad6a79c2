-- ===== src/Ledger/Names.antt =====
-- `next_session_name` of crates/camp-core/src/ledger/mod.rs: the sessions of an agent are numbered.
pub mod Fresh
use Prim.Native.Char.{code}
use gascamp.Common.{
  ℕ, zero, suc, ◌+◌, ◌^◌, max, String, Option, none, some, List, [], ◌∷◌, eqb, ltb, strip_prefix,
  text_append, if◌then◌else◌, ◌==◌,
}
use gascamp.Schema.{Tables, Session, ℤ, pos, negsuc}
use gascamp.Ids.{decimal, i64_max}
use gascamp.Ids.Unsigned.{digits_of, parse_unsigned}

abbrev pub negative : ℕ → ℤ
negative zero = pos 0
negative (suc n) = negsuc n

-- `s.parse::<i64>()`
unfoldable pub parse_signed : String → Option ℤ
parse_signed String.[] = none
parse_signed (String.◌∷◌ c s) =
    if eqb (code c) b'-'
    then elim (digits_of (2 ^ 63) s) [ none ↦ none | some n ↦ some (negative n) ]
    else elim (parse_unsigned i64_max (String.◌∷◌ c s)) [ none ↦ none | some n ↦ some (pos n) ]

-- `format!("{camp}/{agent}/")`
abbrev pub session_prefix : String → String → String
session_prefix camp agent = text_append camp (String.◌∷◌ "/" (text_append agent "/"))

-- the number behind the prefix, if there is one
unfoldable pub session_number : String → String → Option ℤ
session_number prefix name = elim (strip_prefix prefix name) [
  | none ↦ none
  | some rest ↦ parse_signed rest
]

-- `max_n = max_n.max(n)`, from 0 up
abbrev pub raised_by : Option ℤ → ℕ → ℕ
raised_by none max_n = max_n
raised_by (some (negsuc n)) max_n = max_n
raised_by (some (pos n)) max_n = max max_n n

abbrev pub raised_at : String → String → Session → ℕ → ℕ
raised_at agent prefix s max_n =
    if s.agent == agent then raised_by (session_number prefix s.name) max_n else max_n

-- the loop over `SELECT name FROM sessions WHERE agent = ?1`
unfoldable pub highest_number : String → String → ℕ → List Session → ℕ
highest_number agent prefix max_n [] = max_n
highest_number agent prefix max_n (s ∷ rows) =
    highest_number agent prefix (raised_at agent prefix s max_n) rows

-- `format!("{prefix}{}", max_n + 1)`: the sum of two `i64` wraps at the end of its range
unfoldable pub session_name : String → ℕ → String
session_name prefix max_n =
    text_append prefix (if ltb max_n i64_max then decimal (max_n + 1) else "-9223372036854775808")

unfoldable pub next_session_name : Tables → String → String → String
next_session_name t camp agent =
    let prefix = session_prefix camp agent in
    session_name prefix (highest_number agent prefix 0 t.sessions)
