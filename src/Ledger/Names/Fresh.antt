-- ===== src/Ledger/Names/Fresh.antt =====
-- The name that `next_session_name` makes is a new one.
use gascamp.Common.{
  ◌≡◌, ◌≢◌, ap, ◌∙◌, ℕ, ◌+◌, ◌≤◌, ◌<◌, String, true, Option, none, some, List, [], ◌∷◌, All,
  All-map, arith, strip_prefix-append, eq_iff, text_append,
}
use gascamp.Schema.{Tables, Session, ℤ, pos, negsuc}
use gascamp.Ids.{decimal, i64_max, all_digits}
use gascamp.Ids.RoundTrip.{all_digits-decimal}
use gascamp.Ids.Unsigned.{parse_unsigned, parse_unsigned-decimal}
use gascamp.Ledger.Names.{
  parse_signed, session_prefix, session_number, raised_by, raised_at, highest_number, session_name,
  next_session_name,
}

-- a text of digits has no minus before it
unsigned :
    (s : String) (n : ℕ)
    → all_digits s ≡ true
    → parse_unsigned i64_max s ≡ some n
    → parse_signed s ≡ some (pos n)
unfolding parse_signed parse_unsigned all_digits
unsigned String.[] n d h = absurd (cc)
unsigned (String.◌∷◌ c s) n d h = ground arith

session_number-decimal :
    (prefix : String) (n : ℕ)
    → n ≤ i64_max
    → session_number prefix (text_append prefix (decimal n)) ≡ some (pos n)
unfolding session_number
session_number-decimal prefix n h =
    rw (session_number, strip_prefix-append prefix (decimal n))
      (unsigned (decimal n) n (all_digits-decimal n) (parse_unsigned-decimal i64_max n h))

-- a number that a name of the agent has is not above `max_n`
abbrev IsBelow : String → String → ℕ → Session → Type 0
IsBelow agent prefix max_n s =
    s.agent ≡ agent → (n : ℕ) → session_number prefix s.name ≡ some (pos n) → n ≤ max_n

raised : (o : Option ℤ) (m n : ℕ) → o ≡ some (pos n) → n ≤ raised_by o m
raised none m n h = absurd (cc)
raised (some (negsuc k)) m n h = absurd (cc)
raised (some (pos k)) m n h = ground (arith, h)

kept : (o : Option ℤ) (m : ℕ) → m ≤ raised_by o m
kept none m = omega arith
kept (some (negsuc k)) m = omega arith
kept (some (pos k)) m = omega arith

climbs :
    (agent prefix : String) (m : ℕ) (rows : List Session) → m ≤ highest_number agent prefix m rows
unfolding highest_number
climbs agent prefix m [] = omega arith
climbs agent prefix m (s ∷ rows) =
    let here : m ≤ raised_at agent prefix s m =
      ground (arith, kept (session_number prefix s.name) m) in
    omega (arith, here, climbs agent prefix (raised_at agent prefix s m) rows)

below :
    (agent prefix : String) (m : ℕ) (rows : List Session)
    → All (IsBelow agent prefix (highest_number agent prefix m rows)) rows
unfolding highest_number
below agent prefix m [] = tt
below agent prefix m (s ∷ rows) = (first, below agent prefix (raised_at agent prefix s m) rows)
  where
    first : IsBelow agent prefix (highest_number agent prefix (raised_at agent prefix s m) rows) s
    first same n is =
        let here : n ≤ raised_at agent prefix s m =
          ground
            (arith, eq_iff s.agent agent, same, raised (session_number prefix s.name) m n is) in
        omega (arith, here, climbs agent prefix (raised_at agent prefix s m) rows)

-- the name and its number, where an `i64` has room
numbered :
    (prefix : String) (high : ℕ)
    → high < i64_max
    → session_number prefix (session_name prefix high) ≡ some (pos (high + 1))
unfolding session_name
numbered prefix high room =
    ground (arith, room, session_number-decimal prefix (high + 1) (omega (arith, room)))

-- a session of the agent has a lower number, and another name
abbrev pub IsApart : String → String → ℕ → String → Session → Type 0
IsApart agent prefix n name s =
    s.agent ≡ agent
    → ((k : ℕ) → session_number prefix s.name ≡ some (pos k) → k < n) × (s.name ≢ name)

below-IsApart :
    (agent prefix : String) (high : ℕ) (name : String)
    → session_number prefix name ≡ some (pos (high + 1))
    → (s : Session) → IsBelow agent prefix high s
    → IsApart agent prefix (high + 1) name s
below-IsApart agent prefix high name is s h same = (
  λ k own. omega (arith, h same k own),
  λ eq. absurd (omega (arith, h same (high + 1) (ap (session_number prefix) eq ∙ is))),
)

-- Where the numbers of an agent's sessions leave room in an `i64`, the name that `next_session_name`
-- returns is read back as the prefix and a number that is above the number of every session of the agent, and
-- is the name of none of them.
pub next_session_name-fresh :
    (t : Tables) (camp agent : String)
    → highest_number agent (session_prefix camp agent) 0 t.sessions < i64_max
    → (n : ℕ) × (session_number (session_prefix camp agent) (next_session_name t camp agent)
        ≡ some (pos n))
      × All
          (IsApart agent (session_prefix camp agent) n (next_session_name t camp agent))
          t.sessions
unfolding next_session_name
next_session_name-fresh t camp agent room =
    let prefix = session_prefix camp agent in
    let high = highest_number agent prefix 0 t.sessions in
    let is = numbered prefix high room in
    (
      high + 1,
      is,
      All-map (IsBelow agent prefix high)
          (IsApart agent prefix (high + 1) (session_name prefix high))
          (below-IsApart agent prefix high _ is) t.sessions (below agent prefix 0 t.sessions),
    )
