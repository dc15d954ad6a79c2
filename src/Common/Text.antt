-- ===== src/Common/Text.antt =====
-- Texts: the tests of Rust's `str` that the program makes.
use Prim.Native.Nat.{ℕ}
use Prim.Native.Char.{Char, code}
use Prim.Native.String.{String}
use mathlib.Core.Bool.{Bool, true, false, ◌&&◌, ◌||◌}
use text.Mathlib.Text.{◌==◌}
use text.Mathlib.TextEquality.{eq_iff}
use mathlib.Core.Path.{◌≡◌, refl}
use mathlib.Core.Option.{Option, none, some}
use mathlib.Core.List.{List, [], ◌∷◌}
use native.Mathlib.Omega.{arith}
use text.Mathlib.TextLemmas.{nil-append, cons-append}
use gascamp.Common.Tests.{leb, eqb, if◌then◌else◌}

abbrev between : ℕ → ℕ → ℕ → Bool
between lo hi c = leb lo c && leb c hi

-- `char::is_whitespace`: the Unicode property White_Space
pub is_whitespace : ℕ → Bool
is_whitespace c =
    between 9 13 c
    || eqb c 32
    || eqb c 0x85
    || eqb c 0xa0
    || eqb c 0x1680
    || between 0x2000 0x200a c
    || between 0x2028 0x2029 c
    || eqb c 0x202f
    || eqb c 0x205f
    || eqb c 0x3000

-- `s.trim().is_empty()`: no character but whitespace
unfoldable pub is_blank : String → Bool
unfolding is_whitespace
is_blank String.[] = true
is_blank (String.◌∷◌ c s) = is_whitespace (code c) && is_blank s

-- `s.is_empty()`
abbrev pub is_empty : String → Bool
is_empty s = s == ""

-- `char::is_ascii_lowercase`, `char::is_ascii_digit`
abbrev pub is_ascii_lowercase : Char → Bool
is_ascii_lowercase c = between b'a' b'z' (code c)

abbrev pub is_ascii_digit : Char → Bool
is_ascii_digit c = between b'0' b'9' (code c)

-- `format!("{a}{b}")`
abbrev pub text_append : String → String → String
text_append = Prim.Native.String.◌++◌

-- `s.split_once(c)`, at the first one
unfoldable pub split_once_at : ℕ → String → Option (String × String)
split_once_at sep String.[] = none
split_once_at sep (String.◌∷◌ c s) =
    let rest = split_once_at sep s in
    if eqb (code c) sep
    then some ("", s)
    else elim rest [ none ↦ none | some (a, b) ↦ some (String.◌∷◌ c a, b) ]

abbrev onto_first : Char → List String → List String
onto_first c [] = []
onto_first c (x ∷ rest) = String.◌∷◌ c x ∷ rest

-- `s.split(c)`
unfoldable pub split : ℕ → String → List String
split sep String.[] = "" ∷ []
split sep (String.◌∷◌ c s) =
    let rest = split sep s in if eqb (code c) sep then "" ∷ rest else onto_first c rest

abbrev end_word : String → List String → List String
end_word word rest = if is_empty word then rest else word ∷ rest

-- the word that the text begins with, and the words behind it
unfoldable pub first_word : String → String × List String
unfolding is_whitespace
first_word String.[] = ("", [])
first_word (String.◌∷◌ c s) =
    let rest = first_word s in
    if is_whitespace (code c) then ("", end_word rest.0 rest.1) else (String.◌∷◌ c rest.0, rest.1)

-- `s.split_whitespace()`
unfoldable pub split_whitespace : String → List String
split_whitespace s = let all = first_word s in end_word all.0 all.1

-- `s.strip_prefix(p)`
unfoldable pub strip_prefix : String → String → Option String
strip_prefix String.[] s = some s
strip_prefix (String.◌∷◌ c p) String.[] = none
strip_prefix (String.◌∷◌ c p) (String.◌∷◌ d s) =
    let rest = strip_prefix p s in if eqb (code c) (code d) then rest else none

-- `s.rsplit_once(':')`: at the last one
unfoldable pub rsplit_once : String → Option (String × String)
rsplit_once String.[] = none
rsplit_once (String.◌∷◌ c s) = elim (rsplit_once s) [
  | some (a, b) ↦ some (String.◌∷◌ c a, b)
  | none ↦ if eqb (code c) b':' then some ("", s) else none
]

unfoldable pub has_colon : String → Bool
has_colon String.[] = false
has_colon (String.◌∷◌ c s) = eqb (code c) b':' || has_colon s

pub strip_prefix-append : (p s : String) → strip_prefix p (text_append p s) ≡ some s
unfolding strip_prefix
strip_prefix-append String.[] s = rw (nil-append s) refl
strip_prefix-append (String.◌∷◌ c p) s =
    rw (cons-append c p s) (ground (arith, strip_prefix-append p s))

no_colon : (s : String) → has_colon s ≡ false → rsplit_once s ≡ none
unfolding rsplit_once has_colon
no_colon String.[] h = refl
no_colon (String.◌∷◌ c s) h = let rest = no_colon s (ground arith) in rw rest (ground arith)

-- The text before the last colon may have colons of its own.
pub rsplit_once-append :
    (a b : String)
    → has_colon b ≡ false
    → rsplit_once (text_append a (String.◌∷◌ ":" b)) ≡ some (a, b)
unfolding rsplit_once
rsplit_once-append String.[] b h = rw (nil-append (String.◌∷◌ ":" b)) (rw (no_colon b h) refl)
rsplit_once-append (String.◌∷◌ c a) b h =
    rw (cons-append c a (String.◌∷◌ ":" b)) (rw (rsplit_once, rsplit_once-append a b h) refl)

-- A text that is one word is not another.
pub differs : (s a b : String) → (a == b) ≡ false → (s == a) ≡ true → (s == b) ≡ false
differs s a b h e = let same : s ≡ a = (eq_iff s a).0 e in rw same h
