-- ===== src/Run/Labels.antt =====
-- crates/camp-core/src/formula/runtime.rs: the labels that link the root of a run to the anchor that
-- it was made for.
use Prim.Native.Char.{Char, code}
use text.Mathlib.TextLemmas.{cons-append}
use gascamp.Common.{
  eqb, ◌≡◌, refl, ℕ, ◌≤◌, String, false, Option, none, some, if◌then◌else◌, text_append, is_empty,
  strip_prefix, rsplit_once, strip_prefix-append, rsplit_once-append,
}
use gascamp.Ids.{decimal}
use gascamp.Ids.Unsigned.{u64_max, parse_unsigned, parse_unsigned-decimal, has_colon-decimal}

-- `format!("{kind}{anchor}:{index}")`
abbrev pub label : String → String → ℕ → String
label kind anchor index = text_append kind (text_append anchor (String.◌∷◌ ":" (decimal index)))

-- the body of both parsers, with the prefix that each strips; a `usize` has 64 bits
unfoldable pub parse_label : String → String → Option (String × ℕ)
parse_label kind s = elim (strip_prefix kind s) [
  | none ↦ none
  | some rest ↦ elim (rsplit_once rest) [
    | none ↦ none
    | some (anchor, index) ↦
        if is_empty anchor
        then none
        else elim (parse_unsigned u64_max index) [ none ↦ none | some i ↦ some (anchor, i) ]
  ]
]

unfoldable pub drain_label : String → ℕ → String
drain_label anchor index = label "drain:" anchor index

unfoldable pub parse_drain_label : String → Option (String × ℕ)
parse_drain_label s = parse_label "drain:" s

unfoldable pub bond_label : String → ℕ → String
bond_label anchor index = label "bond:" anchor index

unfoldable pub parse_bond_label : String → Option (String × ℕ)
parse_bond_label s = parse_label "bond:" s

parse_label-label :
    (kind anchor : String) (index : ℕ)
    → is_empty anchor ≡ false
    → index ≤ u64_max
    → parse_label kind (label kind anchor index) ≡ some (anchor, index)
unfolding parse_label
parse_label-label kind anchor index named small =
    rw (parse_label, strip_prefix-append kind (text_append anchor (String.◌∷◌ ":" (decimal index))))
      (rw (rsplit_once-append anchor (decimal index) (has_colon-decimal index))
        (rw (named, parse_unsigned-decimal u64_max index small) refl))

-- a text that starts with another character has another prefix
other_prefix :
    (p q x : String) (c d : Char)
    → eqb (code c) (code d) ≡ false
    → strip_prefix (String.◌∷◌ c p) (text_append (String.◌∷◌ d q) x) ≡ none
unfolding strip_prefix
other_prefix p q x c d h = rw (cons-append d q x) (rw (strip_prefix, h) refl)

-- A drain or bond label of an anchor that is not empty, colons or not, and of an index that a
-- `usize` holds is read back as that anchor and that index, and a drain label is no bond label, nor
-- a bond label a drain label.
pub labels_read_back :
    (anchor : String) (index : ℕ)
    → is_empty anchor ≡ false
    → index ≤ u64_max
    → (parse_drain_label (drain_label anchor index) ≡ some (anchor, index))
      × (parse_bond_label (bond_label anchor index) ≡ some (anchor, index))
      × (parse_bond_label (drain_label anchor index) ≡ none)
      × (parse_drain_label (bond_label anchor index) ≡ none)
unfolding drain_label parse_drain_label bond_label parse_bond_label parse_label
labels_read_back anchor index named small = (
  parse_label-label "drain:" anchor index named small,
  parse_label-label "bond:" anchor index named small,
  rw
      (
        parse_label,
        other_prefix "ond:" "rain:" (text_append anchor (String.◌∷◌ ":" (decimal index))) "b" "d"
            refl,
      )
      refl,
  rw
      (
        parse_label,
        other_prefix "rain:" "ond:" (text_append anchor (String.◌∷◌ ":" (decimal index))) "d" "b"
            refl,
      )
      refl,
)
