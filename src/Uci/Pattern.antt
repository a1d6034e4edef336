-- ===== src/Uci/Pattern.antt =====
-- `translate` in crates/oa-gateway-uci/src/schema.rs: an XSD pattern as a Rust regex. The characters that
-- it looks at are ASCII, so it acts on the UTF-8 bytes one by one; an escaped character of several bytes
-- is copied whole either way.
use oa_gateway.Prelude.{ℕ, Bool, true, false, not, ◌&&◌, ◌||◌, [], ◌∷◌, ◌++◌, ◌==◌, if◌then◌else◌}
use oa_gateway.Text.{Text, codes}

-- What the loop puts out for a character other than `\`, after the character `last` in a class or not,
-- and whether it is in a class afterwards.
abbrev pub in_class_after : Bool → ℕ → Bool
in_class_after in_class c = if c == b'[' then true else if c == b']' then false else in_class

abbrev is_negation : ℕ → Bool → ℕ → Bool
is_negation last in_class c = c == b'^' && in_class && last == b'['

abbrev put : ℕ → Bool → ℕ → Text
put last in_class c =
    if (c == b'^' || c == b'$') && not (is_negation last in_class c) then b'\\' ∷ c ∷ [] else c ∷ []

-- The loop; `last` is the last byte put out.
unfoldable pub translate_from : ℕ → Bool → Text → Text
translate_from last in_class [] = []
translate_from last in_class (c ∷ []) = if c == b'\\' then c ∷ [] else put last in_class c
translate_from last in_class (c ∷ d ∷ cs) = elim (c == b'\\') [
  | true ↦ c ∷ d ∷ translate_from d in_class cs
  | false ↦ put last in_class c ++ translate_from c (in_class_after in_class c) (d ∷ cs)
]

unfoldable pub translate : Text → Text
unfolding translate_from
translate xsd = codes "\\A(?:" ++ (translate_from b':' false xsd ++ codes ")\\z")
