-- ===== src/Uci/Rules.antt =====
-- crates/oa-gateway-uci/src/validate/rules.rs: the check of a message against a schema. What the source
-- pushes onto `out` is passed from step to step.
use oa_gateway.Prelude.{
  ℕ, zero, suc, ◌/◌, Bool, true, false, not, Option, none, some, List, [], ◌∷◌, ◌++◌, length, ltb,
  leb, if◌then◌else◌,
}
use oa_gateway.Text.{Text, codes, text_eq, text_Eq}
use oa_gateway.Text.Chars.{char_count}
use oa_gateway.Map.{get}
use oa_gateway.Uci.Schema.{
  Calls, Schema, Group, GroupKind, in_sequence, in_choice, Element, MaxOccurs, bounded, unbounded,
}
use oa_gateway.Uci.Facets.{primitive}
use oa_gateway.Uci.Primitive.{kind, Kind, hex_binary, is_hexdigit}
use oa_gateway.Uci.Instance.{Fields, Field, childless, field, one, many, get_field, count_nodes}
use oa_gateway.Uci.Violation.{
  Violation, ViolationKind, max_violations, undeclared, missing, too_few, too_many, no_alternative,
  many_alternatives, abstract_type,
}

abbrev pub Report : Type 0
Report = List Violation

unfoldable pub note : Text → ViolationKind → Report → Report
note path kind out =
    if ltb (length out) max_violations
    then out ++ (record { path = path; kind = kind } ∷ [])
    else out

-- A note that stands under a condition.
unfoldable pub note_if : Bool → Text → ViolationKind → Report → Report
unfolding note
note_if test path kind out = if test then note path kind out else out

abbrev pub full : Report → Bool
full out = leb max_violations (length out)

-- How often a field stands in a complex node.
abbrev pub occurrences : {c : Calls} → Option (Field c) → ℕ
occurrences none = 0
occurrences (some (one n)) = 1
occurrences (some (many ns)) = count_nodes ns

unfoldable pub count_of : {c : Calls} → Fields c → Text → ℕ
unfolding get_field
count_of fields name = occurrences (get_field name fields)

-- `check_max`
unfoldable pub check_max : MaxOccurs → Text → ℕ → Text → Report → Report
unfolding note_if
check_max (bounded max) element found path out =
    note_if (ltb max found) path (too_many element max found) out
check_max unbounded element found path out = out

unfoldable pub find_element : Text → List Element → Option Element
find_element name [] = none
find_element name (e ∷ es) = if text_eq e.name name then some e else find_element name es

abbrev pub is_declared : Option Element → Bool
is_declared none = false
is_declared (some e) = true

-- A declaration of a sequence, by how often it was found.
unfoldable pub check_occurs : Text → Element → ℕ → Report → Report
unfolding note_if check_max
check_occurs path decl zero out = note_if (leb 1 decl.min_occurs) path (missing decl.name) out
check_occurs path decl (suc n) out =
    check_max decl.max_occurs decl.name (suc n) path
      (note_if (ltb (suc n) decl.min_occurs) path (too_few decl.name decl.min_occurs (suc n)) out)

abbrev pub names_of : List Element → List Text
names_of [] = []
names_of (e ∷ es) = e.name ∷ names_of es

abbrev pub first_element : Element → List Element → Element
first_element default [] = default
first_element default (e ∷ es) = e

-- The element of a choice that has this name.
abbrev pub chosen : Option Element → Element → Element
chosen none default = default
chosen (some e) default = e

-- `value_length`: octets of a hex value, characters of another.
abbrev pub hexdigits : Text → ℕ
hexdigits [] = 0
hexdigits (c ∷ cs) = if is_hexdigit c then suc (hexdigits cs) else hexdigits cs

abbrev length_in : Kind → Text → ℕ × Text
unfolding char_count
length_in hex_binary t = (hexdigits t / 2, codes "octets")
length_in _ t = (char_count t, codes "characters")

unfoldable pub value_length : Text → Text → ℕ × Text
unfolding kind length_in
value_length t primitive = length_in (kind primitive) t

-- The alternatives of a choice that are taken: those that are found.
unfoldable pub taken : {c : Calls} → Fields c → List Element → List Element
unfolding count_of
taken fields [] = []
taken fields (e ∷ es) =
    let rest = taken fields es in if ltb 0 (count_of fields e.name) then e ∷ rest else rest

module _ {c : Calls} where
  -- A choice, by its alternatives that are taken.
  unfoldable pub check_taken : Text → Fields c → List Element → List Element → Report → Report
  unfolding note count_of check_max find_element
  check_taken path fields elements [] out = note path (no_alternative (names_of elements)) out
  check_taken path fields elements (e ∷ []) out =
      check_max (chosen (find_element e.name elements) (first_element e elements)).max_occurs e.name
        (count_of fields e.name) path out
  check_taken path fields elements (e ∷ f ∷ es) out =
      note path (many_alternatives (names_of (e ∷ f ∷ es))) out

  unfoldable pub check_sequence : Text → Fields c → List Element → Report → Report
  unfolding count_of check_occurs
  check_sequence path fields [] out = out
  check_sequence path fields (decl ∷ decls) out =
      check_sequence path fields decls (check_occurs path decl (count_of fields decl.name) out)

  unfoldable pub check_group : Text → Fields c → GroupKind → List Element → Report → Report
  unfolding check_sequence check_taken taken
  check_group path fields in_sequence elements out = check_sequence path fields elements out
  check_group path fields in_choice elements out =
      check_taken path fields elements (taken fields elements) out

  unfoldable pub check_groups : Text → Fields c → List Group → Report → Report
  unfolding check_group
  check_groups path fields [] out = out
  check_groups path fields (g ∷ gs) out =
      check_groups path fields gs (check_group path fields g.kind g.elements out)

  -- The loop over the fields for undeclared ones.
  unfoldable pub check_declared : Text → List Element → Fields c → Report → Report
  unfolding note_if find_element
  check_declared path decls childless out = out
  check_declared path decls (field name f fs) out =
      check_declared path decls fs
        (note_if (not (is_declared (find_element name decls))) path (undeclared name) out)

  unfoldable pub check_abstract : Schema c → Option Text → Text → Text → Report → Report
  unfolding note_if get
  check_abstract s (some named) type_name path out = out
  check_abstract s none type_name path out = elim (get type_name s.complex_types) [
    | none ↦ out
    | some ct ↦ note_if ct.is_abstract path (abstract_type type_name) out
  ]
