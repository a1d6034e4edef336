-- ===== src/Uci/Tests.antt =====
-- A schema and messages of crates/oa-gateway-uci on small inputs.
use oa_gateway.Prelude.{suc, ◌≡◌, ◌≤◌, ◌↔◌, refl, Option, none, some, [], ◌∷◌, All, length}
use oa_gateway.Text.{Text, codes, text_eq, text_Eq}
use oa_gateway.Map.{insert}
use oa_gateway.Uci.Errors.{ok}
use oa_gateway.Uci.Schema.{
  Schema, el, el_many, sequence, new_schema, element, simple_with, no_facets, complex,
  complex_groups, extend, complex_abstract,
}
use oa_gateway.Uci.Extension.{groups_at, groups_chain, cyclic}
use oa_gateway.Uci.Made.{IsMade, groups_at_iff}
use oa_gateway.Uci.Acyclic.{groups_at-ends}
use oa_gateway.Uci.Facets.{effective_facets, max_simple_depth}
use oa_gateway.Uci.Narrowing.{links, IsFitting, IsFittingAll, IsFittingAll-effective_facets}
use oa_gateway.Uci.Instance
use oa_gateway.Uci.Instance.{
  Message, Fields, Node, field, one, many, item, itemless, childless, string,
}
use oa_gateway.Uci.Violation.{
  abbreviated, IsAbbreviation, abbreviated-IsAbbreviation, max_violations,
}
use oa_gateway.Uci.Check.{validate}
use oa_gateway.Uci.Valid.{IsValidMessage}
use oa_gateway.Uci.Follows.{validate_iff, length-validate-le}
use oa_gateway.Uci.Pattern.{translate}
use oa_gateway.Uci.Plain.{plain, plain_json}
use oa_gateway.Uci.Json.{Value, object, member, no_members, text, array, value, no_values}
use oa_gateway.Uci.Json.Write.{from_json, message_value}
use oa_gateway.Uci.Json.Readable.{from_json-writes}

-- A base with a header, a report that extends it, and two types that extend each other.
abbrev schema : Schema plain
unfolding element simple_with complex complex_groups extend complex_abstract
schema = element (codes "Report") (codes "ReportType") (
    simple_with (codes "Short") (codes "Name") (record no_facets { max_length = some 3 })
      (simple_with (codes "Name") (codes "xs:string")
        (record no_facets { min_length = some 1; max_length = some 8 })
        (extend (codes "A") (codes "B") [] (
          extend (codes "B") (codes "A") [] (
            extend (codes "ReportType") (codes "BaseType")
              (el_many (codes "Tag") (codes "Short") ∷ [])
              (complex (codes "BaseType") (el (codes "Id") (codes "Name") ∷ []) new_schema))))))

abbrev leaf : Text → Node plain
leaf t = Instance.simple (string t)

abbrev sample : Text → Message plain
sample tag = record {
  name = codes "Report";
  body = Instance.complex none (
      field (codes "Id") (one (leaf (codes "r1")))
        (field (codes "Tag") (many (item (leaf tag) itemless)) childless));
}

groups_at_iff_example :
    (groups_at schema (codes "ReportType")
      ≡ ok (
          sequence (el (codes "Id") (codes "Name") ∷ [])
          ∷ sequence (el_many (codes "Tag") (codes "Short") ∷ [])
          ∷ []))
    ↔ IsMade schema (codes "ReportType") (
        sequence (el (codes "Id") (codes "Name") ∷ [])
        ∷ sequence (el_many (codes "Tag") (codes "Short") ∷ [])
        ∷ [])
groups_at_iff_example = groups_at_iff schema (codes "ReportType") (
    sequence (el (codes "Id") (codes "Name") ∷ [])
    ∷ sequence (el_many (codes "Tag") (codes "Short") ∷ [])
    ∷ [])

extended :
    groups_at schema (codes "ReportType")
    ≡ ok (
        sequence (el (codes "Id") (codes "Name") ∷ [])
        ∷ sequence (el_many (codes "Tag") (codes "Short") ∷ [])
        ∷ [])
unfolding groups_at schema insert text_eq
extended = refl

cycle : groups_at schema (codes "A") ≡ cyclic (codes "B" ∷ codes "A" ∷ []) (codes "A")
unfolding groups_at cyclic schema insert text_eq
cycle = refl

groups_at-ends_example :
    groups_chain (suc (length schema.complex_types)) schema [] (codes "A")
    ≡ some (groups_at schema (codes "A"))
groups_at-ends_example = groups_at-ends schema (codes "A")

IsFittingAll-effective_facets_example :
    IsFittingAll 2 (effective_facets schema (codes "Short"))
    ↔ All (IsFitting 2) (links max_simple_depth schema (codes "Short"))
IsFittingAll-effective_facets_example = IsFittingAll-effective_facets schema (codes "Short") 2

valid : validate schema (sample (codes "abc")) ≡ []
unfolding validate schema insert text_eq
valid = refl

too_long : length (validate schema (sample (codes "abcd"))) ≡ 1
unfolding validate schema insert text_eq
too_long = refl

-- A node that names an abstract type itself is not reported; one that names none is.
abbrev shapes : Schema plain
unfolding element complex_abstract
shapes =
    element (codes "Shape") (codes "ShapeType")
      (complex_abstract (codes "ShapeType") (el (codes "Sides") (codes "xs:int") ∷ []) new_schema)

abbrev shape : Option Text → Message plain
shape named = record {
  name = codes "Shape";
  body = Instance.complex named (field (codes "Sides") (one (leaf (codes "4"))) childless);
}

abstract_unnamed : length (validate shapes (shape none)) ≡ 1
unfolding validate insert text_eq shapes
abstract_unnamed = refl

abstract_named : validate shapes (shape (some (codes "ShapeType"))) ≡ []
unfolding validate insert text_eq shapes
abstract_named = refl

validate_iff_example :
    (validate schema (sample (codes "abc")) ≡ []) ↔ IsValidMessage schema (sample (codes "abc"))
validate_iff_example = validate_iff schema (sample (codes "abc"))

length-validate-le_example : length (validate schema (sample (codes "abcd"))) ≤ max_violations
length-validate-le_example = length-validate-le schema (sample (codes "abcd"))

abbreviated-IsAbbreviation_example :
    let value = codes "a value of far more than sixty characters, which no one wants in a log" in
    IsAbbreviation value (abbreviated value)
abbreviated-IsAbbreviation_example =
    abbreviated-IsAbbreviation
      (codes "a value of far more than sixty characters, which no one wants in a log")

translated : translate (codes "[^a^]$") ≡ codes "\\A(?:[^a\\^]\\$)\\z"
unfolding translate
translated = refl

abbrev document : Value plain
document = object (
    member (codes "Report")
      (object (
        member (codes "Id") (text (codes "r1"))
          (member (codes "Tag") (array (value (text (codes "abc")) no_values)) no_members)))
      no_members)

abbrev stored : Text
stored = codes "report"

read : from_json schema (plain_json document) stored ≡ ok (sample (codes "abc"))
unfolding from_json schema insert text_eq
read = refl

written : message_value schema (sample (codes "abc")) ≡ ok document
unfolding message_value schema insert text_eq
written = refl

from_json-writes_example : (v : Value plain) × (message_value schema (sample (codes "abc")) ≡ ok v)
from_json-writes_example =
    from_json-writes (plain_json document) schema stored (sample (codes "abc")) read
