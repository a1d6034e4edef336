-- ===== src/Uci/Schema.antt =====
-- crates/oa-gateway-uci/src/schema.rs: the types and the builder methods.
use oa_gateway.Prelude.{ℕ, Bool, true, false, Option, none, some, List, [], ◌∷◌, ltb}
use oa_gateway.Text.{Text, text_Eq}
use oa_gateway.Map.{Map, get, insert}
use oa_gateway.Uci.Pattern.{translate}

-- `f64`, the `regex` crate and the numbers of `serde_json`: what the schema and its checks ask of them.
-- `capture` gives the text of a named group of a match.
pub record Calls : Type 1 where
  pub F64 : Type 0
  pub max_f64 : F64 → F64 → F64
  pub min_f64 : F64 → F64 → F64
  pub lt_f64 : F64 → F64 → Bool
  pub le_f64 : F64 → F64 → Bool
  pub parse_f64 : Text → Option F64
  pub show_f64 : F64 → Text
  pub Regex : Type 0
  pub compile : Text → Option Regex
  pub is_match : Regex → Text → Bool
  pub capture : Regex → Text → Text → Option Text
  pub of_nat : ℕ → F64
  pub Number : Type 0
  pub show_number : Number → Text

pub record Pattern (c : Calls) : Type 0 where
  pub source : Text
  pub matcher : Option c.Regex

pub record Facets (c : Calls) : Type 0 where
  pub enumeration : List Text
  pub patterns : List (Pattern c)
  pub length : Option ℕ
  pub min_length : Option ℕ
  pub max_length : Option ℕ
  pub min_inclusive : Option c.F64
  pub max_inclusive : Option c.F64
  pub min_exclusive : Option c.F64
  pub max_exclusive : Option c.F64

pub record SimpleType (c : Calls) : Type 0 where
  pub base : Text
  pub facets : Facets c

pub data MaxOccurs : Type 0 where
  bounded : ℕ → MaxOccurs
  unbounded : MaxOccurs

pub record Element : Type 0 where
  pub name : Text
  pub type_name : Text
  pub min_occurs : ℕ
  pub max_occurs : MaxOccurs

pub data GroupKind : Type 0 where
  in_sequence in_choice : GroupKind

pub record Group : Type 0 where
  pub kind : GroupKind
  pub elements : List Element

pub data ComplexContent : Type 0 where
  groups : List Group → ComplexContent
  extension : (base : Text) (extra : List Group) → ComplexContent

pub record ComplexType : Type 0 where
  pub name : Text
  pub is_abstract : Bool
  pub content : ComplexContent

pub record Schema (c : Calls) : Type 0 where
  pub global_elements : Map Text Text
  pub complex_types : Map Text ComplexType
  pub simple_types : Map Text (SimpleType c)

abbrev pub is_array : MaxOccurs → Bool
is_array unbounded = true
is_array (bounded n) = ltb 1 n

abbrev pub sequence : List Element → Group
sequence elements = record { kind = in_sequence; elements = elements }

abbrev pub choice : List Element → Group
choice elements = record { kind = in_choice; elements = elements }

abbrev pub el : Text → Text → Element
el name type_name = record {
  name = name;
  type_name = type_name;
  min_occurs = 1;
  max_occurs = bounded 1;
}

abbrev pub el_opt : Text → Text → Element
el_opt name type_name = record {
  name = name;
  type_name = type_name;
  min_occurs = 0;
  max_occurs = bounded 1;
}

abbrev pub el_many : Text → Text → Element
el_many name type_name = record {
  name = name;
  type_name = type_name;
  min_occurs = 0;
  max_occurs = unbounded;
}

module _ {c : Calls} where
  abbrev pub no_facets : Facets c
  no_facets = record {
    enumeration = [];
    patterns = [];
    length = none;
    min_length = none;
    max_length = none;
    min_inclusive = none;
    max_inclusive = none;
    min_exclusive = none;
    max_exclusive = none;
  }

  abbrev pub new_schema : Schema c
  new_schema = record { global_elements = []; complex_types = []; simple_types = [] }

  unfoldable pub element : Text → Text → Schema c → Schema c
  element name type_name s = record s { global_elements = insert name type_name s.global_elements }

  unfoldable pub simple_with : Text → Text → Facets c → Schema c → Schema c
  simple_with name base facets s = record s {
    simple_types = insert name (record { base = base; facets = facets }) s.simple_types;
  }

  unfoldable pub simple : Text → Text → Schema c → Schema c
  unfolding simple_with
  simple name base s = simple_with name base no_facets s

  -- What the four builders of complex types share.
  abbrev with_type : Text → Bool → ComplexContent → Schema c → Schema c
  with_type name is_abstract content s = record s {
    complex_types =
        insert name (record { name = name; is_abstract = is_abstract; content = content })
          s.complex_types;
  }

  unfoldable pub complex_groups : Text → List Group → Schema c → Schema c
  complex_groups name gs s = with_type name false (groups gs) s

  unfoldable pub complex : Text → List Element → Schema c → Schema c
  unfolding complex_groups
  complex name elements s = complex_groups name (sequence elements ∷ []) s

  unfoldable pub complex_abstract : Text → List Element → Schema c → Schema c
  complex_abstract name elements s = with_type name true (groups (sequence elements ∷ [])) s

  unfoldable pub extend : Text → Text → List Element → Schema c → Schema c
  extend name base extra s = with_type name false (extension base (sequence extra ∷ [])) s

  unfoldable pub global_type : Text → Schema c → Option Text
  unfolding get
  global_type name s = get name s.global_elements

-- `Pattern::new`, `is_checked` and `accepts`
module _ (c : Calls) where
  unfoldable pub new_pattern : Text → Pattern c
  unfolding translate
  new_pattern source = record { source = source; matcher = c.compile (translate source) }

  abbrev pub is_checked : Pattern c → Bool
  is_checked p = elim p.matcher [ none ↦ false | some regex ↦ true ]

  unfoldable pub accepts : Pattern c → Text → Bool
  accepts p value = elim p.matcher [ none ↦ true | some regex ↦ c.is_match regex value ]
