-- ===== src/Uci/Json.antt =====
-- crates/oa-gateway-uci/src/json.rs: OMS JSON to messages and back. A `Value` is that of `serde_json`, whose
-- map has its members in the order of their keys; its parser and printer are parameters.
pub mod Write
pub mod Access
pub mod Writable
pub mod Readable
use oa_gateway.Prelude.{
  ℕ, zero, suc, ◌+◌, ◌^◌, ◌-◌, Bool, true, false, not, ◌&&◌, ◌||◌, Option, none, some, List, [],
  ◌∷◌, ◌++◌, ltb, leb, ◌==◌, if◌then◌else◌, length,
}
use oa_gateway.Prelude.Attempt.{Attempt, done, refused}
use oa_gateway.Text.{Text, codes, text_eq, text_Eq}
use oa_gateway.Text.Integer.{ℤ, pos, negsuc, le_ℤ, parse_i128}
use oa_gateway.Map.{contains}
use oa_gateway.Uci.Errors
use oa_gateway.Uci.Errors.{UciError, Result, ok, err, max_depth, and_then}
use oa_gateway.Uci.Schema.{Calls, Schema, Element, MaxOccurs, is_array, global_type}
use oa_gateway.Uci.Extension.{flatten}
use oa_gateway.Uci.Facets.{is_simple, is_complex, primitive}
use oa_gateway.Uci.Rules.{find_element}
use oa_gateway.Uci.Check.{actual_type, declared, child_path, item_path}
use oa_gateway.Uci.Instance
use oa_gateway.Uci.Instance.{
  Simple, Node, Fields, Field, Nodes, Message, childless, field, one, many, itemless, item,
}

mutual
  pub data Value (c : Calls) : Type 0 where
    null : Value c
    bool : Bool → Value c
    numeric : c.Number → Value c
    text : Text → Value c
    array : Values c → Value c
    object : Members c → Value c

  pub data Values (c : Calls) : Type 0 where
    no_values : Values c
    value : Value c → Values c → Values c

  pub data Members (c : Calls) : Type 0 where
    no_members : Members c
    member : Text → Value c → Members c → Members c

-- What the conversion calls in `serde_json`.
pub record Serde (c : Calls) : Type 0 where
  pub parse : Text → Attempt (Value c)
  pub print : Value c → Attempt Text
  pub show : Value c → Text
  pub of_i64 : ℤ → c.Number
  pub of_f64 : c.F64 → Option c.Number

abbrev pub xs_string : Text
xs_string = codes "xs:string"

abbrev pub type_key : Text
type_key = codes "$type"

module _ {c : Calls} (j : Serde c) where
  abbrev i64_of : Option ℤ → Option ℤ
  i64_of none = none
  i64_of (some n) =
      if le_ℤ (negsuc (2 ^ 63 - 1)) n && le_ℤ n (pos (2 ^ 63 - 1)) then some n else none

  -- The primitives that `parse_numeric_string` names.
  abbrev pub numerics : List Text
  numerics =
      codes "xs:int"
      ∷ codes "xs:integer"
      ∷ codes "xs:long"
      ∷ codes "xs:short"
      ∷ codes "xs:byte"
      ∷ codes "xs:decimal"
      ∷ codes "xs:double"
      ∷ codes "xs:float"
      ∷ []

  abbrev float_number : Option c.F64 → Option (Simple c)
  float_number none = none
  float_number (some f) = elim (j.of_f64 f) [ none ↦ none | some n ↦ some (Instance.number n) ]

  abbrev numeric_of : Option ℤ → Text → Option (Simple c)
  numeric_of (some n) s = some (Instance.number (j.of_i64 n))
  numeric_of none s = float_number (c.parse_f64 s)

  unfoldable pub parse_numeric_string : Text → Text → Option (Simple c)
  unfolding contains parse_i128
  parse_numeric_string t s =
      if contains t numerics then numeric_of (i64_of (parse_i128 s)) s else none

  abbrev or_string : Text → Option (Simple c) → Simple c
  or_string s none = Instance.string s
  or_string s (some v) = v

  unfoldable pub read_simple : Value c → Text → Text → Result (Simple c)
  unfolding parse_numeric_string
  read_simple (bool b) t path = ok (Instance.boolean b)
  read_simple (numeric n) t path = ok (Instance.number n)
  read_simple (text s) t path =
      if text_eq t (codes "xs:boolean") && (text_eq s (codes "true") || text_eq s (codes "1"))
      then ok (Instance.boolean true)
      else if text_eq t (codes "xs:boolean") && (text_eq s (codes "false") || text_eq s (codes "0"))
      then ok (Instance.boolean false)
      else ok (or_string s (parse_numeric_string t s))
  read_simple null t path = err (Errors.at path (codes "null is not allowed"))
  read_simple v t path =
      err (Errors.at path (codes "cannot map JSON " ++ (j.show v ++ (codes " to " ++ t))))

  abbrev string_of : Value c → Option Text
  string_of (text s) = some s
  string_of _ = none

  -- `obj.get("$type").and_then(Value::as_str)`
  unfoldable pub type_member : Members c → Option Text
  type_member no_members = none
  type_member (member k v ms) = if text_eq k type_key then string_of v else type_member ms

  -- The field of a key, by its declaration, from the value as one node and as an array of nodes.
  unfoldable pub field_of :
      Option Element
      → (Text → Result (Node c))
      → (Text → Option (Result (Nodes c)))
      → Result (Field c)
  unfolding and_then
  field_of none node items = and_then (node xs_string) (λ n. ok (one n))
  field_of (some e) node items =
      if is_array e.max_occurs
      then elim (items e.type_name) [
        | none ↦ and_then (node e.type_name) (λ n. ok (many (item n itemless)))
        | some ns ↦ and_then ns (λ ns. ok (many ns))
      ]
      else and_then (node e.type_name) (λ n. ok (one n))

  module _ (s : Schema c) where
    unfoldable pub complex_of :
        Value c → Text → Text → (List Element → Result (Fields c)) → Result (Node c)
    unfolding type_member is_complex flatten and_then
    complex_of (object ms) t path fields_of =
        let actual = actual_type (type_member ms) t in
        if not (is_complex s actual)
        then err (Errors.unknown_type actual)
        else and_then (flatten s actual) (λ decls.
          and_then (fields_of decls)
            (λ fs. ok (Instance.complex (if text_eq actual t then none else some actual) fs)))
    complex_of v t path fields_of =
        err (Errors.at path (codes "expected object for complex type " ++ t))

    -- `read_node`, from the reading of its fields.
    unfoldable pub node_of :
        Value c → Text → Text → ℕ → (List Element → Result (Fields c)) → Result (Node c)
    unfolding is_simple is_complex primitive read_simple complex_of and_then
    node_of v t path depth fields_of =
        if ltb max_depth depth
        then err (Errors.too_deep path)
        else if is_simple s t || not (is_complex s t)
        then and_then (read_simple v (primitive s t) path) (λ leaf. ok (Instance.simple leaf))
        else complex_of v t path fields_of

    unfoldable mutual
      unfolding node_of field_of find_element and_then

      pub read_node : Value c → Text → Text → ℕ → Result (Node c)
      read_node (object ms) t path depth =
          node_of (object ms) t path depth (λ decls. read_members ms decls path depth)
      read_node v t path depth = node_of v t path depth (λ decls. ok childless)

      -- The loop over the members.
      pub read_members : Members c → List Element → Text → ℕ → Result (Fields c)
      read_members no_members decls path depth = ok childless
      read_members (member k v ms) decls path depth = elim (text_eq k type_key) [
        | true ↦ read_members ms decls path depth
        | false ↦
            and_then
              (field_of (find_element k decls) (λ t. read_node v t (child_path path k) (suc depth))
                (λ t. read_array v t (child_path path k) depth))
              (λ f. and_then (read_members ms decls path depth) (λ fs. ok (field k f fs)))
      ]

      pub read_array : Value c → Text → Text → ℕ → Option (Result (Nodes c))
      read_array (array vs) t path depth = some (read_items vs t path zero depth)
      read_array v t path depth = none

      pub read_items : Values c → Text → Text → ℕ → ℕ → Result (Nodes c)
      read_items no_values t path i depth = ok itemless
      read_items (value v vs) t path i depth =
          and_then (read_node v t (item_path path i) (suc depth))
            (λ n. and_then (read_items vs t path (suc i) depth) (λ ns. ok (item n ns)))
