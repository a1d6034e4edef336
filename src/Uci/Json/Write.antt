-- ===== src/Uci/Json/Write.antt =====
-- `write_node`, `from_json` and `to_json` in crates/oa-gateway-uci/src/json.rs.
use oa_gateway.Prelude.{ℕ, zero, suc, Option, none, some, List, [], ltb, if◌then◌else◌}
use oa_gateway.Prelude.Attempt.{Attempt, done, refused}
use oa_gateway.Text.{Text, codes, text_eq, text_lt}
use oa_gateway.Uci.Errors
use oa_gateway.Uci.Errors.{Result, ok, err, max_depth, and_then}
use oa_gateway.Uci.Schema.{Calls, Schema, Element, global_type}
use oa_gateway.Uci.Extension.{flatten}
use oa_gateway.Uci.Facets.{is_complex}
use oa_gateway.Uci.Rules.{find_element}
use oa_gateway.Uci.Check.{actual_type, declared, child_path, item_path}
use oa_gateway.Uci.Instance
use oa_gateway.Uci.Instance.{
  Simple, Node, Fields, Field, Nodes, Message, childless, field, one, many, itemless, item,
}
use oa_gateway.Uci.Json.{
  Value, Values, Members, bool, numeric, text, array, object, no_values, value, no_members, member,
  Serde, xs_string, type_key, read_node,
}

abbrev pub element_type : Option Element → Text
element_type none = xs_string
element_type (some e) = e.type_name

module _ {c : Calls} where
  -- `Map::insert`
  unfoldable pub put : Text → Value c → Members c → Members c
  put k v no_members = member k v no_members
  put k v (member l w ms) =
      let rest = put k v ms in
      if text_eq k l
      then member k v ms
      else if text_lt k l
      then member k v (member l w ms)
      else member l w rest

  abbrev pub write_simple : Simple c → Value c
  write_simple (Instance.string s) = text s
  write_simple (Instance.boolean b) = bool b
  write_simple (Instance.number n) = numeric n

  -- The map that a complex node is written into begins with its `$type`.
  abbrev pub typed : Option Text → Members c
  unfolding put
  typed none = no_members
  typed (some t) = put type_key (text t) no_members

  module _ (s : Schema c) where
    unfoldable pub decls_of : Text → Result (List Element)
    unfolding is_complex flatten
    decls_of t = if is_complex s t then flatten s t else ok []

    -- The depth is tested before anything is written.
    unfoldable pub at_depth : Text → ℕ → Result (Value c) → Result (Value c)
    at_depth path depth r = if ltb max_depth depth then err (Errors.too_deep path) else r

    unfoldable mutual
      unfolding put typed decls_of at_depth find_element and_then

      pub write_node : Node c → Text → Text → ℕ → Result (Value c)
      write_node (Instance.simple v) t path depth = at_depth path depth (ok (write_simple v))
      write_node (Instance.complex named fs) t path depth = at_depth path depth (
          and_then (decls_of (actual_type named t)) (λ decls.
            and_then (write_fields fs decls path depth (typed named)) (λ ms. ok (object ms))))

      -- The loop over the fields, from the map that is written so far.
      pub write_fields : Fields c → List Element → Text → ℕ → Members c → Result (Members c)
      write_fields childless decls path depth ms = ok ms
      write_fields (field name f fs) decls path depth ms =
          and_then
            (write_field f (element_type (find_element name decls)) (child_path path name) depth)
            (λ v. write_fields fs decls path depth (put name v ms))

      pub write_field : Field c → Text → Text → ℕ → Result (Value c)
      write_field (one n) t path depth = write_node n t path (suc depth)
      write_field (many ns) t path depth =
          and_then (write_items ns t path zero depth) (λ vs. ok (array vs))

      pub write_items : Nodes c → Text → Text → ℕ → ℕ → Result (Values c)
      write_items itemless t path i depth = ok no_values
      write_items (item n ns) t path i depth =
          and_then (write_node n t (item_path path i) (suc depth))
            (λ v. and_then (write_items ns t path (suc i) depth) (λ vs. ok (value v vs)))

    -- `to_json` up to the printing of the value.
    unfoldable pub message_value : Message c → Result (Value c)
    unfolding write_node global_type and_then
    message_value m =
        and_then (write_node m.body (declared (global_type m.name s) m.name) m.name zero)
          (λ v. ok (object (member m.name v no_members)))

    module _ (j : Serde c) where
      abbrev or_json : Attempt Text → Result Text
      or_json (done t) = ok t
      or_json (refused e) = err (Errors.json e)

      unfoldable pub to_json : Message c → Result Text
      unfolding message_value and_then
      to_json m = and_then (message_value m) (λ v. or_json (j.print v))

      abbrev or_unknown : Text → Option Text → Result Text
      or_unknown name none = err (Errors.unknown_element name)
      or_unknown name (some t) = ok t

      -- The root of a document.
      unfoldable pub message_of : Value c → Result (Message c)
      unfolding read_node global_type and_then
      message_of (object (member name body no_members)) =
          and_then (or_unknown name (global_type name s)) (λ t.
            and_then (read_node j s body t name zero) (λ n. ok (record { name = name; body = n })))
      message_of (object ms) = err (Errors.json (codes "root object must have exactly one member"))
      message_of v = err (Errors.json (codes "root must be an object"))

      abbrev pub parsed : Attempt (Value c) → Result (Value c)
      parsed (done v) = ok v
      parsed (refused e) = err (Errors.json e)

      unfoldable pub from_json : Text → Result (Message c)
      unfolding message_of and_then
      from_json t = and_then (parsed (j.parse t)) message_of
