-- ===== src/Uci/Json/Readable.antt =====
-- `read_node` and `from_json` in crates/oa-gateway-uci/src/json.rs: what they give can be written.
use oa_gateway.Prelude.{
  ℕ, zero, suc, ◌≡◌, ◌≤◌, ◌∙◌, refl, sym, ap, subst, true, not, ◌||◌, Option, none, some, List, ltb,
  if◌then◌else◌, arith, Bool-cases, inl, inr, Option-cases,
}
use oa_gateway.Text.{Text, text_eq, text_eq_iff}
use oa_gateway.Uci.Errors.{
  Result, ok, err, max_depth, and_then, IfOk, IsOk, and_then-IfOk, and_then-IsOk, Result-cases,
}
use oa_gateway.Uci.Schema.{Calls, Schema, Element, global_type, is_array}
use oa_gateway.Uci.Extension.{flatten}
use oa_gateway.Uci.Facets.{is_complex, is_simple, primitive}
use oa_gateway.Uci.Rules.{find_element}
use oa_gateway.Uci.Check.{actual_type, declared, child_path, item_path}
use oa_gateway.Uci.Instance.{Node, Fields, Nodes, Message, childless}
use oa_gateway.Uci.Json.{
  Value, Values, Members, null, bool, numeric, text, array, object, no_values, value, no_members,
  member, Serde, xs_string, type_key, read_node, read_members, read_array, read_items, node_of,
  complex_of, field_of, read_simple, type_member,
}
use oa_gateway.Uci.Json.Write.{
  decls_of, element_type, message_value, message_of, write_node, from_json, parsed,
}
use oa_gateway.Uci.Json.Writable.{
  IsWritable, AreWritable, IsWritableField, AreWritableItems, IsAny, write_node-IsOk,
}

-- The type that a node is marked with is the one that it was read as.
actual_type_lem :
    (actual t : Text) → actual_type (if text_eq actual t then none else some actual) t ≡ actual
actual_type_lem actual t = elim (Bool-cases (text_eq actual t)) [
  | inl same ↦ rw same (sym ((text_eq_iff actual t).0 same))
  | inr other ↦ rw other refl
]

module _ {c : Calls} (j : Serde c) (s : Schema c) where
  IfItems : (Nodes c → Type 0) → Option (Result (Nodes c)) → Type 0
  IfItems P none = Unit
  IfItems P (some r) = IfOk P r

  field_of-IfOk :
      (o : Option Element) (node : Text → Result (Node c))
      (items : Text → Option (Result (Nodes c)))
      → (depth : ℕ) → ((t : Text) → IfOk (λ n. IsWritable s n t (suc depth)) (node t))
      → ((t : Text) → IfItems (λ ns. AreWritableItems s ns t depth) (items t))
      → IfOk (λ f. IsWritableField s f (element_type o) depth) (field_of j o node items)
  unfolding field_of IfItems IsWritable
  field_of-IfOk none node items depth p q =
      and_then-IfOk _ (λ f. IsWritableField s f xs_string depth) (node xs_string) _ (p xs_string)
        (λ n h. h)
  field_of-IfOk (some e) node items depth p q = elim (Bool-cases (is_array e.max_occurs)) [
    | inl repeated ↦ elim (Option-cases (items e.type_name)) [
      | inl single ↦
          rw (repeated, single, field_of)
            (and_then-IfOk _ (λ f. IsWritableField s f e.type_name depth) (node e.type_name) _
              (p e.type_name) (λ n h. (h, tt)))
      | inr (ns, several) ↦
          rw (repeated, several, field_of)
            (and_then-IfOk _ (λ f. IsWritableField s f e.type_name depth) ns _
              (subst (IfItems (λ ns. AreWritableItems s ns e.type_name depth)) several
                (q e.type_name))
              (λ ns h. h))
    ]
    | inr alone ↦
        rw (alone, field_of)
          (and_then-IfOk _ (λ f. IsWritableField s f e.type_name depth) (node e.type_name) _
            (p e.type_name) (λ n h. h))
  ]

  decls_of_lem :
      (t : Text) (decls : List Element)
      → is_complex s t ≡ true
      → flatten s t ≡ ok decls
      → decls_of s t ≡ ok decls
  unfolding decls_of
  decls_of_lem t decls known flat = rw (known, decls_of) flat

  any-IfOk : {A : Type 0} (x : Result A) → IfOk (λ _. Unit {0}) x
  any-IfOk (ok a) = tt
  any-IfOk (err e) = tt

  complex_of-IfOk :
      (v : Value c) (t path : Text) (depth : ℕ) (fields_of : List Element → Result (Fields c))
      → depth ≤ max_depth
      → ((decls : List Element) → IfOk (λ fs. AreWritable s fs decls depth) (fields_of decls))
      → IfOk (λ n. IsWritable s n t depth) (complex_of j s v t path fields_of)
  unfolding complex_of IsWritable
  complex_of-IfOk null t path depth fields_of fits h = tt
  complex_of-IfOk (bool b) t path depth fields_of fits h = tt
  complex_of-IfOk (numeric n) t path depth fields_of fits h = tt
  complex_of-IfOk (text x) t path depth fields_of fits h = tt
  complex_of-IfOk (array vs) t path depth fields_of fits h = tt
  complex_of-IfOk (object ms) t path depth fields_of fits h =
      let actual = actual_type (type_member j ms) t in
      elim (Bool-cases (is_complex s actual)) [
        | inl known ↦ elim (Result-cases (flatten s actual)) [
          | inl (decls, flat) ↦
              rw (known, flat, complex_of, and_then)
                (and_then-IfOk _ (λ n. IsWritable s n t depth) (fields_of decls) _ (h decls)
                  (λ fs w. (
                    fits,
                    subst (IsOk (λ decls. AreWritable s fs decls depth))
                        (sym (
                          ap (decls_of s) (actual_type_lem actual t)
                          ∙ decls_of_lem actual decls known flat))
                        w,
                  )))
          | inr (e, bad) ↦ rw (known, bad, complex_of, and_then) tt
        ]
        | inr unknown ↦ rw (unknown, complex_of) tt
      ]

  node_of-IfOk :
      (v : Value c) (t path : Text) (depth : ℕ) (fields_of : List Element → Result (Fields c))
      → ((decls : List Element) → IfOk (λ fs. AreWritable s fs decls depth) (fields_of decls))
      → IfOk (λ n. IsWritable s n t depth) (node_of j s v t path depth fields_of)
  unfolding node_of IsWritable
  node_of-IfOk v t path depth fields_of h = elim (Bool-cases (ltb max_depth depth)) [
    | inl deep ↦ rw (deep, node_of) tt
    | inr shallow ↦
        let fits : depth ≤ max_depth = ground arith in
        elim (Bool-cases (is_simple s t || not (is_complex s t))) [
          | inl leaf ↦
              rw (shallow, leaf, node_of)
                (and_then-IfOk (λ _. Unit {0}) (λ n. IsWritable s n t depth)
                  (read_simple j v (primitive s t) path) _
                  (any-IfOk (read_simple j v (primitive s t) path)) (λ x _. fits))
          | inr branch ↦
              rw (shallow, branch, node_of) (complex_of-IfOk v t path depth fields_of fits h)
        ]
  ]

  mutual
    unfolding read_node IsWritable IfItems

    read_node-IfOk :
        (v : Value c) (t path : Text) (depth : ℕ)
        → IfOk (λ n. IsWritable s n t depth) (read_node j s v t path depth)
    read_node-IfOk null t path depth =
        node_of-IfOk null t path depth (λ decls. ok childless) (λ decls. tt)
    read_node-IfOk (bool b) t path depth =
        node_of-IfOk (bool b) t path depth (λ decls. ok childless) (λ decls. tt)
    read_node-IfOk (numeric n) t path depth =
        node_of-IfOk (numeric n) t path depth (λ decls. ok childless) (λ decls. tt)
    read_node-IfOk (text x) t path depth =
        node_of-IfOk (text x) t path depth (λ decls. ok childless) (λ decls. tt)
    read_node-IfOk (array vs) t path depth =
        node_of-IfOk (array vs) t path depth (λ decls. ok childless) (λ decls. tt)
    read_node-IfOk (object ms) t path depth =
        node_of-IfOk (object ms) t path depth (λ decls. read_members j s ms decls path depth)
          (λ decls. read_members-IfOk ms decls path depth)

    read_members-IfOk :
        (ms : Members c) (decls : List Element) (path : Text) (depth : ℕ)
        → IfOk (λ fs. AreWritable s fs decls depth) (read_members j s ms decls path depth)
    read_members-IfOk no_members decls path depth = tt
    read_members-IfOk (member k v ms) decls path depth = elim (Bool-cases (text_eq k type_key)) [
      | inl marker ↦ rw (marker, read_members, IfOk) (read_members-IfOk ms decls path depth)
      | inr other ↦
          rw (other, read_members, IfOk)
            (and_then-IfOk (λ f. IsWritableField s f (element_type (find_element k decls)) depth)
              (λ fs. AreWritable s fs decls depth) _ _
              (field_of-IfOk (find_element k decls) _ _ depth
                (λ t. read_node-IfOk v t (child_path path k) (suc depth))
                (λ t. read_array-IfItems v t (child_path path k) depth))
              (λ f w.
                and_then-IfOk (λ fs. AreWritable s fs decls depth)
                  (λ fs. AreWritable s fs decls depth) (read_members j s ms decls path depth) _
                  (read_members-IfOk ms decls path depth) (λ fs ws. (w, ws))))
    ]

    read_array-IfItems :
        (v : Value c) (t path : Text) (depth : ℕ)
        → IfItems (λ ns. AreWritableItems s ns t depth) (read_array j s v t path depth)
    read_array-IfItems null t path depth = tt
    read_array-IfItems (bool b) t path depth = tt
    read_array-IfItems (numeric n) t path depth = tt
    read_array-IfItems (text x) t path depth = tt
    read_array-IfItems (array vs) t path depth = read_items-IfOk vs t path zero depth
    read_array-IfItems (object ms) t path depth = tt

    read_items-IfOk :
        (vs : Values c) (t path : Text) (i depth : ℕ)
        → IfOk (λ ns. AreWritableItems s ns t depth) (read_items j s vs t path i depth)
    read_items-IfOk no_values t path i depth = tt
    read_items-IfOk (value v vs) t path i depth =
        and_then-IfOk (λ n. IsWritable s n t (suc depth)) (λ ns. AreWritableItems s ns t depth)
          (read_node j s v t (item_path path i) (suc depth)) _
          (read_node-IfOk v t (item_path path i) (suc depth))
          (λ n w.
            and_then-IfOk (λ ns. AreWritableItems s ns t depth)
              (λ ns. AreWritableItems s ns t depth) (read_items j s vs t path (suc i) depth) _
              (read_items-IfOk vs t path (suc i) depth) (λ ns ws. (w, ws)))

  -- A message as `message_value` takes it.
  IsWritableMessage : Message c → Type 0
  IsWritableMessage m = IsWritable s m.body (declared (global_type m.name s) m.name) zero

  message_value-IsOk : (m : Message c) → IsWritableMessage m → IsOk (IsAny s) (message_value s m)
  unfolding message_value IsWritableMessage IsAny
  message_value-IsOk m w =
      and_then-IsOk (IsAny s) (IsAny s)
        (write_node s m.body (declared (global_type m.name s) m.name) m.name zero) _
        (write_node-IsOk s m.body (declared (global_type m.name s) m.name) m.name zero w)
        (λ v _. tt)

  message_of-IfOk : (v : Value c) → IfOk IsWritableMessage (message_of s j v)
  unfolding message_of IsWritableMessage
  message_of-IfOk null = tt
  message_of-IfOk (bool b) = tt
  message_of-IfOk (numeric n) = tt
  message_of-IfOk (text x) = tt
  message_of-IfOk (array vs) = tt
  message_of-IfOk (object no_members) = tt
  message_of-IfOk (object (member name body (member k v ms))) = tt
  message_of-IfOk (object (member name body no_members)) =
      elim (Option-cases (global_type name s)) [
        | inl unknown ↦ rw (unknown, message_of, and_then) tt
        | inr (t, known) ↦
            rw (known, message_of, and_then)
              (and_then-IfOk (λ n. IsWritable s n t zero) IsWritableMessage
                (read_node j s body t name zero) _ (read_node-IfOk body t name zero)
                (λ n w. rw known w))
      ]

  from_json-IfOk : (t : Text) → IfOk IsWritableMessage (from_json s j t)
  unfolding from_json
  from_json-IfOk t =
      and_then-IfOk (λ _. Unit {0}) IsWritableMessage (parsed s j (j.parse t)) (message_of s j)
        (any-IfOk (parsed s j (j.parse t))) (λ v _. message_of-IfOk v)

  is_ok : (r : Result (Value c)) → IsOk (IsAny s) r → (v : Value c) × (r ≡ ok v)
  is_ok (ok v) h = (v, refl)
  is_ok (err e) h = elim h [ ]

  -- A message that is read from JSON can be written to JSON: none of its types fails, and it is not
  -- nested too deep.
  pub from_json-writes :
      (t : Text) (m : Message c)
      → from_json s j t ≡ ok m
      → (v : Value c) × (message_value s m ≡ ok v)
  from_json-writes t m h =
      is_ok (message_value s m)
        (message_value-IsOk m (subst (IfOk IsWritableMessage) h (from_json-IfOk t)))
