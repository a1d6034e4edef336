-- ===== src/Uci/Check.antt =====
-- `check` and `validate` in crates/oa-gateway-uci/src/validate/rules.rs: the walk over a message.
use oa_gateway.Prelude.{ℕ, zero, suc, Option, none, some, List, [], ◌∷◌, ◌++◌, ltb, if◌then◌else◌}
use oa_gateway.Text.{Text}
use oa_gateway.Text.Decimal.{print_usize}
use oa_gateway.Uci.Errors
use oa_gateway.Uci.Errors.{max_depth, error_text}
use oa_gateway.Uci.Schema.{Calls, Schema, Group, Element, global_type}
use oa_gateway.Uci.Extension.{groups_at, flattened}
use oa_gateway.Uci.Instance.{
  Node, Fields, Field, Nodes, Message, simple, complex, childless, field, one, many, itemless, item,
  as_text,
}
use oa_gateway.Uci.Rules.{
  Report, note, full, check_abstract, check_declared, check_groups, find_element,
}
use oa_gateway.Uci.Values.{check_value}
use oa_gateway.Uci.Violation.{too_deep, unusable_type}

-- What stands before the check of a node: the early returns of a full report and of too deep a node.
unfoldable pub guarded : Text → ℕ → (Report → Report) → Report → Report
unfolding note
guarded path depth rest out =
    if full out then out else if ltb max_depth depth then note path too_deep out else rest out

abbrev pub actual_type : Option Text → Text → Text
actual_type none declared = declared
actual_type (some named) declared = named

-- The type that a message's element is declared as.
abbrev pub declared : Option Text → Text → Text
declared none name = name
declared (some t) name = t

abbrev pub child_path : Text → Text → Text
child_path path name = path ++ (b'.' ∷ name)

abbrev pub item_path : Text → ℕ → Text
unfolding print_usize
item_path path i = path ++ (b'[' ∷ (print_usize i ++ (b']' ∷ [])))

module _ {c : Calls} (s : Schema c) where
  -- The checks of one complex node before its children.
  unfoldable pub check_level : Text → List Group → Fields c → Report → Report
  unfolding check_declared check_groups
  check_level path gs fs out = check_groups path fs gs (check_declared path (flattened gs) fs out)

  -- A type that cannot be used ends the check of its node; one that can goes on with its groups.
  unfoldable pub with_groups :
      Text → Text → Errors.Result (List Group) → (List Group → Report → Report) → Report → Report
  unfolding note error_text
  with_groups path t (Errors.err e) rest out = note path (unusable_type t (error_text e)) out
  with_groups path t (Errors.ok gs) rest out = rest gs out

  -- The check of a field by its declaration; one without is passed over.
  abbrev pub with_element : Option Element → (Text → Report → Report) → Report → Report
  with_element none rest out = out
  with_element (some decl) rest out = rest decl.type_name out

  unfoldable mutual
    unfolding guarded check_value check_abstract groups_at with_groups check_level find_element

    pub check : Node c → Text → Text → ℕ → Report → Report
    check (simple v) t path depth out = guarded path depth (check_value c (as_text v) s t path) out
    check (complex named fs) t path depth out =
        guarded path depth
          (λ out.
            with_groups path (actual_type named t) (groups_at s (actual_type named t))
              (λ gs out. check_fields fs (flattened gs) path depth (check_level path gs fs out))
              (check_abstract s named t path out))
          out

    -- The loop over the children.
    pub check_fields : Fields c → List Element → Text → ℕ → Report → Report
    check_fields childless decls path depth out = out
    check_fields (field name f fs) decls path depth out = check_fields fs decls path depth (
        with_element (find_element name decls)
          (λ t out. check_field f t (child_path path name) depth out) out)

    pub check_field : Field c → Text → Text → ℕ → Report → Report
    check_field (one n) t path depth out = check n t path (suc depth) out
    check_field (many ns) t path depth out = check_items ns t path zero depth out

    -- The loop over the items, from an index.
    pub check_items : Nodes c → Text → Text → ℕ → ℕ → Report → Report
    check_items itemless t path i depth out = out
    check_items (item n ns) t path i depth out =
        check_items ns t path (suc i) depth (check n t (item_path path i) (suc depth) out)

  unfoldable pub validate : Message c → Report
  unfolding check global_type
  validate m = check m.body (declared (global_type m.name s) m.name) m.name 0 []
