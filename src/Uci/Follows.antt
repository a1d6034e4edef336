-- ===== src/Uci/Follows.antt =====
-- `validate` in crates/oa-gateway-uci/src/validate/rules.rs against what it asks of a message.
use oa_gateway.Prelude.{ℕ, zero, suc, ◌≡◌, ◌≤◌, ◌↔◌, Option, none, some, List, [], arith, length}
use oa_gateway.Text.{Text}
use oa_gateway.Uci.Errors
use oa_gateway.Uci.Errors.{max_depth}
use oa_gateway.Uci.Schema.{Calls, Schema, Group, Element, global_type}
use oa_gateway.Uci.Extension.{groups_at, flattened}
use oa_gateway.Uci.Instance.{
  Node, Fields, Field, Nodes, Message, simple, complex, childless, field, one, many, itemless, item,
  as_text,
}
use oa_gateway.Uci.Rules.{Report, find_element}
use oa_gateway.Uci.Check.{
  check, check_fields, check_field, check_items, check_level, with_groups, with_element, validate,
  actual_type, declared, child_path, item_path,
}
use oa_gateway.Uci.Reports.{Reports, Reports-skip, Reports-then, Reports-note, Reports-guarded}
use oa_gateway.Uci.Sound.{check_groups-Reports, check_declared-Reports, check_abstract-Reports}
use oa_gateway.Uci.Leaves.{check_value-Reports}
use oa_gateway.Uci.Violation.{max_violations}
use oa_gateway.Uci.Valid.{
  IsLevel, IsOfElement, IsOfGroups, IsValid, AreValid, IsValidField, AreValidItems, IsValidMessage,
}

module _ {c : Calls} (s : Schema c) where
  check_level-Reports :
      (path : Text) (gs : List Group) (fs : Fields c)
      → Reports (check_level s path gs fs) (IsLevel s gs fs)
  unfolding check_level
  check_level-Reports path gs fs =
      Reports-then (check_declared-Reports path (flattened gs) fs) (check_groups-Reports path fs gs)

  with_groups-Reports :
      (path t : Text) (found : Errors.Result (List Group)) (rest : List Group → Report → Report)
      → (P : List Group → Type 0) → ((gs : List Group) → Reports (rest gs) (P gs))
      → Reports (with_groups s path t found rest) (IsOfGroups s found P)
  unfolding with_groups
  with_groups-Reports path t (Errors.err e) rest P h = Reports-note path _
  with_groups-Reports path t (Errors.ok gs) rest P h = h gs

  with_element-Reports :
      (found : Option Element) (rest : Text → Report → Report) (P : Text → Type 0)
      → ((t : Text) → Reports (rest t) (P t))
      → Reports (with_element s found rest) (IsOfElement s found P)
  with_element-Reports none rest P h = Reports-skip
  with_element-Reports (some decl) rest P h = h decl.type_name

  mutual
    unfolding check IsValid

    check-Reports :
        (n : Node c) (t path : Text) (depth : ℕ)
        → Reports (check s n t path depth) (IsValid s n t depth)
    check-Reports (simple v) t path depth =
        Reports-guarded path depth (check_value-Reports c (as_text v) s t path)
    check-Reports (complex named fs) t path depth = Reports-guarded path depth (
        Reports-then (check_abstract-Reports s named t path) (
          with_groups-Reports path (actual_type named t) (groups_at s (actual_type named t)) _ _
            (λ gs.
              Reports-then (check_level-Reports path gs fs)
                (check_fields-Reports fs (flattened gs) path depth))))

    check_fields-Reports :
        (fs : Fields c) (decls : List Element) (path : Text) (depth : ℕ)
        → Reports (check_fields s fs decls path depth) (AreValid s fs decls depth)
    check_fields-Reports childless decls path depth = Reports-skip
    check_fields-Reports (field name f fs) decls path depth =
        Reports-then
          (with_element-Reports (find_element name decls) _ _
            (λ t. check_field-Reports f t (child_path path name) depth))
          (check_fields-Reports fs decls path depth)

    check_field-Reports :
        (f : Field c) (t path : Text) (depth : ℕ)
        → Reports (check_field s f t path depth) (IsValidField s f t depth)
    check_field-Reports (one n) t path depth = check-Reports n t path (suc depth)
    check_field-Reports (many ns) t path depth = check_items-Reports ns t path zero depth

    check_items-Reports :
        (ns : Nodes c) (t path : Text) (i depth : ℕ)
        → Reports (check_items s ns t path i depth) (AreValidItems s ns t depth)
    check_items-Reports itemless t path i depth = Reports-skip
    check_items-Reports (item n ns) t path i depth =
        Reports-then (check-Reports n t (item_path path i) (suc depth))
          (check_items-Reports ns t path (suc i) depth)

  -- The report on a message is empty exactly when no node is too deep, each leaf is a value of its
  -- primitive with every facet of its type, each complex node has a usable type, which is not abstract
  -- where the node names none itself, its fields are declared and occur as often as they may, one
  -- alternative of a choice is taken, and its children follow their types.
  pub validate_iff : (m : Message c) → (validate s m ≡ []) ↔ IsValidMessage s m
  unfolding validate IsValidMessage
  validate_iff m =
      let r = check-Reports m.body (declared (global_type m.name s) m.name) m.name 0 in
      (r.sound, r.complete)

  -- The report on a message has at most `MAX_VIOLATIONS` violations.
  pub length-validate-le : (m : Message c) → length (validate s m) ≤ max_violations
  unfolding validate
  length-validate-le m =
      (check-Reports m.body (declared (global_type m.name s) m.name) m.name 0).capped []
        (omega arith)
