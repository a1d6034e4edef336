-- ===== src/Uci/Json/Writable.antt =====
-- What crates/oa-gateway-uci/src/json.rs reads, it can write.
use oa_gateway.Prelude.{ℕ, zero, suc, ◌≡◌, ◌≤◌, false, List, ltb, arith}
use oa_gateway.Text.{Text}
use oa_gateway.Uci.Errors.{Result, max_depth, IsOk, and_then-IsOk}
use oa_gateway.Uci.Schema.{Calls, Schema, Element}
use oa_gateway.Uci.Rules.{find_element}
use oa_gateway.Uci.Check.{actual_type, child_path, item_path}
use oa_gateway.Uci.Instance
use oa_gateway.Uci.Instance.{
  Simple, Node, Fields, Field, Nodes, Message, childless, field, one, many, itemless, item,
}
use oa_gateway.Uci.Json.{Value, Members}
use oa_gateway.Uci.Json.Write.{
  write_node, write_fields, write_field, write_items, decls_of, at_depth, element_type, typed, put,
}

module _ {c : Calls} (s : Schema c) where
  -- A node whose types have declarations, down to its leaves, and that is not too deep.
  unfoldable mutual
    pub IsWritable : Node c → Text → ℕ → Type 0
    IsWritable (Instance.simple v) t depth = depth ≤ max_depth
    IsWritable (Instance.complex named fs) t depth =
        (depth ≤ max_depth)
        × IsOk (λ decls. AreWritable fs decls depth) (decls_of s (actual_type named t))

    pub AreWritable : Fields c → List Element → ℕ → Type 0
    AreWritable childless decls depth = Unit
    AreWritable (field name f fs) decls depth =
        IsWritableField f (element_type (find_element name decls)) depth
        × AreWritable fs decls depth

    pub IsWritableField : Field c → Text → ℕ → Type 0
    IsWritableField (one n) t depth = IsWritable n t (suc depth)
    IsWritableField (many ns) t depth = AreWritableItems ns t depth

    pub AreWritableItems : Nodes c → Text → ℕ → Type 0
    AreWritableItems itemless t depth = Unit
    AreWritableItems (item n ns) t depth = IsWritable n t (suc depth) × AreWritableItems ns t depth

  unfoldable pub IsAny : {A : Type 0} → A → Type 0
  IsAny a = Unit

  at_depth-IsOk :
      (path : Text) (depth : ℕ) (r : Result (Value c))
      → depth ≤ max_depth
      → IsOk IsAny r
      → IsOk IsAny (at_depth s path depth r)
  unfolding at_depth
  at_depth-IsOk path depth r fits h =
      let shallow : ltb max_depth depth ≡ false = ground arith in rw shallow h

  mutual
    unfolding write_node IsWritable IsAny

    pub write_node-IsOk :
        (n : Node c) (t path : Text) (depth : ℕ)
        → IsWritable n t depth
        → IsOk IsAny (write_node s n t path depth)
    write_node-IsOk (Instance.simple v) t path depth h = at_depth-IsOk path depth _ h tt
    write_node-IsOk (Instance.complex named fs) t path depth h = at_depth-IsOk path depth _ h.0 (
        and_then-IsOk (λ decls. AreWritable fs decls depth) IsAny (decls_of s (actual_type named t))
          _ h.1
          (λ decls v.
            and_then-IsOk IsAny IsAny (write_fields s fs decls path depth (typed named)) _
              (write_fields-IsOk fs decls path depth (typed named) v) (λ ms _. tt)))

    write_fields-IsOk :
        (fs : Fields c) (decls : List Element) (path : Text) (depth : ℕ) (ms : Members c)
        → AreWritable fs decls depth
        → IsOk IsAny (write_fields s fs decls path depth ms)
    write_fields-IsOk childless decls path depth ms h = tt
    write_fields-IsOk (field name f fs) decls path depth ms h =
        and_then-IsOk IsAny IsAny
          (write_field s f (element_type (find_element name decls)) (child_path path name) depth) _
          (write_field-IsOk f (element_type (find_element name decls)) (child_path path name) depth
            h.0)
          (λ v _. write_fields-IsOk fs decls path depth (put name v ms) h.1)

    write_field-IsOk :
        (f : Field c) (t path : Text) (depth : ℕ)
        → IsWritableField f t depth
        → IsOk IsAny (write_field s f t path depth)
    write_field-IsOk (one n) t path depth h = write_node-IsOk n t path (suc depth) h
    write_field-IsOk (many ns) t path depth h =
        and_then-IsOk IsAny IsAny (write_items s ns t path zero depth) _
          (write_items-IsOk ns t path zero depth h) (λ vs _. tt)

    write_items-IsOk :
        (ns : Nodes c) (t path : Text) (i depth : ℕ)
        → AreWritableItems ns t depth
        → IsOk IsAny (write_items s ns t path i depth)
    write_items-IsOk itemless t path i depth h = tt
    write_items-IsOk (item n ns) t path i depth h =
        and_then-IsOk IsAny IsAny (write_node s n t (item_path path i) (suc depth)) _
          (write_node-IsOk n t (item_path path i) (suc depth) h.0)
          (λ v _.
            and_then-IsOk IsAny IsAny (write_items s ns t path (suc i) depth) _
              (write_items-IsOk ns t path (suc i) depth h.1) (λ vs _. tt))
