-- ===== src/Uci/Instance.antt =====
-- crates/oa-gateway-uci/src/instance.rs. The lists of fields and of items are data types of their own.
use oa_gateway.Prelude.{ℕ, zero, suc, Bool, true, false, Option, none, some, if◌then◌else◌}
use oa_gateway.Text.{Text, codes, text_eq}
use oa_gateway.Uci.Schema.{Calls}

pub data Simple (c : Calls) : Type 0 where
  string : Text → Simple c
  boolean : Bool → Simple c
  number : c.Number → Simple c

mutual
  pub data Node (c : Calls) : Type 0 where
    simple : Simple c → Node c
    complex : (type_name : Option Text) → Fields c → Node c

  -- `Vec<(String, Field)>`
  pub data Fields (c : Calls) : Type 0 where
    childless : Fields c
    field : Text → Field c → Fields c → Fields c

  pub data Field (c : Calls) : Type 0 where
    one : Node c → Field c
    many : Nodes c → Field c

  -- `Vec<Node>`
  pub data Nodes (c : Calls) : Type 0 where
    itemless : Nodes c
    item : Node c → Nodes c → Nodes c

pub record Message (c : Calls) : Type 0 where
  pub name : Text
  pub body : Node c

module _ {c : Calls} where
  -- `Simple::as_text`
  abbrev pub as_text : Simple c → Text
  as_text (string s) = s
  as_text (boolean true) = codes "true"
  as_text (boolean false) = codes "false"
  as_text (number n) = c.show_number n

  -- `Complex::get`
  unfoldable pub get_field : Text → Fields c → Option (Field c)
  get_field name childless = none
  get_field name (field n f fs) = if text_eq n name then some f else get_field name fs

  abbrev pub count_nodes : Nodes c → ℕ
  count_nodes itemless = zero
  count_nodes (item n ns) = suc (count_nodes ns)
