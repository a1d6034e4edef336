-- ===== src/Uci/Json/Access.antt =====
-- `Value::get`, `as_str` and `pointer` of `serde_json`.
use oa_gateway.Prelude.{Option, none, some, if◌then◌else◌}
use oa_gateway.Text.{Text, text_eq}
use oa_gateway.Uci.Schema.{Calls}
use oa_gateway.Uci.Json.{Value, Members, object, text, no_members, member}

module _ {c : Calls} where
  abbrev find_member : Text → Members c → Option (Value c)
  find_member k no_members = none
  find_member k (member l v ms) = if text_eq l k then some v else find_member k ms

  unfoldable pub get_member : Text → Value c → Option (Value c)
  get_member k (object ms) = find_member k ms
  get_member k v = none

  abbrev pub text_of : Option (Value c) → Option Text
  text_of (some (text t)) = some t
  text_of _ = none

  unfoldable pub member_of : Text → Option (Value c) → Option (Value c)
  unfolding get_member
  member_of k none = none
  member_of k (some v) = get_member k v
