-- ===== src/Agra/RoundTrip.antt =====
-- `minimal_wrapper_json` and `unwrap_json` in crates/oa-gateway-agra/src/lib.rs.
use oa_gateway.Prelude.{◌≡◌, ◌≤◌, ◌<◌, refl, Option, none, some, All, length}
use oa_gateway.Text.{Text, Bytes, text_eq}
use oa_gateway.Owp.Hex.{encode_hex_upper, without_space-encode_hex_upper}
use oa_gateway.Uci.Schema.{Calls}
use oa_gateway.Uci.Json.{Serde}
use oa_gateway.Uci.Json.Access.{get_member}
use oa_gateway.Uci.Json.Write.{put}
use oa_gateway.Agra.{
  WrapperMeta, Codecs, element_name, from_element, minimal_wrapper, peeled, json_str, WrapperKind,
  rx, tx,
}
use oa_gateway.Agra.Hex.{ok, decode_hex, decode_hex-encode_hex, max_decoded_payload, and_then}

from_element-element_name : (k : WrapperKind) → from_element (element_name k) ≡ some k
unfolding from_element text_eq
from_element-element_name rx = refl
from_element-element_name tx = refl

module _ {c : Calls} (j : Serde c) (x : Codecs) (bs : Bytes)
    (upper : x.encode_upper bs ≡ encode_hex_upper bs)
    (read : decode_hex x.show_char (encode_hex_upper bs) ≡ ok bs) where
  Returns : WrapperMeta → Type 0
  unfolding peeled minimal_wrapper
  Returns meta = peeled j x (minimal_wrapper j x meta bs) ≡ ok (meta, bs)

  fields-return :
      (k : WrapperKind) (t : Text) (o r i d : Option Text)
      → Returns record {
        kind = k;
        message_type_enum = t;
        originator_uuid = o;
        rx_payload_id = r;
        command_id = i;
        destination_routing = d;
      }
  unfolding Returns peeled minimal_wrapper and_then put get_member json_str text_eq
  fields-return k t none none none none = rw (upper, from_element-element_name k, read) refl
  fields-return k t none none none (some g) = rw (upper, from_element-element_name k, read) refl
  fields-return k t none none (some e) none = rw (upper, from_element-element_name k, read) refl
  fields-return k t none none (some e) (some g) = rw (upper, from_element-element_name k, read) refl
  fields-return k t none (some b) none none = rw (upper, from_element-element_name k, read) refl
  fields-return k t none (some b) none (some g) = rw (upper, from_element-element_name k, read) refl
  fields-return k t none (some b) (some e) none = rw (upper, from_element-element_name k, read) refl
  fields-return k t none (some b) (some e) (some g) =
      rw (upper, from_element-element_name k, read) refl
  fields-return k t (some a) none none none = rw (upper, from_element-element_name k, read) refl
  fields-return k t (some a) none none (some g) = rw (upper, from_element-element_name k, read) refl
  fields-return k t (some a) none (some e) none = rw (upper, from_element-element_name k, read) refl
  fields-return k t (some a) none (some e) (some g) =
      rw (upper, from_element-element_name k, read) refl
  fields-return k t (some a) (some b) none none = rw (upper, from_element-element_name k, read) refl
  fields-return k t (some a) (some b) none (some g) =
      rw (upper, from_element-element_name k, read) refl
  fields-return k t (some a) (some b) (some e) none =
      rw (upper, from_element-element_name k, read) refl
  fields-return k t (some a) (some b) (some e) (some g) =
      rw (upper, from_element-element_name k, read) refl

-- The wrapper that is made for a payload of at most `max_decoded_payload` bytes is read back to its metadata
-- and the payload, each optional field included, when `hex::encode_upper` writes upper-case hex.
pub peeled-minimal_wrapper :
    {c : Calls} (j : Serde c) (x : Codecs) (meta : WrapperMeta) (bs : Bytes)
    → x.encode_upper bs ≡ encode_hex_upper bs
    → All (λ b. b < 256) bs
    → length bs ≤ max_decoded_payload
    → peeled j x (minimal_wrapper j x meta bs) ≡ ok (meta, bs)
unfolding Returns
peeled-minimal_wrapper j x meta bs upper h fits =
    fields-return j x bs upper
      (decode_hex-encode_hex x.show_char bs (encode_hex_upper bs) h fits
        (without_space-encode_hex_upper bs h))
      meta.kind meta.message_type_enum meta.originator_uuid meta.rx_payload_id meta.command_id
      meta.destination_routing
