-- ===== src/Agra/Tests.antt =====
-- Runs of crates/oa-gateway-agra/src/lib.rs.
use oa_gateway.Prelude.{◌≡◌, refl, arith, none, some, [], ◌∷◌}
use oa_gateway.Text.{codes}
use oa_gateway.Owp.Hex.{encode_hex_upper, without_space}
use oa_gateway.Uci.Json.{Value, object, no_members}
use oa_gateway.Uci.Plain.{plain, plain_json}
use oa_gateway.Agra.{WrapperMeta, Codecs, minimal_wrapper, peeled, rx}
use oa_gateway.Agra.Hex.{ok, err, bad_hex, decode_hex, decode_digits, digit, and_then}
use oa_gateway.Agra.RoundTrip.{peeled-minimal_wrapper}

abbrev document : Value plain
document = object no_members

abbrev digits : Codecs
unfolding encode_hex_upper
digits = record {
  xml_root_local_name = λ t. none;
  encode_upper = encode_hex_upper;
  show_char = λ b. b ∷ [];
}

abbrev received : WrapperMeta
received = record {
  kind = rx;
  message_type_enum = codes "PING";
  originator_uuid = some (codes "u-1");
  rx_payload_id = none;
  command_id = none;
  destination_routing = some (codes "north");
}

-- Digits of both cases, with a space among them, and a digit without a partner.
spaced : decode_hex (λ b. b ∷ []) (codes "7 bFf") ≡ ok (123 ∷ 255 ∷ [])
unfolding decode_hex decode_digits digit and_then without_space
spaced = refl

odd : decode_hex (λ b. b ∷ []) (codes "7bF") ≡ err (bad_hex (codes "odd number of digits"))
unfolding decode_hex decode_digits digit and_then without_space
odd = refl

peeled-minimal_wrapper_example :
    peeled
      (plain_json document)
      digits
      (minimal_wrapper (plain_json document) digits received (123 ∷ 255 ∷ []))
    ≡ ok (received, 123 ∷ 255 ∷ [])
unfolding encode_hex_upper
peeled-minimal_wrapper_example =
    peeled-minimal_wrapper (plain_json document) digits received (123 ∷ 255 ∷ []) refl
      (omega arith, (omega arith, tt)) (omega arith)
