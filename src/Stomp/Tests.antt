-- ===== src/Stomp/Tests.antt =====
-- The STOMP codec and destinations on small inputs.
use oa_gateway.Prelude.{◌+◌, ◌≡◌, ◌<◌, ◌≤◌, arith, ◌↔◌, length, refl, none, some, [], ◌∷◌, ◌++◌}
use oa_gateway.Text.{codes, text_eq}
use oa_gateway.Text.Decimal.{print_usize, parse_usize}
use oa_gateway.Text.Utf8.{is_utf8}
use oa_gateway.Stomp.Dest.{default_map, to_stomp, from_stomp, from_stomp_iff, new_map}
use oa_gateway.Stomp.Escape.{unescape-escape}
use oa_gateway.Stomp.Headers.{IsEncodable}
use oa_gateway.Stomp.RoundTrip.{as_read, decode-encode}
use oa_gateway.Stomp.Limits.{decode-pending, decode-found}
use oa_gateway.Stomp.Frame.{Frame, encode, escape, has_length}
use oa_gateway.Stomp.Decode.{
  ok, err, missing_null, bad_escape, bad_header, frame_too_large, unescape, find_header_end,
  decode_one, decode_one_with_limit, parse_head, parse_headers, parse_line, read_length, split,
  trim_end, split_once, has_nul, frame_bounds,
}

codec : Unit {0}
unfolding encode escape print_usize parse_usize is_utf8 unescape find_header_end decode_one
    parse_head parse_headers parse_line read_length split trim_end split_once has_nul frame_bounds
    text_eq has_length from_stomp to_stomp new_map
codec = tt

abbrev sent_frame : Frame
sent_frame = record {
  command = codes "SEND";
  headers = (codes "destination", codes "/topic/a:b") ∷ [];
  body = codes "{}";
}

encoded :
    encode sent_frame ≡ codes "SEND\ndestination:/topic/a\\cb\ncontent-length:2\n\n{}" ++ 0 ∷ []
unfolding codec
encoded = refl

decoded : decode_one (0 ∷ b'\n' ∷ (encode sent_frame ++ codes "REST")) ≡ (
  codes "REST",
  ok (
      some (record sent_frame {
        headers =
            (codes "destination", codes "/topic/a:b") ∷ (codes "content-length", codes "2") ∷ [];
      })),
)
unfolding codec
decoded = refl

partial : decode_one (codes "SEND\n\nabc") ≡ (codes "SEND\n\nabc", ok none)
unfolding codec
partial = refl

refused :
    (decode_one (codes "SEND\nx\n\n") ≡ (codes "SEND\nx\n\n", err bad_header))
    × (decode_one (codes "SEND\na:\\t\n\n") ≡ (codes "SEND\na:\\t\n\n", err bad_escape))
    × (decode_one_with_limit 3 (codes "SEND") ≡ (codes "SEND", err (frame_too_large 3)))
    × (decode_one (codes "A\ncontent-length:1\n\nab")
        ≡ (codes "A\ncontent-length:1\n\nab", err missing_null))
unfolding codec
refused = (refl, refl, refl, refl)

unescape-escape_example : unescape (codes "a\\cb\\n") ≡ ok (codes "a:b\n")
unfolding codec
unescape-escape_example = unescape-escape (codes "a:b\n")

sent_frame-IsEncodable : IsEncodable sent_frame
unfolding codec
sent_frame-IsEncodable = record {
  command_line = (ground arith, ground arith);
  command_clear = record { utf8 = refl; no_nul = refl };
  headers_clear =
      ((record { utf8 = refl; no_nul = refl }, record { utf8 = refl; no_nul = refl }), tt);
  no_length = refl;
  body_fits = omega arith;
}

decode-encode_example :
    decode_one_with_limit 100 (encode sent_frame ++ codes "REST")
    ≡ (codes "REST", ok (some (as_read sent_frame)))
unfolding codec
decode-encode_example =
    decode-encode 100 sent_frame (codes "REST") sent_frame-IsEncodable (omega arith) (omega arith)
      (omega arith)

decode-pending_example : length (codes "SEND\n\nabc") ≤ 18
unfolding codec
decode-pending_example = decode-pending 9 (codes "SEND\n\nabc") refl

decode-found_example : 2 + 4 < length (encode sent_frame ++ codes "REST")
unfolding codec
decode-found_example =
    decode-found 100 (encode sent_frame ++ codes "REST") {left = codes "REST"}
      {f = as_read sent_frame} refl

from_stomp_iff_example :
    (from_stomp default_map (codes "/topic/demo") ≡ some (codes "demo"))
    ↔ (to_stomp default_map (codes "demo") ≡ codes "/topic/demo")
from_stomp_iff_example =
    from_stomp_iff default_map (codes "/topic/demo") (codes "demo") (omega arith)
