-- ===== src/Stomp/Sniff.antt =====
-- `sniff_type_hint` and `sniff_content_type` in crates/oa-gateway-stomp/src/dest.rs, and what the
-- adapter calls in `serde_json` and in crates/oa-gateway-agra.
use oa_gateway.Prelude.{ℕ, Bool, Option, none, some, List, [], ◌∷◌, if◌then◌else◌}
use oa_gateway.Prelude.Attempt.{Attempt}
use oa_gateway.Text.{Text, Bytes}
use oa_gateway.Text.Utf8.{is_utf8}
use oa_gateway.Text.Space.{trim_start, trim, begins_with}
use oa_gateway.Engine.Types.{Envelope, octet_stream, json, xml}
use oa_gateway.Stomp.Decode.{split}

-- `object_keys` is `serde_json::from_str` and `as_object`: none for what is no object. `show_id` is the
-- printed UUID of a message.
pub record Bodies : Type 0 where
  pub object_keys : Text → Option (List Text)
  pub xml_root_local_name : Text → Option Text
  pub is_wrapper : Bytes → Bool
  pub unwrap_ma : Text → Bytes → Attempt (Envelope × Envelope)
  pub show_id : ℕ → Text

abbrev single : Option (List Text) → Option Text
single (some (key ∷ [])) = some key
single _ = none

unfoldable pub sniff_type_hint : Bodies → Bytes → Option Text
unfolding trim_start
sniff_type_hint calls payload =
    let text = trim_start payload in
    if is_utf8 payload
    then (if begins_with b'{' text
        then single (calls.object_keys text)
        else if begins_with b'<' text
        then calls.xml_root_local_name text
        else none)
    else none

abbrev first_part : List Text → Text
first_part [] = []
first_part (part ∷ parts) = part

-- The type before `;` of a header.
abbrev mime_of : Option Text → Text
unfolding split trim
mime_of none = []
mime_of (some ct) = trim (first_part (split b';' ct))

abbrev or_sniffed : Text → Text → Text
or_sniffed [] sniffed = sniffed
or_sniffed (c ∷ cs) sniffed = c ∷ cs

unfoldable pub sniff_content_type : Bytes → Option Text → Text
unfolding trim_start mime_of
sniff_content_type payload header = or_sniffed (mime_of header) (
    if is_utf8 payload
    then (if begins_with b'{' (trim_start payload)
        then json
        else if begins_with b'<' (trim_start payload)
        then xml
        else octet_stream)
    else octet_stream)
