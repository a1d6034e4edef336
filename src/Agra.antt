-- ===== src/Agra.antt =====
-- crates/oa-gateway-agra/src/lib.rs: A-GRA wrappers in OMS JSON. roxmltree, the `hex` crate and serde_json
-- are parameters; an unwrapped XML wrapper is not modelled.
pub mod Hex
pub mod RoundTrip
pub mod Tests
use oa_gateway.Prelude.{
  ℕ, ◌≡◌, Bool, true, false, not, ◌&&◌, ◌||◌, Option, none, some, List, [], ◌∷◌, ◌++◌,
  if◌then◌else◌, length, ltb,
}
use oa_gateway.Prelude.Attempt.{Attempt, done, refused}
use oa_gateway.Text.{Text, Bytes, codes, text_eq}
use oa_gateway.Text.Utf8.{is_utf8}
use oa_gateway.Text.Space.{trim, trim_start, begins_with}
use oa_gateway.Engine.Types.{
  Envelope, new_envelope, with_content_type, with_header, typed_route, json, xml, octet_stream,
}
use oa_gateway.Uci.Schema.{Calls}
use oa_gateway.Uci.Json.{Value, Members, object, text, no_members, member, Serde}
use oa_gateway.Uci.Json.Access.{get_member, member_of, text_of}
use oa_gateway.Uci.Json.Write.{put}
use oa_gateway.Agra.Hex
use oa_gateway.Agra.Hex.{
  AgraError, Result, ok, err, json_error, not_a_wrapper, missing_field, payload_too_large,
  decode_hex, max_decoded_payload, and_then,
}

abbrev pub rx_element : Text
rx_element = codes "MA_RxDataPayload"

abbrev pub tx_element : Text
tx_element = codes "MA_TxDataPayloadCommand"

pub data WrapperKind : Type 0 where
  rx tx : WrapperKind

abbrev pub element_name : WrapperKind → Text
element_name rx = rx_element
element_name tx = tx_element

unfoldable pub from_element : Text → Option WrapperKind
from_element name =
    if text_eq name rx_element then some rx else if text_eq name tx_element then some tx else none

pub record WrapperMeta : Type 0 where
  pub kind : WrapperKind
  pub message_type_enum : Text
  pub originator_uuid : Option Text
  pub rx_payload_id : Option Text
  pub command_id : Option Text
  pub destination_routing : Option Text

pub record Unwrapped : Type 0 where
  pub wrapper : Envelope
  pub inner : Envelope
  pub meta : WrapperMeta

-- What the crate calls: the root name of an XML document, `hex::encode_upper`, and a printed character.
pub record Codecs : Type 0 where
  pub xml_root_local_name : Text → Option Text
  pub encode_upper : Bytes → Text
  pub show_char : ℕ → Text

unfoldable pub sniff_content_type : Bytes → Text
unfolding is_utf8 trim_start
sniff_content_type bytes =
    if is_utf8 bytes
    then (if begins_with b'{' (trim_start bytes)
        then json
        else if begins_with b'<' (trim_start bytes)
        then xml
        else octet_stream)
    else octet_stream

abbrev with_optional : Text → Option Text → Envelope → Envelope
unfolding with_header
with_optional k none env = env
with_optional k (some v) env = with_header k v env

unfoldable pub inner_envelope : ℕ → Text → Bytes → Text → Text → WrapperMeta → Envelope
unfolding new_envelope with_content_type with_header with_optional
inner_envelope id topic bytes ct hint meta =
    with_optional (codes "agra.destination_routing") meta.destination_routing (
      with_optional (codes "agra.command_id") meta.command_id (
        with_optional (codes "agra.rx_payload_id") meta.rx_payload_id (
          with_optional (codes "agra.originator_uuid") meta.originator_uuid (
            with_header (codes "agra.inner_content_type") ct (
              with_header (codes "agra.message_type") meta.message_type_enum (
                with_header (codes "agra.wrapper") (element_name meta.kind)
                  (with_content_type ct (new_envelope id (typed_route topic hint) bytes))))))))

module _ {c : Calls} (j : Serde c) (x : Codecs) where
  -- The only key of an object.
  abbrev only_key : Attempt (Value c) → Option Text
  only_key (done (object (member k v no_members))) = some k
  only_key _ = none

  abbrev kind_of : Option Text → Option WrapperKind
  unfolding from_element
  kind_of none = none
  kind_of (some name) = from_element name

  abbrev or_kind : Option WrapperKind → Option WrapperKind → Option WrapperKind
  or_kind none b = b
  or_kind (some k) b = some k

  -- `from_element` ends the search when the payload has a single key.
  unfoldable pub wrapper_kind : Bytes → Option WrapperKind
  unfolding is_utf8 trim_start kind_of
  wrapper_kind payload =
      let t = trim_start payload in
      if is_utf8 payload
      then (if begins_with b'{' t
          then kind_of (only_key (j.parse t))
          else if begins_with b'<' t
          then kind_of (x.xml_root_local_name t)
          else none)
      else none

  abbrev or_enum : Text → Option Text → Text
  or_enum enum none = enum
  or_enum enum (some k) = k

  unfoldable pub type_hint_from_inner : Bytes → Text → Text
  unfolding is_utf8 trim
  type_hint_from_inner bytes enum =
      let t = trim bytes in
      if is_utf8 bytes
      then (if begins_with b'{' t
          then or_enum enum (only_key (j.parse t))
          else if begins_with b'<' t
          then or_enum enum (x.xml_root_local_name t)
          else enum)
      else enum

  -- The wrapper and the inner envelope, with the ids that they get.
  unfoldable pub unwrapped : ℕ → ℕ → Text → Text → Bytes → WrapperMeta → Unwrapped
  unfolding new_envelope with_content_type inner_envelope sniff_content_type type_hint_from_inner
  unwrapped id inner_id topic document bytes meta = record {
    wrapper =
        with_content_type json
          (new_envelope id (typed_route topic (element_name meta.kind)) document);
    inner =
        inner_envelope inner_id topic bytes (sniff_content_type bytes)
          (type_hint_from_inner bytes meta.message_type_enum) meta;
    meta = meta;
  }

  abbrev or_missing : Text → Option Text → Result Text
  or_missing name none = err (missing_field name)
  or_missing name (some t) = ok t

  -- `json_str`
  unfoldable pub json_str : Value c → Text → Result Text
  unfolding get_member
  json_str fields name = or_missing name (text_of (get_member name fields))

  abbrev uuid_at : Text → Value c → Option Text
  unfolding get_member member_of
  uuid_at name fields = text_of (member_of (codes "UUID") (get_member name fields))

  abbrev or_not_wrapper : Option WrapperKind → Result WrapperKind
  or_not_wrapper none = err not_a_wrapper
  or_not_wrapper (some k) = ok k

  abbrev or_no_data : Option (Value c) → Result (Value c)
  or_no_data none = err (missing_field (codes "MessageData"))
  or_no_data (some v) = ok v

  -- What `unwrap_json` reads of the root: the metadata and the bytes of the inner message.
  unfoldable pub peeled : Value c → Result (WrapperMeta × Bytes)
  unfolding and_then from_element get_member json_str decode_hex uuid_at
  peeled (object (member name body no_members)) =
      and_then (or_not_wrapper (from_element name)) (λ kind.
        and_then (or_no_data (get_member (codes "MessageData") body)) (λ fields.
          and_then (json_str fields (codes "MessageType")) (λ message_type.
            and_then (json_str fields (codes "EncodedPayload")) (λ hex.
              and_then (decode_hex x.show_char hex) (λ bytes. ok (
                record {
                  kind = kind;
                  message_type_enum = message_type;
                  originator_uuid = uuid_at (codes "DataPayloadOriginatorID") fields;
                  rx_payload_id = uuid_at (codes "RxDataPayloadID") fields;
                  command_id = uuid_at (codes "CommandID") fields;
                  destination_routing = text_of (get_member (codes "DestinationRouting") fields);
                },
                bytes,
              ))))))
  peeled (object ms) = err not_a_wrapper
  peeled v = err (json_error (codes "root must be an object"))

  abbrev parsed : Attempt (Value c) → Result (Value c)
  parsed (done v) = ok v
  parsed (refused e) = err (json_error e)

  unfoldable pub unwrap_json : ℕ → ℕ → Text → Text → Result Unwrapped
  unfolding and_then peeled unwrapped
  unwrap_json id inner_id topic t =
      and_then (parsed (j.parse t))
        (λ root. and_then (peeled root) (λ read. ok (unwrapped id inner_id topic t read.1 read.0)))

  -- `minimal_wrapper_json` up to its printing.
  abbrev with_uuid : Text → Option Text → Members c → Members c
  unfolding put
  with_uuid k none ms = ms
  with_uuid k (some v) ms = put k (object (member (codes "UUID") (text v) no_members)) ms

  abbrev with_text : Text → Option Text → Members c → Members c
  unfolding put
  with_text k none ms = ms
  with_text k (some v) ms = put k (text v) ms

  unfoldable pub minimal_wrapper : WrapperMeta → Bytes → Value c
  unfolding put with_uuid with_text
  minimal_wrapper meta inner =
      let fields = with_text (codes "DestinationRouting") meta.destination_routing (
        with_uuid (codes "CommandID") meta.command_id (
          with_uuid (codes "RxDataPayloadID") meta.rx_payload_id (
            with_uuid (codes "DataPayloadOriginatorID") meta.originator_uuid (
              put (codes "MessageType") (text meta.message_type_enum)
                (put (codes "EncodedPayload") (text (x.encode_upper inner)) no_members))))) in
      object (
        member (element_name meta.kind)
          (object (member (codes "MessageData") (object fields) no_members)) no_members)

  abbrev printed : Attempt Text → Result Text
  printed (done t) = ok t
  printed (refused e) = err (json_error e)

  unfoldable pub unwrapped_from_parts : ℕ → ℕ → Text → WrapperMeta → Bytes → Result Unwrapped
  unfolding and_then minimal_wrapper unwrapped
  unwrapped_from_parts id inner_id topic meta encoded =
      if ltb max_decoded_payload (length encoded)
      then err payload_too_large
      else and_then (printed (j.print (minimal_wrapper meta encoded)))
          (λ document. ok (unwrapped id inner_id topic document encoded meta))
