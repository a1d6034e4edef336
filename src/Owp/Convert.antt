-- ===== src/Owp/Convert.antt =====
-- crates/oa-gateway-owp/src/convert.rs: JSON and XML at the socket. The XML side of the conversion is a
-- parameter.
use oa_gateway.Prelude.{
  ℕ, ◌≡◌, refl, Bool, true, false, not, ◌||◌, Option, none, some, List, [], if◌then◌else◌,
  Bool-cases, inl, inr,
}
use oa_gateway.Prelude.Attempt.{Attempt, done, refused, ◌>>=◌, IfDone, bind-IfDone}
use oa_gateway.Text.{Text, Bytes, codes, text_eq}
use oa_gateway.Text.Utf8.{is_utf8}
use oa_gateway.Text.Space.{trim_start, begins_with}
use oa_gateway.Engine.Types.{Envelope, xml, typed_route}
use oa_gateway.Owp.Hex.{decode_hex, encode_hex_upper}
use oa_gateway.Owp.Session.{Mode, off}
use oa_gateway.Uci.Errors
use oa_gateway.Uci.Errors.{error_text}
use oa_gateway.Uci.Schema.{Calls, Schema}
use oa_gateway.Uci.Instance.{Message}
use oa_gateway.Uci.Violation.{Violation}
use oa_gateway.Uci.Check.{validate}
use oa_gateway.Uci.Sniff.{looks_like_xml}
use oa_gateway.Uci.Json.{Value, Members, object, text, no_members, member, Serde}
use oa_gateway.Uci.Json.Access.{get_member, member_of, text_of}
use oa_gateway.Agra.{rx_element, tx_element}
use oa_gateway.Uci.Json.Write.{from_json, to_json}

-- xml.rs of the uci crate, and two messages of the Rust standard library.
pub record Xml (c : Calls) : Type 0 where
  pub from_xml : Text → Schema c → Errors.Result (Message c)
  pub to_xml : Message c → Schema c → Errors.Result Text
  pub utf8_error : Bytes → Text
  pub show_char : ℕ → Text

-- `map_err(|e| e.to_string())`
abbrev pub to_attempt {ℓ} : {A : Type ℓ} → Errors.Result A → Attempt A
unfolding error_text
to_attempt (Errors.ok a) = done a
to_attempt (Errors.err e) = refused (error_text e)

module _ {c : Calls} where
  -- What is written through `Value::get_mut`.
  abbrev with_member : Text → (Value c → Value c) → Members c → Members c
  with_member k f no_members = no_members
  with_member k f (member l v ms) =
      let rest = with_member k f ms in if text_eq l k then member l (f v) ms else member l v rest

  abbrev set_member : Text → (Value c → Value c) → Value c → Value c
  set_member k f (object ms) = object (with_member k f ms)
  set_member k f v = v

  -- The body of a wrapper: the only member of a root that has the name of one.
  unfoldable pub encoded_payload : Value c → Option Text
  unfolding get_member member_of
  encoded_payload (object (member name body no_members)) =
      if text_eq name rx_element || text_eq name tx_element
      then text_of (member_of (codes "EncodedPayload") (get_member (codes "MessageData") body))
      else none
  encoded_payload v = none

  unfoldable pub with_encoded : Text → Value c → Value c
  with_encoded hex (object (member name body no_members)) = object (
      member name
        (set_member (codes "MessageData") (set_member (codes "EncodedPayload") (λ _. text hex))
          body)
        no_members)
  with_encoded hex v = v

  module _ (j : Serde c) (x : Xml c) where
    unfoldable pub violations_of : Bytes → Option (Schema c) → Mode → List Violation
    unfolding is_utf8 looks_like_xml from_json validate
    violations_of payload none mode = []
    violations_of payload (some s) off = []
    violations_of payload (some s) mode =
        if is_utf8 payload
        then elim (if looks_like_xml payload then x.from_xml payload s else from_json s j payload) [
          | Errors.ok m ↦ validate s m
          | Errors.err e ↦ []
        ]
        else []

    -- A document of one format in the other.
    unfoldable pub converted : Bool → Text → Schema c → Attempt Text
    unfolding from_json to_json to_attempt
    converted true t s = to_attempt (from_json s j t) >>= λ m. to_attempt (x.to_xml m s)
    converted false t s = to_attempt (x.from_xml t s) >>= λ m. to_attempt (to_json s j m)

    abbrev same : Bool → Bool → Bool
    same true b = b
    same false b = not b

    -- `transcode_wrapper_inner`
    unfoldable pub transcode_wrapper_inner : Text → Schema c → Bool → Attempt Text
    unfolding encoded_payload with_encoded decode_hex is_utf8 trim_start encode_hex_upper converted
    transcode_wrapper_inner t s want_xml = j.parse t >>= λ root. elim (encoded_payload root) [
      | none ↦ done t
      | some hex ↦ decode_hex x.show_char hex >>= λ inner.
          if not (is_utf8 inner)
          then refused (x.utf8_error inner)
          else if same want_xml (begins_with b'<' (trim_start inner))
          then done t
          else (converted want_xml inner s >>= λ outer.
              j.print (with_encoded (encode_hex_upper outer) root))
    ]

    unfoldable pub toward_xml : Envelope → Schema c → Attempt Envelope
    unfolding looks_like_xml is_utf8 transcode_wrapper_inner from_json to_attempt
    toward_xml env s =
        if looks_like_xml env.payload
        then done (record env { content_type = xml })
        else if not (is_utf8 env.payload)
        then refused (x.utf8_error env.payload)
        else (transcode_wrapper_inner env.payload s true >>= λ t.
            to_attempt (from_json s j t) >>= λ m. to_attempt (x.to_xml m s) >>= λ out.
            done (record env {
              route = typed_route env.route.topic m.name;
              payload = out;
              content_type = xml;
            }))

    abbrev with_schema : Option (Schema c) → Attempt (Schema c)
    with_schema none = refused (codes "no UCI schema is loaded")
    with_schema (some s) = done s

    unfoldable pub xml_to_oms_json : Text → Option (Schema c) → Attempt Text
    unfolding looks_like_xml to_json to_attempt transcode_wrapper_inner
    xml_to_oms_json raw schema =
        if not (looks_like_xml raw)
        then done raw
        else (with_schema schema >>= λ s. to_attempt (x.from_xml raw s) >>= λ m.
            to_attempt (to_json s j m) >>= λ t. transcode_wrapper_inner t s false)

    -- What conversion toward XML keeps of an envelope.
    pub record IsConverted (env got : Envelope) : Type 0 where
      pub same_id : got.id ≡ env.id
      pub same_headers : got.headers ≡ env.headers
      pub same_topic : got.route.topic ≡ env.route.topic
      pub is_xml : got.content_type ≡ xml

    -- Conversion toward XML, when it succeeds, labels an envelope as XML and keeps its id, its headers
    -- and its topic.
    pub toward_xml-IsConverted :
        (env : Envelope) (s : Schema c) → IfDone (IsConverted env) (toward_xml env s)
    unfolding toward_xml
    toward_xml-IsConverted env s = elim (Bool-cases (looks_like_xml env.payload)) [
      | inl already ↦
          rw (already, toward_xml)
            (record { same_id = refl; same_headers = refl; same_topic = refl; is_xml = refl })
      | inr other ↦ elim (Bool-cases (is_utf8 env.payload)) [
        | inl legible ↦
            rw (other, legible, toward_xml)
              (bind-IfDone (IsConverted env) (transcode_wrapper_inner env.payload s true) _ (λ t.
                bind-IfDone (IsConverted env) (to_attempt (from_json s j t)) _ (λ m.
                  bind-IfDone (IsConverted env) (to_attempt (x.to_xml m s)) _ (λ out. record {
                    same_id = refl;
                    same_headers = refl;
                    same_topic = refl;
                    is_xml = refl;
                  }))))
        | inr broken ↦ rw (other, broken, toward_xml) tt
      ]
    ]
