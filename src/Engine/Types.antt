-- ===== src/Engine/Types.antt =====
-- crates/oa-gateway-core/src/{route, ids, envelope, headers}.rs. An id is its text; the UUID of an
-- envelope is the `uuid` crate's and is an argument of `new_envelope`, as the number it stands for.
use oa_gateway.Prelude.{ℕ, ◌≡◌, ◌↔◌, Bool, true, false, ◌&&◌, Option, none, some, arith, []}
use oa_gateway.Prelude.Eq.{Eq}
use oa_gateway.Text.{Text, Bytes, codes, text_eq, text_eq_iff, text_Eq}
use oa_gateway.Map.{Map, get, insert}

pub record RouteKey : Type 0 where
  pub topic : Text
  pub type_hint : Option Text

abbrev pub topic_route : Text → RouteKey
topic_route topic = record { topic = topic; type_hint = none }

abbrev pub typed_route : Text → Text → RouteKey
typed_route topic hint = record { topic = topic; type_hint = some hint }

pub is_wildcard : RouteKey → Bool
is_wildcard r = elim r.type_hint [ none ↦ true | some h ↦ false ]

unfoldable pub hint_eq : Option Text → Option Text → Bool
hint_eq none none = true
hint_eq (some a) (some b) = text_eq a b
hint_eq _ _ = false

-- The derived `PartialEq` of `RouteKey`.
unfoldable pub route_eq : RouteKey → RouteKey → Bool
unfolding hint_eq
route_eq a b = text_eq a.topic b.topic && hint_eq a.type_hint b.type_hint

hint_eq_iff : (a b : Option Text) → (hint_eq a b ≡ true) ↔ (a ≡ b)
unfolding hint_eq
hint_eq_iff none none = ground arith
hint_eq_iff none (some b) = ground arith
hint_eq_iff (some a) none = ground arith
hint_eq_iff (some a) (some b) = ground (arith, text_eq_iff a b)

pub route_eq_iff : (a b : RouteKey) → (route_eq a b ≡ true) ↔ (a ≡ b)
unfolding route_eq
route_eq_iff a b = ground (arith, text_eq_iff a.topic b.topic, hint_eq_iff a.type_hint b.type_hint)

instance abbrev pub route_Eq : Eq RouteKey
route_Eq = record { beq = route_eq; beq_iff = route_eq_iff }

pub record SubscriberKey : Type 0 where
  pub adapter_id : Text
  pub sub_id : Text

-- The derived `PartialEq` of `SubscriberKey`.
unfoldable pub key_eq : SubscriberKey → SubscriberKey → Bool
key_eq a b = text_eq a.adapter_id b.adapter_id && text_eq a.sub_id b.sub_id

pub key_eq_iff : (a b : SubscriberKey) → (key_eq a b ≡ true) ↔ (a ≡ b)
unfolding key_eq
key_eq_iff a b =
    ground (arith, text_eq_iff a.adapter_id b.adapter_id, text_eq_iff a.sub_id b.sub_id)

instance abbrev pub key_Eq : Eq SubscriberKey
key_Eq = record { beq = key_eq; beq_iff = key_eq_iff }

abbrev pub hdr_origin : Text
hdr_origin = codes "oag.origin_adapter"

abbrev pub hdr_topic : Text
hdr_topic = codes "oag.topic"

abbrev pub hdr_type_hint : Text
hdr_type_hint = codes "oag.type_hint"

abbrev pub hdr_id : Text
hdr_id = codes "oag.id"

abbrev pub octet_stream : Text
octet_stream = codes "application/octet-stream"

abbrev pub json : Text
json = codes "application/json"

abbrev pub xml : Text
xml = codes "application/xml"

pub record Envelope : Type 0 where
  pub id : ℕ
  pub route : RouteKey
  pub headers : Map Text Text
  pub content_type : Text
  pub payload : Bytes

unfoldable pub new_envelope : ℕ → RouteKey → Bytes → Envelope
new_envelope id route payload = record {
  id = id;
  route = route;
  headers = [];
  content_type = octet_stream;
  payload = payload;
}

unfoldable pub with_content_type : Text → Envelope → Envelope
with_content_type ct env = record env { content_type = ct }

unfoldable pub with_header : Text → Text → Envelope → Envelope
with_header key value env = record env { headers = insert key value env.headers }

unfoldable pub with_origin : Text → Envelope → Envelope
unfolding with_header
with_origin id env = with_header hdr_origin id env

unfoldable pub origin : Envelope → Option Text
origin env = get hdr_origin env.headers

unfoldable pub is_echo_of : Text → Envelope → Bool
unfolding hint_eq origin
is_echo_of id env = hint_eq (origin env) (some id)
