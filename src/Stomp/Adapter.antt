-- ===== src/Stomp/Adapter.antt =====
-- crates/oa-gateway-stomp/src/adapter.rs: one session of the adapter. An event of `select!` is a
-- constructor; whether the socket takes a frame is part of the event. Log lines are left out.
use oa_gateway.Prelude.{
  ℕ, Bool, true, false, not, ◌&&◌, ◌||◌, Option, none, some, List, [], ◌∷◌, ◌++◌, if◌then◌else◌,
}
use oa_gateway.Prelude.Attempt.{Attempt, done, refused, ◌>>=◌, or_refused}
use oa_gateway.Text.{Text, codes, text_eq, text_Eq, text_lt}
use oa_gateway.Map.{Map, insert}
use oa_gateway.Engine.Types.{
  RouteKey, Envelope, new_envelope, with_content_type, with_origin, is_echo_of, hdr_origin,
  hdr_topic, hdr_type_hint, hdr_id,
}
use oa_gateway.Stomp.Frame.{Frame, Header, header}
use oa_gateway.Stomp.Dest.{DestinationMap, to_stomp, from_stomp, inbound_route, strip_prefix}
use oa_gateway.Stomp.Client.{send_frame, error_message}
use oa_gateway.Stomp.Sniff.{Bodies, sniff_type_hint, sniff_content_type}

abbrev pub hdr_stomp_dest : Text
hdr_stomp_dest = codes "stomp.destination"

abbrev pub hdr_message_id : Text
hdr_message_id = codes "stomp.message-id"

-- The part of `StompConfig` that a session reads.
pub record Config : Type 0 where
  pub destination_prefix : Text
  pub topics : List Text
  pub unwrap_ma_payloads : Bool
  pub suppress_echo : Bool

abbrev pub or_else {ℓ} : {A : Type ℓ} → Option A → Option A → Option A
or_else none b = b
or_else (some a) b = some a

-- `str::starts_with`
abbrev starts_with : Text → Text → Bool
unfolding strip_prefix
starts_with prefix s = elim (strip_prefix prefix s) [ none ↦ false | some rest ↦ true ]

-- The stamp of an inbound envelope.
abbrev pub with_message_id : Option Text → Envelope → Envelope
with_message_id none env = env
with_message_id (some mid) env = record env { headers = insert hdr_message_id mid env.headers }

unfoldable pub stamp : Text → Text → Option Text → Envelope → Envelope
unfolding with_origin
stamp adapter_id dest message_id env =
    let from_here = with_origin adapter_id env in
    with_message_id message_id
      (record from_here { headers = insert hdr_stomp_dest dest from_here.headers })

-- The envelopes that an inbound MESSAGE is published as.
unfoldable pub inbound_topic : DestinationMap → Frame → Text → Attempt Text
unfolding header from_stomp
inbound_topic map frame dest =
    or_refused (codes "destination " ++ (dest ++ (codes " is outside " ++ map.prefix)))
      (or_else (header hdr_topic frame) (from_stomp map dest))

abbrev pub both : (Envelope → Envelope) → Envelope × Envelope → List Envelope
both f (wrapper, inner) = f wrapper ∷ f inner ∷ []

unfoldable pub inbound_route_of : Bodies → Frame → Text → RouteKey
unfolding header sniff_type_hint inbound_route
inbound_route_of calls frame topic =
    inbound_route topic (or_else (header hdr_type_hint frame) (sniff_type_hint calls frame.body))

unfoldable pub inbound :
    Bodies → Config → Text → DestinationMap → ℕ → Frame → Attempt (List Envelope)
unfolding inbound_topic inbound_route_of stamp sniff_content_type new_envelope with_content_type
inbound calls config adapter_id map id frame = do
  dest ← or_refused (codes "MESSAGE missing destination") (header (codes "destination") frame)
  topic ← inbound_topic map frame dest
  if config.unwrap_ma_payloads && calls.is_wrapper frame.body
      then (calls.unwrap_ma topic frame.body >>= λ peeled.
          done (both (stamp adapter_id dest (header (codes "message-id") frame)) peeled))
      else done (
          stamp adapter_id dest (header (codes "message-id") frame) (
            with_content_type (sniff_content_type frame.body (header (codes "content-type") frame))
              (new_envelope id (inbound_route_of calls frame topic) frame.body))
          ∷ [])

-- The headers of an envelope that go onto the wire.
abbrev is_kept : Text → Bool
is_kept k = not (text_eq k hdr_origin || text_eq k hdr_stomp_dest || starts_with (codes "stomp.") k)

-- The entries of a `BTreeMap` in the order in which it is gone through, which is that of its keys.
unfoldable placed : Text → Text → List Header → List Header
placed k v [] = (k, v) ∷ []
placed k v ((l, w) ∷ hs) =
    let rest = placed k v hs in if text_lt k l then (k, v) ∷ (l, w) ∷ hs else (l, w) ∷ rest

unfoldable pub in_key_order : Map Text Text → List Header
unfolding placed
in_key_order [] = []
in_key_order ((k, v) ∷ m) = placed k v (in_key_order m)

abbrev kept_of : List Header → List Header
unfolding strip_prefix starts_with
kept_of [] = []
kept_of ((k, v) ∷ hs) = let rest = kept_of hs in if is_kept k then (k, v) ∷ rest else rest

unfoldable pub kept_headers : Map Text Text → List Header
unfolding in_key_order kept_of
kept_headers headers = kept_of (in_key_order headers)

abbrev hint_header : Option Text → List Header
hint_header none = []
hint_header (some hint) = (hdr_type_hint, hint) ∷ []

unfoldable pub outbound_frame : Bodies → Text → DestinationMap → Envelope → Frame
unfolding to_stomp send_frame kept_headers
outbound_frame calls adapter_id map env =
    send_frame (to_stomp map env.route.topic)
      (((codes "content-type", env.content_type)
          ∷ (hdr_origin, adapter_id)
          ∷ (hdr_topic, env.route.topic)
          ∷ (hdr_id, calls.show_id env.id)
          ∷ [])
        ++ (hint_header env.route.type_hint ++ kept_headers env.headers))
      env.payload

-- `forward_outbound` up to its write: nothing for an echo.
unfoldable pub forward_outbound : Bodies → Config → Text → DestinationMap → Envelope → Option Frame
unfolding outbound_frame
forward_outbound calls config adapter_id map env =
    if config.suppress_echo && is_echo_of adapter_id env
    then none
    else some (outbound_frame calls adapter_id map env)

-- `handle_frame` but for its publishes: the envelopes of a MESSAGE, none of another frame.
unfoldable pub handle_frame :
    Bodies → Config → Text → DestinationMap → ℕ → Frame → Attempt (List Envelope)
unfolding inbound error_message
handle_frame calls config adapter_id map id frame =
    if text_eq frame.command (codes "MESSAGE")
    then inbound calls config adapter_id map id frame
    else if text_eq frame.command (codes "ERROR")
    then refused (codes "broker ERROR: " ++ error_message (codes "broker ERROR") frame)
    else done []
