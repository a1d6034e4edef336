-- ===== src/Stomp/Echo.antt =====
-- Between two gateways on one broker: what `forward_outbound` of crates/oa-gateway-stomp/src/adapter.rs
-- sends and what `inbound_publish` makes of it.
use oa_gateway.Prelude.{
  ℕ, ◌≡◌, ◌∙◌, refl, ap, sym, Bool, if◌then◌else◌, true, false, ◌&&◌, Option, none, some, List, [],
  ◌∷◌, All, Bool-cases, inl, inr, arith,
}
use oa_gateway.Prelude.Attempt.{Attempt, done, IfDone, bind-IfDone, or_refused}
use oa_gateway.Text.{Text, codes, text_eq, text_eq_iff, text_Eq}
use oa_gateway.Map.{insert, get-insert}
use oa_gateway.Engine.Types.{
  typed_route, Envelope, new_envelope, with_content_type, with_origin, with_header, hdr_origin,
  origin, is_echo_of, hint_eq, hdr_topic, hdr_type_hint,
}
use oa_gateway.Stomp.Frame.{Frame, Header, header, find_header, new_frame}
use oa_gateway.Stomp.Frame
use oa_gateway.Stomp.Client.{send_frame}
use oa_gateway.Stomp.Dest.{DestinationMap, to_stomp}
use oa_gateway.Stomp.Sniff.{Bodies, sniff_content_type}
use oa_gateway.Stomp.Adapter.{
  Config, stamp, with_message_id, inbound, inbound_topic, inbound_route_of, handle_frame,
  forward_outbound, outbound_frame, hdr_stomp_dest, hdr_message_id, both,
}

other_names :
    (text_eq hdr_stomp_dest hdr_origin ≡ false) × (text_eq hdr_message_id hdr_origin ≡ false)
unfolding text_eq
other_names = (refl, refl)

origin-with_message_id :
    (mid : Option Text) (env : Envelope) → origin (with_message_id mid env) ≡ origin env
unfolding origin
origin-with_message_id none env = refl
origin-with_message_id (some mid) env =
    ground (arith, get-insert hdr_message_id hdr_origin mid env.headers, other_names.1)

pub origin-stamp :
    (a dest : Text) (mid : Option Text) (env : Envelope) → origin (stamp a dest mid env) ≡ some a
unfolding origin stamp with_origin with_header
origin-stamp a dest mid env =
    let from_here = with_origin a env in
    origin-with_message_id mid
      (record from_here { headers = insert hdr_stomp_dest dest from_here.headers })
    ∙ ground (
      arith,
      get-insert hdr_stomp_dest hdr_origin dest from_here.headers,
      get-insert hdr_origin hdr_origin a env.headers,
      text_eq_iff hdr_origin hdr_origin,
      other_names.0,
    )

module _ (calls : Bodies) (config : Config) (a : Text) (map : DestinationMap) where
  -- What the adapter does not send.
  abbrev pub IsHeldBack : Envelope → Type 0
  IsHeldBack env = forward_outbound calls config a map env ≡ none

  stamp-IsHeldBack :
      (dest : Text) (mid : Option Text) (env : Envelope)
      → config.suppress_echo ≡ true
      → IsHeldBack (stamp a dest mid env)
  unfolding forward_outbound is_echo_of hint_eq
  stamp-IsHeldBack dest mid env on =
      rw (on, origin-stamp a dest mid env) (ground (arith, text_eq_iff a a))

  both-IsHeldBack :
      (dest : Text) (mid : Option Text) (envs : Envelope × Envelope)
      → config.suppress_echo ≡ true
      → All IsHeldBack (both (stamp a dest mid) envs)
  both-IsHeldBack dest mid (wrapper, inner) on =
      (stamp-IsHeldBack dest mid wrapper on, (stamp-IsHeldBack dest mid inner on, tt))

  inbound-IsHeldBack :
      (id : ℕ) (frame : Frame)
      → config.suppress_echo ≡ true
      → IfDone (All IsHeldBack) (inbound calls config a map id frame)
  unfolding inbound
  inbound-IsHeldBack id frame on =
      bind-IfDone (All IsHeldBack) (or_refused _ (header (codes "destination") frame)) _ (λ dest.
        bind-IfDone (All IsHeldBack) (inbound_topic map frame dest) _ (λ topic.
          elim (Bool-cases (config.unwrap_ma_payloads && calls.is_wrapper frame.body)) [
            | inl wrapped ↦ rw wrapped (
                bind-IfDone (All IsHeldBack) (calls.unwrap_ma topic frame.body) _
                  (λ peeled. both-IsHeldBack dest _ peeled on))
            | inr plain ↦ rw plain (
              stamp-IsHeldBack dest (header (codes "message-id") frame)
                  (with_content_type
                    (sniff_content_type frame.body (header (codes "content-type") frame))
                    (new_envelope id (inbound_route_of calls frame topic) frame.body))
                  on,
              tt,
            )
          ]))

  -- With `suppress_echo`, no envelope that the adapter makes of a broker's frame is sent back to the
  -- broker by the same adapter; this includes both envelopes of an A-GRA wrapper.
  pub handle_frame-IsHeldBack :
      (id : ℕ) (frame : Frame)
      → config.suppress_echo ≡ true
      → IfDone (All IsHeldBack) (handle_frame calls config a map id frame)
  unfolding handle_frame
  handle_frame-IsHeldBack id frame on =
      elim (Bool-cases (text_eq frame.command (codes "MESSAGE"))) [
        | inl message ↦ rw message (inbound-IsHeldBack id frame on)
        | inr other ↦ rw other (elim (Bool-cases (text_eq frame.command (codes "ERROR"))) [
          | inl error ↦ rw error tt
          | inr ignored ↦ rw ignored tt
        ])
      ]

-- What another gateway makes of a message: one envelope of the same route and payload, from itself.
abbrev pub IsSame : Text → Envelope → Attempt (List Envelope) → Type 0
IsSame b env (done (got ∷ [])) =
    (got.route ≡ env.route) × (got.payload ≡ env.payload) × (origin got ≡ some b)
IsSame b env _ = ⊥

stamp_frame :
    (a dest : Text) (mid : Option Text) (env : Envelope)
    → ((stamp a dest mid env).route ≡ env.route) × ((stamp a dest mid env).payload ≡ env.payload)
unfolding stamp with_origin with_header
stamp_frame a dest none env = (refl, refl)
stamp_frame a dest (some mid) env = (refl, refl)

stamp-IsSame :
    (a dest : Text) (mid : Option Text) (env got : Envelope)
    → got.route ≡ env.route
    → got.payload ≡ env.payload
    → IsSame a env (done (stamp a dest mid got ∷ []))
stamp-IsSame a dest mid env got route payload =
    let (same_route, same_payload) = stamp_frame a dest mid got in
    (same_route ∙ route, same_payload ∙ payload, origin-stamp a dest mid got)

-- A MESSAGE of the broker that carries what a SEND has: each of its headers, and its body.
pub record IsRelayed (send message : Frame) : Type 0 where
  pub command : message.command ≡ codes "MESSAGE"
  pub carried : (k v : Text) → header k send ≡ some v → header k message ≡ some v
  pub body : message.body ≡ send.body

is_message : text_eq (codes "MESSAGE") (codes "MESSAGE") ≡ true
unfolding text_eq
is_message = refl

if_sent {ℓ} :
    {A : Type ℓ} (test : Bool) (x y : A) → (if test then none else some x) ≡ some y → x ≡ y
if_sent true x y h = ground arith
if_sent false x y h = ground arith

module _ (calls : Bodies) (a : Text) (map : DestinationMap) (env : Envelope) where
  outbound_frame-destination :
      header (codes "destination") (outbound_frame calls a map env)
      ≡ some (to_stomp map env.route.topic)
  unfolding outbound_frame send_frame Frame.with_header new_frame header find_header text_eq
  outbound_frame-destination = refl

  outbound_frame-topic : header hdr_topic (outbound_frame calls a map env) ≡ some env.route.topic
  unfolding outbound_frame send_frame Frame.with_header new_frame header find_header text_eq
  outbound_frame-topic = refl

  outbound_frame-type_hint :
      (hint : Text)
      → env.route.type_hint ≡ some hint
      → header hdr_type_hint (outbound_frame calls a map env) ≡ some hint
  unfolding outbound_frame send_frame Frame.with_header new_frame header find_header text_eq
  outbound_frame-type_hint hint typed = rw typed refl

  outbound_frame-body : (outbound_frame calls a map env).body ≡ env.payload
  unfolding outbound_frame send_frame Frame.with_header new_frame
  outbound_frame-body = refl

module _ (calls : Bodies) (config config' : Config) (a b : Text) (map map' : DestinationMap) where
  -- When one gateway sends an envelope of a typed route as a SEND, and the broker gives another
  -- gateway, which does not unwrap, a MESSAGE with the headers and the body of the SEND, that gateway
  -- publishes one envelope of the same route and payload, stamped with its own id. The two may have
  -- different prefixes.
  pub handle_frame-forward_outbound :
      (id : ℕ) (env : Envelope) (topic : Text) (c : ℕ) (cs : Text) (send message : Frame)
      → env.route ≡ typed_route topic (c ∷ cs)
      → forward_outbound calls config a map env ≡ some send
      → IsRelayed send message
      → config'.unwrap_ma_payloads ≡ false
      → IsSame b env (handle_frame calls config' b map' id message)
  unfolding forward_outbound handle_frame inbound inbound_topic inbound_route_of
  handle_frame-forward_outbound id env topic c cs send message typed sends relayed off =
      let sent = if_sent _ (outbound_frame calls a map env) send sends in
      let reads : (k v : Text)
          → header k (outbound_frame calls a map env) ≡ some v
          → header k message ≡ some v =
        λ k v h. relayed.carried k v (ap (header k) (sym sent) ∙ h) in
      let dest = reads (codes "destination") _ (outbound_frame-destination calls a map env) in
      let at =
        reads hdr_topic _ (outbound_frame-topic calls a map env ∙ ap (λ r. some r.topic) typed) in
      let hint =
        reads hdr_type_hint _
          (outbound_frame-type_hint calls a map env (c ∷ cs) (ap (λ r. r.type_hint) typed)) in
      let body = relayed.body ∙ ap (λ f. f.body) (sym sent) ∙ outbound_frame-body calls a map env in
      rw (relayed.command, is_message, dest, at, hint, off)
        (stamp-IsSame b (to_stomp map env.route.topic) _ env _ (sym typed) body)
