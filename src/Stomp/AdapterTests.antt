-- ===== src/Stomp/AdapterTests.antt =====
-- The STOMP client and adapter on small inputs.
use oa_gateway.Prelude.{
  ℕ, ◌+◌, ◌≡◌, refl, true, false, none, some, List, [], ◌∷◌, ◌++◌, arith, map, All, take, drop,
}
use oa_gateway.Prelude.Attempt.{refused, IfDone}
use oa_gateway.Text.{Text, Bytes, codes, text_eq}
use oa_gateway.Text.Decimal.{print_usize}
use oa_gateway.Text.Utf8.{is_utf8}
use oa_gateway.Map.{get, insert, contains_key}
use oa_gateway.Engine.{Channels, sent, new_engine}
use oa_gateway.Engine.Types.{
  Envelope, typed_route, topic_route, is_echo_of, key_eq, SubscriberKey, key_Eq,
}
use oa_gateway.Engine.Consistent.{empty-IsConsistent, sub_key}
use oa_gateway.Stomp.Frame.{Frame, Header, header, find_header, encode, escape, has_length}
use oa_gateway.Stomp.Decode.{ok, has_nul}
use oa_gateway.Stomp.RoundTrip.{as_read}
use oa_gateway.Stomp.Client.{bytes, recv_many}
use oa_gateway.Stomp.Reading.{IsSendable, recv_many-encode_all}
use oa_gateway.Stomp.Dest.{default_map, strip_prefix}
use oa_gateway.Stomp.Sniff.{Bodies}
use oa_gateway.Stomp.Adapter.{
  Config, handle_frame, outbound_frame, forward_outbound, kept_headers, in_key_order,
}
use oa_gateway.Stomp.Echo.{
  IsHeldBack, handle_frame-IsHeldBack, IsSame, IsRelayed, handle_frame-forward_outbound,
}
use oa_gateway.Stomp.Session.{
  Live, incoming, delivery, shutdown, session, subscribe_each, and_then, drop_subs,
}
use oa_gateway.Stomp.Confined.{without, IsStep}
use oa_gateway.Stomp.Cleared.{session-IsStep, get-session}

abbrev ping_frame : Frame
ping_frame = record {
  command = codes "MESSAGE";
  headers = (codes "destination", codes "/topic/demo") ∷ (codes "oag.type_hint", codes "Ping") ∷ [];
  body = codes "hi";
}

codec : Unit {0}
unfolding encode escape print_usize is_utf8 text_eq has_length has_nul
codec = tt

ping_frame-IsSendable : IsSendable 100 ping_frame
unfolding codec
ping_frame-IsSendable = record {
  encodable = record {
    command_line = (ground arith, ground arith);
    command_clear = record { utf8 = refl; no_nul = refl };
    headers_clear = (
      (record { utf8 = refl; no_nul = refl }, record { utf8 = refl; no_nul = refl }),
      ((record { utf8 = refl; no_nul = refl }, record { utf8 = refl; no_nul = refl }), tt),
    );
    no_length = refl;
    body_fits = omega arith;
  };
  head_fits = omega arith;
  body_fits = omega arith;
  size_fits = omega arith;
}

-- The broker's bytes, in two reads.
abbrev halves : List Bytes
halves = take 20 (encode ping_frame) ∷ drop 20 (encode ping_frame) ∷ []

recv_many-encode_all_example :
    (recv_many 100 1 (map bytes halves) []).2 ≡ ok (as_read ping_frame ∷ [])
unfolding codec
recv_many-encode_all_example =
    recv_many-encode_all 100 (ping_frame ∷ []) halves [] (ping_frame-IsSendable, tt)
      (ground arith, (ground arith, tt)) refl

abbrev calls : Bodies
calls = record {
  object_keys = λ t. none;
  xml_root_local_name = λ t. none;
  is_wrapper = λ b. false;
  unwrap_ma = λ t b. refused (codes "no wrapper");
  show_id = λ n. print_usize n;
}

abbrev config : Config
config = record {
  destination_prefix = codes "/topic";
  topics = codes "demo" ∷ [];
  unwrap_ma_payloads = false;
  suppress_echo = true;
}

abbrev stomp : Text
stomp = codes "stomp"

handle_frame-IsHeldBack_example :
    IfDone
      (All (IsHeldBack calls config stomp default_map))
      (handle_frame calls config stomp default_map 7 ping_frame)
handle_frame-IsHeldBack_example =
    handle_frame-IsHeldBack calls config stomp default_map 7 ping_frame refl

abbrev ping : Envelope
ping = record {
  id = 3;
  route = typed_route (codes "demo") (codes "Ping");
  headers = [];
  content_type = codes "application/json";
  payload = codes "hi";
}

find_header-append :
    (k v : Text) (hs more : List Header)
    → find_header k hs ≡ some v
    → find_header k (hs ++ more) ≡ some v
unfolding find_header
find_header-append k v [] more h = ground arith
find_header-append k v ((l, w) ∷ hs) more h = ground (arith, h, find_header-append k v hs more)

abbrev ping_send : Frame
unfolding outbound_frame
ping_send = outbound_frame calls stomp default_map ping

-- What the broker makes of the SEND: its headers, an id of its own, its body.
abbrev ping_message : Frame
ping_message = record {
  command = codes "MESSAGE";
  headers = ping_send.headers ++ (codes "message-id", codes "m-1") ∷ [];
  body = ping_send.body;
}

ping_message-IsRelayed : IsRelayed ping_send ping_message
unfolding header
ping_message-IsRelayed = record {
  command = refl;
  carried =
      λ k v h. find_header-append k v ping_send.headers ((codes "message-id", codes "m-1") ∷ []) h;
  body = refl;
}

handle_frame-forward_outbound_example :
    IsSame
      (codes "other")
      ping
      (handle_frame calls config (codes "other") default_map 9 ping_message)
unfolding forward_outbound outbound_frame is_echo_of get
handle_frame-forward_outbound_example =
    handle_frame-forward_outbound calls config config stomp (codes "other") default_map default_map
      9 ping (codes "demo") b'P' (codes "ing") ping_send ping_message refl refl
      ping_message-IsRelayed refl

-- The headers of an envelope are sent in the order of their keys, those of the gateway left out.
in_order :
    kept_headers
      ((codes "b", codes "1") ∷ (codes "stomp.x", codes "2") ∷ (codes "a", codes "3") ∷ [])
    ≡ (codes "a", codes "3") ∷ (codes "b", codes "1") ∷ []
unfolding kept_headers in_key_order text_eq strip_prefix
in_order = refl

abbrev sinks : Channels
sinks = record { Sender = ℕ; World = ℕ; try_send = λ tx d w. (w + 1, sent) }

abbrev fresh : Live ℕ ℕ
fresh = record { engine = new_engine; world = 0; written = []; faults = [] }

session-IsStep_example :
    IsStep stomp fresh
      (session sinks calls config stomp 5 (incoming 7 ping_frame ∷ delivery ping ∷ []) fresh).0
session-IsStep_example =
    session-IsStep sinks calls config stomp 5 (incoming 7 ping_frame ∷ delivery ping ∷ []) fresh
      empty-IsConsistent

abbrev first_key : SubscriberKey
first_key = sub_key stomp (codes "stomp-out-0")

get-session_example :
    get first_key
      (session sinks calls config stomp 5
        (incoming 7 ping_frame ∷ shutdown ∷ [])
        fresh).0.engine.state.by_key
    ≡ without stomp first_key (get first_key fresh.engine.state.by_key)
unfolding subscribe_each and_then drop_subs contains_key
get-session_example =
    get-session sinks calls config stomp 5 (incoming 7 ping_frame ∷ shutdown ∷ []) fresh first_key
      empty-IsConsistent refl

-- When the second SUBSCRIBE cannot be written, the first subscription stays in the engine.
leftover :
    get first_key
      (session sinks calls
        (record config { topics = codes "a" ∷ codes "b" ∷ [] })
        stomp
        5
        []
        (record fresh { faults = none ∷ some (codes "broken pipe") ∷ [] })).0.engine.state.by_key
    ≡ some (record { route = topic_route (codes "a"); tx = 5 })
unfolding session get and_then contains_key insert key_eq text_eq print_usize
leftover = refl
