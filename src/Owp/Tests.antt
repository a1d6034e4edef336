-- ===== src/Owp/Tests.antt =====
-- The OWP frames and a session on small inputs.
use oa_gateway.Prelude.{
  ℕ, ◌+◌, ◌≡◌, ◌≤◌, refl, true, false, none, some, List, [], ◌∷◌, arith, length, if◌then◌else◌,
}
use oa_gateway.Text.{Text, codes, text_eq}
use oa_gateway.Map.{get, insert, contains_key, set_extend}
use oa_gateway.Engine.{fetch_add, Channels, sent, new_engine}
use oa_gateway.Engine.Index.{insert_index, collect_targets, remove_subscription}
use oa_gateway.Map.Buckets.{bucket, add_to}
use oa_gateway.Text.Decimal.{print_usize}
use oa_gateway.Engine.Types.{key_eq, typed_route, key_Eq}
use oa_gateway.Engine.Consistent.{empty-IsConsistent, sub_key}
use oa_gateway.Owp.Errors.{
  illegal_argument, parse_error_text, illegal_state, owp_error, owp_error_iff, ok, is_identifier,
}
use oa_gateway.Owp.Codec.{
  acknowledge, SerdeJson, value, InitPayload, InfoPayload, publish, sub, parse_client, parse_server,
  server_text, failure, info,
}
use oa_gateway.Owp.Wire.{IsClientOp, parse_client-IsClientOp}
use oa_gateway.Owp.Grammar.{parse_client-client_text}
use oa_gateway.Owp.Printer.{parse_server-server_text}
use oa_gateway.Prelude.Attempt.{done, refused}
use oa_gateway.Owp.Session.{
  Config, Payloads, Conn, warn, awaiting_init, active, handle_text, clean_up, publish_owp, report,
  skip, cap,
}
use oa_gateway.Owp.Hex.{decode_hex, without_space, encode_hex_upper, decode_hex-encode_hex_upper}
use oa_gateway.Owp.Session.Seen.{report_lem, IsAnswer, after_reports}
use oa_gateway.Owp.Session.Publish.{publish_owp-IsWhole, IsWhole}
use oa_gateway.Owp.Session.CleanUp.{owns, get-clean_up}
use oa_gateway.Owp.Session.Keeps.{IsConn, handle_text-IsConn}
use oa_gateway.Owp.Session.Fifo.{IsFifo, all_queued, run_events-IsFifo}
use oa_gateway.Owp.Session.Run.{
  text, outgoing, closed, binary, Live, run_events, run_events-IsConn, ended, Event, forwarded,
}
use oa_gateway.Owp.Session.Start.{handle_text-IsUntouched, IsUntouched}

abbrev payload : InitPayload
payload = record {
  versions = codes "1.0" ∷ [];
  schema = codes "002.5.0";
  verbose = none;
  service_id = codes "svc";
}

abbrev served : InfoPayload
served = record {
  version = codes "1.0";
  server_id = codes "gw";
  uuids = record { system = codes "u1"; service = codes "u2"; subsystem = none };
  system_label = codes "demo";
}

-- A reader that knows one payload of each kind.
abbrev serde : SerdeJson
serde = record {
  init_from_str = λ s. value payload;
  info_from_str = λ s. value served;
  info_to_string = λ p. some (codes "{}");
  object_keys = λ s. value (some (codes "Ping" ∷ []));
}

abbrev calls : Payloads
calls = record {
  serde = serde;
  Schema = Unit {0};
  schema = none;
  is_wrapper = λ b. false;
  unwrap_ma = λ t b. refused [];
  looks_like_xml = λ b. false;
  xml_root_local_name = λ s. none;
  toward_xml = λ s env. done env;
  violations_of = λ b s m. [];
  summarize = λ vs. [];
  service_uuid = λ s. s;
}

abbrev config : Config
config = record {
  server_id = codes "gw";
  system_label = codes "demo";
  schema = some (codes "002.5.0");
  system_uuid = codes "u1";
  unwrap_ma_payloads = true;
  xml_baseline = false;
  max_subscriptions = 2;
  validate = warn;
}

abbrev sinks : Channels
sinks = record { Sender = ℕ; World = ℕ; try_send = λ tx d w. (w + 1, sent) }

abbrev opened : Conn ℕ ℕ
opened = record {
  state = awaiting_init;
  subs = [];
  warnings = record { unroutable = []; invalid = [] };
  out = [];
  engine = new_engine;
  world = 0;
}

abbrev begun : Conn ℕ ℕ
begun = record opened { state = active true (codes "svc") }

abbrev after : Text → Conn ℕ ℕ → Conn ℕ ℕ
after line conn = (handle_text sinks calls config (codes "owp") 7 1 0 line conn).0

codec : Unit {0}
unfolding is_identifier text_eq owp_error parse_client parse_server server_text
codec = tt

owp_error_iff_example : owp_error (codes "Illegal-State") ≡ ok illegal_state
owp_error_iff_example = (owp_error_iff (codes "Illegal-State") illegal_state).1 refl

parse_client-IsClientOp_example :
    IsClientOp (sub (codes "s1") (codes "Ping") (codes "demo.topic") (some (codes "workers")))
unfolding codec
parse_client-IsClientOp_example =
    parse_client-IsClientOp serde (codes "SUB  s1 Ping\tdemo.topic workers ") refl

parse_client-client_text_example :
    parse_client serde (codes "PUB demo.topic {\"Ping\": 1}")
    ≡ ok (publish (codes "demo.topic") (codes "{\"Ping\": 1}"))
unfolding codec
parse_client-client_text_example =
    parse_client-client_text serde [] (publish (codes "demo.topic") (codes "{\"Ping\": 1}"))
      (refl, (ground arith, refl)) tt

parse_server-server_text_example :
    (line : Text) × ((server_text serde (info served) ≡ some line)
      × (parse_server serde line ≡ ok (info served)))
parse_server-server_text_example =
    parse_server-server_text serde (info served) (codes "{}", refl, refl, ground arith, refl)

report_lem_example :
    let seen = typed_route (codes "a") (codes "Ping") ∷ [] in
    let (later, answer) = report (typed_route (codes "b") (codes "Ping")) seen in
    (length later ≤ cap)
    × IsAnswer (typed_route (codes "b") (codes "Ping")) seen later answer
    × ((report
          (typed_route (codes "b") (codes "Ping"))
          (after_reports (typed_route (codes "c") (codes "Ping") ∷ []) later)).1
        ≡ skip)
report_lem_example =
    report_lem (typed_route (codes "b") (codes "Ping"))
      (typed_route (codes "c") (codes "Ping") ∷ []) (typed_route (codes "a") (codes "Ping") ∷ [])
      (omega arith)

publish_owp-IsWhole_example :
    let (conn', result) =
      publish_owp sinks calls config
        (codes "owp")
        7
        1
        (codes "svc")
        (codes "demo")
        (codes "{}")
        begun in
    IsWhole sinks calls config (codes "owp") 7 (codes "{}") begun conn' result
publish_owp-IsWhole_example =
    publish_owp-IsWhole sinks calls config (codes "owp") 7 1 (codes "svc") (codes "demo")
      (codes "{}") begun

handle_text-IsConn_example : IsConn 2 (after (codes "SUB s1 Ping demo") begun)
handle_text-IsConn_example =
    handle_text-IsConn sinks calls config (codes "owp") 7 1 0 (codes "SUB s1 Ping demo") begun
      (record {
        begun = tt;
        distinct = tt;
        bounded = omega arith;
        warned = (omega arith, omega arith);
        consistent = empty-IsConsistent;
      })

handle_text-IsUntouched_example :
    IsUntouched sinks calls config
      (codes "owp")
      7
      (parse_client serde (codes "PUB demo {}"))
      opened
      (after (codes "PUB demo {}") opened)
handle_text-IsUntouched_example =
    handle_text-IsUntouched sinks calls config (codes "owp") 7 1 0 (codes "PUB demo {}") opened refl

get-clean_up_example :
    let conn = after (codes "SUB s1 Ping demo") begun in
    get
      (sub_key (codes "owp") (codes "7:s1"))
      (clean_up sinks calls config (codes "owp") 7 conn).engine.state.by_key
    ≡ (if owns (codes "owp") conn.subs (sub_key (codes "owp") (codes "7:s1"))
        then none
        else get (sub_key (codes "owp") (codes "7:s1")) conn.engine.state.by_key)
get-clean_up_example =
    get-clean_up sinks calls config (codes "owp") 7 (after (codes "SUB s1 Ping demo") begun)
      (sub_key (codes "owp") (codes "7:s1"))

session : Unit {0}
unfolding codec handle_text clean_up fetch_add contains_key collect_targets set_extend bucket
    insert_index insert add_to key_eq print_usize parse_error_text remove_subscription
session = tt

init_begins : (after (codes "INIT {}") opened).state ≡ active true (codes "svc")
unfolding session
init_begins = refl

publish_counted : (after (codes "PUB demo {}") begun).engine.stats.published ≡ 1
unfolding session
publish_counted = refl

third_refused :
    let two = after (codes "SUB s2 Pong demo") (after (codes "SUB s1 Ping demo") begun) in
    (length two.subs ≡ 2) × ((after (codes "SUB s3 Ping demo") two).subs ≡ two.subs)
unfolding session
third_refused = (refl, refl)

delivered : (after (codes "PUB demo {}") (after (codes "SUB s1 Ping demo") begun)).world ≡ 1
unfolding session
delivered = refl

bad_frame :
    (after (codes "SUB s/1 Ping demo") begun).out
    ≡ failure illegal_argument (some (codes "SUB: 'sid' value 's/1' is not an OWP identifier")) ∷ []
unfolding session
bad_frame = refl

ends_clean :
    (clean_up sinks calls config
      (codes "owp")
      7
      (after (codes "SUB s1 Ping demo") begun)).engine.state.by_key
    ≡ []
unfolding session
ends_clean = refl

abbrev live : Live ℕ ℕ
live = record { conn = opened; written = [] }

run_events-IsConn_example :
    IsConn 2
      (run_events sinks calls config
        (codes "owp")
        7
        (text 1 0 (codes "INIT {}")
          ∷ outgoing true
          ∷ text 2 0 (codes "SUB s1 Ping demo")
          ∷ closed
          ∷ [])
        live).conn
run_events-IsConn_example =
    run_events-IsConn sinks calls config (codes "owp") 7
      (text 1 0 (codes "INIT {}")
        ∷ outgoing true
        ∷ text 2 0 (codes "SUB s1 Ping demo")
        ∷ closed
        ∷ [])
      live
      (record {
        begun = refl;
        distinct = tt;
        bounded = omega arith;
        warned = (omega arith, omega arith);
        consistent = empty-IsConsistent;
      })

abbrev refused_publish : List (Event ℕ)
refused_publish = text 1 0 (codes "PUB demo {}") ∷ outgoing true ∷ []

run_events-IsFifo_example :
    let events = forwarded acknowledge ∷ outgoing true ∷ refused_publish in
    IsFifo
      (all_queued sinks calls config (codes "owp") 7 events live)
      live
      (run_events sinks calls config (codes "owp") 7 events live)
run_events-IsFifo_example =
    run_events-IsFifo sinks calls config (codes "owp") 7
      (forwarded acknowledge ∷ outgoing true ∷ refused_publish) live

-- The answer to what ends the session stays in the queue.
unanswered_text : (run_events sinks calls config (codes "owp") 7 refused_publish live).written ≡ []
unfolding session run_events ended
unanswered_text = refl

unanswered_binary :
    (run_events sinks calls config (codes "owp") 7 (binary ∷ outgoing true ∷ []) live).written ≡ []
unfolding session run_events ended
unanswered_binary = refl

decode_hex-encode_hex_upper_example :
    decode_hex (λ b. b ∷ []) (codes "0A FF") ≡ done (10 ∷ 255 ∷ [])
unfolding without_space encode_hex_upper
decode_hex-encode_hex_upper_example =
    decode_hex-encode_hex_upper (λ b. b ∷ []) (10 ∷ 255 ∷ []) (codes "0A FF")
      (omega arith, (omega arith, tt)) refl
