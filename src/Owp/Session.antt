-- ===== src/Owp/Session.antt =====
-- crates/oa-gateway-owp/src/session.rs: the handlers of one connection. The UUID of an envelope and
-- the channel of a subscription are arguments of the frame that makes them. The forwarder task that a
-- SUB starts and the log lines are left out.
pub mod Seen
pub mod Publish
pub mod CleanUp
pub mod Keeps
pub mod Start
pub mod Run
pub mod Queued
pub mod Fifo
use oa_gateway.Prelude.{
  ℕ, zero, suc, ◌≡◌, Bool, true, false, not, ◌&&◌, ◌||◌, Option, none, some, List, [], ◌∷◌, ◌++◌,
  if◌then◌else◌, leb, ◌==◌, length,
}
use oa_gateway.Prelude.Attempt.{Attempt, done, refused, ◌>>=◌, or_refused}
use oa_gateway.Text.{Text, Bytes, codes, text_eq, text_Eq}
use oa_gateway.Text.Decimal.{print_usize}
use oa_gateway.Map.{Set, Map, contains, set_insert, get, insert, remove, contains_key}
use oa_gateway.Engine.{Channels, Engine, is_err, subscribe, unsubscribe, publish}
use oa_gateway.Engine.Types.{
  RouteKey, typed_route, route_Eq, Envelope, new_envelope, with_content_type, with_header, json,
  xml,
}
use oa_gateway.Owp.Errors.{
  OwpError, unsupported_version, unsupported_schema, illegal_operation, illegal_argument,
  illegal_state, internal_error, invalid_message, parse_error_text, Result, ok, err,
}
use oa_gateway.Owp.Codec.{
  ClientOp, InitPayload, InfoPayload, ServerOp, acknowledge, failure, info, SerdeJson, parse_client,
  type_hint_from_json,
}

pub data Mode : Type 0 where
  off warn reject : Mode

-- The part of `OwpConfig` that a session reads.
pub record Config : Type 0 where
  pub server_id : Text
  pub system_label : Text
  pub schema : Option Text
  pub system_uuid : Text
  pub unwrap_ma_payloads : Bool
  pub xml_baseline : Bool
  pub max_subscriptions : ℕ
  pub validate : Mode

abbrev pub attempt {ℓ} : {A : Type ℓ} → Result A → Attempt A
attempt (ok a) = done a
attempt (err e) = refused (parse_error_text e)

-- What the session calls in `serde_json`, `uuid` and the crates oa-gateway-agra and oa-gateway-uci.
pub record Payloads : Type 1 where
  pub serde : SerdeJson
  pub Schema : Type 0
  pub schema : Option Schema
  pub is_wrapper : Bytes → Bool
  pub unwrap_ma : Text → Bytes → Attempt (Envelope × Envelope)
  pub looks_like_xml : Bytes → Bool
  pub xml_root_local_name : Text → Option Text
  pub toward_xml : Schema → Envelope → Attempt Envelope
  pub violations_of : Bytes → Option Schema → Mode → List Text
  pub summarize : List Text → Text
  pub service_uuid : Text → Text

-- `State` of a session.
pub data State : Type 0 where
  awaiting_init : State
  active : Bool → Text → State

pub data Report : Type 0 where
  fresh final skip : Report

abbrev pub cap : ℕ
cap = 64

-- `SeenRoutes::report`
unfoldable pub report : RouteKey → Set RouteKey → Set RouteKey × Report
report route seen =
    if leb cap (length seen) || contains route seen
    then (seen, skip)
    else (let later = set_insert route seen in
        (later, if length later == cap then final else fresh))

-- `RouteWarnings`
pub record RouteWarnings : Type 0 where
  pub unroutable : Set RouteKey
  pub invalid : Set RouteKey

-- A connection and the engine that it publishes through. `subs` holds the engine's id of each sid;
-- `out` is the queue of frames that are not yet written.
pub record Conn (Sender World : Type 0) : Type 0 where
  pub state : State
  pub subs : Map Text Text
  pub warnings : RouteWarnings
  pub out : List ServerOp
  pub engine : Engine Sender
  pub world : World

pub data Flow : Type 0 where
  stay close : Flow

abbrev pub err_op : OwpError → Option Text → ServerOp
err_op e details = failure e details

unfoldable pub lists_version : List Text → Bool
lists_version [] = false
lists_version (v ∷ vs) = text_eq v (codes "1.0") || lists_version vs

abbrev pub schema_agrees : Option Text → Text → Bool
schema_agrees none s = true
schema_agrees (some expected) s = text_eq s expected

-- `negotiate`; none is success.
unfoldable pub negotiate : Config → InitPayload → Option OwpError
unfolding lists_version
negotiate config init =
    if not (lists_version init.versions)
    then some unsupported_version
    else if schema_agrees config.schema init.schema
    then none
    else some unsupported_schema

abbrev pub or_true : Option Bool → Bool
or_true none = true
or_true (some b) = b

abbrev pub onto_ready :
    Envelope → Set RouteKey × Attempt (List Envelope) → Set RouteKey × Attempt (List Envelope)
onto_ready env (invalid, refused e) = (invalid, refused e)
onto_ready env (invalid, done envs) = (invalid, done (env ∷ envs))

module _ {S W : Type 0} where
  unfoldable pub send : ServerOp → Conn S W → Conn S W
  send op conn = record conn { out = conn.out ++ (op ∷ []) }

  -- The `+OK` of a verbose session.
  unfoldable pub send_ok : Bool → Conn S W → Conn S W
  unfolding send
  send_ok verbose conn = if verbose then send acknowledge conn else conn

  -- The answer of `handle_pub` to its publish.
  unfoldable pub answer_pub : Bool → Conn S W × Attempt (Unit {0}) → Conn S W × Flow
  unfolding send send_ok
  answer_pub verbose (conn, done _) = (send_ok verbose conn, stay)
  answer_pub verbose (conn, refused e) = (send (err_op invalid_message (some e)) conn, stay)

module _ (c : Channels) (calls : Payloads) (config : Config) (adapter_id : Text) (conn_id : ℕ) where
  open c use {Sender, World}

  abbrev pub Connection : Type 0
  Connection = Conn Sender World

  unfoldable pub info_payload : InitPayload → InfoPayload
  info_payload init = record {
    version = codes "1.0";
    server_id = config.server_id;
    uuids = record {
      system = config.system_uuid;
      service = calls.service_uuid init.service_id;
      subsystem = none;
    };
    system_label = config.system_label;
  }

  unfoldable pub handle_init : InitPayload → Connection → Connection × Flow
  unfolding negotiate info_payload send send_ok
  handle_init init conn = elim (negotiate config init) [
    | some error ↦ (send (err_op error none) conn, close)
    | none ↦
        let verbose = or_true init.verbose in
        (
          record (send (info (info_payload init)) (send_ok verbose conn)) {
            state = active verbose init.service_id;
          },
          stay,
        )
  ]

  unfoldable pub stamp : Text → Envelope → Envelope
  unfolding with_header
  stamp service_id env =
      with_header (codes "owp.conn_id") (print_usize conn_id)
        (with_header (codes "owp.service_id") service_id env)

  -- The type hint of a payload that is no wrapper.
  unfoldable pub hint_of : Text → Attempt Text
  unfolding type_hint_from_json
  hint_of payload =
      if calls.looks_like_xml payload
      then or_refused (codes "XML payload has no element to take a type from")
          (calls.xml_root_local_name payload)
      else attempt (type_hint_from_json calls.serde payload)

  -- The envelopes of a publish, before any check.
  unfoldable pub outgoing : ℕ → Text → Text → Attempt (List Envelope)
  unfolding hint_of new_envelope with_content_type
  outgoing id topic payload =
      if config.unwrap_ma_payloads && calls.is_wrapper payload
      then (calls.unwrap_ma topic payload >>= λ (wrapper, inner). done (wrapper ∷ inner ∷ []))
      else (hint_of payload >>= λ hint. done (
          with_content_type (if calls.looks_like_xml payload then xml else json)
            (new_envelope id (typed_route topic hint) payload)
          ∷ []))

  unfoldable pub converted : Envelope → Attempt Envelope
  converted env =
      if config.xml_baseline
      then (or_refused (codes "owp.xml_baseline is enabled but no UCI schema is loaded")
            calls.schema
          >>= λ schema. calls.toward_xml schema env)
      else done env

  -- A payload's violations: an error under `reject`, else remembered for the log.
  unfoldable pub judged : Mode → List Text → RouteKey → Set RouteKey → Attempt (Set RouteKey)
  unfolding report
  judged mode [] route invalid = done invalid
  judged reject (v ∷ vs) route invalid =
      refused (codes "payload does not follow the UCI schema: " ++ calls.summarize (v ∷ vs))
  judged warn (v ∷ vs) route invalid = done (report route invalid).0
  judged off (v ∷ vs) route invalid = done (report route invalid).0

  -- The loop that converts, checks and stamps, with the `invalid` tracker beside its result: a
  -- refusal keeps what the envelopes before it have put there.
  unfoldable pub ready_judged :
      Text
      → (Set RouteKey → Set RouteKey × Attempt (List Envelope))
      → Envelope
      → Set RouteKey
      → Attempt (Set RouteKey)
      → Set RouteKey × Attempt (List Envelope)
  unfolding stamp
  ready_judged service_id rest env invalid (refused e) = (invalid, refused e)
  ready_judged service_id rest env invalid (done invalid') =
      onto_ready (stamp service_id env) (rest invalid')

  unfoldable pub ready_from :
      Text
      → (Set RouteKey → Set RouteKey × Attempt (List Envelope))
      → Set RouteKey
      → Attempt Envelope
      → Set RouteKey × Attempt (List Envelope)
  unfolding ready_judged judged
  ready_from service_id rest invalid (refused e) = (invalid, refused e)
  ready_from service_id rest invalid (done env) = ready_judged service_id rest env invalid (
      judged config.validate (calls.violations_of env.payload calls.schema config.validate)
        env.route invalid)

  unfoldable pub make_ready :
      Text → List Envelope → Set RouteKey → Set RouteKey × Attempt (List Envelope)
  unfolding converted ready_from
  make_ready service_id [] invalid = (invalid, done [])
  make_ready service_id (env ∷ envs) invalid =
      ready_from service_id (make_ready service_id envs) invalid (converted env)

  -- One round of the loop that publishes.
  unfoldable pub publish_one : Envelope → Connection → Connection
  unfolding report publish
  publish_one env conn =
      let (engine, world, outcome) = publish c env conn.engine conn.world in
      record conn {
        engine = engine;
        world = world;
        warnings = record (conn.warnings) {
          unroutable =
              if outcome.matched == 0
              then (report env.route conn.warnings.unroutable).0
              else conn.warnings.unroutable;
        };
      }

  unfoldable pub publish_each : List Envelope → Connection → Connection
  unfolding publish_one
  publish_each [] conn = conn
  publish_each (env ∷ envs) conn = publish_each envs (publish_one env conn)

  unfoldable pub publish_ready :
      Connection → Set RouteKey × Attempt (List Envelope) → Connection × Attempt (Unit {0})
  unfolding publish_each
  publish_ready conn (invalid, refused e) =
      (record conn { warnings = record (conn.warnings) { invalid = invalid } }, refused e)
  publish_ready conn (invalid, done envs) = (
    publish_each envs (record conn { warnings = record (conn.warnings) { invalid = invalid } }),
    done tt,
  )

  unfoldable pub publish_from :
      Text → Connection → Attempt (List Envelope) → Connection × Attempt (Unit {0})
  unfolding make_ready publish_ready
  publish_from service_id conn (refused e) = (conn, refused e)
  publish_from service_id conn (done envs) =
      publish_ready conn (make_ready service_id envs conn.warnings.invalid)

  unfoldable pub publish_owp : ℕ → Text → Text → Text → Connection → Connection × Attempt (Unit {0})
  unfolding outgoing publish_from
  publish_owp id service_id topic payload conn =
      publish_from service_id conn (outgoing id topic payload)

  unfoldable pub handle_pub : ℕ → Bool → Text → Text → Text → Connection → Connection × Flow
  unfolding publish_owp answer_pub
  handle_pub id verbose service_id topic payload conn =
      answer_pub verbose (publish_owp id service_id topic payload conn)

  abbrev pub engine_sub : Text → Text
  engine_sub sid = print_usize conn_id ++ (b':' ∷ sid)

  unfoldable pub handle_sub : Sender → Bool → Text → Text → Text → Connection → Connection × Flow
  unfolding send send_ok subscribe
  handle_sub tx verbose sid message_name topic conn =
      if contains_key sid conn.subs
      then (send (err_op illegal_argument (some (codes "duplicate sid"))) conn, stay)
      else if leb config.max_subscriptions (length conn.subs)
      then (send (err_op illegal_state (some (codes "subscription limit reached"))) conn, stay)
      else (let (engine_state, result) =
            subscribe adapter_id (engine_sub sid) (typed_route topic message_name) tx
              conn.engine.state in
          if is_err result
          then (send (err_op internal_error (some (codes "subscribe failed"))) conn, stay)
          else (
            send_ok verbose (record conn {
              engine = record (conn.engine) { state = engine_state };
              subs = insert sid (engine_sub sid) conn.subs;
            }),
            stay,
          ))

  unfoldable pub unsubscribed : Text → Connection → Connection
  unfolding unsubscribe
  unsubscribed sub_id conn = record conn {
    engine = record (conn.engine) { state = (unsubscribe adapter_id sub_id conn.engine.state).0 };
  }

  unfoldable pub handle_unsub : Bool → Text → Connection → Connection × Flow
  unfolding unsubscribed send send_ok
  handle_unsub verbose sid conn = elim (get sid conn.subs) [
    | none ↦ (send (err_op illegal_argument (some (codes "unknown sid"))) conn, stay)
    | some sub_id ↦
        (send_ok verbose (unsubscribed sub_id (record conn { subs = remove sid conn.subs })), stay)
  ]

  -- An operation in a state of the session.
  unfoldable pub handle_op : ℕ → Sender → State → ClientOp → Connection → Connection × Flow
  unfolding handle_init handle_pub handle_sub handle_unsub send
  handle_op id tx awaiting_init (ClientOp.init payload) conn = handle_init payload conn
  handle_op id tx awaiting_init _ conn =
      (send (err_op illegal_state (some (codes "INIT must be the first operation"))) conn, close)
  handle_op id tx (active verbose service_id) (ClientOp.init payload) conn =
      (send (err_op illegal_state (some (codes "duplicate INIT"))) conn, close)
  handle_op id tx (active verbose service_id) (ClientOp.publish topic payload) conn =
      handle_pub id verbose service_id topic payload conn
  handle_op id tx (active verbose service_id) (ClientOp.sub sid message_name topic group) conn =
      handle_sub tx verbose sid message_name topic conn
  handle_op id tx (active verbose service_id) (ClientOp.unsub sid) conn =
      handle_unsub verbose sid conn

  unfoldable pub handle_text : ℕ → Sender → Text → Connection → Connection × Flow
  unfolding handle_op parse_client send
  handle_text id tx text conn = elim (parse_client calls.serde text) [
    | err e ↦ (send (err_op illegal_argument (some (parse_error_text e))) conn, stay)
    | ok op ↦ handle_op id tx conn.state op conn
  ]

  -- The loop of `run` after its end: each live subscription is taken out of the engine.
  unfoldable pub unsubscribe_all : Map Text Text → Connection → Connection
  unfolding unsubscribed
  unsubscribe_all [] conn = conn
  unsubscribe_all ((sid, sub_id) ∷ subs) conn = unsubscribe_all subs (unsubscribed sub_id conn)

  unfoldable pub clean_up : Connection → Connection
  unfolding unsubscribe_all
  clean_up conn = unsubscribe_all conn.subs (record conn { subs = [] })
