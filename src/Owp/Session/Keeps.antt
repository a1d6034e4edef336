-- ===== src/Owp/Session/Keeps.antt =====
-- What every frame keeps of a connection: crates/oa-gateway-owp/src/session.rs.
use oa_gateway.Prelude.{
  ℕ, ◌≡◌, ◌≤◌, ◌<◌, refl, Bool, true, false, none, some, List, [], ◌∷◌, arith, length, leb,
  if◌then◌else◌, ◌⊎◌, Bool-cases, Option-cases, inl, inr,
}
use oa_gateway.Text.{Text, text_Eq}
use oa_gateway.Map.{Map, Set, get, insert, contains_key}
use oa_gateway.Map.Sizes.{
  HasDistinctKeys, insert-HasDistinctKeys, remove-HasDistinctKeys, length-insert_new, length-remove,
}
use oa_gateway.Engine.{Channels, subscribe, is_err, publish}
use oa_gateway.Engine.Index.{State}
use oa_gateway.Engine.Consistent.{IsConsistent}
use oa_gateway.Engine.Types.{RouteKey, Envelope, typed_route}
use oa_gateway.Engine.Operations.{subscribe-IsConsistent, unsubscribe-IsConsistent}
use oa_gateway.Owp.Codec.{ClientOp, InitPayload, parse_client}
use oa_gateway.Owp.Errors.{ok, err, Result, ParseError}
use oa_gateway.Owp.Session
use oa_gateway.Prelude.Attempt.{Attempt, done, refused}
use oa_gateway.Owp.Session.{
  Config, Payloads, Conn, RouteWarnings, off, warn, reject, or_true, answer_pub, awaiting_init,
  active, cap, report, send, send_ok, negotiate, handle_init, handle_pub, handle_sub, handle_unsub,
  handle_op, handle_text, engine_sub, unsubscribed, judged, publish_one, publish_each,
  publish_ready, publish_from, publish_owp, make_ready, ready_from, ready_judged, onto_ready, stamp,
  outgoing,
}
use oa_gateway.Owp.Session.Seen.{report-IsAnswer}

-- A connection that has not begun holds no subscription.
abbrev pub IsBegun : Session.State → Map Text Text → Type 0
IsBegun awaiting_init subs = subs ≡ []
IsBegun (active verbose service_id) subs = Unit

abbrev pub IsBounded : RouteWarnings → Type 0
IsBounded w = (length w.unroutable ≤ cap) × (length w.invalid ≤ cap)

-- The invariant of a connection, over the parts of it that frames change.
pub record IsKept (S : Type 0) (max : ℕ) (st : Session.State) (subs : Map Text Text)
    (w : RouteWarnings) (e : State S) : Type 0 where
  pub begun : IsBegun st subs
  pub distinct : HasDistinctKeys subs
  pub bounded : length subs ≤ max
  pub warned : IsBounded w
  pub consistent : IsConsistent e

abbrev pub IsConn : {S W : Type 0} → ℕ → Conn S W → Type 0
IsConn {S} max conn = IsKept S max conn.state conn.subs conn.warnings conn.engine.state

send_ok-IsConn :
    {S W : Type 0} (max : ℕ) (verbose : Bool) (conn : Conn S W)
    → IsConn max conn
    → IsConn max (send_ok verbose conn)
unfolding send_ok send
send_ok-IsConn max true conn v = v
send_ok-IsConn max false conn v = v

report-bounded :
    (r : RouteKey) (seen : Set RouteKey) → length seen ≤ cap → length (report r seen).0 ≤ cap
report-bounded r seen h = (report-IsAnswer r seen h).0

if-bounded :
    (b : Bool) (xs ys : Set RouteKey)
    → length xs ≤ cap
    → length ys ≤ cap
    → length (if b then xs else ys) ≤ cap
if-bounded true xs ys h k = h
if-bounded false xs ys h k = k

pub Parsed-cases :
    (r : Result ClientOp) → ((e : ParseError) × (r ≡ err e)) ⊎ ((op : ClientOp) × (r ≡ ok op))
Parsed-cases (ok op) = inr (op, refl)
Parsed-cases (err e) = inl (e, refl)

contains_key-none : (k : Text) (m : Map Text Text) → get k m ≡ none → contains_key k m ≡ false
unfolding contains_key
contains_key-none k m h = rw (h, contains_key)

contains_key-some :
    (k : Text) (m : Map Text Text) {v : Text} → get k m ≡ some v → contains_key k m ≡ true
unfolding contains_key
contains_key-some k m h = rw (h, contains_key)

begun_of :
    {S : Type 0} {max : ℕ} {st : Session.State} {subs : Map Text Text} {w : RouteWarnings}
    {e : State S} (verbose : Bool) (service_id : Text)
    → IsKept S max st subs w e
    → IsKept S max (active verbose service_id) subs w e
begun_of verbose service_id v = record {
  begun = tt;
  distinct = v.distinct;
  bounded = v.bounded;
  warned = v.warned;
  consistent = v.consistent;
}

rewarned :
    {S W : Type 0} {max : ℕ} (conn : Conn S W) (invalid : Set RouteKey)
    → IsConn max conn
    → length invalid ≤ cap
    → IsConn max (record conn { warnings = record (conn.warnings) { invalid = invalid } })
rewarned conn invalid v h = record {
  begun = v.begun;
  distinct = v.distinct;
  bounded = v.bounded;
  warned = (v.warned.0, h);
  consistent = v.consistent;
}

module _ (c : Channels) (calls : Payloads) (config : Config) (adapter_id : Text) (conn_id : ℕ) where
  open c use {Sender, World}

  handle_init-IsConn :
      (init : InitPayload) (conn : Conn Sender World)
      → IsConn config.max_subscriptions conn
      → IsConn config.max_subscriptions (handle_init c calls config adapter_id conn_id init conn).0
  unfolding handle_init send send_ok
  handle_init-IsConn init conn v = elim (Option-cases (negotiate config init)) [
    | inl e ↦
        rw (e, handle_init)
          (begun_of (or_true init.verbose) init.service_id
            (send_ok-IsConn config.max_subscriptions (or_true init.verbose) conn v))
    | inr (error, e) ↦ rw (e, handle_init) v
  ]

  abbrev IsBoundedAttempt : Attempt (Set RouteKey) → Type 0
  IsBoundedAttempt (refused e) = Unit
  IsBoundedAttempt (done seen) = length seen ≤ cap

  judged-bounded :
      (m : Session.Mode) (vs : List Text) (r : RouteKey) (invalid : Set RouteKey)
      → length invalid ≤ cap
      → IsBoundedAttempt (judged c calls config adapter_id conn_id m vs r invalid)
  unfolding judged
  judged-bounded off [] r invalid h = h
  judged-bounded warn [] r invalid h = h
  judged-bounded reject [] r invalid h = h
  judged-bounded off (v ∷ vs) r invalid h = report-bounded r invalid h
  judged-bounded warn (v ∷ vs) r invalid h = report-bounded r invalid h
  judged-bounded reject (v ∷ vs) r invalid h = tt

  onto_ready_bounded :
      (env : Envelope) (r : Set RouteKey × Attempt (List Envelope))
      → length r.0 ≤ cap
      → length (onto_ready env r).0 ≤ cap
  onto_ready_bounded env (invalid, done envs) h = h
  onto_ready_bounded env (invalid, refused e) h = h

  ready_judged_bounded :
      (service_id : Text) (rest : Set RouteKey → Set RouteKey × Attempt (List Envelope))
      (env : Envelope) (invalid : Set RouteKey) (r : Attempt (Set RouteKey))
      → ((later : Set RouteKey) → length later ≤ cap → length (rest later).0 ≤ cap)
      → length invalid ≤ cap
      → IsBoundedAttempt r
      → length (ready_judged c calls config adapter_id conn_id service_id rest env invalid r).0
        ≤ cap
  unfolding ready_judged
  ready_judged_bounded service_id rest env invalid (refused e) k h b = h
  ready_judged_bounded service_id rest env invalid (done later) k h b =
      onto_ready_bounded (stamp c calls config adapter_id conn_id service_id env) (rest later)
        (k later b)

  ready_from_bounded :
      (service_id : Text) (rest : Set RouteKey → Set RouteKey × Attempt (List Envelope))
      (invalid : Set RouteKey) (r : Attempt Envelope)
      → ((later : Set RouteKey) → length later ≤ cap → length (rest later).0 ≤ cap)
      → length invalid ≤ cap
      → length (ready_from c calls config adapter_id conn_id service_id rest invalid r).0 ≤ cap
  unfolding ready_from
  ready_from_bounded service_id rest invalid (refused e) k h = h
  ready_from_bounded service_id rest invalid (done env) k h =
      ready_judged_bounded service_id rest env invalid _ k h (
        judged-bounded config.validate
          (calls.violations_of env.payload calls.schema config.validate) env.route invalid h)

  make_ready-bounded :
      (service_id : Text) (envs : List Envelope) (invalid : Set RouteKey)
      → length invalid ≤ cap
      → length (make_ready c calls config adapter_id conn_id service_id envs invalid).0 ≤ cap
  unfolding make_ready
  make_ready-bounded service_id [] invalid h = h
  make_ready-bounded service_id (env ∷ envs) invalid h =
      ready_from_bounded service_id (make_ready c calls config adapter_id conn_id service_id envs)
        invalid _ (make_ready-bounded service_id envs) h

  publish_one-IsConn :
      (env : Envelope) (conn : Conn Sender World)
      → IsConn config.max_subscriptions conn
      → IsConn config.max_subscriptions (publish_one c calls config adapter_id conn_id env conn)
  unfolding publish_one publish
  publish_one-IsConn env conn v = record {
    begun = v.begun;
    distinct = v.distinct;
    bounded = v.bounded;
    warned = (
      if-bounded _ _ _ (report-bounded env.route conn.warnings.unroutable v.warned.0) v.warned.0,
      v.warned.1,
    );
    consistent = v.consistent;
  }

  publish_each-IsConn :
      (envs : List Envelope) (conn : Conn Sender World)
      → IsConn config.max_subscriptions conn
      → IsConn config.max_subscriptions (publish_each c calls config adapter_id conn_id envs conn)
  unfolding publish_each
  publish_each-IsConn [] conn v = v
  publish_each-IsConn (env ∷ envs) conn v =
      publish_each-IsConn envs (publish_one c calls config adapter_id conn_id env conn)
        (publish_one-IsConn env conn v)

  publish_ready-IsConn :
      (conn : Conn Sender World) (r : Set RouteKey × Attempt (List Envelope))
      → IsConn config.max_subscriptions conn
      → length r.0 ≤ cap
      → IsConn config.max_subscriptions (publish_ready c calls config adapter_id conn_id conn r).0
  unfolding publish_ready
  publish_ready-IsConn conn (invalid, refused e) v h = rewarned conn invalid v h
  publish_ready-IsConn conn (invalid, done envs) v h =
      publish_each-IsConn envs
        (record conn { warnings = record (conn.warnings) { invalid = invalid } })
        (rewarned conn invalid v h)

  publish_from-IsConn :
      (service_id : Text) (conn : Conn Sender World) (r : Attempt (List Envelope))
      → IsConn config.max_subscriptions conn
      → IsConn config.max_subscriptions
          (publish_from c calls config adapter_id conn_id service_id conn r).0
  unfolding publish_from
  publish_from-IsConn service_id conn (refused e) v = v
  publish_from-IsConn service_id conn (done envs) v =
      publish_ready-IsConn conn
        (make_ready c calls config adapter_id conn_id service_id envs conn.warnings.invalid) v
        (make_ready-bounded service_id envs conn.warnings.invalid v.warned.1)

  answered-IsConn :
      (verbose : Bool) (r : Conn Sender World × Attempt (Unit {0}))
      → IsConn config.max_subscriptions r.0
      → IsConn config.max_subscriptions (answer_pub verbose r).0
  unfolding answer_pub send
  answered-IsConn verbose (conn, done _) v = send_ok-IsConn config.max_subscriptions verbose conn v
  answered-IsConn verbose (conn, refused e) v = v

  subscribed-IsConn :
      (verbose : Bool) (service_id sid : Text) (route : RouteKey) (tx : Sender)
      (conn : Conn Sender World)
      → conn.state ≡ active verbose service_id
      → get sid conn.subs ≡ none
      → length conn.subs < config.max_subscriptions
      → IsConn config.max_subscriptions conn
      → IsKept Sender config.max_subscriptions conn.state
          (insert sid (engine_sub c calls config adapter_id conn_id sid) conn.subs)
          conn.warnings
          (subscribe adapter_id
            (engine_sub c calls config adapter_id conn_id sid)
            route
            tx
            conn.engine.state).0
  subscribed-IsConn verbose service_id sid route tx conn st new room v = record {
    begun = rw st tt;
    distinct = insert-HasDistinctKeys sid _ conn.subs v.distinct;
    bounded = omega (
      arith,
      room,
      length-insert_new sid (engine_sub c calls config adapter_id conn_id sid) conn.subs new,
    );
    warned = v.warned;
    consistent = subscribe-IsConsistent adapter_id _ route tx conn.engine.state v.consistent;
  }

  handle_sub-IsConn :
      (tx : Sender) (verbose : Bool) (service_id sid message_name topic : Text)
      (conn : Conn Sender World)
      → conn.state ≡ active verbose service_id
      → IsConn config.max_subscriptions conn
      → IsConn config.max_subscriptions
          (handle_sub c calls config adapter_id conn_id tx verbose sid message_name topic conn).0
  unfolding handle_sub send
  handle_sub-IsConn tx verbose service_id sid message_name topic conn st v =
      elim (Option-cases (get sid conn.subs)) [
        | inr (old, taken) ↦ rw (contains_key-some sid conn.subs taken, handle_sub) v
        | inl new ↦
            let absent = contains_key-none sid conn.subs new in
            elim (Bool-cases (leb config.max_subscriptions (length conn.subs))) [
              | inl full ↦ rw (absent, full, handle_sub) v
              | inr room ↦
                  elim (Bool-cases (
                    is_err
                      (subscribe adapter_id (engine_sub c calls config adapter_id conn_id sid)
                        (typed_route topic message_name) tx conn.engine.state).1)) [
                          | inl failed ↦ rw (absent, room, failed, handle_sub) v
                          | inr fine ↦
                              rw (absent, room, fine, handle_sub)
                                (send_ok-IsConn config.max_subscriptions verbose _ (
                                  subscribed-IsConn verbose service_id sid
                                    (typed_route topic message_name) tx conn st new
                                    (ground (arith, room)) v))
                        ]
            ]
      ]

  handle_unsub-IsConn :
      (verbose : Bool) (service_id sid : Text) (conn : Conn Sender World)
      → conn.state ≡ active verbose service_id
      → IsConn config.max_subscriptions conn
      → IsConn config.max_subscriptions
          (handle_unsub c calls config adapter_id conn_id verbose sid conn).0
  unfolding handle_unsub send unsubscribed
  handle_unsub-IsConn verbose service_id sid conn st v = elim (Option-cases (get sid conn.subs)) [
    | inl unknown ↦ rw (unknown, handle_unsub) v
    | inr (sub_id, there) ↦
        rw (there, handle_unsub)
          (send_ok-IsConn config.max_subscriptions verbose _ (record {
            begun = rw st tt;
            distinct = remove-HasDistinctKeys sid conn.subs v.distinct;
            bounded =
                omega (arith, v.bounded, length-remove sid {v = sub_id} conn.subs v.distinct there);
            warned = v.warned;
            consistent = unsubscribe-IsConsistent adapter_id sub_id conn.engine.state v.consistent;
          }))
  ]

  handle_op-IsConn :
      (id : ℕ) (tx : Sender) (st : Session.State) (op : ClientOp) (conn : Conn Sender World)
      → conn.state ≡ st
      → IsConn config.max_subscriptions conn
      → IsConn config.max_subscriptions
          (handle_op c calls config adapter_id conn_id id tx st op conn).0
  unfolding handle_op handle_pub publish_owp send
  handle_op-IsConn id tx awaiting_init (ClientOp.init payload) conn st v =
      handle_init-IsConn payload conn v
  handle_op-IsConn id tx awaiting_init (ClientOp.publish topic payload) conn st v = v
  handle_op-IsConn id tx awaiting_init (ClientOp.sub sid message_name topic group) conn st v = v
  handle_op-IsConn id tx awaiting_init (ClientOp.unsub sid) conn st v = v
  handle_op-IsConn id tx (active verbose service_id) (ClientOp.init payload) conn st v = v
  handle_op-IsConn id tx (active verbose service_id) (ClientOp.publish topic payload) conn st v =
      answered-IsConn verbose _ (
        publish_from-IsConn service_id conn
          (outgoing c calls config adapter_id conn_id id topic payload) v)
  handle_op-IsConn id tx (active verbose service_id) (ClientOp.sub sid message_name topic group)
        conn st v =
      handle_sub-IsConn tx verbose service_id sid message_name topic conn st v
  handle_op-IsConn id tx (active verbose service_id) (ClientOp.unsub sid) conn st v =
      handle_unsub-IsConn verbose service_id sid conn st v

  -- Every text frame keeps the invariant of its connection: no subscription before INIT, never more
  -- than `max_subscriptions`, no sid twice, at most 64 routes in each tracker, and indexes of the
  -- engine that agree with its subscriptions.
  pub handle_text-IsConn :
      (id : ℕ) (tx : Sender) (text : Text) (conn : Conn Sender World)
      → IsConn config.max_subscriptions conn
      → IsConn config.max_subscriptions
          (handle_text c calls config adapter_id conn_id id tx text conn).0
  unfolding handle_text send
  handle_text-IsConn id tx text conn v = elim (Parsed-cases (parse_client calls.serde text)) [
    | inl (e, x) ↦ rw (x, handle_text) v
    | inr (op, x) ↦ rw (x, handle_text) (handle_op-IsConn id tx conn.state op conn refl v)
  ]
