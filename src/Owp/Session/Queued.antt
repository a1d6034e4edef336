-- ===== src/Owp/Session/Queued.antt =====
-- The queue of outgoing frames in crates/oa-gateway-owp/src/session.rs.
use oa_gateway.Prelude.{
  ℕ, ◌≡◌, ◌∙◌, refl, ap, sym, Bool, true, false, List, [], ◌∷◌, ◌++◌, length, append_assoc,
  append-nil, Bool-cases, Option-cases, inl, inr, leb,
}
use oa_gateway.Prelude.Attempt.{Attempt, done, refused}
use oa_gateway.Text.{Text, text_Eq}
use oa_gateway.Map.{Set, get, contains_key}
use oa_gateway.Engine.{Channels, subscribe, is_err}
use oa_gateway.Engine.Types.{RouteKey, Envelope, typed_route}
use oa_gateway.Owp.Codec.{ServerOp, ClientOp, InitPayload, parse_client}
use oa_gateway.Owp.Session.Keeps.{Parsed-cases}
use oa_gateway.Owp.Session
use oa_gateway.Owp.Session.{
  Config, Payloads, Conn, awaiting_init, active, Flow, stay, close, send, send_ok, answer_pub,
  negotiate, or_true, engine_sub, make_ready, outgoing, handle_init, publish_one, publish_each,
  publish_ready, publish_from, publish_owp, handle_pub, handle_sub, unsubscribed, handle_unsub,
  handle_op, handle_text,
}

module _ {S W : Type 0} where
  -- The connection's queue is this one with new frames behind it.
  abbrev pub IsExtended : List ServerOp → Conn S W → Type 0
  IsExtended queue conn = (new : List ServerOp) × (conn.out ≡ queue ++ new)

  queue-IsExtended : (conn : Conn S W) → IsExtended conn.out conn
  queue-IsExtended conn = ([], sym (append-nil conn.out))

  send-IsExtended : (op : ServerOp) (conn : Conn S W) → IsExtended conn.out (send op conn)
  unfolding send
  send-IsExtended op conn = (op ∷ [], refl)

  send_ok-IsExtended :
      (verbose : Bool) (conn : Conn S W) → IsExtended conn.out (send_ok verbose conn)
  unfolding send_ok
  send_ok-IsExtended true conn = send-IsExtended _ conn
  send_ok-IsExtended false conn = queue-IsExtended conn

  send-behind :
      (queue : List ServerOp) (op : ServerOp) (conn : Conn S W)
      → IsExtended queue conn
      → IsExtended queue (send op conn)
  unfolding send
  send-behind queue op conn (new, h) =
      (new ++ (op ∷ []), ap (λ t. t ++ (op ∷ [])) h ∙ append_assoc queue new (op ∷ []))

  answer_pub-IsExtended :
      (verbose : Bool) (conn : Conn S W) (r : Conn S W × Attempt (Unit {0}))
      → r.0.out ≡ conn.out
      → IsExtended conn.out (answer_pub verbose r).0
  unfolding answer_pub
  answer_pub-IsExtended verbose conn (later, done _) h =
      let (new, k) = send_ok-IsExtended verbose later in (new, k ∙ ap (λ t. t ++ new) h)
  answer_pub-IsExtended verbose conn (later, refused e) h =
      let (new, k) = send-IsExtended _ later in (new, k ∙ ap (λ t. t ++ new) h)

module _ (c : Channels) (calls : Payloads) (config : Config) (adapter_id : Text) (conn_id : ℕ) where
  open c use {Sender, World}

  handle_init-IsExtended :
      (init : InitPayload) (conn : Conn Sender World)
      → IsExtended conn.out (handle_init c calls config adapter_id conn_id init conn).0
  unfolding handle_init
  handle_init-IsExtended init conn = elim (Option-cases (negotiate config init)) [
    | inl e ↦
        rw (e, handle_init)
          (send-behind conn.out _ (send_ok (or_true init.verbose) conn)
            (send_ok-IsExtended (or_true init.verbose) conn))
    | inr (error, e) ↦ rw (e, handle_init) (send-IsExtended _ conn)
  ]

  out-publish_each :
      (envs : List Envelope) (conn : Conn Sender World)
      → (publish_each c calls config adapter_id conn_id envs conn).out ≡ conn.out
  unfolding publish_each publish_one
  out-publish_each [] conn = refl
  out-publish_each (env ∷ envs) conn =
      out-publish_each envs (publish_one c calls config adapter_id conn_id env conn)

  out-publish_ready :
      (conn : Conn Sender World) (r : Set RouteKey × Attempt (List Envelope))
      → (publish_ready c calls config adapter_id conn_id conn r).0.out ≡ conn.out
  unfolding publish_ready
  out-publish_ready conn (invalid, refused e) = refl
  out-publish_ready conn (invalid, done envs) =
      out-publish_each envs
        (record conn { warnings = record (conn.warnings) { invalid = invalid } })

  out-publish_from :
      (service_id : Text) (conn : Conn Sender World) (r : Attempt (List Envelope))
      → (publish_from c calls config adapter_id conn_id service_id conn r).0.out ≡ conn.out
  unfolding publish_from
  out-publish_from service_id conn (refused e) = refl
  out-publish_from service_id conn (done envs) =
      out-publish_ready conn
        (make_ready c calls config adapter_id conn_id service_id envs conn.warnings.invalid)

  handle_pub-IsExtended :
      (id : ℕ) (verbose : Bool) (service_id topic payload : Text) (conn : Conn Sender World)
      → IsExtended conn.out
          (handle_pub c calls config adapter_id conn_id id verbose service_id topic payload conn).0
  unfolding handle_pub publish_owp
  handle_pub-IsExtended id verbose service_id topic payload conn =
      answer_pub-IsExtended verbose conn _ (
        out-publish_from service_id conn
          (outgoing c calls config adapter_id conn_id id topic payload))

  handle_sub-IsExtended :
      (tx : Sender) (verbose : Bool) (sid message_name topic : Text) (conn : Conn Sender World)
      → IsExtended conn.out
          (handle_sub c calls config adapter_id conn_id tx verbose sid message_name topic conn).0
  unfolding handle_sub
  handle_sub-IsExtended tx verbose sid message_name topic conn =
      elim (Bool-cases (contains_key sid conn.subs)) [
        | inl known ↦ rw known (send-IsExtended _ conn)
        | inr new ↦ rw new (elim (Bool-cases (leb config.max_subscriptions (length conn.subs))) [
          | inl full ↦ rw full (send-IsExtended _ conn)
          | inr room ↦
              rw room
                (elim (Bool-cases (
                  is_err
                    (subscribe adapter_id (engine_sub c calls config adapter_id conn_id sid)
                      (typed_route topic message_name) tx conn.engine.state).1)) [
                        | inl failed ↦ rw failed (send-IsExtended _ conn)
                        | inr fine ↦ rw fine (send_ok-IsExtended verbose _)
                      ])
        ])
      ]

  handle_unsub-IsExtended :
      (verbose : Bool) (sid : Text) (conn : Conn Sender World)
      → IsExtended conn.out (handle_unsub c calls config adapter_id conn_id verbose sid conn).0
  unfolding handle_unsub unsubscribed
  handle_unsub-IsExtended verbose sid conn = elim (Option-cases (get sid conn.subs)) [
    | inl missing ↦ rw (missing, handle_unsub) (send-IsExtended _ conn)
    | inr (sub_id, found) ↦ rw (found, handle_unsub) (send_ok-IsExtended verbose _)
  ]

  handle_op-IsExtended :
      (id : ℕ) (tx : Sender) (st : Session.State) (op : ClientOp) (conn : Conn Sender World)
      → IsExtended conn.out (handle_op c calls config adapter_id conn_id id tx st op conn).0
  unfolding handle_op
  handle_op-IsExtended id tx awaiting_init (ClientOp.init payload) conn =
      handle_init-IsExtended payload conn
  handle_op-IsExtended id tx awaiting_init (ClientOp.publish topic payload) conn =
      send-IsExtended _ conn
  handle_op-IsExtended id tx awaiting_init (ClientOp.sub sid message_name topic group) conn =
      send-IsExtended _ conn
  handle_op-IsExtended id tx awaiting_init (ClientOp.unsub sid) conn = send-IsExtended _ conn
  handle_op-IsExtended id tx (active verbose service_id) (ClientOp.init payload) conn =
      send-IsExtended _ conn
  handle_op-IsExtended id tx (active verbose service_id) (ClientOp.publish topic payload) conn =
      handle_pub-IsExtended id verbose service_id topic payload conn
  handle_op-IsExtended id tx (active verbose service_id) (ClientOp.sub sid message_name topic group)
        conn =
      handle_sub-IsExtended tx verbose sid message_name topic conn
  handle_op-IsExtended id tx (active verbose service_id) (ClientOp.unsub sid) conn =
      handle_unsub-IsExtended verbose sid conn

  -- A text frame only adds answers at the end of the queue.
  pub handle_text-IsExtended :
      (id : ℕ) (tx : Sender) (t : Text) (conn : Conn Sender World)
      → IsExtended conn.out (handle_text c calls config adapter_id conn_id id tx t conn).0
  unfolding handle_text
  handle_text-IsExtended id tx t conn = elim (Parsed-cases (parse_client calls.serde t)) [
    | inl (error, e) ↦ rw (e, handle_text) (send-IsExtended _ conn)
    | inr (op, e) ↦ rw (e, handle_text) (handle_op-IsExtended id tx conn.state op conn)
  ]
