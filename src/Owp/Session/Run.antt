-- ===== src/Owp/Session/Run.antt =====
-- The loop of `run` in crates/oa-gateway-owp/src/session.rs: the events of its `select!`, taken one
-- after the other, and the end of the connection. Whether a deadline has passed or the socket takes
-- a frame is part of the event; `forwarded` is a frame that a forwarder task queues between two of
-- them.
use oa_gateway.Prelude.{ℕ, refl, Bool, true, false, some, List, [], ◌∷◌, ◌++◌, arith}
use oa_gateway.Text.{Text, codes}
use oa_gateway.Engine.{Channels}
use oa_gateway.Owp.Errors.{illegal_operation}
use oa_gateway.Owp.Codec.{ServerOp}
use oa_gateway.Owp.Session
use oa_gateway.Map.{Map}
use oa_gateway.Engine.Operations.{unsubscribe-IsConsistent}
use oa_gateway.Owp.Session.{
  Config, Payloads, Conn, awaiting_init, active, unsubscribed, unsubscribe_all, Flow, stay, close,
  err_op, send, handle_text, clean_up,
}
use oa_gateway.Owp.Session.Keeps.{IsConn, IsBegun, handle_text-IsConn}

module _ (Sender : Type 0) where
  pub data Event : Type 0 where
    shutdown elapsed : Event
    outgoing : Bool → Event
    forwarded : ServerOp → Event
    text : ℕ → Sender → Text → Event
    ping pong binary closed lost : Event

-- A connection, and the frames that the socket has taken.
pub record Live (Sender World : Type 0) : Type 0 where
  pub conn : Conn Sender World
  pub written : List ServerOp

module _ {S W : Type 0} where
  -- `ws.send` of the frame at the head of the queue; an empty queue is waited on.
  abbrev pub write_one : Bool → List ServerOp → Live S W → Live S W × Flow
  write_one sent [] live = (live, stay)
  write_one true (op ∷ ops) live = (
    record { conn = record (live.conn) { out = ops }; written = live.written ++ (op ∷ []) },
    stay,
  )
  write_one false (op ∷ ops) live = (record live { conn = record (live.conn) { out = ops } }, close)

  write_one-IsConn :
      (max : ℕ) (sent : Bool) (ops : List ServerOp) (live : Live S W)
      → IsConn max live.conn
      → IsConn max (write_one sent ops live).0.conn
  write_one-IsConn max sent [] live v = v
  write_one-IsConn max true (op ∷ ops) live v = v
  write_one-IsConn max false (op ∷ ops) live v = v

begun_empty : (st : Session.State) → IsBegun st []
begun_empty awaiting_init = refl
begun_empty (active verbose service_id) = tt

module _ (c : Channels) (calls : Payloads) (config : Config) (adapter_id : Text) (conn_id : ℕ) where
  open c use {Sender, World}

  -- One round of the loop.
  unfoldable pub on_event : Event Sender → Live Sender World → Live Sender World × Flow
  unfolding handle_text send
  on_event shutdown live = (live, close)
  on_event elapsed live = (live, close)
  on_event (outgoing sent) live = write_one sent live.conn.out live
  on_event (forwarded op) live = (record live { conn = send op live.conn }, stay)
  on_event (text id tx t) live =
      let (conn, flow) = handle_text c calls config adapter_id conn_id id tx t live.conn in
      (record live { conn = conn }, flow)
  on_event ping live = (live, stay)
  on_event pong live = (live, stay)
  on_event binary live = (
    record live {
      conn =
          send (err_op illegal_operation (some (codes "binary frames are not allowed"))) live.conn;
    },
    close,
  )
  on_event closed live = (live, close)
  on_event lost live = (live, close)

  unfoldable pub ended : Flow → Live Sender World → Live Sender World → Live Sender World
  unfolding clean_up
  ended stay live rest = rest
  ended close live rest = record live {
    conn = clean_up c calls config adapter_id conn_id live.conn;
  }

  -- The loop over a sequence of events, up to the one that ends it.
  unfoldable pub run_events : List (Event Sender) → Live Sender World → Live Sender World
  unfolding on_event ended
  run_events [] live = live
  run_events (e ∷ es) live =
      let (live', flow) = on_event e live in ended flow live' (run_events es live')

  on_event-IsConn :
      (e : Event Sender) (live : Live Sender World)
      → IsConn config.max_subscriptions live.conn
      → IsConn config.max_subscriptions (on_event e live).0.conn
  unfolding on_event send
  on_event-IsConn shutdown live v = v
  on_event-IsConn elapsed live v = v
  on_event-IsConn (outgoing sent) live v =
      write_one-IsConn config.max_subscriptions sent live.conn.out live v
  on_event-IsConn (forwarded op) live v = v
  on_event-IsConn (text id tx t) live v =
      handle_text-IsConn c calls config adapter_id conn_id id tx t live.conn v
  on_event-IsConn ping live v = v
  on_event-IsConn pong live v = v
  on_event-IsConn binary live v = v
  on_event-IsConn closed live v = v
  on_event-IsConn lost live v = v

  unsubscribe_all-IsConn :
      (subs : Map Text Text) (conn : Conn Sender World)
      → IsConn config.max_subscriptions conn
      → IsConn config.max_subscriptions
          (unsubscribe_all c calls config adapter_id conn_id subs conn)
  unfolding unsubscribe_all unsubscribed
  unsubscribe_all-IsConn [] conn v = v
  unsubscribe_all-IsConn ((sid, sub_id) ∷ subs) conn v =
      unsubscribe_all-IsConn subs (unsubscribed c calls config adapter_id conn_id sub_id conn)
        (record {
          begun = v.begun;
          distinct = v.distinct;
          bounded = v.bounded;
          warned = v.warned;
          consistent = unsubscribe-IsConsistent adapter_id sub_id conn.engine.state v.consistent;
        })

  clean_up-IsConn :
      (conn : Conn Sender World)
      → IsConn config.max_subscriptions conn
      → IsConn config.max_subscriptions (clean_up c calls config adapter_id conn_id conn)
  unfolding clean_up
  clean_up-IsConn conn v =
      unsubscribe_all-IsConn conn.subs (record conn { subs = [] })
        (record {
          begun = begun_empty conn.state;
          distinct = tt;
          bounded = omega arith;
          warned = v.warned;
          consistent = v.consistent;
        })

  ended-IsConn :
      (flow : Flow) (live rest : Live Sender World)
      → IsConn config.max_subscriptions live.conn
      → IsConn config.max_subscriptions rest.conn
      → IsConn config.max_subscriptions (ended flow live rest).conn
  unfolding ended
  ended-IsConn stay live rest v w = w
  ended-IsConn close live rest v w = clean_up-IsConn live.conn v

  -- Any sequence of events, frames of any text and frames that forwarders queue among them, keeps the
  -- invariant of the connection, up to and over its end.
  pub run_events-IsConn :
      (es : List (Event Sender)) (live : Live Sender World)
      → IsConn config.max_subscriptions live.conn
      → IsConn config.max_subscriptions (run_events es live).conn
  unfolding run_events
  run_events-IsConn [] live v = v
  run_events-IsConn (e ∷ es) live v =
      let v' = on_event-IsConn e live v in
      ended-IsConn (on_event e live).1 (on_event e live).0 _ v'
        (run_events-IsConn es (on_event e live).0 v')
