-- ===== src/Stomp/Session.antt =====
-- `session` and `drive_session` in crates/oa-gateway-stomp/src/adapter.rs. The outcomes of the writes
-- to the socket are given ahead: nothing for a write that succeeds, else its error.
use oa_gateway.Prelude.{ℕ, suc, Option, none, some, List, [], ◌∷◌, ◌++◌}
use oa_gateway.Prelude.Attempt.{Attempt, done, refused}
use oa_gateway.Text.{Text, codes}
use oa_gateway.Text.Decimal.{print_usize}
use oa_gateway.Engine.{
  Channels, Engine, subscribe, drop_adapter, publish, EngineError, duplicate_sub, unknown_sub, ok,
  err, Result,
}
use oa_gateway.Engine.Types.{topic_route, Envelope, SubscriberKey}
use oa_gateway.Stomp.Frame.{Frame}
use oa_gateway.Stomp.Dest.{DestinationMap, new_map, to_stomp}
use oa_gateway.Stomp.Client.{subscribe_frame, disconnect_frame}
use oa_gateway.Stomp.Sniff.{Bodies}
use oa_gateway.Stomp.Adapter.{Config, handle_frame, forward_outbound}

-- `Display for EngineError`
abbrev pub engine_error_text : EngineError → Text
engine_error_text (duplicate_sub sub_id) = codes "duplicate subscription " ++ sub_id
engine_error_text (unknown_sub sub_id) = codes "unknown subscription " ++ sub_id

-- What a session changes: the engine, the channels, and the socket.
pub record Live (Sender World : Type 0) : Type 0 where
  pub engine : Engine Sender
  pub world : World
  pub written : List Frame
  pub faults : List (Option Text)

pub data Event : Type 0 where
  shutdown closed channel_closed : Event
  incoming : ℕ → Frame → Event
  read_failed : Text → Event
  delivery : Envelope → Event

-- The engine's part of a round of the SUBSCRIBE loop.
abbrev pub subscribed : Result SubscriberKey → Attempt (Unit {0})
subscribed (ok key) = done tt
subscribed (err e) = refused (engine_error_text e)

abbrev pub sub_id : ℕ → Text
sub_id i = codes "stomp-out-" ++ print_usize i

module _ {S W : Type 0} where
  abbrev pub write_with : Frame → List (Option Text) → Live S W → Live S W × Attempt (Unit {0})
  write_with f [] live = (record live { written = live.written ++ (f ∷ []) }, done tt)
  write_with f (none ∷ faults) live =
      (record live { written = live.written ++ (f ∷ []); faults = faults }, done tt)
  write_with f (some e ∷ faults) live = (record live { faults = faults }, refused e)

  -- `FrameWriter::send`
  unfoldable pub write : Frame → Live S W → Live S W × Attempt (Unit {0})
  write f live = write_with f live.faults live

  unfoldable pub drop_subs : Text → Live S W → Live S W
  unfolding drop_adapter
  drop_subs adapter_id live = record live {
    engine = record (live.engine) { state = (drop_adapter adapter_id live.engine.state).0 };
  }

  unfoldable pub engine_subscribe : Text → S → ℕ → Text → Live S W → Live S W × Attempt (Unit {0})
  unfolding subscribe
  engine_subscribe adapter_id tx i topic live =
      let (state, result) =
        subscribe adapter_id (sub_id i) (topic_route topic) tx live.engine.state in
      (record live { engine = record (live.engine) { state = state } }, subscribed result)

  unfoldable pub and_then :
      Live S W × Attempt (Unit {0})
      → (Text → Text)
      → (Live S W → Live S W × Attempt (Unit {0}))
      → Live S W × Attempt (Unit {0})
  and_then (live, refused e) message more = (live, refused (message e))
  and_then (live, done _) message more = more live

module _ (c : Channels) (calls : Bodies) (config : Config) (adapter_id : Text) (tx : c.Sender) where
  open c use {Sender, World}

  -- The SUBSCRIBE loop, from its index.
  unfoldable pub subscribe_each :
      DestinationMap → ℕ → List Text → Live Sender World → Live Sender World × Attempt (Unit {0})
  unfolding write engine_subscribe subscribe_frame to_stomp
  subscribe_each map i [] live = (live, done tt)
  subscribe_each map i (topic ∷ topics) live =
      and_then (write (subscribe_frame (codes "sub-" ++ print_usize i) (to_stomp map topic)) live)
        (λ e. codes "SUBSCRIBE " ++ (to_stomp map topic ++ (codes ": " ++ e)))
        (λ live.
          and_then (engine_subscribe adapter_id tx i topic live) (λ e. e)
            (subscribe_each map (suc i) topics))

  unfoldable pub publish_each : List Envelope → Live Sender World → Live Sender World
  unfolding publish
  publish_each [] live = live
  publish_each (env ∷ envs) live =
      let (engine, world, outcome) = publish c env live.engine live.world in
      publish_each envs (record live { engine = engine; world = world })

  -- A frame that is refused is dropped, and the session goes on.
  unfoldable pub published : Attempt (List Envelope) → Live Sender World → Live Sender World
  unfolding publish_each
  published (refused e) live = live
  published (done envs) live = publish_each envs live

  unfoldable pub written_out :
      Option Frame → Live Sender World → Live Sender World × Attempt (Unit {0})
  unfolding write
  written_out none live = (live, done tt)
  written_out (some f) live = write f live

  -- The loop over the events, up to the one that ends the session; at their end it is shut down.
  unfoldable pub drive_session :
      DestinationMap → List Event → Live Sender World → Live Sender World × Attempt (Unit {0})
  unfolding handle_frame forward_outbound published written_out
  drive_session map [] live = (live, done tt)
  drive_session map (shutdown ∷ events) live = (live, done tt)
  drive_session map (channel_closed ∷ events) live = (live, done tt)
  drive_session map (closed ∷ events) live = (live, refused (codes "broker closed the connection"))
  drive_session map (read_failed e ∷ events) live = (live, refused e)
  drive_session map (incoming id frame ∷ events) live =
      drive_session map events (published (handle_frame calls config adapter_id map id frame) live)
  drive_session map (delivery env ∷ events) live =
      and_then (written_out (forward_outbound calls config adapter_id map env) live) (λ e. e)
        (drive_session map events)

  -- The DISCONNECT and `drop_adapter` behind the loop; the outcome of the write does not matter.
  unfoldable pub finish :
      Live Sender World × Attempt (Unit {0}) → Live Sender World × Attempt (Unit {0})
  unfolding write drop_subs disconnect_frame
  finish (live, result) = (drop_subs adapter_id (write disconnect_frame live).0, result)

  unfoldable pub drive_after :
      DestinationMap
      → List Event
      → Live Sender World × Attempt (Unit {0})
      → Live Sender World × Attempt (Unit {0})
  unfolding drive_session finish
  drive_after map events (live, refused e) = (live, refused e)
  drive_after map events (live, done _) = finish (drive_session map events live)

  -- `session` on a broker that has answered CONNECTED.
  unfoldable pub session : List Event → Live Sender World → Live Sender World × Attempt (Unit {0})
  unfolding drop_subs subscribe_each new_map drive_after
  session events live =
      let map = new_map config.destination_prefix in
      drive_after map events (subscribe_each map 0 config.topics (drop_subs adapter_id live))
