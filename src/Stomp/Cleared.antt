-- ===== src/Stomp/Cleared.antt =====
-- `session` in crates/oa-gateway-stomp/src/adapter.rs, from its first SUBSCRIBE to its end: what is
-- left in the engine.
use oa_gateway.Prelude.{ℕ, suc, ◌≡◌, ◌∙◌, Option, none, some, List, [], ◌∷◌, arith}
use oa_gateway.Prelude.Attempt.{Attempt, done, refused}
use oa_gateway.Text.{Text}
use oa_gateway.Map.{get}
use oa_gateway.Engine.{Channels, publish}
use oa_gateway.Engine.Types.{Envelope, SubscriberKey, key_Eq}
use oa_gateway.Engine.Consistent.{IsConsistent}
use oa_gateway.Engine.Operations.{drop_adapter-IsDropped}
use oa_gateway.Stomp.Frame.{Frame}
use oa_gateway.Stomp.Dest.{DestinationMap, new_map}
use oa_gateway.Stomp.Client.{disconnect_frame}
use oa_gateway.Stomp.Sniff.{Bodies}
use oa_gateway.Stomp.Adapter.{Config, handle_frame, forward_outbound}
use oa_gateway.Stomp.Session.{
  Live, Event, write, incoming, delivery, shutdown, closed, channel_closed, read_failed, drop_subs,
  subscribe_each, publish_each, published, written_out, drive_session, finish, drive_after, session,
}
use oa_gateway.Stomp.Confined.{
  without, IsStep, IsConfined-trans, IsConfined-refl, drop_adapter-IsConfined, write_frame,
  and_then-IsStep, engine_subscribe-IsStep, write-IsStep,
}

module _ (c : Channels) (calls : Bodies) (config : Config) (a : Text) (tx : c.Sender) where
  open c use {Sender, World}

  subscribe_each-IsStep :
      (map : DestinationMap) (i : ℕ) (topics : List Text) (live : Live Sender World)
      → IsConsistent live.engine.state
      → IsStep a live (subscribe_each c calls config a tx map i topics live).0
  unfolding subscribe_each
  subscribe_each-IsStep map i [] live v = IsConfined-refl a live.engine.state v
  subscribe_each-IsStep map i (topic ∷ topics) live v =
      and_then-IsStep a live _ _ _ (write-IsStep a _ live v) (λ next v.
        and_then-IsStep a next _ _ _ (engine_subscribe-IsStep a tx i topic next v)
          (subscribe_each-IsStep map (suc i) topics))

  publish_each-IsStep :
      (envs : List Envelope) (live : Live Sender World)
      → IsConsistent live.engine.state
      → IsStep a live (publish_each c calls config a tx envs live)
  unfolding publish_each publish
  publish_each-IsStep [] live v = IsConfined-refl a live.engine.state v
  publish_each-IsStep (env ∷ envs) live v = publish_each-IsStep envs _ v

  published-IsStep :
      (made : Attempt (List Envelope)) (live : Live Sender World)
      → IsConsistent live.engine.state
      → IsStep a live (published c calls config a tx made live)
  unfolding published
  published-IsStep (refused e) live v = IsConfined-refl a live.engine.state v
  published-IsStep (done envs) live v = publish_each-IsStep envs live v

  written_out-IsStep :
      (f : Option Frame) (live : Live Sender World)
      → IsConsistent live.engine.state
      → IsStep a live (written_out c calls config a tx f live).0
  unfolding written_out
  written_out-IsStep none live v = IsConfined-refl a live.engine.state v
  written_out-IsStep (some f) live v = write-IsStep a f live v

  drive_session-IsStep :
      (map : DestinationMap) (events : List Event) (live : Live Sender World)
      → IsConsistent live.engine.state
      → IsStep a live (drive_session c calls config a tx map events live).0
  unfolding drive_session
  drive_session-IsStep map [] live v = IsConfined-refl a live.engine.state v
  drive_session-IsStep map (shutdown ∷ events) live v = IsConfined-refl a live.engine.state v
  drive_session-IsStep map (channel_closed ∷ events) live v = IsConfined-refl a live.engine.state v
  drive_session-IsStep map (closed ∷ events) live v = IsConfined-refl a live.engine.state v
  drive_session-IsStep map (read_failed e ∷ events) live v = IsConfined-refl a live.engine.state v
  drive_session-IsStep map (incoming id frame ∷ events) live v =
      let step = published-IsStep (handle_frame calls config a map id frame) live v in
      IsConfined-trans a step (drive_session-IsStep map events _ step.consistent)
  drive_session-IsStep map (delivery env ∷ events) live v =
      and_then-IsStep a live _ _ _
        (written_out-IsStep (forward_outbound calls config a map env) live v)
        (drive_session-IsStep map events)

  drop_subs-IsStep :
      (live : Live Sender World) → IsConsistent live.engine.state → IsStep a live (drop_subs a live)
  unfolding drop_subs
  drop_subs-IsStep live v = drop_adapter-IsConfined a live.engine.state v

  finish-IsStep :
      (ended : Live Sender World × Attempt (Unit {0}))
      → IsConsistent ended.0.engine.state
      → IsStep a ended.0 (finish c calls config a tx ended).0
  unfolding finish
  finish-IsStep (live, result) v =
      let step = write-IsStep a disconnect_frame live v in
      IsConfined-trans a step (drop_subs-IsStep (write disconnect_frame live).0 step.consistent)

  drive_after-IsStep :
      (map : DestinationMap) (events : List Event) (begun : Live Sender World × Attempt (Unit {0}))
      → IsConsistent begun.0.engine.state
      → IsStep a begun.0 (drive_after c calls config a tx map events begun).0
  unfolding drive_after
  drive_after-IsStep map events (live, refused e) v = IsConfined-refl a live.engine.state v
  drive_after-IsStep map events (live, done _) v =
      let step = drive_session-IsStep map events live v in
      IsConfined-trans a step
        (finish-IsStep (drive_session c calls config a tx map events live) step.consistent)

  -- Whatever the events and the outcomes of the writes, a session leaves the indexes consistent and
  -- the subscriptions of every other adapter as they were.
  pub session-IsStep :
      (events : List Event) (live : Live Sender World)
      → IsConsistent live.engine.state
      → IsStep a live (session c calls config a tx events live).0
  unfolding session
  session-IsStep events live v =
      let map = new_map config.destination_prefix in
      let dropped = drop_subs-IsStep live v in
      let begun = subscribe_each-IsStep map 0 config.topics (drop_subs a live) dropped.consistent in
      IsConfined-trans a dropped (
        IsConfined-trans a begun (
          drive_after-IsStep map events
            (subscribe_each c calls config a tx map 0 config.topics (drop_subs a live))
            begun.consistent))

  get-finish :
      (ended : Live Sender World × Attempt (Unit {0})) (k : SubscriberKey)
      → IsConsistent ended.0.engine.state
      → get k (finish c calls config a tx ended).0.engine.state.by_key
        ≡ without a k (get k ended.0.engine.state.by_key)
  unfolding finish drop_subs
  get-finish (live, result) k v =
      rw (write_frame a disconnect_frame live)
        ((drop_adapter-IsDropped a live.engine.state v).table k)

  get-drive_after :
      (map : DestinationMap) (events : List Event) (begun : Live Sender World × Attempt (Unit {0}))
      → (k : SubscriberKey) → IsConsistent begun.0.engine.state
      → begun.1 ≡ done tt
      → get k (drive_after c calls config a tx map events begun).0.engine.state.by_key
        ≡ without a k (get k begun.0.engine.state.by_key)
  unfolding drive_after
  get-drive_after map events (live, refused e) k v h = ground arith
  get-drive_after map events (live, done _) k v h =
      let step = drive_session-IsStep map events live v in
      get-finish (drive_session c calls config a tx map events live) k step.consistent
      ∙ step.others k

  -- A session whose SUBSCRIBE loop succeeds leaves, however it ends, no subscription of its adapter in
  -- the engine and every other subscription as it was.
  pub get-session :
      (events : List Event) (live : Live Sender World) (k : SubscriberKey)
      → IsConsistent live.engine.state
      → (subscribe_each c calls config a tx
          (new_map config.destination_prefix)
          0
          config.topics
          (drop_subs a live)).1
        ≡ done tt
      → get k (session c calls config a tx events live).0.engine.state.by_key
        ≡ without a k (get k live.engine.state.by_key)
  unfolding session
  get-session events live k v h =
      let map = new_map config.destination_prefix in
      let dropped = drop_subs-IsStep live v in
      let begun = subscribe_each-IsStep map 0 config.topics (drop_subs a live) dropped.consistent in
      get-drive_after map events
        (subscribe_each c calls config a tx map 0 config.topics (drop_subs a live)) k
        begun.consistent h
      ∙ begun.others k
      ∙ dropped.others k
