-- ===== src/Engine.antt =====
-- crates/oa-gateway-core/src/engine.rs: the router. `Types` has what crosses it (route.rs, ids.rs,
-- envelope.rs, headers.rs), `Index` the private functions over the indexes; the operations are here.
-- The write lock makes each operation one step on `State`; a publish reads the indexes in one step
-- and sends afterwards. The channel of a subscriber is tokio's and enters as `Channels`.
pub mod Types
pub mod Index
pub mod Buckets
pub mod Consistent
pub mod Operations
pub mod History
pub mod Matching
pub mod Fanout
mod Tests
use oa_gateway.Prelude.{
  ℕ, suc, Bool, true, false, ◌+◌, ◌%◌, ◌^◌, Option, none, some, List, [], ◌∷◌, length,
  if◌then◌else◌,
}
use oa_gateway.Text.{Text, text_Eq}
use oa_gateway.Map.{get, insert, remove, contains_key}
use oa_gateway.Map.Buckets.{add_to}
use oa_gateway.Engine.Types.{RouteKey, Envelope, SubscriberKey, key_Eq}
use oa_gateway.Engine.Index.{
  State, Subscription, insert_index, remove_subscription, collect_targets,
}

pub data EngineError : Type 0 where
  duplicate_sub unknown_sub : Text → EngineError

pub data Result {ℓ} (A : Type ℓ) : Type ℓ where
  ok : A → Result A
  err : EngineError → Result A

abbrev pub is_err {ℓ} : {A : Type ℓ} → Result A → Bool
is_err (ok a) = false
is_err (err e) = true

pub record Delivery : Type 0 where
  pub sub_id : Text
  pub envelope : Envelope

pub data SendResult : Type 0 where
  sent full closed : SendResult

-- `tokio::sync::mpsc`: what the senders stand for, what all channels hold, and `try_send`.
pub record Channels : Type 1 where
  pub Sender : Type 0
  pub World : Type 0
  pub try_send : Sender → Delivery → World → World × SendResult

pub record PublishOutcome : Type 0 where
  pub matched : ℕ
  pub delivered : ℕ
  pub dropped : ℕ

-- The three `AtomicU64` counters.
pub record EngineStats : Type 0 where
  pub published : ℕ
  pub delivered : ℕ
  pub dropped : ℕ

-- `fetch_add` on an `AtomicU64`
unfoldable pub fetch_add : ℕ → ℕ → ℕ
fetch_add n k = (n + k) % 2 ^ 64

pub record Engine (Sender : Type 0) : Type 0 where
  pub state : State Sender
  pub stats : EngineStats

module _ {S : Type 0} where
  abbrev pub empty_state : State S
  empty_state = record { by_key = []; by_adapter = []; exact = []; wildcards = [] }

  abbrev pub new_engine : Engine S
  new_engine = record {
    state = empty_state;
    stats = record { published = 0; delivered = 0; dropped = 0 };
  }

  unfoldable pub subscribe : Text → Text → RouteKey → S → State S → State S × Result SubscriberKey
  subscribe adapter_id sub_id route tx s =
      let key : SubscriberKey = record { adapter_id = adapter_id; sub_id = sub_id } in
      if contains_key key s.by_key
      then (s, err (duplicate_sub sub_id))
      else (let indexed = insert_index key route s in
          (
            record indexed {
              by_adapter = add_to adapter_id sub_id indexed.by_adapter;
              by_key = insert key (record { route = route; tx = tx }) indexed.by_key;
            },
            ok key,
          ))

  abbrev pub or_unknown : Text → Option (State S) → State S → State S × Result (Unit {0})
  or_unknown sub_id none s = (s, err (unknown_sub sub_id))
  or_unknown sub_id (some s') s = (s', ok tt)

  unfoldable pub unsubscribe : Text → Text → State S → State S × Result (Unit {0})
  unsubscribe adapter_id sub_id s =
      or_unknown sub_id
        (remove_subscription (record { adapter_id = adapter_id; sub_id = sub_id }) s) s

  -- The loop of `drop_adapter`; a failing `remove_subscription` changes nothing.
  unfoldable pub drop_each : Text → List Text → State S → State S × ℕ
  drop_each adapter_id [] s = (s, 0)
  drop_each adapter_id (sid ∷ sids) s =
      elim (remove_subscription (record { adapter_id = adapter_id; sub_id = sid }) s) [
        | none ↦ drop_each adapter_id sids s
        | some s' ↦ (let (last, removed) = drop_each adapter_id sids s' in (last, suc removed))
      ]

  unfoldable pub drop_adapter : Text → State S → State S × ℕ
  unfolding drop_each
  drop_adapter adapter_id s = elim (get adapter_id s.by_adapter) [
    | none ↦ (s, 0)
    | some sids ↦
        drop_each adapter_id sids (record s { by_adapter = remove adapter_id s.by_adapter })
  ]

  unfoldable pub subscription_count : State S → ℕ
  subscription_count s = length s.by_key

module _ (c : Channels) where
  open c use {Sender, World, try_send}

  abbrev tally : SendResult → ℕ × ℕ → ℕ × ℕ
  tally sent (delivered, dropped) = (delivered + 1, dropped)
  tally full (delivered, dropped) = (delivered, dropped + 1)
  tally closed (delivered, dropped) = (delivered, dropped + 1)

  -- The loop of `publish` over the targets.
  unfoldable pub fan_out : Envelope → List (Sender × Text) → ℕ × ℕ → World → World × (ℕ × ℕ)
  fan_out envelope [] counts w = (w, counts)
  fan_out envelope ((tx, sub_id) ∷ targets) counts w =
      let (w', result) = try_send tx (record { sub_id = sub_id; envelope = envelope }) w in
      fan_out envelope targets (tally result counts) w'

  unfoldable pub publish : Envelope → Engine Sender → World → Engine Sender × World × PublishOutcome
  unfolding fan_out
  publish envelope e w =
      let targets = collect_targets envelope.route e.state in
      let (w', counts) = fan_out envelope targets (0, 0) w in
      let (delivered, dropped) = counts in
      (
        record e {
          stats = record {
            published = fetch_add e.stats.published 1;
            delivered = fetch_add e.stats.delivered delivered;
            dropped = fetch_add e.stats.dropped dropped;
          };
        },
        w',
        record { matched = length targets; delivered = delivered; dropped = dropped },
      )
