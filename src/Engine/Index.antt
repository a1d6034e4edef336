-- ===== src/Engine/Index.antt =====
-- The indexes of crates/oa-gateway-core/src/engine.rs and the private functions over them.
use oa_gateway.Prelude.{Option, none, some, List, [], ◌∷◌}
use oa_gateway.Text.{Text, text_Eq}
use oa_gateway.Map.{Map, Set, get, insert, remove, set_extend}
use oa_gateway.Map.Buckets.{bucket, put_back, add_to, drop_from}
use oa_gateway.Engine.Types.{RouteKey, SubscriberKey, key_Eq}

pub record Subscription (Sender : Type 0) : Type 0 where
  pub route : RouteKey
  pub tx : Sender

pub record State (Sender : Type 0) : Type 0 where
  pub by_key : Map SubscriberKey (Subscription Sender)
  pub by_adapter : Map Text (Set Text)
  pub exact : Map Text (Map Text (Set SubscriberKey))
  pub wildcards : Map Text (Set SubscriberKey)

-- `exact.get_mut(topic)`, then the hint's set, then the topic if nothing is left of it.
unfoldable pub drop_exact :
    SubscriberKey
    → Text
    → Text
    → Map Text (Map Text (Set SubscriberKey))
    → Map Text (Map Text (Set SubscriberKey))
drop_exact key topic hint exact = elim (get topic exact) [
  | none ↦ exact
  | some by_hint ↦ put_back topic (drop_from hint key by_hint) exact
]

module _ {S : Type 0} where
  unfoldable pub insert_at : SubscriberKey → Text → Option Text → State S → State S
  insert_at key topic (some hint) s = record s {
    exact = insert topic (add_to hint key (bucket topic s.exact)) s.exact;
  }
  insert_at key topic none s = record s { wildcards = add_to topic key s.wildcards }

  unfoldable pub insert_index : SubscriberKey → RouteKey → State S → State S
  unfolding insert_at
  insert_index key route s = insert_at key route.topic route.type_hint s

  unfoldable pub remove_at : SubscriberKey → Text → Option Text → State S → State S
  unfolding drop_exact
  remove_at key topic (some hint) s = record s { exact = drop_exact key topic hint s.exact }
  remove_at key topic none s = record s { wildcards = drop_from topic key s.wildcards }

  unfoldable pub remove_subscription : SubscriberKey → State S → Option (State S)
  unfolding remove_at
  remove_subscription key s = elim (get key s.by_key) [
    | none ↦ none
    | some sub ↦ some (
        remove_at key sub.route.topic sub.route.type_hint (record s {
          by_key = remove key s.by_key;
          by_adapter = drop_from key.adapter_id key.sub_id s.by_adapter;
        }))
  ]

  unfoldable pub exact_keys : Text → Option Text → State S → Set SubscriberKey
  exact_keys topic none s = []
  exact_keys topic (some hint) s = bucket hint (bucket topic s.exact)

  -- The `HashSet` that `collect_targets` fills: wildcards, then exact matches.
  unfoldable pub target_keys : RouteKey → State S → Set SubscriberKey
  unfolding exact_keys
  target_keys route s =
      set_extend (set_extend [] (bucket route.topic s.wildcards))
        (exact_keys route.topic route.type_hint s)

  abbrev push_target : Text → Option (Subscription S) → List (S × Text) → List (S × Text)
  push_target sub_id none out = out
  push_target sub_id (some sub) out = (sub.tx, sub_id) ∷ out

  -- The second loop of `collect_targets`.
  unfoldable pub resolve_targets :
      Map SubscriberKey (Subscription S) → List SubscriberKey → List (S × Text)
  resolve_targets by_key [] = []
  resolve_targets by_key (key ∷ keys) =
      push_target key.sub_id (get key by_key) (resolve_targets by_key keys)

  unfoldable pub collect_targets : RouteKey → State S → List (S × Text)
  unfolding target_keys resolve_targets
  collect_targets route s = resolve_targets s.by_key (target_keys route s)
