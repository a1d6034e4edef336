-- ===== src/Engine/History.antt =====
-- Histories of the operations of crates/oa-gateway-core/src/engine.rs against a plain table.
use oa_gateway.Prelude.{◌≡◌, refl, ◌∙◌, ap, Option, none, List, [], ◌∷◌, if◌then◌else◌}
use oa_gateway.Text.{Text, text_Eq, text_eq}
use oa_gateway.Map.{get, contains}
use oa_gateway.Engine.Types.{RouteKey, SubscriberKey, key_Eq, key_eq}
use oa_gateway.Engine.Index.{State, Subscription}
use oa_gateway.Engine.{subscribe, unsubscribe, drop_adapter, empty_state}
use oa_gateway.Engine.Consistent.{sub_key, IsConsistent, empty-IsConsistent}
use oa_gateway.Engine.Matching.{wanted, contains-target_keys}
use oa_gateway.Engine.Index.{target_keys}
use oa_gateway.Engine.Operations.{
  subscribe-IsConsistent, unsubscribe-IsConsistent, drop_adapter-IsDropped, or_else, get-subscribe,
  get-unsubscribe,
}

-- A call of an operation that changes the subscriptions.
pub data Call (S : Type 0) : Type 0 where
  subscribes : (adapter_id sub_id : Text) → RouteKey → S → Call S
  unsubscribes : (adapter_id sub_id : Text) → Call S
  drops : (adapter_id : Text) → Call S

-- The subscriptions as a client sees them: who has which route and channel.
abbrev pub Table : Type 0 → Type 0
Table S = SubscriberKey → Option (Subscription S)

module _ {S : Type 0} where
  pub step : Call S → State S → State S
  step (subscribes a sid route tx) s = (subscribe a sid route tx s).0
  step (unsubscribes a sid) s = (unsubscribe a sid s).0
  step (drops a) s = (drop_adapter a s).0

  unfoldable pub run : List (Call S) → State S → State S
  unfolding step
  run [] s = s
  run (c ∷ cs) s = run cs (step c s)

  -- The first registration of a key wins; removals forget a key, or all keys of an adapter.
  abbrev pub table_step : Call S → Table S → Table S
  table_step (subscribes a sid route tx) t k =
      if key_eq (sub_key a sid) k then or_else (t k) (record { route = route; tx = tx }) else t k
  table_step (unsubscribes a sid) t k = if key_eq (sub_key a sid) k then none else t k
  table_step (drops a) t k = if text_eq a k.adapter_id then none else t k

  abbrev pub table_run : List (Call S) → Table S → Table S
  table_run [] t = t
  table_run (c ∷ cs) t = table_run cs (table_step c t)

  abbrev pub table_of : State S → Table S
  table_of s k = get k s.by_key

  pub step-IsConsistent : (c : Call S) (s : State S) → IsConsistent s → IsConsistent (step c s)
  unfolding step
  step-IsConsistent (subscribes a sid route tx) s v = subscribe-IsConsistent a sid route tx s v
  step-IsConsistent (unsubscribes a sid) s v = unsubscribe-IsConsistent a sid s v
  step-IsConsistent (drops a) s v = (drop_adapter-IsDropped a s v).consistent

  pub run_keeps : (cs : List (Call S)) (s : State S) → IsConsistent s → IsConsistent (run cs s)
  unfolding run
  run_keeps [] s v = v
  run_keeps (c ∷ cs) s v = run_keeps cs (step c s) (step-IsConsistent c s v)

  -- After any calls on a new engine, the indexes agree with the table of subscriptions.
  pub run-IsConsistent : (cs : List (Call S)) → IsConsistent (run cs empty_state)
  run-IsConsistent cs = run_keeps cs empty_state empty-IsConsistent

  pub step-table :
      (c : Call S) (s : State S)
      → IsConsistent s
      → (k : SubscriberKey) → table_of (step c s) k ≡ table_step c (table_of s) k
  unfolding step
  step-table (subscribes a sid route tx) s v k = get-subscribe a sid route tx s k
  step-table (unsubscribes a sid) s v k = get-unsubscribe a sid s k
  step-table (drops a) s v k = (drop_adapter-IsDropped a s v).table k

  table_step_cong :
      (c : Call S) (t u : Table S) (k : SubscriberKey)
      → t k ≡ u k
      → table_step c t k ≡ table_step c u k
  table_step_cong (subscribes a sid route tx) t u k h = rw h
  table_step_cong (unsubscribes a sid) t u k h = rw h
  table_step_cong (drops a) t u k h = rw h

  table_of-empty : (k : SubscriberKey) → table_of empty_state k ≡ none
  unfolding get
  table_of-empty k = refl

  run-table_from :
      (cs : List (Call S)) (s : State S) (t : Table S)
      → IsConsistent s
      → ((k : SubscriberKey) → table_of s k ≡ t k)
      → (k : SubscriberKey) → table_of (run cs s) k ≡ table_run cs t k
  unfolding run
  run-table_from [] s t v h k = h k
  run-table_from (c ∷ cs) s t v h k =
      run-table_from cs (step c s) (table_step c t) (step-IsConsistent c s v)
        (λ j. step-table c s v j ∙ table_step_cong c (table_of s) t j (h j)) k

  -- After any calls on a new engine, each key has the subscription that a plain table would hold.
  pub run-table :
      (cs : List (Call S)) (k : SubscriberKey)
      → table_of (run cs empty_state) k ≡ table_run cs (λ _. none) k
  run-table cs k = run-table_from cs empty_state (λ _. none) empty-IsConsistent table_of-empty k

  -- After any calls on a new engine, a publish on `route` has the key `k` among its targets exactly
  -- when the plain table holds a subscription of `k` that `route` matches.
  pub contains-target_keys-run :
      (cs : List (Call S)) (route : RouteKey) (k : SubscriberKey)
      → contains k (target_keys route (run cs empty_state))
        ≡ wanted route (table_run cs (λ _. none) k)
  contains-target_keys-run cs route k =
      contains-target_keys route (run cs empty_state) k (run-IsConsistent cs)
      ∙ ap (wanted route) (run-table cs k)
