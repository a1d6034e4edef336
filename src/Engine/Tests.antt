-- ===== src/Engine/Tests.antt =====
-- The router of crates/oa-gateway-core/src/engine.rs on small inputs.
use oa_gateway.Prelude.{
  ℕ, ◌+◌, ◌≡◌, refl, none, List, [], ◌∷◌, length, ltb, ◌==◌, if◌then◌else◌, Perm,
}
use oa_gateway.Text.{codes, text_Eq, text_eq}
use oa_gateway.Map.{get, contains, insert, contains_key, set_extend, set_remove}
use oa_gateway.Map.Buckets.{bucket, add_to, drop_from}
use oa_gateway.Engine.Types.{topic_route, typed_route, key_Eq, Envelope, hint_eq, key_eq}
use oa_gateway.Engine.Index.{State, insert_index, remove_subscription, target_keys, collect_targets}
use oa_gateway.Engine.{
  Channels, sent, full, Engine, empty_state, subscribe, unsubscribe, drop_adapter, publish,
  subscription_count, fan_out, err, duplicate_sub, unknown_sub, fetch_add,
}
use oa_gateway.Engine.Consistent.{IsConsistent, sub_key}
use oa_gateway.Engine.Operations.{IsDropped, drop_adapter-IsDropped}
use oa_gateway.Engine.History.{
  Call, subscribes, unsubscribes, run, table_of, table_run, run-IsConsistent, run-table,
  contains-target_keys-run,
}
use oa_gateway.Engine.Matching.{wanted, selected, collect_targets-selected}
use oa_gateway.Engine.Fanout.{publish_accounts}

-- Bounded channels that hold one delivery each.
abbrev one_each : Channels
one_each = record {
  Sender = ℕ;
  World = ℕ → ℕ;
  try_send =
      λ tx d w. if ltb (w tx) 1 then ((λ j. if j == tx then w j + 1 else w j), sent) else (w, full);
}

abbrev calls : List (Call ℕ)
calls =
    subscribes (codes "owp") (codes "s1") (typed_route (codes "demo") (codes "Ping")) 0
    ∷ subscribes (codes "stomp") (codes "s1") (topic_route (codes "demo")) 1
    ∷ subscribes (codes "owp") (codes "s2") (typed_route (codes "demo") (codes "Pong")) 2
    ∷ subscribes (codes "owp") (codes "s1") (topic_route (codes "other")) 3
    ∷ unsubscribes (codes "owp") (codes "s2")
    ∷ []

abbrev ping : Envelope
ping = record {
  id = 1;
  route = typed_route (codes "demo") (codes "Ping");
  headers = [];
  content_type = [];
  payload = 1 ∷ [];
}

abbrev served : State ℕ
served = run calls empty_state

machinery : Unit {0}
unfolding run subscribe unsubscribe drop_adapter publish fan_out insert_index remove_subscription
    target_keys collect_targets bucket add_to drop_from get contains insert contains_key set_extend
    set_remove text_eq key_eq hint_eq subscription_count fetch_add
machinery = tt

two_left : subscription_count served ≡ 2
unfolding machinery
two_left = refl

ping_targets : collect_targets ping.route served ≡ (0, codes "s1") ∷ (1, codes "s1") ∷ []
unfolding machinery
ping_targets = refl

duplicate :
    (subscribe (codes "owp") (codes "s1") (topic_route []) 9 served).1
    ≡ err (duplicate_sub (codes "s1"))
unfolding machinery
duplicate = refl

unknown : (unsubscribe (codes "owp") (codes "s2") served).1 ≡ err (unknown_sub (codes "s2"))
unfolding machinery
unknown = refl

dropped_one : (drop_adapter (codes "owp") served).1 ≡ 1
unfolding machinery
dropped_one = refl

abbrev busy : Engine ℕ
busy = record { state = served; stats = record { published = 0; delivered = 0; dropped = 0 } }

second_is_dropped :
    (publish one_each ping busy (λ j. if j == 0 then 1 else 0)).2
    ≡ record { matched = 2; delivered = 1; dropped = 1 }
unfolding machinery
second_is_dropped = refl

run-IsConsistent_example : IsConsistent served
run-IsConsistent_example = run-IsConsistent calls

contains-target_keys-run_example :
    contains (sub_key (codes "stomp") (codes "s1")) (target_keys ping.route served)
    ≡ wanted ping.route (table_run calls (λ _. none) (sub_key (codes "stomp") (codes "s1")))
contains-target_keys-run_example =
    contains-target_keys-run calls ping.route (sub_key (codes "stomp") (codes "s1"))

run-table_example :
    table_of served (sub_key (codes "owp") (codes "s2"))
    ≡ table_run calls (λ _. none) (sub_key (codes "owp") (codes "s2"))
run-table_example = run-table calls (sub_key (codes "owp") (codes "s2"))

drop_adapter-IsDropped_example :
    IsDropped
      (codes "owp")
      served
      (drop_adapter (codes "owp") served).0
      (drop_adapter (codes "owp") served).1
drop_adapter-IsDropped_example =
    drop_adapter-IsDropped (codes "owp") served (run-IsConsistent calls)

collect_targets-selected_example :
    Perm (collect_targets ping.route served) (selected ping.route served.by_key)
collect_targets-selected_example =
    collect_targets-selected ping.route served (run-IsConsistent calls)

publish_accounts_example :
    let (e', _, outcome) = publish one_each ping busy (λ j. 0) in
    (outcome.matched ≡ length (selected ping.route served.by_key))
    × (outcome.delivered + outcome.dropped ≡ outcome.matched)
    × (e'.state ≡ served)
    × (e'.stats.published ≡ fetch_add 0 1)
    × (e'.stats.delivered ≡ fetch_add 0 outcome.delivered)
    × (e'.stats.dropped ≡ fetch_add 0 outcome.dropped)
publish_accounts_example = publish_accounts one_each ping busy (λ j. 0) (run-IsConsistent calls)
