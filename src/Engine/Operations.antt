-- ===== src/Engine/Operations.antt =====
-- What `subscribe`, `unsubscribe` and `drop_adapter` of crates/oa-gateway-core/src/engine.rs do.
use oa_gateway.Prelude.{
  ℕ, suc, ◌+◌, ◌≡◌, refl, ap, ◌&&◌, Option, none, some, List, [], ◌∷◌, arith, Option-cases, inl,
  inr, if◌then◌else◌, length, ◌∙◌,
}
use oa_gateway.Text.{Text, text_Eq, text_eq_iff, text_eq}
use oa_gateway.Map.{contains, contains-nil, get, get-insert, get-remove, remove, contains_key}
use oa_gateway.Map.Buckets.{
  bucket_found, bucket_missing, bucket-remove, drop_from, drop_from_missing, contains-drop_from,
  remove-IsLean,
}
use oa_gateway.Map.Sizes.{if-IsDistinct, drop_from-IsDistinct, length-remove}
use oa_gateway.Engine.Types.{RouteKey, SubscriberKey, key_Eq, key_eq, key_eq_iff}
use oa_gateway.Engine.Index.{State, Subscription, remove_subscription}
use oa_gateway.Engine.Buckets.{index_at_update, IsLeanIndex-update}
use oa_gateway.Engine.Consistent.{
  sub_key, IsIndexed, IsConsistent, registered, unregistered, remove_at_frame,
  registered-IsConsistent, unregistered-IsIndexed, key_eq_test, by_key-registered,
}
use oa_gateway.Engine.{
  duplicate_sub, unknown_sub, ok, err, subscribe, unsubscribe, drop_each, drop_adapter,
}

module _ {S : Type 0} where
  remove_subscription_found :
      (key : SubscriberKey) (sub : Subscription S) (s : State S)
      → get key s.by_key ≡ some sub
      → remove_subscription key s ≡ some (unregistered key sub s)
  unfolding remove_subscription
  remove_subscription_found key sub s h = rw (h, remove_subscription)

  remove_subscription_missing :
      (key : SubscriberKey) (s : State S)
      → get key s.by_key ≡ none
      → remove_subscription key s ≡ none
  unfolding remove_subscription
  remove_subscription_missing key s h = rw (h, remove_subscription)

  by_key-unregistered :
      (key : SubscriberKey) (sub : Subscription S) (s : State S)
      → (unregistered key sub s).by_key ≡ remove key s.by_key
  by_key-unregistered key sub s = (remove_at_frame key sub.route.topic sub.route.type_hint _).0

  by_adapter-unregistered :
      (key : SubscriberKey) (sub : Subscription S) (s : State S)
      → (unregistered key sub s).by_adapter ≡ drop_from key.adapter_id key.sub_id s.by_adapter
  by_adapter-unregistered key sub s = (remove_at_frame key sub.route.topic sub.route.type_hint _).1

  unregistered-IsConsistent :
      (key : SubscriberKey) (sub : Subscription S) (s : State S)
      → get key s.by_key ≡ some sub
      → IsConsistent s
      → IsConsistent (unregistered key sub s)
  unregistered-IsConsistent key sub s there v = record {
    core = unregistered-IsIndexed key sub s there v.core;
    owned = λ a sid.
        rw (by_key-unregistered key sub s, by_adapter-unregistered key sub s)
          (ground (
            arith,
            contains-drop_from key.adapter_id a key.sub_id sid s.by_adapter,
            v.owned a sid,
            get-remove key (sub_key a sid) s.by_key,
            key_eq_test key (sub_key a sid),
          ));
    distinct = λ a. rw (by_adapter-unregistered key sub s) (
        drop_from-IsDistinct key.adapter_id a key.sub_id s.by_adapter (v.distinct a)
          (v.distinct _));
  }

  subscribe_new :
      (a sid : Text) (route : RouteKey) (tx : S) (s : State S)
      → get (sub_key a sid) s.by_key ≡ none
      → subscribe a sid route tx s ≡ (registered (sub_key a sid) route tx s, ok (sub_key a sid))
  unfolding subscribe contains_key
  subscribe_new a sid route tx s h = rw (h, subscribe, contains_key)

  subscribe_old :
      (a sid : Text) (route : RouteKey) (tx : S) (s : State S) {sub : Subscription S}
      → get (sub_key a sid) s.by_key ≡ some sub
      → subscribe a sid route tx s ≡ (s, err (duplicate_sub sid))
  unfolding subscribe contains_key
  subscribe_old a sid route tx s h = rw (h, subscribe, contains_key)

  pub subscribe-IsConsistent :
      (a sid : Text) (route : RouteKey) (tx : S) (s : State S)
      → IsConsistent s
      → IsConsistent (subscribe a sid route tx s).0
  subscribe-IsConsistent a sid route tx s v = elim (Option-cases (get (sub_key a sid) s.by_key)) [
    | inl new ↦
        rw (subscribe_new a sid route tx s new)
          (registered-IsConsistent (sub_key a sid) route tx s new v)
    | inr (sub, old) ↦ rw (subscribe_old a sid route tx s old) v
  ]

  unsubscribe_found :
      (a sid : Text) (sub : Subscription S) (s : State S)
      → get (sub_key a sid) s.by_key ≡ some sub
      → unsubscribe a sid s ≡ (unregistered (sub_key a sid) sub s, ok tt)
  unfolding unsubscribe
  unsubscribe_found a sid sub s h = rw (remove_subscription_found (sub_key a sid) sub s h)

  unsubscribe_missing :
      (a sid : Text) (s : State S)
      → get (sub_key a sid) s.by_key ≡ none
      → unsubscribe a sid s ≡ (s, err (unknown_sub sid))
  unfolding unsubscribe
  unsubscribe_missing a sid s h = rw (remove_subscription_missing (sub_key a sid) s h)

  pub unsubscribe-IsConsistent :
      (a sid : Text) (s : State S) → IsConsistent s → IsConsistent (unsubscribe a sid s).0
  unsubscribe-IsConsistent a sid s v = elim (Option-cases (get (sub_key a sid) s.by_key)) [
    | inl missing ↦ rw (unsubscribe_missing a sid s missing) v
    | inr (sub, there) ↦
        rw (unsubscribe_found a sid sub s there)
          (unregistered-IsConsistent (sub_key a sid) sub s there v)
  ]

  abbrev pub or_else : Option (Subscription S) → Subscription S → Option (Subscription S)
  or_else none sub = some sub
  or_else (some old) sub = some old

  -- A subscription enters the table under its key unless the key is taken.
  pub get-subscribe :
      (a sid : Text) (route : RouteKey) (tx : S) (s : State S) (k : SubscriberKey)
      → get k (subscribe a sid route tx s).0.by_key ≡ (
          if key_eq (sub_key a sid) k
          then or_else (get k s.by_key) (record { route = route; tx = tx })
          else get k s.by_key)
  get-subscribe a sid route tx s k = elim (Option-cases (get (sub_key a sid) s.by_key)) [
    | inl new ↦
        rw (subscribe_new a sid route tx s new, by_key-registered (sub_key a sid) route tx s)
          (ground (
            arith,
            get-insert (sub_key a sid) k (record { route = route; tx = tx }) s.by_key,
            key_eq_iff (sub_key a sid) k,
          ))
    | inr (sub, old) ↦
        rw (subscribe_old a sid route tx s old) (ground (arith, key_eq_iff (sub_key a sid) k))
  ]

  pub get-unsubscribe :
      (a sid : Text) (s : State S) (k : SubscriberKey)
      → get k (unsubscribe a sid s).0.by_key
        ≡ (if key_eq (sub_key a sid) k then none else get k s.by_key)
  get-unsubscribe a sid s k = elim (Option-cases (get (sub_key a sid) s.by_key)) [
    | inl missing ↦
        rw (unsubscribe_missing a sid s missing) (ground (arith, key_eq_iff (sub_key a sid) k))
    | inr (sub, there) ↦
        rw (unsubscribe_found a sid sub s there, by_key-unregistered (sub_key a sid) sub s)
          (get-remove (sub_key a sid) k s.by_key)
  ]

  -- What the loop of `drop_adapter` has done to a state whose adapter entry is already gone.
  record Dropped (a : Text) (sids : List Text) (s t : State S) (n : ℕ) : Type 0 where
    core : IsIndexed t
    same_adapters : t.by_adapter ≡ s.by_adapter
    table :
        (k : SubscriberKey)
        → get k t.by_key
          ≡ (if text_eq a k.adapter_id && contains k.sub_id sids then none else get k s.by_key)
    counted : length s.by_key ≡ n + length t.by_key

  Dropped-missing :
      (a sid : Text) (sids : List Text) (s : State S) {t : State S} {n : ℕ}
      → get (sub_key a sid) s.by_key ≡ none
      → Dropped a sids s t n
      → Dropped a (sid ∷ sids) s t n
  unfolding contains
  Dropped-missing a sid sids s missing d = record {
    core = d.core;
    same_adapters = d.same_adapters;
    table =
        λ k. ground (arith, d.table k, key_eq_iff (sub_key a sid) k, key_eq_test (sub_key a sid) k);
    counted = d.counted;
  }

  Dropped-found :
      (a sid : Text) (sids : List Text) (sub : Subscription S) (s : State S) {t : State S} {n : ℕ}
      → get a s.by_adapter ≡ none
      → IsIndexed s
      → get (sub_key a sid) s.by_key ≡ some sub
      → Dropped a sids (unregistered (sub_key a sid) sub s) t n
      → Dropped a (sid ∷ sids) s t (suc n)
  unfolding contains
  Dropped-found a sid sids sub s {t} {n} gone v there d =
      let keys = by_key-unregistered (sub_key a sid) sub s in
      record {
        core = d.core;
        same_adapters =
            d.same_adapters
            ∙ by_adapter-unregistered (sub_key a sid) sub s
            ∙ drop_from_missing a sid s.by_adapter gone;
        table = λ k. ground (
          arith,
          d.table k,
          keys,
          get-remove (sub_key a sid) k s.by_key,
          key_eq_test (sub_key a sid) k,
        );
        counted = omega (
          arith,
          d.counted,
          ap length keys,
          length-remove (sub_key a sid) {v = sub} s.by_key v.keys there,
        );
      }

  drop_each-Dropped :
      (a : Text) (sids : List Text) (s : State S)
      → get a s.by_adapter ≡ none
      → IsIndexed s
      → Dropped a sids s (drop_each a sids s).0 (drop_each a sids s).1
  unfolding drop_each
  drop_each-Dropped a [] s gone v = record {
    core = v;
    same_adapters = refl;
    table = λ k. ground (arith, contains-nil k.sub_id);
    counted = omega arith;
  }
  drop_each-Dropped a (sid ∷ sids) s gone v = elim (Option-cases (get (sub_key a sid) s.by_key)) [
    | inl missing ↦
        rw (remove_subscription_missing (sub_key a sid) s missing, drop_each)
          (Dropped-missing a sid sids s missing (drop_each-Dropped a sids s gone v))
    | inr (sub, there) ↦
        rw (remove_subscription_found (sub_key a sid) sub s there, drop_each)
          (Dropped-found a sid sids sub s gone v there (
            drop_each-Dropped a sids (unregistered (sub_key a sid) sub s)
              (rw
                (
                  by_adapter-unregistered (sub_key a sid) sub s,
                  drop_from_missing a sid s.by_adapter gone,
                )
                gone)
              (unregistered-IsIndexed (sub_key a sid) sub s there v)))
  ]

  pub record IsDropped (a : Text) (s t : State S) (removed : ℕ) : Type 0 where
    pub consistent : IsConsistent t
    pub table :
        (k : SubscriberKey)
        → get k t.by_key ≡ (if text_eq a k.adapter_id then none else get k s.by_key)
    pub counted : length s.by_key ≡ removed + length t.by_key

  without_adapter-IsIndexed :
      (a : Text) (s : State S)
      → IsIndexed s
      → IsIndexed (record s { by_adapter = remove a s.by_adapter })
  without_adapter-IsIndexed a s v = record {
    indexed =
        λ t h k. rw (index_at_update t h s s.by_key (remove a s.by_adapter)) (v.indexed t h k);
    keys = v.keys;
    lean = IsLeanIndex-update s _ _ v.lean;
    adapters = remove-IsLean a s.by_adapter v.adapters;
  }

  Dropped-all :
      (a : Text) (sids : List Text) (s : State S) {t : State S} {n : ℕ}
      → get a s.by_adapter ≡ some sids
      → IsConsistent s
      → Dropped a sids (record s { by_adapter = remove a s.by_adapter }) t n
      → IsDropped a s t n
  Dropped-all a sids s {t} there v d =
      let only : (k : SubscriberKey)
          → get k t.by_key ≡ (if text_eq a k.adapter_id then none else get k s.by_key) =
        λ k. ground (
          arith,
          d.table k,
          v.owned a k.sub_id,
          bucket_found a s.by_adapter there,
          text_eq_iff a k.adapter_id,
        ) in
      record {
        consistent = record {
          core = d.core;
          owned = λ a' sid. rw d.same_adapters (
              ground (
                arith,
                bucket-remove a a' s.by_adapter,
                only (sub_key a' sid),
                v.owned a' sid,
                contains-nil sid,
              ));
          distinct = λ a'.
              rw (d.same_adapters, bucket-remove a a' s.by_adapter)
                (if-IsDistinct (text_eq a a') [] _ tt (v.distinct a'));
        };
        table = only;
        counted = d.counted;
      }

  -- `drop_adapter` removes every subscription of the adapter and no other, counts those that it
  -- removed, and leaves the indexes consistent.
  pub drop_adapter-IsDropped :
      (a : Text) (s : State S)
      → IsConsistent s
      → IsDropped a s (drop_adapter a s).0 (drop_adapter a s).1
  unfolding drop_adapter
  drop_adapter-IsDropped a s v = elim (Option-cases (get a s.by_adapter)) [
    | inl missing ↦
        rw (missing, drop_adapter)
          (record {
            consistent = v;
            table = λ k. ground (
              arith,
              v.owned a k.sub_id,
              bucket_missing a s.by_adapter missing,
              text_eq_iff a k.adapter_id,
              contains-nil k.sub_id,
            );
            counted = omega arith;
          })
    | inr (sids, there) ↦
        rw (there, drop_adapter)
          (Dropped-all a sids s there v (
            drop_each-Dropped a sids (record s { by_adapter = remove a s.by_adapter })
              (ground (arith, get-remove a a s.by_adapter, text_eq_iff a a))
              (without_adapter-IsIndexed a s v.core)))
  ]
