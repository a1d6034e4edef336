-- ===== src/Engine/Consistent.antt =====
-- The indexes of the router agree with its table of subscriptions, and each operation keeps it so.
use oa_gateway.Prelude.{◌≡◌, refl, Bool, false, ◌&&◌, Option, none, some, [], arith, is_some}
use oa_gateway.Text.{Text, text_Eq, text_eq}
use oa_gateway.Map.{contains, get, get-insert, get-remove, insert, remove}
use oa_gateway.Map.Buckets.{
  bucket, bucket-nil, IsLean, add_to, drop_from, add_to-IsLean, drop_from-IsLean, contains-add_to,
}
use oa_gateway.Map.Sizes.{
  IsDistinct, add_to-IsDistinct, HasDistinctKeys, insert-HasDistinctKeys, remove-HasDistinctKeys,
}
use oa_gateway.Engine.Types.{RouteKey, SubscriberKey, key_Eq, hint_eq, key_eq, key_eq_iff}
use oa_gateway.Engine.Index.{State, Subscription, insert_index, insert_at, remove_at}
use oa_gateway.Engine.Buckets.{
  index_at, index_at_update, IsLeanIndex-update, contains-insert_at, contains-remove_at,
  IsLeanIndex, insert_at-IsLeanIndex, remove_at-IsLeanIndex,
}
use oa_gateway.Engine.{empty_state}

abbrev pub sub_key : Text → Text → SubscriberKey
sub_key adapter_id sub_id = record { adapter_id = adapter_id; sub_id = sub_id }

pub key_eq_test :
    (a b : SubscriberKey)
    → key_eq a b ≡ (text_eq a.adapter_id b.adapter_id && text_eq a.sub_id b.sub_id)
unfolding key_eq
key_eq_test a b = refl

index_at-empty : (S : Type 0) (t : Text) (h : Option Text) → index_at t h (empty_state {S = S}) ≡ []
unfolding index_at
index_at-empty S t none = bucket-nil t
index_at-empty S t (some h) = rw (bucket-nil t) (bucket-nil h)

module _ {S : Type 0} where
  -- Whether an entry of the table has this route.
  abbrev pub routed : Option (Subscription S) → Text → Option Text → Bool
  routed none t h = false
  routed (some sub) t h = text_eq sub.route.topic t && hint_eq sub.route.type_hint h

  -- The indexes and the table agree.
  pub record IsIndexed (s : State S) : Type 0 where
    pub indexed :
        (t : Text) (h : Option Text) (k : SubscriberKey)
        → contains k (index_at t h s) ≡ routed (get k s.by_key) t h
    pub keys : HasDistinctKeys s.by_key
    pub lean : IsLeanIndex s
    pub adapters : IsLean s.by_adapter

  -- Each adapter owns exactly its keys of the table.
  pub record IsConsistent (s : State S) : Type 0 where
    pub core : IsIndexed s
    pub owned :
        (a sid : Text)
        → contains sid (bucket a s.by_adapter) ≡ is_some (get (sub_key a sid) s.by_key)
    pub distinct : (a : Text) → IsDistinct (bucket a s.by_adapter)

  -- What `subscribe` leaves when it succeeds.
  abbrev pub registered : SubscriberKey → RouteKey → S → State S → State S
  registered key route tx s =
      let i = insert_index key route s in
      record i {
        by_adapter = add_to key.adapter_id key.sub_id i.by_adapter;
        by_key = insert key (record { route = route; tx = tx }) i.by_key;
      }

  insert_at_frame :
      (k : SubscriberKey) (t : Text) (h : Option Text) (s : State S)
      → ((insert_at k t h s).by_key ≡ s.by_key) × ((insert_at k t h s).by_adapter ≡ s.by_adapter)
  unfolding insert_at
  insert_at_frame k t none s = (refl, refl)
  insert_at_frame k t (some h) s = (refl, refl)

  pub remove_at_frame :
      (k : SubscriberKey) (t : Text) (h : Option Text) (s : State S)
      → ((remove_at k t h s).by_key ≡ s.by_key) × ((remove_at k t h s).by_adapter ≡ s.by_adapter)
  unfolding remove_at
  remove_at_frame k t none s = (refl, refl)
  remove_at_frame k t (some h) s = (refl, refl)

  -- What `remove_subscription` leaves of a consistent state that has the key.
  abbrev pub unregistered : SubscriberKey → Subscription S → State S → State S
  unregistered key sub s = remove_at key sub.route.topic sub.route.type_hint (record s {
    by_key = remove key s.by_key;
    by_adapter = drop_from key.adapter_id key.sub_id s.by_adapter;
  })

  pub registered-IsConsistent :
      (key : SubscriberKey) (route : RouteKey) (tx : S) (s : State S)
      → get key s.by_key ≡ none
      → IsConsistent s
      → IsConsistent (registered key route tx s)
  unfolding insert_index
  registered-IsConsistent key route tx s new v = record {
    core = record {
      indexed = λ t h k.
          let (same_keys, _) = insert_at_frame key route.topic route.type_hint s in
          rw (index_at_update t h (insert_at key route.topic route.type_hint s) _ _, same_keys)
            (ground (
              arith,
              contains-insert_at key k route.topic t route.type_hint h s,
              v.core.indexed t h k,
              get-insert key k (record { route = route; tx = tx }) s.by_key,
              key_eq_iff key k,
            ));
      keys =
          rw ((insert_at_frame key route.topic route.type_hint s).0)
            (insert-HasDistinctKeys key _ s.by_key v.core.keys);
      lean =
          IsLeanIndex-update _ _ _
            (insert_at-IsLeanIndex key route.topic route.type_hint s v.core.lean);
      adapters =
          rw ((insert_at_frame key route.topic route.type_hint s).1)
            (add_to-IsLean key.adapter_id key.sub_id s.by_adapter v.core.adapters);
    };
    owned = λ a sid.
        let (same_keys, same_adapters) = insert_at_frame key route.topic route.type_hint s in
        rw (same_keys, same_adapters)
          (ground (
            arith,
            contains-add_to key.adapter_id a key.sub_id sid s.by_adapter,
            v.owned a sid,
            get-insert key (sub_key a sid) (record { route = route; tx = tx }) s.by_key,
            key_eq_test key (sub_key a sid),
          ));
    distinct = λ a.
        rw ((insert_at_frame key route.topic route.type_hint s).1) (
          add_to-IsDistinct key.adapter_id a key.sub_id s.by_adapter (v.distinct a) (v.distinct _));
  }

  pub unregistered-IsIndexed :
      (key : SubscriberKey) (sub : Subscription S) (s : State S)
      → get key s.by_key ≡ some sub
      → IsIndexed s
      → IsIndexed (unregistered key sub s)
  unregistered-IsIndexed key sub s there v =
      let s' : State S = record s {
        by_key = remove key s.by_key;
        by_adapter = drop_from key.adapter_id key.sub_id s.by_adapter;
      } in
      let (same_keys, same_adapters) = remove_at_frame key sub.route.topic sub.route.type_hint s' in
      record {
        indexed = λ t h k. rw same_keys (
            ground (
              arith,
              contains-remove_at key k sub.route.topic t sub.route.type_hint h s',
              index_at_update t h s (remove key s.by_key) s'.by_adapter,
              v.indexed t h k,
              get-remove key k s.by_key,
              key_eq_iff key k,
            ));
        keys = rw same_keys (remove-HasDistinctKeys key s.by_key v.keys);
        lean =
            remove_at-IsLeanIndex key sub.route.topic sub.route.type_hint s'
              (IsLeanIndex-update s _ _ v.lean);
        adapters =
            rw same_adapters (drop_from-IsLean key.adapter_id key.sub_id s.by_adapter v.adapters);
      }

  pub by_key-registered :
      (key : SubscriberKey) (route : RouteKey) (tx : S) (s : State S)
      → (registered key route tx s).by_key ≡ insert key (record { route = route; tx = tx }) s.by_key
  unfolding insert_index
  by_key-registered key route tx s = rw ((insert_at_frame key route.topic route.type_hint s).0)

  pub empty-IsConsistent : IsConsistent empty_state
  unfolding get bucket contains
  empty-IsConsistent = record {
    core = record {
      indexed = λ t h k. rw (index_at-empty S t h);
      keys = tt;
      lean = record {
        wildcards = λ j. ground arith;
        exact = λ j. ground arith;
        by_hint = λ t j. ground arith;
      };
      adapters = λ j. ground arith;
    };
    owned = λ a sid. refl;
    distinct = λ a. tt;
  }
