-- ===== src/Engine/Matching.antt =====
-- Which subscribers a publish reaches: `collect_targets` of crates/oa-gateway-core/src/engine.rs
-- against a scan of the whole table.
use mathlib.Core.List.{Perm, filter_map}
use mathlib.Core.List.Perm
use oa_gateway.Prelude.{
  ◌≡◌, refl, sym, ap, ◌∙◌, Bool, true, false, ◌&&◌, ◌||◌, Option, none, some, List, [], ◌∷◌, arith,
  Option-cases, inl, inr, if◌then◌else◌,
}
use oa_gateway.Text.{Text, text_Eq, text_eq}
use oa_gateway.Map.{Map, get, contains, contains-nil, set_extend, contains-set_extend}
use oa_gateway.Map.Buckets.{bucket}
use oa_gateway.Map.Sizes.{HasDistinctKeys, IsDistinct, set_extend-IsDistinct, perm_of_contains}
use oa_gateway.Engine.Types.{RouteKey, SubscriberKey, key_Eq, key_eq_iff, hint_eq}
use oa_gateway.Engine.Index.{
  State, Subscription, target_keys, exact_keys, resolve_targets, collect_targets,
}
use oa_gateway.Engine.Buckets.{index_at}
use oa_gateway.Engine.Consistent.{IsConsistent}

-- The rule of the documentation: the same topic, and no hint of its own or the publish's hint.
abbrev hint_matches : Option Text → Option Text → Bool
hint_matches wanted none = true
hint_matches none (some h) = false
hint_matches (some w) (some h) = text_eq h w

abbrev pub matches : RouteKey → RouteKey → Bool
matches route sub = text_eq sub.topic route.topic && hint_matches route.type_hint sub.type_hint

module _ {S : Type 0} where
  -- The targets by a scan of all subscriptions.
  pub selected : RouteKey → Map SubscriberKey (Subscription S) → List (S × Text)
  selected route [] = []
  selected route ((k, sub) ∷ m) =
      let rest = selected route m in
      if matches route sub.route then (sub.tx, k.sub_id) ∷ rest else rest

  matching_keys : RouteKey → Map SubscriberKey (Subscription S) → List SubscriberKey
  matching_keys route [] = []
  matching_keys route ((k, sub) ∷ m) =
      let rest = matching_keys route m in if matches route sub.route then k ∷ rest else rest

  abbrev pub wanted : RouteKey → Option (Subscription S) → Bool
  wanted route none = false
  wanted route (some sub) = matches route sub.route

  contains-matching_keys :
      (route : RouteKey) (k : SubscriberKey) (m : Map SubscriberKey (Subscription S))
      → HasDistinctKeys m
      → contains k (matching_keys route m) ≡ wanted route (get k m)
  unfolding matching_keys contains get
  contains-matching_keys route k [] d = refl
  contains-matching_keys route k ((j, sub) ∷ m) d =
      ground (arith, contains-matching_keys route k m d.1, key_eq_iff j k)

  matching_keys-IsDistinct :
      (route : RouteKey) (m : Map SubscriberKey (Subscription S))
      → HasDistinctKeys m
      → IsDistinct (matching_keys route m)
  unfolding matching_keys
  matching_keys-IsDistinct route [] d = tt
  matching_keys-IsDistinct route ((j, sub) ∷ m) d =
      ground (arith, matching_keys-IsDistinct route m d.1, contains-matching_keys route j m d.1)

  resolve_targets_skip :
      (k : SubscriberKey) (sub : Subscription S) (m : Map SubscriberKey (Subscription S))
      (ks : List SubscriberKey)
      → contains k ks ≡ false
      → resolve_targets ((k, sub) ∷ m) ks ≡ resolve_targets m ks
  unfolding resolve_targets get contains
  resolve_targets_skip k sub m [] h = refl
  resolve_targets_skip k sub m (j ∷ ks) h =
      ground (arith, resolve_targets_skip k sub m ks, key_eq_iff j k, key_eq_iff k j)

  resolve_targets-matching_keys :
      (route : RouteKey) (m : Map SubscriberKey (Subscription S))
      → HasDistinctKeys m
      → resolve_targets m (matching_keys route m) ≡ selected route m
  unfolding resolve_targets matching_keys selected get
  resolve_targets-matching_keys route [] d = refl
  resolve_targets-matching_keys route ((k, sub) ∷ m) d = ground (
    arith,
    resolve_targets-matching_keys route m d.1,
    resolve_targets_skip k sub m (matching_keys route m),
    contains-matching_keys route k m d.1,
    key_eq_iff k k,
  )

  -- One round of `resolve_targets`.
  abbrev target_of : SubscriberKey → Option (Subscription S) → Option (S × Text)
  target_of k none = none
  target_of k (some sub) = some (sub.tx, k.sub_id)

  abbrev target : Map SubscriberKey (Subscription S) → SubscriberKey → Option (S × Text)
  target m k = target_of k (get k m)

  resolve_targets-filter_map :
      (m : Map SubscriberKey (Subscription S)) (ks : List SubscriberKey)
      → resolve_targets m ks ≡ filter_map (target m) ks
  unfolding resolve_targets filter_map
  resolve_targets-filter_map m [] = refl
  resolve_targets-filter_map m (k ∷ ks) = elim (Option-cases (get k m)) [
    | inl missing ↦ rw missing (resolve_targets-filter_map m ks)
    | inr (sub, there) ↦
        rw there (ap (λ l. (sub.tx, k.sub_id) ∷ l) (resolve_targets-filter_map m ks))
  ]

  resolve_targets-perm :
      (m : Map SubscriberKey (Subscription S)) {xs ys : List SubscriberKey}
      → Perm xs ys
      → Perm (resolve_targets m xs) (resolve_targets m ys)
  resolve_targets-perm m {xs} {ys} p =
      rw (resolve_targets-filter_map m xs, resolve_targets-filter_map m ys)
        (Perm.filter_map (target m) p)

  contains-indexed :
      (t : Text) (h : Option Text) (s : State S) (k : SubscriberKey)
      → IsConsistent s
      → (contains k (set_extend [] (bucket t s.wildcards)) || contains k (exact_keys t h s))
        ≡ wanted (record { topic = t; type_hint = h }) (get k s.by_key)
  unfolding exact_keys index_at hint_eq
  contains-indexed t none s k v = ground (
    arith,
    contains-set_extend k [] (bucket t s.wildcards),
    contains-nil k,
    v.core.indexed t none k,
  )
  contains-indexed t (some h) s k v = ground (
    arith,
    contains-set_extend k [] (bucket t s.wildcards),
    contains-nil k,
    v.core.indexed t none k,
    v.core.indexed t (some h) k,
  )

  pub contains-target_keys :
      (route : RouteKey) (s : State S) (k : SubscriberKey)
      → IsConsistent s
      → contains k (target_keys route s) ≡ wanted route (get k s.by_key)
  unfolding target_keys
  contains-target_keys route s k v =
      contains-set_extend k (set_extend [] (bucket route.topic s.wildcards)) _
      ∙ contains-indexed route.topic route.type_hint s k v

  target_keys-IsDistinct : (route : RouteKey) (s : State S) → IsDistinct (target_keys route s)
  unfolding target_keys
  target_keys-IsDistinct route s = set_extend-IsDistinct _ _ (set_extend-IsDistinct [] _ tt)

  -- In a consistent state, a publish reaches each subscription whose route matches, once, and no
  -- other: `collect_targets` finds through the indexes, up to order, what a scan of the table finds.
  pub collect_targets-selected :
      (route : RouteKey) (s : State S)
      → IsConsistent s
      → Perm (collect_targets route s) (selected route s.by_key)
  unfolding collect_targets
  collect_targets-selected route s v =
      let same =
        perm_of_contains (target_keys route s) (matching_keys route s.by_key)
          (target_keys-IsDistinct route s) (matching_keys-IsDistinct route s.by_key v.core.keys)
          (λ k.
            contains-target_keys route s k v
            ∙ sym (contains-matching_keys route k s.by_key v.core.keys)) in
      rw (← resolve_targets-matching_keys route s.by_key v.core.keys)
        (resolve_targets-perm s.by_key same)
