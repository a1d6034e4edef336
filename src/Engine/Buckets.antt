-- ===== src/Engine/Buckets.antt =====
-- What the index functions of crates/oa-gateway-core/src/engine.rs do to the set under a route.
use oa_gateway.Prelude.{
  ◌≡◌, refl, not, ◌&&◌, ◌||◌, Option, none, some, arith, Option-cases, inl, inr,
}
use oa_gateway.Text.{Text, text_Eq, text_eq_iff, text_eq}
use oa_gateway.Map.{Map, Set, contains, contains-nil, get}
use oa_gateway.Map.Buckets.{
  bucket, bucket-nil, bucket_missing, bucket_found, add_to, drop_from, bucket-insert,
  bucket-put_back, contains-add_to, contains-drop_from, IsLean, if-IsLean, put_back-IsLean,
  insert-IsLean, add_to-ne-nil, add_to-IsLean, drop_from-IsLean,
}
use oa_gateway.Engine.Types.{SubscriberKey, key_Eq, hint_eq, key_eq}
use oa_gateway.Engine.Index.{State, Subscription, insert_at, remove_at, drop_exact}

module _ {S : Type 0} where
  -- The set of subscribers that the indexes keep for a topic and a hint.
  unfoldable pub index_at : Text → Option Text → State S → Set SubscriberKey
  index_at topic none s = bucket topic s.wildcards
  index_at topic (some hint) s = bucket hint (bucket topic s.exact)

  -- The sets do not depend on the other two tables.
  pub index_at_update :
      (t : Text) (h : Option Text) (s : State S) (m : Map SubscriberKey (Subscription S))
      (n : Map Text (Set Text))
      → index_at t h (record s { by_key = m; by_adapter = n }) ≡ index_at t h s
  unfolding index_at
  index_at_update t none s m n = refl
  index_at_update t (some x) s m n = refl

  pub contains-insert_at :
      (k k' : SubscriberKey) (t t' : Text) (h h' : Option Text) (s : State S)
      → contains k' (index_at t' h' (insert_at k t h s))
        ≡ ((text_eq t t' && hint_eq h h' && key_eq k k') || contains k' (index_at t' h' s))
  unfolding index_at insert_at hint_eq
  contains-insert_at k k' t t' none none s = ground (arith, contains-add_to t t' k k' s.wildcards)
  contains-insert_at k k' t t' none (some h') s = ground arith
  contains-insert_at k k' t t' (some h) none s = ground arith
  contains-insert_at k k' t t' (some h) (some h') s = ground (
    arith,
    bucket-insert t t' (add_to h k (bucket t s.exact)) s.exact,
    contains-add_to h h' k k' (bucket t s.exact),
    text_eq_iff t t',
  )

  pub contains-remove_at :
      (k k' : SubscriberKey) (t t' : Text) (h h' : Option Text) (s : State S)
      → contains k' (index_at t' h' (remove_at k t h s))
        ≡ (not (text_eq t t' && hint_eq h h' && key_eq k k') && contains k' (index_at t' h' s))
  unfolding index_at remove_at hint_eq
  contains-remove_at k k' t t' none none s =
      ground (arith, contains-drop_from t t' k k' s.wildcards)
  contains-remove_at k k' t t' none (some h') s = ground arith
  contains-remove_at k k' t t' (some h) none s = ground arith
  contains-remove_at k k' t t' (some h) (some h') s = elim (Option-cases (get t s.exact)) [
    | inl missing ↦
        rw (missing, drop_exact)
          (ground (
            arith,
            bucket_missing t s.exact,
            bucket-nil {A = SubscriberKey} h',
            text_eq_iff t t',
            contains-nil k',
          ))
    | inr (by_hint, there) ↦
        rw (there, drop_exact)
          (ground (
            arith,
            bucket-put_back t t' (drop_from h k by_hint) s.exact,
            bucket_found t s.exact there,
            contains-drop_from h h' k k' by_hint,
            text_eq_iff t t',
          ))
  ]

  -- No index keeps an empty set or an empty map.
  pub record IsLeanIndex (s : State S) : Type 0 where
    pub wildcards : IsLean s.wildcards
    pub exact : IsLean s.exact
    pub by_hint : (t : Text) → IsLean (bucket t s.exact)

  pub IsLeanIndex-update :
      (s : State S) (m : Map SubscriberKey (Subscription S)) (n : Map Text (Set Text))
      → IsLeanIndex s
      → IsLeanIndex (record s { by_key = m; by_adapter = n })
  IsLeanIndex-update s m n v = record {
    wildcards = v.wildcards;
    exact = v.exact;
    by_hint = v.by_hint;
  }

  pub insert_at-IsLeanIndex :
      (k : SubscriberKey) (t : Text) (h : Option Text) (s : State S)
      → IsLeanIndex s
      → IsLeanIndex (insert_at k t h s)
  unfolding insert_at
  insert_at-IsLeanIndex k t none s v = record {
    wildcards = add_to-IsLean t k s.wildcards v.wildcards;
    exact = v.exact;
    by_hint = v.by_hint;
  }
  insert_at-IsLeanIndex k t (some h) s v = record {
    wildcards = v.wildcards;
    exact = insert-IsLean t _ s.exact (add_to-ne-nil h k (bucket t s.exact)) v.exact;
    by_hint = λ t'.
        rw (bucket-insert t t' _ s.exact)
          (if-IsLean (text_eq t t') _ _ (add_to-IsLean h k _ (v.by_hint t)) (v.by_hint t'));
  }

  pub remove_at-IsLeanIndex :
      (k : SubscriberKey) (t : Text) (h : Option Text) (s : State S)
      → IsLeanIndex s
      → IsLeanIndex (remove_at k t h s)
  unfolding remove_at
  remove_at-IsLeanIndex k t none s v = record {
    wildcards = drop_from-IsLean t k s.wildcards v.wildcards;
    exact = v.exact;
    by_hint = v.by_hint;
  }
  remove_at-IsLeanIndex k t (some h) s v = elim (Option-cases (get t s.exact)) [
    | inl missing ↦ rw (missing, drop_exact) v
    | inr (by_hint, there) ↦
        rw (there, drop_exact)
          (record {
            wildcards = v.wildcards;
            exact = put_back-IsLean t (drop_from h k by_hint) s.exact v.exact;
            by_hint = λ t'. rw (bucket-put_back t t' _ s.exact) (
                if-IsLean (text_eq t t') _ _
                  (drop_from-IsLean h k by_hint
                    (rw (bucket_found t s.exact there) at (v.by_hint t)))
                  (v.by_hint t'));
          })
  ]
