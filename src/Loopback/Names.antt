-- ===== src/Loopback/Names.antt =====
-- The ids that crates/oa-gateway-loopback/src/lib.rs gives its subscriptions.
use oa_gateway.Prelude.{
  ℕ, suc, ◌+◌, ◌≡◌, ◌≢◌, ◌≤◌, ◌<◌, ◌∙◌, ap, refl, Bool, false, none, List, [], ◌∷◌, All, arith,
  subst, Bool-cases, inl, inr, length, drop,
}
use oa_gateway.Text.{Text, text_eq, text_eq_iff}
use oa_gateway.Text.Decimal.{print_usize, parse_usize, parse_usize-print_usize, usize_max}
use oa_gateway.Map.{get, contains_key}
use oa_gateway.Engine.{Result, ok, err, is_err, drop_adapter, fetch_add}
use oa_gateway.Engine
use oa_gateway.Engine.Types.{RouteKey, SubscriberKey, key_Eq, key_eq}
use oa_gateway.Engine.Index.{State}
use oa_gateway.Engine.Consistent.{sub_key, key_eq_test, IsConsistent}
use oa_gateway.Engine.History.{
  Call, subscribes, unsubscribes, drops, step, step-IsConsistent, step-table, Table, table_step,
}
use oa_gateway.Engine.Operations.{subscribe-IsConsistent, get-subscribe, drop_adapter-IsDropped}
use oa_gateway.Loopback.{Loopback, lb_id, subscribe, shutdown}

-- What happens around a handle: its own calls, and the calls of the others that share the engine.
pub data Event (S : Type 0) : Type 0 where
  subscribing : RouteKey → S → Event S
  shutting : Event S
  other : Call S → Event S

module _ {S : Type 0} where
  abbrev pub caller : Call S → Text
  caller (subscribes a sid route tx) = a
  caller (unsubscribes a sid) = a
  caller (drops a) = a

  -- The others do not use the handle's id.
  abbrev pub IsForeign : Text → Event S → Type 0
  IsForeign a (other call) = caller call ≢ a
  IsForeign a _ = Unit

  -- Which of the handle's subscribe calls fail.
  unfoldable pub failures : List (Event S) → Loopback → State S → List Bool
  unfolding subscribe shutdown
  failures [] handle s = []
  failures (subscribing route tx ∷ events) handle s =
      let ((handle', s'), result) = subscribe route tx handle s in
      is_err result ∷ failures events handle' s'
  failures (shutting ∷ events) handle s = failures events handle (shutdown handle s).0
  failures (other call ∷ events) handle s = failures events handle (step call s)

  -- The ids that the counter has not reached are free.
  abbrev pub IsFresh : Loopback → State S → Type 0
  IsFresh handle s =
      (i : ℕ)
      → handle.next_sub ≤ i
      → i ≤ usize_max
      → get (sub_key handle.id (lb_id i)) s.by_key ≡ none

print_usize_injective :
    (i j : ℕ) → i ≤ usize_max → j ≤ usize_max → print_usize i ≡ print_usize j → i ≡ j
print_usize_injective i j hi hj h =
    ground (arith, parse_usize-print_usize i hi, parse_usize-print_usize j hj, ap parse_usize h)

lb_id_injective : (i j : ℕ) → i ≤ usize_max → j ≤ usize_max → lb_id i ≡ lb_id j → i ≡ j
unfolding lb_id
lb_id_injective i j hi hj h = print_usize_injective i j hi hj (ap (drop 3) h)

fetch_add_small : (n : ℕ) → n < usize_max → fetch_add n 1 ≡ suc n
unfolding fetch_add
fetch_add_small n h = omega arith

apart_ids :
    (a : Text) (n i : ℕ)
    → n ≤ usize_max
    → i ≤ usize_max
    → n < i
    → key_eq (sub_key a (lb_id n)) (sub_key a (lb_id i)) ≡ false
apart_ids a n i hn hi h = elim (Bool-cases (text_eq (lb_id n) (lb_id i))) [
  | inl same ↦ ground (arith, lb_id_injective n i hn hi ((text_eq_iff (lb_id n) (lb_id i)).0 same))
  | inr different ↦
      ground (arith, key_eq_test (sub_key a (lb_id n)) (sub_key a (lb_id i)), different)
]

module _ {S : Type 0} where
  subscribe_fresh :
      (route : RouteKey) (tx : S) (handle : Loopback) (s : State S)
      → handle.next_sub ≤ usize_max
      → IsFresh handle s
      → is_err (subscribe route tx handle s).1 ≡ false
  unfolding subscribe Engine.subscribe contains_key
  subscribe_fresh route tx handle s small fresh =
      rw (fresh handle.next_sub (omega arith) small, Engine.subscribe, contains_key) refl

  subscribe-IsFresh :
      (route : RouteKey) (tx : S) (handle : Loopback) (s : State S)
      → handle.next_sub < usize_max
      → IsFresh handle s
      → IsFresh (subscribe route tx handle s).0.0 (subscribe route tx handle s).0.1
  unfolding subscribe
  subscribe-IsFresh route tx handle s small fresh i above below =
      let next : suc handle.next_sub ≤ i =
        subst (λ n. n ≤ i) (fetch_add_small handle.next_sub small) above in
      let other = apart_ids handle.id handle.next_sub i (omega arith) below next in
      ground (
        arith,
        get-subscribe handle.id (lb_id handle.next_sub) route tx s (sub_key handle.id (lb_id i)),
        other,
        fresh i (omega arith) below,
      )

  shutdown-IsFresh :
      (handle : Loopback) (s : State S)
      → IsConsistent s
      → IsFresh handle s
      → IsFresh handle (shutdown handle s).0
  unfolding shutdown
  shutdown-IsFresh handle s v fresh i above below = ground (
    arith,
    (drop_adapter-IsDropped handle.id s v).table (sub_key handle.id (lb_id i)),
    text_eq_iff handle.id handle.id,
  )

  -- A call of another adapter leaves the entries of this one.
  foreign_step :
      (call : Call S) (a : Text) (t : Table S) (k : SubscriberKey)
      → caller call ≢ a
      → k.adapter_id ≡ a
      → table_step call t k ≡ t k
  foreign_step (subscribes b sid route tx) a t k apart own =
      ground (arith, key_eq_test (sub_key b sid) k, text_eq_iff b k.adapter_id)
  foreign_step (unsubscribes b sid) a t k apart own =
      ground (arith, key_eq_test (sub_key b sid) k, text_eq_iff b k.adapter_id)
  foreign_step (drops b) a t k apart own = ground (arith, text_eq_iff b k.adapter_id)

  other-IsFresh :
      (call : Call S) (handle : Loopback) (s : State S)
      → caller call ≢ handle.id
      → IsConsistent s
      → IsFresh handle s
      → IsFresh handle (step call s)
  other-IsFresh call handle s apart v fresh i above below =
      let k = sub_key handle.id (lb_id i) in
      step-table call s v k
      ∙ foreign_step call handle.id (λ j. get j s.by_key) k apart refl
      ∙ fresh i above below

  -- On a handle whose id no other adapter of the engine uses, no subscribe call fails.
  pub failures-nil :
      (events : List (Event S)) (handle : Loopback) (s : State S)
      → All (IsForeign handle.id) events
      → handle.next_sub + length events ≤ usize_max
      → IsConsistent s
      → IsFresh handle s
      → All (λ failed. failed ≡ false) (failures events handle s)
  unfolding failures subscribe shutdown
  failures-nil [] handle s foreign small v fresh = tt
  failures-nil (subscribing route tx ∷ events) handle s foreign small v fresh =
      let ((handle', s'), result) = subscribe route tx handle s in
      (
        subscribe_fresh route tx handle s (omega (arith, small)) fresh,
        failures-nil events handle' s' foreign.1
            (omega (arith, small, fetch_add_small handle.next_sub (omega (arith, small))))
            (subscribe-IsConsistent handle.id (lb_id handle.next_sub) route tx s v)
            (subscribe-IsFresh route tx handle s (omega (arith, small)) fresh),
      )
  failures-nil (shutting ∷ events) handle s foreign small v fresh =
      failures-nil events handle (shutdown handle s).0 foreign.1 (omega (arith, small))
        (drop_adapter-IsDropped handle.id s v).consistent (shutdown-IsFresh handle s v fresh)
  failures-nil (other call ∷ events) handle s foreign small v fresh =
      failures-nil events handle (step call s) foreign.1 (omega (arith, small))
        (step-IsConsistent call s v) (other-IsFresh call handle s foreign.0 v fresh)
