-- ===== src/Stomp/Confined.antt =====
-- What a session of crates/oa-gateway-stomp/src/adapter.rs does to the subscriptions of the engine.
use oa_gateway.Prelude.{ℕ, ◌≡◌, ◌∙◌, refl, Option, none, some, List, [], ◌∷◌, if◌then◌else◌, arith}
use oa_gateway.Prelude.Attempt.{Attempt, done, refused}
use oa_gateway.Text.{Text, text_eq}
use oa_gateway.Map.{get}
use oa_gateway.Engine.{subscribe, drop_adapter}
use oa_gateway.Engine.Types.{SubscriberKey, topic_route, key_Eq}
use oa_gateway.Engine.Index.{State}
use oa_gateway.Engine.Consistent.{IsConsistent, sub_key, key_eq_test}
use oa_gateway.Engine.Operations.{subscribe-IsConsistent, get-subscribe, drop_adapter-IsDropped}
use oa_gateway.Stomp.Frame.{Frame}
use oa_gateway.Stomp.Session.{Live, write, write_with, sub_id, engine_subscribe, and_then}

-- The entries of the other adapters.
abbrev pub without {ℓ} : {A : Type ℓ} → Text → SubscriberKey → Option A → Option A
without a k entry = if text_eq a k.adapter_id then none else entry

-- The indexes are consistent after a step, and the other adapters' subscriptions are as before.
pub record IsConfined {S : Type 0} (a : Text) (s t : State S) : Type 0 where
  pub consistent : IsConsistent t
  pub others : (k : SubscriberKey) → without a k (get k t.by_key) ≡ without a k (get k s.by_key)

module _ {S : Type 0} (a : Text) where
  pub IsConfined-trans : {r s t : State S} → IsConfined a r s → IsConfined a s t → IsConfined a r t
  IsConfined-trans p q = record { consistent = q.consistent; others = λ k. q.others k ∙ p.others k }

  pub IsConfined-refl : (s : State S) → IsConsistent s → IsConfined a s s
  IsConfined-refl s v = record { consistent = v; others = λ k. refl }

  subscribe-IsConfined :
      (sid topic : Text) (tx : S) (s : State S)
      → IsConsistent s
      → IsConfined a s (subscribe a sid (topic_route topic) tx s).0
  subscribe-IsConfined sid topic tx s v = record {
    consistent = subscribe-IsConsistent a sid (topic_route topic) tx s v;
    others = λ k.
        ground
          (arith, get-subscribe a sid (topic_route topic) tx s k, key_eq_test (sub_key a sid) k);
  }

  pub drop_adapter-IsConfined : (s : State S) → IsConsistent s → IsConfined a s (drop_adapter a s).0
  drop_adapter-IsConfined s v =
      let dropped = drop_adapter-IsDropped a s v in
      record { consistent = dropped.consistent; others = λ k. ground (arith, dropped.table k) }

module _ {S W : Type 0} (a : Text) where
  -- A step of the session from `live` to `live'`.
  abbrev pub IsStep : Live S W → Live S W → Type 0
  IsStep live live' = IsConfined a live.engine.state live'.engine.state

  write_with_frame :
      (f : Frame) (faults : List (Option Text)) (live : Live S W)
      → (write_with f faults live).0.engine ≡ live.engine
  write_with_frame f [] live = refl
  write_with_frame f (none ∷ faults) live = refl
  write_with_frame f (some e ∷ faults) live = refl

  pub write_frame : (f : Frame) (live : Live S W) → (write f live).0.engine ≡ live.engine
  unfolding write
  write_frame f live = write_with_frame f live.faults live

  pub and_then-IsStep :
      (live : Live S W) (first : Live S W × Attempt (Unit {0})) (message : Text → Text)
      (more : Live S W → Live S W × Attempt (Unit {0}))
      → IsStep live first.0
      → ((next : Live S W) → IsConsistent next.engine.state → IsStep next (more next).0)
      → IsStep live (and_then first message more).0
  unfolding and_then
  and_then-IsStep live (next, refused e) message more p q = p
  and_then-IsStep live (next, done x) message more p q = IsConfined-trans a p (q next p.consistent)

  pub engine_subscribe-IsStep :
      (tx : S) (i : ℕ) (topic : Text) (live : Live S W)
      → IsConsistent live.engine.state
      → IsStep live (engine_subscribe a tx i topic live).0
  unfolding engine_subscribe
  engine_subscribe-IsStep tx i topic live v =
      subscribe-IsConfined a (sub_id i) topic tx live.engine.state v

  pub write-IsStep :
      (f : Frame) (live : Live S W) → IsConsistent live.engine.state → IsStep live (write f live).0
  write-IsStep f live v = rw (write_frame f live) (IsConfined-refl a live.engine.state v)
