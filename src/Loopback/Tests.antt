-- ===== src/Loopback/Tests.antt =====
-- The loopback handle on small inputs.
use oa_gateway.Prelude.{ℕ, ◌≡◌, refl, false, List, [], ◌∷◌, All, arith}
use oa_gateway.Text.{codes}
use oa_gateway.Map.{get}
use oa_gateway.Engine.{empty_state}
use oa_gateway.Engine.Types.{typed_route, topic_route, key_Eq}
use oa_gateway.Engine.Consistent.{empty-IsConsistent}
use oa_gateway.Engine.History.{subscribes, drops}
use oa_gateway.Loopback.{new_loopback}
use oa_gateway.Loopback.Names.{
  Event, subscribing, shutting, other, failures, failures-nil, IsForeign,
}

abbrev events : List (Event ℕ)
events =
    subscribing (typed_route (codes "demo") (codes "Ping")) 1
    ∷ other (subscribes (codes "owp") (codes "lb-2") (topic_route (codes "demo")) 2)
    ∷ subscribing (topic_route (codes "demo")) 3
    ∷ shutting
    ∷ other (drops (codes "owp"))
    ∷ subscribing (topic_route (codes "demo")) 4
    ∷ []

events-IsForeign : All (IsForeign (codes "loop-a")) events
events-IsForeign =
    (tt, ((λ h. ground (arith, h)), (tt, (tt, ((λ h. ground (arith, h)), (tt, tt))))))

failures-nil_example :
    All (λ failed. failed ≡ false) (failures events (new_loopback (codes "loop-a")) empty_state)
unfolding get
failures-nil_example =
    failures-nil events (new_loopback (codes "loop-a")) empty_state events-IsForeign (omega arith)
      empty-IsConsistent (λ i above below. refl)
