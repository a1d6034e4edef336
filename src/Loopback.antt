-- ===== src/Loopback.antt =====
-- crates/oa-gateway-loopback/src/lib.rs: a handle onto the engine that has no socket. The channels are
-- tokio's: a subscription's sender is an argument.
mod Names
mod Tests
use oa_gateway.Prelude.{ℕ, List, [], ◌∷◌, ◌++◌, map}
use oa_gateway.Text.{Text, codes}
use oa_gateway.Text.Decimal.{print_usize}
use oa_gateway.Engine.{
  Channels, Engine, Delivery, PublishOutcome, EngineError, Result, fetch_add, drop_adapter,
}
use oa_gateway.Engine
use oa_gateway.Engine.Types.{RouteKey, Envelope, SubscriberKey}
use oa_gateway.Engine.Index.{State}

pub record Loopback : Type 0 where
  pub id : Text
  pub next_sub : ℕ

abbrev pub new_loopback : Text → Loopback
new_loopback id = record { id = id; next_sub = 1 }

unfoldable pub lb_id : ℕ → Text
lb_id n = codes "lb-" ++ print_usize n

module _ {S : Type 0} where
  unfoldable pub subscribe :
      RouteKey → S → Loopback → State S → (Loopback × State S) × Result SubscriberKey
  unfolding Engine.subscribe fetch_add lb_id
  subscribe route tx handle s =
      let (s', result) = Engine.subscribe handle.id (lb_id handle.next_sub) route tx s in
      ((record handle { next_sub = fetch_add handle.next_sub 1 }, s'), result)

  unfoldable pub shutdown : Loopback → State S → State S × ℕ
  unfolding drop_adapter
  shutdown handle s = drop_adapter handle.id s

  -- `run` once its token has fired.
  abbrev pub run : Loopback → State S → State S
  unfolding shutdown
  run handle s = (shutdown handle s).0

-- The task that `subscribe` spawns, on the deliveries that its client takes.
abbrev pub forwarded : List Delivery → List Envelope
forwarded [] = []
forwarded (delivery ∷ deliveries) = delivery.envelope ∷ forwarded deliveries

unfoldable pub publish :
    (c : Channels)
    → Envelope
    → Engine c.Sender
    → c.World
    → Engine c.Sender × c.World × PublishOutcome
unfolding Engine.publish
publish c envelope e w = Engine.publish c envelope e w
