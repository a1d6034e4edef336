-- ===== src/Engine/Fanout.antt =====
-- The counts of `publish` in crates/oa-gateway-core/src/engine.rs, whatever the channels answer.
use oa_gateway.Prelude.{ℕ, ◌+◌, ◌≡◌, refl, List, [], ◌∷◌, arith, length, length-perm}
use oa_gateway.Text.{Text}
use oa_gateway.Engine.Types.{Envelope}
use oa_gateway.Engine.Index.{collect_targets}
use oa_gateway.Engine.Consistent.{IsConsistent}
use oa_gateway.Engine.Matching.{selected, collect_targets-selected}
use oa_gateway.Engine.{
  Engine, Channels, SendResult, sent, full, closed, fan_out, publish, fetch_add, tally,
}

module _ (c : Channels) where
  open c use {Sender, World, try_send}

  tally_total : (r : SendResult) (d x : ℕ) → (tally c r (d, x)).0 + (tally c r (d, x)).1 ≡ d + x + 1
  tally_total sent d x = omega arith
  tally_total full d x = omega arith
  tally_total closed d x = omega arith

  fan_out_total :
      (env : Envelope) (ts : List (Sender × Text)) (counts : ℕ × ℕ) (w : World)
      → (fan_out c env ts counts w).1.0 + (fan_out c env ts counts w).1.1
        ≡ counts.0 + counts.1 + length ts
  unfolding fan_out
  fan_out_total env [] counts w = omega arith
  fan_out_total env ((tx, sid) ∷ ts) (d, x) w =
      let (w', r) = try_send tx (record { sub_id = sid; envelope = env }) w in
      omega (arith, fan_out_total env ts (tally c r (d, x)) w', tally_total r d x)

  -- In a consistent engine, `matched` is the number of subscriptions whose route matches, each of
  -- them is counted as delivered or as dropped and none as both, the subscriptions do not change,
  -- and the three counters grow by 1, `delivered` and `dropped`, modulo 2 ^ 64.
  pub publish_accounts :
      (env : Envelope) (e : Engine Sender) (w : World)
      → IsConsistent e.state
      → let (e', _, outcome) = publish c env e w in
        (outcome.matched ≡ length (selected env.route e.state.by_key))
        × (outcome.delivered + outcome.dropped ≡ outcome.matched)
        × (e'.state ≡ e.state)
        × (e'.stats.published ≡ fetch_add e.stats.published 1)
        × (e'.stats.delivered ≡ fetch_add e.stats.delivered outcome.delivered)
        × (e'.stats.dropped ≡ fetch_add e.stats.dropped outcome.dropped)
  unfolding publish
  publish_accounts env e w v = (
    length-perm (collect_targets-selected env.route e.state v),
    omega (arith, fan_out_total env (collect_targets env.route e.state) (0, 0) w),
    refl,
    refl,
    refl,
    refl,
  )
