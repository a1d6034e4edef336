-- ===== src/Supervise/Tests.antt =====
-- The supervisor's decisions on small inputs.
use oa_gateway.Prelude.{◌≡◌, ◌↔◌, true, not, ◌&&◌}
use oa_gateway.Text.{codes}
use oa_gateway.Supervise.{
  abort, reconnect, on_panic_of, on_panic_text, parsed, after_join, panicked, retries, fails,
  may_retry, went_wrong, after_join_decides, on_panic_of_iff,
}

after_join_decides_example :
    let after = after_join panicked true reconnect (codes "stomp") in
    (retries after ≡ true && may_retry panicked reconnect)
    × (fails after ≡ went_wrong panicked && not (retries after))
after_join_decides_example = after_join_decides panicked true reconnect (codes "stomp")

on_panic_of_iff_example :
    (on_panic_of (codes "abort") ≡ parsed abort) ↔ (on_panic_text abort ≡ codes "abort")
on_panic_of_iff_example = on_panic_of_iff (codes "abort") abort
