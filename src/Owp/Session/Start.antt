-- ===== src/Owp/Session/Start.antt =====
-- A connection before its INIT: crates/oa-gateway-owp/src/session.rs.
use oa_gateway.Prelude.{ℕ, ◌≡◌, refl, sym, subst, Bool, true, false, none, Option-cases, inl, inr}
use oa_gateway.Text.{Text}
use oa_gateway.Engine.{Channels}
use oa_gateway.Owp.Codec.{ClientOp, InitPayload, parse_client}
use oa_gateway.Owp.Errors.{Result, ok}
use oa_gateway.Owp.Session
use oa_gateway.Owp.Session.{
  Config, Payloads, Conn, awaiting_init, active, send, send_ok, negotiate, handle_init, handle_op,
  handle_text, or_true,
}
use oa_gateway.Owp.Session.Keeps.{Parsed-cases}

send_ok_keeps :
    {S W : Type 0} (verbose : Bool) (conn : Conn S W)
    → let conn' = send_ok verbose conn in
      (conn'.engine ≡ conn.engine) × (conn'.world ≡ conn.world) × (conn'.subs ≡ conn.subs)
unfolding send_ok send
send_ok_keeps true conn = (refl, refl, refl)
send_ok_keeps false conn = (refl, refl, refl)

module _ (c : Channels) (calls : Payloads) (config : Config) (adapter_id : Text) (conn_id : ℕ) where
  open c use {Sender, World}

  -- A frame begins a session only as an INIT that parses and that negotiation accepts.
  abbrev pub IsAccepted : Result ClientOp → Session.State → Type 0
  IsAccepted r awaiting_init = Unit
  IsAccepted r (active verbose service_id) =
      (payload : InitPayload) × (r ≡ ok (ClientOp.init payload))
      × (negotiate config payload ≡ none)
      × (service_id ≡ payload.service_id)
      × (verbose ≡ or_true payload.verbose)

  abbrev pub IsUntouched : Result ClientOp → Conn Sender World → Conn Sender World → Type 0
  IsUntouched r conn conn' =
      (conn'.engine ≡ conn.engine)
      × (conn'.world ≡ conn.world)
      × (conn'.subs ≡ conn.subs)
      × IsAccepted r conn'.state

  handle_init-IsUntouched :
      (payload : InitPayload) (conn : Conn Sender World)
      → conn.state ≡ awaiting_init
      → IsUntouched
          (ok (ClientOp.init payload))
          conn
          (handle_init c calls config adapter_id conn_id payload conn).0
  unfolding handle_init send send_ok
  handle_init-IsUntouched payload conn st = elim (Option-cases (negotiate config payload)) [
    | inl e ↦
        let kept = send_ok_keeps (or_true payload.verbose) conn in
        rw (e, handle_init) (kept.0, kept.1, kept.2, (payload, refl, e, refl, refl))
    | inr (error, e) ↦ rw (e, handle_init, st) (refl, refl, refl, tt)
  ]

  handle_op-IsUntouched :
      (id : ℕ) (tx : Sender) (op : ClientOp) (conn : Conn Sender World)
      → conn.state ≡ awaiting_init
      → IsUntouched
          (ok op)
          conn
          (handle_op c calls config adapter_id conn_id id tx awaiting_init op conn).0
  unfolding handle_op send
  handle_op-IsUntouched id tx (ClientOp.init payload) conn st =
      handle_init-IsUntouched payload conn st
  handle_op-IsUntouched id tx (ClientOp.publish topic payload) conn st =
      (refl, refl, refl, rw st tt)
  handle_op-IsUntouched id tx (ClientOp.sub sid message_name topic group) conn st =
      (refl, refl, refl, rw st tt)
  handle_op-IsUntouched id tx (ClientOp.unsub sid) conn st = (refl, refl, refl, rw st tt)

  -- A frame of a connection that has not begun leaves the engine, the peers' channels and the
  -- subscriptions alone, and the session begins only by an INIT that is parsed and accepted.
  pub handle_text-IsUntouched :
      (id : ℕ) (tx : Sender) (text : Text) (conn : Conn Sender World)
      → conn.state ≡ awaiting_init
      → IsUntouched
          (parse_client calls.serde text)
          conn
          (handle_text c calls config adapter_id conn_id id tx text conn).0
  unfolding handle_text send
  handle_text-IsUntouched id tx text conn st = elim (Parsed-cases (parse_client calls.serde text)) [
    | inl (e, x) ↦ rw (x, handle_text) (refl, refl, refl, rw st tt)
    | inr (op, x) ↦
        rw (x, handle_text)
          (subst
            (λ s.
              IsUntouched (ok op) conn
                (handle_op c calls config adapter_id conn_id id tx s op conn).0)
            (sym st) (handle_op-IsUntouched id tx op conn st))
  ]
