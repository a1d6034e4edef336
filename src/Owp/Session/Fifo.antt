-- ===== src/Owp/Session/Fifo.antt =====
-- `run` in crates/oa-gateway-owp/src/session.rs: the order of the frames on the wire.
use oa_gateway.Prelude.{
  ℕ, ◌≤◌, arith, ◌≡◌, ◌∙◌, refl, ap, sym, Bool, true, false, some, List, [], ◌∷◌, ◌++◌, length,
  drop, append_assoc, append-nil, drop-length-append,
}
use oa_gateway.Text.{Text, codes}
use oa_gateway.Map.{Map}
use oa_gateway.Engine.{Channels}
use oa_gateway.Owp.Errors.{illegal_operation}
use oa_gateway.Owp.Codec.{ServerOp}
use oa_gateway.Owp.Session.{
  Config, Payloads, Conn, Flow, stay, close, err_op, send, handle_text, unsubscribed,
  unsubscribe_all, clean_up,
}
use oa_gateway.Owp.Session.Queued.{IsExtended, handle_text-IsExtended}
use oa_gateway.Owp.Session.Run.{
  Event, shutdown, elapsed, outgoing, forwarded, text, ping, pong, binary, closed, lost, Live,
  write_one, on_event, ended, run_events,
}

module _ {S W : Type 0} where
  -- Each frame on the wire, in the queue, or new is on the later wire or in the later queue, in the
  -- same order, but for `failed`.
  abbrev pub IsKept : List ServerOp → List ServerOp → Live S W → Live S W → Type 0
  IsKept failed new live later =
      later.written ++ (failed ++ later.conn.out) ≡ live.written ++ (live.conn.out ++ new)

  -- No frame is lost, reordered or written twice, except that at most one write fails.
  abbrev pub IsFifo : List ServerOp → Live S W → Live S W → Type 0
  IsFifo new live later =
      (failed : List ServerOp) × (length failed ≤ 1) × IsKept failed new live later

  -- One round; a write can only fail in the last one.
  abbrev IsRound : List ServerOp → Live S W → Live S W × Flow → Type 0
  IsRound new live (later, stay) = IsKept [] new live later
  IsRound new live (later, close) = IsFifo new live later

  kept-IsFifo :
      (new : List ServerOp) (live later : Live S W)
      → IsKept [] new live later
      → IsFifo new live later
  kept-IsFifo new live later h = ([], omega arith, h)

  -- What follows a queue in the longer one.
  behind :
      (queue : List ServerOp) (conn : Conn S W)
      → IsExtended queue conn
      → conn.out ≡ queue ++ drop (length queue) conn.out
  behind queue conn (new, h) =
      h ∙ ap (λ t. queue ++ t) (sym (ap (drop (length queue)) h ∙ drop-length-append queue new))

  answered-IsRound :
      (flow : Flow) (new : List ServerOp) (live : Live S W) (conn : Conn S W)
      → conn.out ≡ live.conn.out ++ new
      → IsRound new live (record live { conn = conn }, flow)
  answered-IsRound stay new live conn h = ap (λ t. live.written ++ t) h
  answered-IsRound close new live conn h =
      kept-IsFifo new live (record live { conn = conn }) (ap (λ t. live.written ++ t) h)

  write_one-IsRound :
      (sent : Bool) (queue : List ServerOp) (live : Live S W)
      → live.conn.out ≡ queue
      → IsRound [] live (write_one sent queue live)
  write_one-IsRound sent [] live h = ap (λ t. live.written ++ t) (sym (append-nil live.conn.out))
  write_one-IsRound true (op ∷ ops) live h =
      append_assoc live.written (op ∷ []) ops
      ∙ ap (λ t. live.written ++ t) (sym (append-nil live.conn.out ∙ h))
  write_one-IsRound false (op ∷ ops) live h =
      (op ∷ [], omega arith, ap (λ t. live.written ++ t) (sym (append-nil live.conn.out ∙ h)))

  nothing-IsKept : (live : Live S W) → IsKept [] [] live live
  nothing-IsKept live = ap (λ t. live.written ++ t) (sym (append-nil live.conn.out))

  nothing-IsFifo : (live : Live S W) → IsFifo [] live live
  nothing-IsFifo live = kept-IsFifo [] live live (nothing-IsKept live)

module _ (c : Channels) (calls : Payloads) (config : Config) (adapter_id : Text) (conn_id : ℕ) where
  open c use {Sender, World}

  -- The frames that an event puts into the queue.
  unfoldable pub queued : Event Sender → Live Sender World → List ServerOp
  unfolding handle_text
  queued (forwarded op) live = op ∷ []
  queued binary live = err_op illegal_operation (some (codes "binary frames are not allowed")) ∷ []
  queued (text id tx t) live =
      drop (length live.conn.out)
        (handle_text c calls config adapter_id conn_id id tx t live.conn).0.out
  queued e live = []

  abbrev if_stays : Flow → List ServerOp → List ServerOp
  if_stays stay ops = ops
  if_stays close ops = []

  -- Those of a sequence of events, up to the one that ends the connection.
  unfoldable pub all_queued : List (Event Sender) → Live Sender World → List ServerOp
  unfolding queued on_event
  all_queued [] live = []
  all_queued (e ∷ es) live =
      let (later, flow) = on_event c calls config adapter_id conn_id e live in
      queued e live ++ if_stays flow (all_queued es later)

  on_event-IsRound :
      (e : Event Sender) (live : Live Sender World)
      → IsRound (queued e live) live (on_event c calls config adapter_id conn_id e live)
  unfolding on_event queued send
  on_event-IsRound shutdown live = nothing-IsFifo live
  on_event-IsRound elapsed live = nothing-IsFifo live
  on_event-IsRound (outgoing sent) live = write_one-IsRound sent live.conn.out live refl
  on_event-IsRound (forwarded op) live = refl
  on_event-IsRound (text id tx t) live =
      let (conn, flow) = handle_text c calls config adapter_id conn_id id tx t live.conn in
      answered-IsRound flow _ live conn (
        behind live.conn.out conn
          (handle_text-IsExtended c calls config adapter_id conn_id id tx t live.conn))
  on_event-IsRound ping live = nothing-IsKept live
  on_event-IsRound pong live = nothing-IsKept live
  on_event-IsRound binary live = ([], omega arith, refl)
  on_event-IsRound closed live = nothing-IsFifo live
  on_event-IsRound lost live = nothing-IsFifo live

  out-unsubscribe_all :
      (subs : Map Text Text) (conn : Conn Sender World)
      → (unsubscribe_all c calls config adapter_id conn_id subs conn).out ≡ conn.out
  unfolding unsubscribe_all unsubscribed
  out-unsubscribe_all [] conn = refl
  out-unsubscribe_all ((sid, sub_id) ∷ subs) conn =
      out-unsubscribe_all subs (unsubscribed c calls config adapter_id conn_id sub_id conn)

  out-clean_up :
      (conn : Conn Sender World) → (clean_up c calls config adapter_id conn_id conn).out ≡ conn.out
  unfolding clean_up
  out-clean_up conn = out-unsubscribe_all conn.subs (record conn { subs = [] })

  -- One round before a loop in order is a loop in order.
  ended-IsFifo :
      (flow : Flow) (new rest : List ServerOp) (live later final : Live Sender World)
      → IsRound new live (later, flow)
      → IsFifo rest later final
      → IsFifo
          (new ++ if_stays flow rest)
          live
          (ended c calls config adapter_id conn_id flow later final)
  unfolding ended
  ended-IsFifo close new rest live later final (failed, most, h) w = (
    failed,
    most,
    ap (λ t. later.written ++ (failed ++ t)) (out-clean_up later.conn)
        ∙ h
        ∙ ap (λ t. live.written ++ (live.conn.out ++ t)) (sym (append-nil new)),
  )
  ended-IsFifo stay new rest live later final h (failed, most, w) = (
    failed,
    most,
    w
        ∙ sym (append_assoc later.written later.conn.out rest)
        ∙ ap (λ t. t ++ rest) h
        ∙ append_assoc live.written (live.conn.out ++ new) rest
        ∙ ap (λ t. live.written ++ t) (append_assoc live.conn.out new rest),
  )

  -- For every sequence of events, the frames on the wire at the start, those that wait in the queue,
  -- and those that the events put into it are at the end, in this order, first on the wire and then in
  -- the queue. At most one frame is missing between the two, that of a write that failed.
  pub run_events-IsFifo :
      (es : List (Event Sender)) (live : Live Sender World)
      → IsFifo (all_queued es live) live (run_events c calls config adapter_id conn_id es live)
  unfolding run_events all_queued
  run_events-IsFifo [] live = nothing-IsFifo live
  run_events-IsFifo (e ∷ es) live =
      let (later, flow) = on_event c calls config adapter_id conn_id e live in
      ended-IsFifo flow (queued e live) (all_queued es later) live later _ (on_event-IsRound e live)
        (run_events-IsFifo es later)
