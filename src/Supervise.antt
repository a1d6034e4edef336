-- ===== src/Supervise.antt =====
-- crates/oa-gateway-adapter/src/supervise.rs: what an adapter does after one of its sessions ends.
-- The log lines are left out. `tokio`'s join result is given by its cases.
mod Tests
use oa_gateway.Prelude.{
  ◌≡◌, ◌↔◌, refl, ◌∙◌, sym, Bool, true, false, not, ◌&&◌, ◌||◌, Option, none, some, List, [], ◌∷◌,
  ◌++◌, arith, if◌then◌else◌, Bool-cases, inl, inr,
}
use oa_gateway.Text.{Text, codes, text_eq, text_eq_iff}

pub data AdapterError : Type 0 where
  failed : Text → Text → AdapterError
  -- an `io::Error`, as the text it prints
  io : Text → AdapterError

-- `Display for AdapterError`
unfoldable pub error_text : AdapterError → Text
error_text (io message) = message
error_text (failed adapter message) =
    codes "adapter " ++ (adapter ++ (codes " failed: " ++ message))

pub data OnPanic : Type 0 where
  abort reconnect : OnPanic

-- `Display for OnPanic`
abbrev pub on_panic_text : OnPanic → Text
on_panic_text abort = codes "abort"
on_panic_text reconnect = codes "reconnect"

pub data Parsed : Type 0 where
  parsed : OnPanic → Parsed
  refused : Text → Parsed

-- `FromStr for OnPanic`
unfoldable pub on_panic_of : Text → Parsed
on_panic_of s =
    if text_eq s (codes "abort")
    then parsed abort
    else if text_eq s (codes "reconnect")
    then parsed reconnect
    else refused (codes "unknown on_panic '" ++ (s ++ codes "'; expected abort or reconnect"))

pub data AfterSession : Type 0 where
  return_ok : AfterSession
  return_err : AdapterError → AfterSession
  retry : Text → AfterSession

-- `Result<Result<(), AdapterError>, JoinError>`
pub data Joined : Type 0 where
  ended : Joined
  session_failed : AdapterError → Joined
  panicked cancelled : Joined

abbrev after_panic : OnPanic → Bool → Text → AfterSession
after_panic reconnect true adapter = retry (codes "session panicked, retrying")
after_panic reconnect false adapter = return_err (failed adapter (codes "session panicked"))
after_panic abort _ adapter = return_err (failed adapter (codes "session panicked"))

unfoldable pub after_join : Joined → Bool → OnPanic → Text → AfterSession
unfolding error_text
after_join ended reconnects on_panic adapter =
    if reconnects then retry (codes "session ended, reconnecting") else return_ok
after_join (session_failed e) reconnects on_panic adapter =
    if reconnects then retry (codes "session failed, retrying: " ++ error_text e) else return_err e
after_join panicked reconnects on_panic adapter = after_panic on_panic reconnects adapter
after_join cancelled reconnects on_panic adapter = return_ok

-- The two answers that a supervisor tells apart.
abbrev pub retries : AfterSession → Bool
retries (retry m) = true
retries _ = false

abbrev pub fails : AfterSession → Bool
fails (return_err e) = true
fails _ = false

-- A session that did not end as it should.
abbrev pub went_wrong : Joined → Bool
went_wrong ended = false
went_wrong cancelled = false
went_wrong _ = true

-- Whether the settings let this end be followed by another session.
abbrev pub may_retry : Joined → OnPanic → Bool
may_retry cancelled _ = false
may_retry panicked abort = false
may_retry _ _ = true

-- Another session is started exactly where the adapter reconnects, was not cancelled, and did not
-- panic under `abort`; where none is started, the adapter fails exactly if its session went wrong.
pub after_join_decides :
    (joined : Joined) (reconnects : Bool) (on_panic : OnPanic) (adapter : Text)
    → let after = after_join joined reconnects on_panic adapter in
      (retries after ≡ reconnects && may_retry joined on_panic)
      × (fails after ≡ went_wrong joined && not (retries after))
unfolding after_join
after_join_decides ended true on_panic adapter = (refl, refl)
after_join_decides ended false on_panic adapter = (refl, refl)
after_join_decides (session_failed e) true on_panic adapter = (refl, refl)
after_join_decides (session_failed e) false on_panic adapter = (refl, refl)
after_join_decides panicked true abort adapter = (refl, refl)
after_join_decides panicked false abort adapter = (refl, refl)
after_join_decides panicked true reconnect adapter = (refl, refl)
after_join_decides panicked false reconnect adapter = (refl, refl)
after_join_decides cancelled true on_panic adapter = (refl, refl)
after_join_decides cancelled false on_panic adapter = (refl, refl)

on_panic_of-on_panic_text : (p : OnPanic) → on_panic_of (on_panic_text p) ≡ parsed p
unfolding on_panic_of text_eq
on_panic_of-on_panic_text abort = refl
on_panic_of-on_panic_text reconnect = refl

on_panic_text_of : (s : Text) (p : OnPanic) → on_panic_of s ≡ parsed p → on_panic_text p ≡ s
unfolding on_panic_of
on_panic_text_of s abort h =
    ground (arith, text_eq_iff s (codes "abort"), text_eq_iff s (codes "reconnect"))
on_panic_text_of s reconnect h =
    ground (arith, text_eq_iff s (codes "abort"), text_eq_iff s (codes "reconnect"))

-- A setting is read as a policy exactly where it is the text that the policy is printed as.
pub on_panic_of_iff : (s : Text) (p : OnPanic) → (on_panic_of s ≡ parsed p) ↔ (on_panic_text p ≡ s)
on_panic_of_iff s p = (on_panic_text_of s p, λ h. rw (sym h) (on_panic_of-on_panic_text p))
