-- ===== src/Owp/Session/CleanUp.antt =====
-- The end of `run` in crates/oa-gateway-owp/src/session.rs: what a connection leaves in the engine.
use oa_gateway.Prelude.{ℕ, ◌≡◌, refl, ◌∙◌, Bool, true, false, ◌||◌, none, [], ◌∷◌, if◌then◌else◌}
use oa_gateway.Text.{Text}
use oa_gateway.Map.{Map, get}
use oa_gateway.Engine.{Channels}
use oa_gateway.Engine.Types.{SubscriberKey, key_eq, key_Eq}
use oa_gateway.Engine.Consistent.{sub_key}
use oa_gateway.Engine.Operations.{get-unsubscribe}
use oa_gateway.Owp.Session.{Config, Payloads, Conn, unsubscribed, unsubscribe_all, clean_up}

-- Whether a key of the engine is one of the connection's subscriptions.
abbrev pub owns : Text → Map Text Text → SubscriberKey → Bool
owns adapter_id [] k = false
owns adapter_id ((sid, sub_id) ∷ subs) k =
    key_eq (sub_key adapter_id sub_id) k || owns adapter_id subs k

if_or :
    {A : Type 0} (p q : Bool) (a b : A)
    → (if q then a else (if p then a else b)) ≡ (if (p || q) then a else b)
if_or true true a b = refl
if_or true false a b = refl
if_or false q a b = refl

module _ (c : Channels) (calls : Payloads) (config : Config) (adapter_id : Text) (conn_id : ℕ) where
  open c use {Sender, World}

  get-unsubscribe_all :
      (subs : Map Text Text) (conn : Conn Sender World) (k : SubscriberKey)
      → get k (unsubscribe_all c calls config adapter_id conn_id subs conn).engine.state.by_key
        ≡ (if owns adapter_id subs k then none else get k conn.engine.state.by_key)
  unfolding unsubscribe_all unsubscribed
  get-unsubscribe_all [] conn k = refl
  get-unsubscribe_all ((sid, sub_id) ∷ subs) conn k =
      get-unsubscribe_all subs (unsubscribed c calls config adapter_id conn_id sub_id conn) k
      ∙ rw (get-unsubscribe adapter_id sub_id conn.engine.state k) (
          if_or (key_eq (sub_key adapter_id sub_id) k) (owns adapter_id subs k) none
            (get k conn.engine.state.by_key))

  -- When a connection ends, each of its subscriptions is out of the engine and every other
  -- subscription, of its adapter or another, is as it was.
  pub get-clean_up :
      (conn : Conn Sender World) (k : SubscriberKey)
      → get k (clean_up c calls config adapter_id conn_id conn).engine.state.by_key
        ≡ (if owns adapter_id conn.subs k then none else get k conn.engine.state.by_key)
  unfolding clean_up
  get-clean_up conn k = get-unsubscribe_all conn.subs (record conn { subs = [] }) k
