-- ===== src/Owp/Session/Publish.antt =====
-- `publish_owp` in crates/oa-gateway-owp/src/session.rs: a publish is carried whole or not at all.
use oa_gateway.Prelude.{
  ℕ, suc, ◌+◌, ◌%◌, ◌^◌, ◌≡◌, refl, ap, ◌∙◌, sym, subst, ◌&&◌, List, [], ◌∷◌, arith, length,
  if◌then◌else◌, Bool-cases, inl, inr,
}
use oa_gateway.Text.{Text}
use oa_gateway.Map.{Set}
use oa_gateway.Engine.{Channels, publish, fetch_add}
use oa_gateway.Engine.Types.{Envelope, RouteKey}
use oa_gateway.Prelude.Attempt.{Attempt, done, refused, ◌>>=◌}
use oa_gateway.Owp.Session.{
  Config, Payloads, Conn, outgoing, make_ready, publish_one, publish_each, publish_ready,
  publish_owp, hint_of, onto_ready, ready_judged, ready_from, publish_from, stamp, converted,
}

two :
    (r : Attempt (Envelope × Envelope)) {envs : List Envelope}
    → (r >>= λ (wrapper, inner). done (wrapper ∷ inner ∷ [])) ≡ done envs
    → length envs ≡ 2
two (done (wrapper, inner)) h = ground arith
two (refused e) h = ground arith

one :
    (r : Attempt Text) (f : Text → Envelope) {envs : List Envelope}
    → (r >>= λ hint. done (f hint ∷ [])) ≡ done envs
    → length envs ≡ 1
one (done hint) f h = ground arith
one (refused e) f h = ground arith

ready_inj : {a b : List Envelope} → done a ≡ done b → a ≡ b
ready_inj h = ground arith

onto_ready_done :
    (env : Envelope) (r : Set RouteKey × Attempt (List Envelope)) (n : ℕ) {ready : List Envelope}
    → ((envs : List Envelope) → r.1 ≡ done envs → length envs ≡ n)
    → (onto_ready env r).1 ≡ done ready
    → length ready ≡ suc n
onto_ready_done env (invalid, done envs) n {ready} k h =
    subst (λ l. length l ≡ suc n) (ready_inj h) (ap suc (k envs refl))
onto_ready_done env (invalid, refused e) n k h = ground arith

module _ (c : Channels) (calls : Payloads) (config : Config) (adapter_id : Text) (conn_id : ℕ) where
  open c use {Sender, World}

  -- `parts` is how many envelopes a payload is published as.
  abbrev pub parts : Text → ℕ
  parts payload = if config.unwrap_ma_payloads && calls.is_wrapper payload then 2 else 1

  -- A refused publish leaves the engine and the peers' channels alone; one that succeeds is counted
  -- by the engine once for each envelope.
  abbrev pub IsWhole : Text → Conn Sender World → Conn Sender World → Attempt (Unit {0}) → Type 0
  IsWhole payload conn conn' (refused e) =
      (conn'.engine ≡ conn.engine)
      × (conn'.world ≡ conn.world)
      × (conn'.subs ≡ conn.subs)
      × (conn'.out ≡ conn.out)
  IsWhole payload conn conn' (done _) =
      (conn'.engine.state ≡ conn.engine.state)
      × (conn'.engine.stats.published % 2 ^ 64
          ≡ (conn.engine.stats.published + parts payload) % 2 ^ 64)
      × (conn'.subs ≡ conn.subs)
      × (conn'.out ≡ conn.out)

  publish_one_lem :
      (env : Envelope) (conn : Conn Sender World)
      → let conn' = publish_one c calls config adapter_id conn_id env conn in
        (conn'.engine.state ≡ conn.engine.state)
        × (conn'.engine.stats.published ≡ (conn.engine.stats.published + 1) % 2 ^ 64)
        × (conn'.subs ≡ conn.subs)
        × (conn'.out ≡ conn.out)
  unfolding publish_one publish fetch_add
  publish_one_lem env conn = (refl, refl, refl, refl)

  -- What publishing keeps, and its count.
  publish_each_lem :
      (envs : List Envelope) (conn : Conn Sender World)
      → let conn' = publish_each c calls config adapter_id conn_id envs conn in
        (conn'.engine.state ≡ conn.engine.state)
        × (conn'.engine.stats.published % 2 ^ 64
            ≡ (conn.engine.stats.published + length envs) % 2 ^ 64)
        × (conn'.subs ≡ conn.subs)
        × (conn'.out ≡ conn.out)
  unfolding publish_each
  publish_each_lem [] conn = (refl, omega arith, refl, refl)
  publish_each_lem (env ∷ envs) conn =
      let rest = publish_each_lem envs (publish_one c calls config adapter_id conn_id env conn) in
      let one = publish_one_lem env conn in
      (rest.0 ∙ one.0, omega (arith, rest.1, one.1), rest.2 ∙ one.2, rest.3 ∙ one.3)

  length-outgoing :
      (id : ℕ) (topic payload : Text) {envs : List Envelope}
      → outgoing c calls config adapter_id conn_id id topic payload ≡ done envs
      → length envs ≡ parts payload
  unfolding outgoing
  length-outgoing id topic payload h =
      elim (Bool-cases (config.unwrap_ma_payloads && calls.is_wrapper payload)) [
        | inl w ↦ rw w (two (calls.unwrap_ma topic payload) (rw w at h))
        | inr n ↦ rw n (one (hint_of c calls config adapter_id conn_id payload) _ (rw n at h))
      ]

  ready_judged_done :
      (service_id : Text) (rest : Set RouteKey → Set RouteKey × Attempt (List Envelope)) (n : ℕ)
      (env : Envelope) (invalid : Set RouteKey) (r : Attempt (Set RouteKey)) {ready : List Envelope}
      → ((invalid' : Set RouteKey) (envs : List Envelope)
          → (rest invalid').1 ≡ done envs
          → length envs ≡ n)
      → (ready_judged c calls config adapter_id conn_id service_id rest env invalid r).1
        ≡ done ready
      → length ready ≡ suc n
  unfolding ready_judged
  ready_judged_done service_id rest n env invalid (refused e) k h = ground arith
  ready_judged_done service_id rest n env invalid (done invalid') k h =
      onto_ready_done (stamp c calls config adapter_id conn_id service_id env) (rest invalid') n
        (k invalid') h

  ready_from_done :
      (service_id : Text) (rest : Set RouteKey → Set RouteKey × Attempt (List Envelope)) (n : ℕ)
      (invalid : Set RouteKey) (r : Attempt Envelope) {ready : List Envelope}
      → ((invalid' : Set RouteKey) (envs : List Envelope)
          → (rest invalid').1 ≡ done envs
          → length envs ≡ n)
      → (ready_from c calls config adapter_id conn_id service_id rest invalid r).1 ≡ done ready
      → length ready ≡ suc n
  unfolding ready_from
  ready_from_done service_id rest n invalid (refused e) k h = ground arith
  ready_from_done service_id rest n invalid (done env) k h =
      ready_judged_done service_id rest n env invalid _ k h

  length-make_ready :
      (service_id : Text) (envs : List Envelope) (invalid : Set RouteKey) (ready : List Envelope)
      → (make_ready c calls config adapter_id conn_id service_id envs invalid).1 ≡ done ready
      → length ready ≡ length envs
  unfolding make_ready
  length-make_ready service_id [] invalid ready h = ap (λ l. length l) (sym (ready_inj h))
  length-make_ready service_id (env ∷ envs) invalid ready h =
      ready_from_done service_id (make_ready c calls config adapter_id conn_id service_id envs)
        (length envs) invalid (converted c calls config adapter_id conn_id env)
        (length-make_ready service_id envs) h

  publish_ready-IsWhole :
      (payload : Text) (conn : Conn Sender World) (r : Set RouteKey × Attempt (List Envelope))
      → ((ready : List Envelope) → r.1 ≡ done ready → length ready ≡ parts payload)
      → let (conn', result) = publish_ready c calls config adapter_id conn_id conn r in
        IsWhole payload conn conn' result
  unfolding publish_ready
  publish_ready-IsWhole payload conn (invalid, refused e) h = (refl, refl, refl, refl)
  publish_ready-IsWhole payload conn (invalid, done envs) h =
      let all =
        publish_each_lem envs
          (record conn { warnings = record (conn.warnings) { invalid = invalid } }) in
      (all.0, omega (arith, h envs refl, all.1), all.2, all.3)

  publish_from-IsWhole :
      (service_id payload : Text) (conn : Conn Sender World) (r : Attempt (List Envelope))
      → ((envs : List Envelope) → r ≡ done envs → length envs ≡ parts payload)
      → let (conn', result) = publish_from c calls config adapter_id conn_id service_id conn r in
        IsWhole payload conn conn' result
  unfolding publish_from
  publish_from-IsWhole service_id payload conn (refused e) h = (refl, refl, refl, refl)
  publish_from-IsWhole service_id payload conn (done envs) h =
      publish_ready-IsWhole payload conn
        (make_ready c calls config adapter_id conn_id service_id envs conn.warnings.invalid)
        (λ ready k. length-make_ready service_id envs conn.warnings.invalid ready k ∙ h envs refl)

  -- A publish of a client is refused with the engine, the peers' channels, the subscriptions and the
  -- queue of frames untouched, or it is carried whole: the engine counts one publish for each of its
  -- envelopes, two for a wrapper and one otherwise, and keeps its subscriptions.
  pub publish_owp-IsWhole :
      (id : ℕ) (service_id topic payload : Text) (conn : Conn Sender World)
      → let (conn', result) =
          publish_owp c calls config adapter_id conn_id id service_id topic payload conn in
        IsWhole payload conn conn' result
  unfolding publish_owp
  publish_owp-IsWhole id service_id topic payload conn =
      publish_from-IsWhole service_id payload conn
        (outgoing c calls config adapter_id conn_id id topic payload)
        (λ envs. length-outgoing id topic payload)
