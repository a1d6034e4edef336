-- ===== src/Owp/Wire.antt =====
-- What `parse_client` of crates/oa-gateway-owp/src/codec.rs accepts.
use oa_gateway.Prelude.{
  ℕ, zero, suc, ◌≡◌, ◌≢◌, refl, ap, subst, true, Option, none, some, List, [], ◌∷◌, arith, All,
  Bool-cases, Option-cases, inl, inr,
}
use oa_gateway.Text.{Text, codes, text_eq}
use oa_gateway.Owp.Errors.{
  Result, ok, err, is_identifier, ◌>>=◌, ParseError, empty_frame, missing_field,
}
use oa_gateway.Owp.Tokens.{IsToken, IsTrimmed, split_first_token-IsToken}
use oa_gateway.Owp.Codec.{
  ClientOp, init, publish, sub, unsub, SerdeJson, identifier, group_identifier, nonempty,
  parse_init, parse_pub, sub_of, sub_tokens, parse_sub, unsub_tokens, parse_unsub, client_op,
  parse_client, split_first_token, tokenize, or_invalid_json, or_err, versions_listed,
}

abbrev pub IsIdentifier : Text → Type 0
IsIdentifier s = is_identifier s ≡ true

abbrev pub IsGroup : Option Text → Type 0
IsGroup none = Unit
IsGroup (some g) = IsIdentifier g

-- The promises of a parsed operation to the session.
abbrev pub IsClientOp : ClientOp → Type 0
IsClientOp (init payload) = (payload.versions ≢ []) × IsIdentifier payload.service_id
IsClientOp (publish topic payload) = IsIdentifier topic × ((payload ≢ []) × IsTrimmed payload)
IsClientOp (sub sid message_name topic group) =
    IsIdentifier sid × (IsToken message_name × (IsIdentifier topic × IsGroup group))
IsClientOp (unsub sid) = IsIdentifier sid

ok_inj : {A : Type 0} {a b : A} → ok a ≡ ok b → a ≡ b
ok_inj h = ground arith

-- A result that is ok has an ok first step.
bind_ok :
    {A B : Type 0} (r : Result A) (f : A → Result B) {b : B}
    → (r >>= f) ≡ ok b
    → (a : A) × ((r ≡ ok a) × (f a ≡ ok b))
bind_ok (ok a) f h = (a, (refl, h))
bind_ok (err e) f h = ground arith

identifier_ok : (op field s : Text) {a : Text} → identifier op field s ≡ ok a → IsIdentifier a
unfolding identifier
identifier_ok op field s h = ground arith

nonempty_ok : (op field s : Text) {a : Text} → nonempty op field s ≡ ok a → (s ≢ []) × (s ≡ a)
unfolding nonempty
nonempty_ok op field [] h = ground arith
nonempty_ok op field (b ∷ bs) h = ground arith

IsGroup-ok : (g : Option Text) {a : Option Text} → group_identifier g ≡ ok a → IsGroup a
unfolding group_identifier
IsGroup-ok none {a} h = subst IsGroup (ok_inj h) tt
IsGroup-ok (some g) h =
    let (group, (e, k)) = bind_ok (identifier (codes "SUB") (codes "group") g) _ h in
    subst IsGroup (ok_inj k) (identifier_ok (codes "SUB") (codes "group") g e)

sub_of-IsClientOp :
    (a b c : Text) (d : Option Text) {op : ClientOp}
    → IsToken b
    → sub_of a b c d ≡ ok op
    → IsClientOp op
unfolding sub_of
sub_of-IsClientOp a b c d {op} t h =
    let (sid, (e1, h1)) = bind_ok (identifier (codes "SUB") (codes "sid") a) _ h in
    let (topic, (e2, h2)) = bind_ok (identifier (codes "SUB") (codes "topic") c) _ h1 in
    let (group, (e3, h3)) = bind_ok (group_identifier d) _ h2 in
    let (name, (e4, h4)) = bind_ok (nonempty (codes "SUB") (codes "message_name") b) _ h3 in
    subst IsClientOp (ok_inj h4) (
      identifier_ok (codes "SUB") (codes "sid") a e1,
      (
        subst IsToken (nonempty_ok (codes "SUB") (codes "message_name") b e4).1 t,
        (identifier_ok (codes "SUB") (codes "topic") c e2, IsGroup-ok d e3),
      ),
    )

-- The tokens of a line are fields.
tokenize-IsToken : (max : ℕ) (s : Text) → All IsToken (tokenize max s)
unfolding tokenize
tokenize-IsToken zero s = tt
tokenize-IsToken (suc max) s = elim (Option-cases (split_first_token s)) [
  | inl e ↦ rw e tt
  | inr ((t, r), e) ↦ rw e ((split_first_token-IsToken s e).0, tokenize-IsToken max r)
]

sub_tokens-IsClientOp :
    (ts : List Text) {op : ClientOp} → All IsToken ts → sub_tokens ts ≡ ok op → IsClientOp op
unfolding sub_tokens
sub_tokens-IsClientOp [] t h = ground arith
sub_tokens-IsClientOp (a ∷ []) t h = ground arith
sub_tokens-IsClientOp (a ∷ b ∷ []) t h = ground arith
sub_tokens-IsClientOp (a ∷ b ∷ c ∷ []) t h = sub_of-IsClientOp a b c none t.1.0 h
sub_tokens-IsClientOp (a ∷ b ∷ c ∷ d ∷ []) t h = sub_of-IsClientOp a b c (some d) t.1.0 h
sub_tokens-IsClientOp (a ∷ b ∷ c ∷ d ∷ e ∷ more) t h = ground arith

unsub_tokens-IsClientOp : (ts : List Text) {op : ClientOp} → unsub_tokens ts ≡ ok op → IsClientOp op
unfolding unsub_tokens
unsub_tokens-IsClientOp [] h = ground arith
unsub_tokens-IsClientOp (a ∷ []) h =
    let (sid, (e, k)) = bind_ok (identifier (codes "UNSUB") (codes "sid") a) _ h in
    subst IsClientOp (ok_inj k) (identifier_ok (codes "UNSUB") (codes "sid") a e)
unsub_tokens-IsClientOp (a ∷ b ∷ more) h = ground arith

or_err_ok : {A : Type 0} (e : ParseError) (o : Option A) {a : A} → or_err e o ≡ ok a → o ≡ some a
or_err_ok e none h = ground arith
or_err_ok e (some a) h = ap some (ok_inj h)

parse_pub-IsClientOp : (rest : Text) {op : ClientOp} → parse_pub rest ≡ ok op → IsClientOp op
unfolding parse_pub
parse_pub-IsClientOp rest h =
    let missing = missing_field (codes "PUB") (codes "topic") in
    let ((first, after), (e1, h1)) = bind_ok (or_err missing (split_first_token rest)) _ h in
    let (topic, (e2, h2)) = bind_ok (identifier (codes "PUB") (codes "topic") first) _ h1 in
    let (payload, (e3, h3)) = bind_ok (nonempty (codes "PUB") (codes "payload") after) _ h2 in
    let (given, same) = nonempty_ok (codes "PUB") (codes "payload") after e3 in
    let trimmed =
      (split_first_token-IsToken rest (or_err_ok missing (split_first_token rest) e1)).1 in
    subst IsClientOp (ok_inj h3) (
      identifier_ok (codes "PUB") (codes "topic") first e2,
      subst (λ s. (s ≢ []) × IsTrimmed s) same (given, trimmed),
    )

versions_ok : (vs : List Text) {a : List Text} → versions_listed vs ≡ ok a → vs ≢ []
versions_ok [] h = ground arith
versions_ok (v ∷ vs) h = ground arith

identifier_given : (op field s : Text) {a : Text} → identifier op field s ≡ ok a → IsIdentifier s
unfolding identifier
identifier_given op field s h = ground arith

parse_init-IsClientOp :
    (serde : SerdeJson) (rest : Text) {op : ClientOp}
    → parse_init serde rest ≡ ok op
    → IsClientOp op
unfolding parse_init
parse_init-IsClientOp serde rest h =
    let (text, (e1, h1)) = bind_ok (nonempty (codes "INIT") (codes "payload") rest) _ h in
    let (payload, (e2, h2)) =
      bind_ok (or_invalid_json (codes "INIT") (serde.init_from_str text)) _ h1 in
    let (versions, (e3, h3)) = bind_ok (versions_listed payload.versions) _ h2 in
    let (service_id, (e4, h4)) =
      bind_ok (identifier (codes "INIT") (codes "service_id") payload.service_id) _ h3 in
    subst IsClientOp (ok_inj h4) (
      versions_ok payload.versions e3,
      identifier_given (codes "INIT") (codes "service_id") payload.service_id e4,
    )

client_op-IsClientOp :
    (serde : SerdeJson) (keyword rest : Text) {op : ClientOp}
    → client_op serde keyword rest ≡ ok op
    → IsClientOp op
unfolding client_op parse_sub parse_unsub
client_op-IsClientOp serde keyword rest {op} h =
    elim (Bool-cases (text_eq keyword (codes "INIT"))) [
      | inl i ↦ parse_init-IsClientOp serde rest (rw i at h)
      | inr ni ↦ elim (Bool-cases (text_eq keyword (codes "PUB"))) [
        | inl p ↦ parse_pub-IsClientOp rest (rw (ni, p) at h)
        | inr np ↦ elim (Bool-cases (text_eq keyword (codes "SUB"))) [
          | inl s ↦
              sub_tokens-IsClientOp (tokenize 5 rest) (tokenize-IsToken 5 rest)
                (rw (ni, np, s) at h)
          | inr ns ↦ elim (Bool-cases (text_eq keyword (codes "UNSUB"))) [
            | inl u ↦ unsub_tokens-IsClientOp (tokenize 2 rest) (rw (ni, np, ns, u) at h)
            | inr nu ↦ absurd (refused (rw (ni, np, ns, nu) at h))
          ]
        ]
      ]
    ]
  where
    refused : {e : ParseError} → err e ≢ ok op
    refused = ground arith

-- Whatever a client sends, an operation that is parsed names only identifiers as topics, sids,
-- groups and services, lists a version, and has a payload or a message name that is not empty.
pub parse_client-IsClientOp :
    (serde : SerdeJson) (frame : Text) {op : ClientOp}
    → parse_client serde frame ≡ ok op
    → IsClientOp op
unfolding parse_client
parse_client-IsClientOp serde frame h =
    let ((keyword, rest), (e, k)) = bind_ok (or_err empty_frame (split_first_token frame)) _ h in
    client_op-IsClientOp serde keyword rest k
