-- ===== src/Owp/Grammar.antt =====
-- The operations as the grammar of OWP writes them, and that crates/oa-gateway-owp/src/codec.rs reads
-- them back.
use oa_gateway.Prelude.{
  ℕ, zero, suc, ◌≡◌, ◌≢◌, refl, ◌∙◌, Option, none, some, List, [], ◌∷◌, ◌++◌, arith,
}
use oa_gateway.Text.{Text, codes, text_eq}
use oa_gateway.Owp.Errors.{ok, ◌>>=◌}
use oa_gateway.Owp.Tokens.{
  IsToken, IsTrimmed, split_token, split_last, IsTrimmed-append, IsToken-IsTrimmed,
  is_identifier-IsToken,
}
use oa_gateway.Owp.Wire.{IsClientOp, IsIdentifier, IsGroup}
use oa_gateway.Owp.Codec.{
  ClientOp, InitPayload, init, publish, sub, unsub, SerdeJson, value, identifier, nonempty,
  parse_init, parse_pub, sub_of, sub_tokens, parse_sub, unsub_tokens, parse_unsub, client_op,
  parse_client, split_first_token, tokenize, group_identifier, versions_listed,
}

-- A field and the rest of the line behind one space.
infixr 20 ◌␣◌
abbrev pub ◌␣◌ : Text → Text → Text
t ␣ r = t ++ (b' ' ∷ r)

abbrev pub group_text : Text → Option Text → Text
group_text topic none = topic
group_text topic (some g) = topic ␣ g

-- The line of an operation; the payload of an INIT is given as its JSON text.
abbrev pub client_text : Text → ClientOp → Text
client_text json (init payload) = codes "INIT" ␣ json
client_text json (publish topic payload) = codes "PUB" ␣ topic ␣ payload
client_text json (sub sid message_name topic group) =
    codes "SUB" ␣ sid ␣ message_name ␣ group_text topic group
client_text json (unsub sid) = codes "UNSUB" ␣ sid

-- The JSON text is one that `serde_json` reads as the payload.
abbrev pub IsJsonOf : SerdeJson → Text → ClientOp → Type 0
IsJsonOf serde json (init payload) =
    (serde.init_from_str json ≡ value payload) × ((json ≢ []) × IsTrimmed json)
IsJsonOf serde json _ = Unit

pub identifier_of : (op field s : Text) → IsIdentifier s → identifier op field s ≡ ok s
unfolding identifier
identifier_of op field s h = rw h

pub nonempty_of : (op field s : Text) → s ≢ [] → nonempty op field s ≡ ok s
unfolding nonempty
nonempty_of op field [] h = absurd (h refl)
nonempty_of op field (b ∷ bs) h = refl

group_identifier_of : (g : Option Text) → IsGroup g → group_identifier g ≡ ok g
unfolding group_identifier
group_identifier_of none h = refl
group_identifier_of (some g) h = rw (identifier_of (codes "SUB") (codes "group") g h)

pub split_space : (t r : Text) → IsToken t → IsTrimmed r → split_first_token (t ␣ r) ≡ some (t, r)
split_space t r h k = split_token t b' ' r h refl k

-- The tokens of a field and of what follows it.
tokenize_space :
    (max : ℕ) (t r : Text)
    → IsToken t
    → IsTrimmed r
    → tokenize (suc max) (t ␣ r) ≡ t ∷ tokenize max r
unfolding tokenize
tokenize_space max t r h k = rw (split_space t r h k)

tokenize_nil : (max : ℕ) → tokenize max [] ≡ []
unfolding tokenize split_first_token
tokenize_nil zero = refl
tokenize_nil (suc max) = refl

tokenize_last : (max : ℕ) (t : Text) → IsToken t → tokenize (suc max) t ≡ t ∷ []
unfolding tokenize
tokenize_last max t h = rw (split_last t h, tokenize_nil max)

group_text-IsTrimmed :
    (topic : Text) (g : Option Text) → IsToken topic → IsTrimmed (group_text topic g)
group_text-IsTrimmed topic none h = IsToken-IsTrimmed topic h
group_text-IsTrimmed topic (some g) h = IsTrimmed-append topic _ h

sub_of_fields :
    (a b c : Text) (d : Option Text) → IsClientOp (sub a b c d) → sub_of a b c d ≡ ok (sub a b c d)
unfolding sub_of
sub_of_fields a b c d (ha, (hb, (hc, hd))) = rw (
  identifier_of (codes "SUB") (codes "sid") a ha,
  identifier_of (codes "SUB") (codes "topic") c hc,
  group_identifier_of d hd,
  nonempty_of (codes "SUB") (codes "message_name") b hb.0,
)

sub_tokens_fields :
    (a b c : Text) (d : Option Text)
    → IsToken c
    → IsGroup d
    → sub_tokens (a ∷ b ∷ tokenize 3 (group_text c d)) ≡ sub_of a b c d
unfolding sub_tokens
sub_tokens_fields a b c none h k = rw (tokenize_last 2 c h)
sub_tokens_fields a b c (some d) h k =
    let t = is_identifier-IsToken d k in
    rw (tokenize_space 2 c d h (IsToken-IsTrimmed d t), tokenize_last 1 d t)

parse_sub_fields :
    (a b c : Text) (d : Option Text)
    → IsClientOp (sub a b c d)
    → parse_sub (a ␣ b ␣ group_text c d) ≡ ok (sub a b c d)
unfolding parse_sub
parse_sub_fields a b c d (ha, (hb, (hc, hd))) =
    let tc = is_identifier-IsToken c hc in
    rw
      (
        tokenize_space 4 a (b ␣ group_text c d) (is_identifier-IsToken a ha)
            (IsTrimmed-append b _ hb),
        tokenize_space 3 b (group_text c d) hb (group_text-IsTrimmed c d tc),
        sub_tokens_fields a b c d tc hd,
      )
      (sub_of_fields a b c d (ha, (hb, (hc, hd))))

parse_pub_fields :
    (topic payload : Text)
    → IsClientOp (publish topic payload)
    → parse_pub (topic ␣ payload) ≡ ok (publish topic payload)
unfolding parse_pub
parse_pub_fields topic payload (ht, (hp, trimmed)) = rw (
  split_space topic payload (is_identifier-IsToken topic ht) trimmed,
  identifier_of (codes "PUB") (codes "topic") topic ht,
  nonempty_of (codes "PUB") (codes "payload") payload hp,
)

parse_unsub_fields : (sid : Text) → IsIdentifier sid → parse_unsub sid ≡ ok (unsub sid)
unfolding parse_unsub unsub_tokens
parse_unsub_fields sid h = rw (
  tokenize_last 1 sid (is_identifier-IsToken sid h),
  identifier_of (codes "UNSUB") (codes "sid") sid h,
)

parse_init_fields :
    (serde : SerdeJson) (json : Text) {payload : InitPayload}
    → IsJsonOf serde json (init payload)
    → IsClientOp (init payload)
    → parse_init serde json ≡ ok (init payload)
unfolding parse_init
parse_init_fields serde json {payload} (read, (given, trimmed)) (listed, named) =
    rw (nonempty_of (codes "INIT") (codes "payload") json given, read)
      (with_versions payload.versions listed)
  where
    with_versions :
        (vs : List Text)
        → vs ≢ []
        → (versions_listed vs >>= λ versions.
            identifier (codes "INIT") (codes "service_id") payload.service_id >>= λ service_id.
            ok (init payload))
          ≡ ok (init payload)
    with_versions [] h = absurd (h refl)
    with_versions (v ∷ vs) h =
        rw (identifier_of (codes "INIT") (codes "service_id") payload.service_id named)

-- A keyword and its line.
parse_keyword :
    (serde : SerdeJson) (keyword rest : Text)
    → IsToken keyword
    → IsTrimmed rest
    → parse_client serde (keyword ␣ rest) ≡ client_op serde keyword rest
unfolding parse_client
parse_keyword serde keyword rest h k = rw (split_space keyword rest h k)

client_op_init :
    (serde : SerdeJson) (rest : Text) → client_op serde (codes "INIT") rest ≡ parse_init serde rest
unfolding client_op text_eq
client_op_init serde rest = refl

client_op_pub :
    (serde : SerdeJson) (rest : Text) → client_op serde (codes "PUB") rest ≡ parse_pub rest
unfolding client_op text_eq
client_op_pub serde rest = refl

client_op_sub :
    (serde : SerdeJson) (rest : Text) → client_op serde (codes "SUB") rest ≡ parse_sub rest
unfolding client_op text_eq
client_op_sub serde rest = refl

client_op_unsub :
    (serde : SerdeJson) (rest : Text) → client_op serde (codes "UNSUB") rest ≡ parse_unsub rest
unfolding client_op text_eq
client_op_unsub serde rest = refl

-- Every operation that the session can act on is read back from the line that the grammar gives it,
-- an INIT from any JSON text that `serde_json` reads as its payload, that is not empty and does not
-- begin with a space or a tab.
pub parse_client-client_text :
    (serde : SerdeJson) (json : Text) (op : ClientOp)
    → IsClientOp op
    → IsJsonOf serde json op
    → parse_client serde (client_text json op) ≡ ok op
parse_client-client_text serde json (init payload) h k =
    parse_keyword serde (codes "INIT") json (ground arith, (refl, (refl, (refl, (refl, tt))))) k.1.1
    ∙ client_op_init serde json
    ∙ parse_init_fields serde json k h
parse_client-client_text serde json (publish topic payload) h k =
    parse_keyword serde (codes "PUB") _ (ground arith, (refl, (refl, (refl, tt))))
      (IsTrimmed-append topic _ (is_identifier-IsToken topic h.0))
    ∙ client_op_pub serde _
    ∙ parse_pub_fields topic payload h
parse_client-client_text serde json (sub a b c d) h k =
    parse_keyword serde (codes "SUB") _ (ground arith, (refl, (refl, (refl, tt))))
      (IsTrimmed-append a _ (is_identifier-IsToken a h.0))
    ∙ client_op_sub serde _
    ∙ parse_sub_fields a b c d h
parse_client-client_text serde json (unsub sid) h k =
    parse_keyword serde (codes "UNSUB") _ (ground arith, (refl, (refl, (refl, (refl, (refl, tt))))))
      (IsToken-IsTrimmed sid (is_identifier-IsToken sid h))
    ∙ client_op_unsub serde _
    ∙ parse_unsub_fields sid h
