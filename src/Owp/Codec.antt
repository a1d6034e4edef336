-- ===== src/Owp/Codec.antt =====
-- The frames of crates/oa-gateway-owp/src/codec.rs. `serde_json` is a parameter, `SerdeJson`: its
-- operations at the types that the codec reads and writes.
use oa_gateway.Prelude.{
  ℕ, zero, suc, Bool, ◌||◌, Option, none, some, List, [], ◌∷◌, ◌++◌, ◌==◌, if◌then◌else◌,
}
use oa_gateway.Text.{Text, codes, text_eq}
use oa_gateway.Owp.Errors.{
  OwpError, ParseError, empty_frame, unknown_op, missing_field, extra_fields, invalid_identifier,
  invalid_json, Result, ok, err, ◌>>=◌, owp_text, owp_error, is_identifier,
}

pub record InitPayload : Type 0 where
  pub versions : List Text
  pub schema : Text
  pub verbose : Option Bool
  pub service_id : Text

pub record Identifiers : Type 0 where
  pub system : Text
  pub service : Text
  pub subsystem : Option Text

pub record InfoPayload : Type 0 where
  pub version : Text
  pub server_id : Text
  pub uuids : Identifiers
  pub system_label : Text

pub data ClientOp : Type 0 where
  init : InitPayload → ClientOp
  publish : Text → Text → ClientOp
  sub : Text → Text → Text → Option Text → ClientOp
  unsub : Text → ClientOp

pub data ServerOp : Type 0 where
  acknowledge : ServerOp
  failure : OwpError → Option Text → ServerOp
  info : InfoPayload → ServerOp
  msg : Text → Text → ServerOp

-- `serde_json`: what it reads is a value or the text of its error. `object_keys` is `from_str` at
-- `Value` with `as_object`: the keys of an object, none for another value.
pub data Parsed {ℓ} (A : Type ℓ) : Type ℓ where
  value : A → Parsed A
  malformed : Text → Parsed A

pub record SerdeJson : Type 0 where
  pub init_from_str : Text → Parsed InitPayload
  pub info_from_str : Text → Parsed InfoPayload
  pub info_to_string : InfoPayload → Option Text
  pub object_keys : Text → Parsed (Option (List Text))

abbrev pub or_invalid_json {ℓ} : {A : Type ℓ} → Text → Parsed A → Result A
or_invalid_json op (value a) = ok a
or_invalid_json op (malformed m) = err (invalid_json op m)

abbrev pub or_err {ℓ} : {A : Type ℓ} → ParseError → Option A → Result A
or_err e none = err e
or_err e (some a) = ok a

-- `ServerOp::fmt`; none is a `fmt` error.
abbrev with_details : Option Text → Text
with_details none = []
with_details (some d) = b' ' ∷ d

abbrev after_info : Option Text → Option Text
after_info none = none
after_info (some json) = some (codes "INFO " ++ json)

unfoldable pub server_text : SerdeJson → ServerOp → Option Text
server_text serde acknowledge = some (codes "+OK")
server_text serde (failure e details) = some (codes "-ERR " ++ (owp_text e ++ with_details details))
server_text serde (info payload) = after_info (serde.info_to_string payload)
server_text serde (msg sid payload) = some (codes "MSG " ++ (sid ++ (b' ' ∷ payload)))

abbrev pub is_delim : ℕ → Bool
is_delim b = b == b' ' || b == b'\t'

unfoldable pub skip_delims : Text → Text
skip_delims [] = []
skip_delims (b ∷ bs) = let rest = skip_delims bs in if is_delim b then rest else b ∷ bs

abbrev onto_token : ℕ → Text × Text → Text × Text
onto_token b (token, rest) = (b ∷ token, rest)

-- The bytes before the first delimiter, and those from it on.
unfoldable pub break_at_delim : Text → Text × Text
break_at_delim [] = ([], [])
break_at_delim (b ∷ bs) =
    let later = break_at_delim bs in if is_delim b then ([], b ∷ bs) else onto_token b later

abbrev pub token_of : Text → Option (Text × Text)
token_of [] = none
token_of (b ∷ bs) = some ((break_at_delim (b ∷ bs)).0, skip_delims (break_at_delim (b ∷ bs)).1)

unfoldable pub split_first_token : Text → Option (Text × Text)
unfolding break_at_delim skip_delims
split_first_token s = token_of (skip_delims s)

-- `tokenize` with its two arguments in the other order: it recurses on `max`.
abbrev onto_tokens : (Text → List Text) → Option (Text × Text) → List Text
onto_tokens f none = []
onto_tokens f (some (token, rest)) = token ∷ f rest

unfoldable pub tokenize : ℕ → Text → List Text
tokenize zero s = []
tokenize (suc max) s = onto_tokens (tokenize max) (split_first_token s)

-- An identifier, or the error that the field gives.
unfoldable pub identifier : Text → Text → Text → Result Text
identifier op field s = if is_identifier s then ok s else err (invalid_identifier op field s)

unfoldable pub group_identifier : Option Text → Result (Option Text)
unfolding identifier
group_identifier none = ok none
group_identifier (some g) = do group ← identifier (codes "SUB") (codes "group") g; ok (some group)

unfoldable pub nonempty : Text → Text → Text → Result Text
nonempty op field [] = err (missing_field op field)
nonempty op field (b ∷ bs) = ok (b ∷ bs)

abbrev pub versions_listed : List Text → Result (List Text)
versions_listed [] = err (missing_field (codes "INIT") (codes "versions"))
versions_listed (v ∷ vs) = ok (v ∷ vs)

unfoldable pub parse_init : SerdeJson → Text → Result ClientOp
unfolding identifier nonempty
parse_init serde rest = do
  text ← nonempty (codes "INIT") (codes "payload") rest
  payload ← or_invalid_json (codes "INIT") (serde.init_from_str text)
  versions ← versions_listed payload.versions
  service_id ← identifier (codes "INIT") (codes "service_id") payload.service_id
  ok (init payload)

unfoldable pub parse_pub : Text → Result ClientOp
unfolding identifier nonempty split_first_token
parse_pub rest = do
  (first, after) ← or_err (missing_field (codes "PUB") (codes "topic")) (split_first_token rest)
  topic ← identifier (codes "PUB") (codes "topic") first
  payload ← nonempty (codes "PUB") (codes "payload") after
  ok (publish topic payload)

-- `parse_sub` after the count of its tokens.
unfoldable pub sub_of : Text → Text → Text → Option Text → Result ClientOp
unfolding identifier nonempty group_identifier
sub_of first second third fourth = do
  sid ← identifier (codes "SUB") (codes "sid") first
  topic ← identifier (codes "SUB") (codes "topic") third
  group ← group_identifier fourth
  message_name ← nonempty (codes "SUB") (codes "message_name") second
  ok (sub sid message_name topic group)

unfoldable pub sub_tokens : List Text → Result ClientOp
unfolding sub_of
sub_tokens [] = err (missing_field (codes "SUB") (codes "sid"))
sub_tokens (a ∷ []) = err (missing_field (codes "SUB") (codes "message_name"))
sub_tokens (a ∷ b ∷ []) = err (missing_field (codes "SUB") (codes "topic"))
sub_tokens (a ∷ b ∷ c ∷ []) = sub_of a b c none
sub_tokens (a ∷ b ∷ c ∷ d ∷ []) = sub_of a b c (some d)
sub_tokens (a ∷ b ∷ c ∷ d ∷ e ∷ more) = err (extra_fields (codes "SUB"))

unfoldable pub parse_sub : Text → Result ClientOp
unfolding sub_tokens tokenize
parse_sub rest = sub_tokens (tokenize 5 rest)

unfoldable pub unsub_tokens : List Text → Result ClientOp
unfolding identifier
unsub_tokens [] = err (missing_field (codes "UNSUB") (codes "sid"))
unsub_tokens (a ∷ []) = do sid ← identifier (codes "UNSUB") (codes "sid") a; ok (unsub sid)
unsub_tokens (a ∷ b ∷ more) = err (extra_fields (codes "UNSUB"))

unfoldable pub parse_unsub : Text → Result ClientOp
unfolding unsub_tokens tokenize
parse_unsub rest = unsub_tokens (tokenize 2 rest)

unfoldable pub client_op : SerdeJson → Text → Text → Result ClientOp
unfolding parse_init parse_pub parse_sub parse_unsub
client_op serde keyword rest =
    if text_eq keyword (codes "INIT")
    then parse_init serde rest
    else if text_eq keyword (codes "PUB")
    then parse_pub rest
    else if text_eq keyword (codes "SUB")
    then parse_sub rest
    else if text_eq keyword (codes "UNSUB")
    then parse_unsub rest
    else err (unknown_op keyword)

unfoldable pub parse_client : SerdeJson → Text → Result ClientOp
unfolding client_op split_first_token
parse_client serde frame = do
  (keyword, rest) ← or_err empty_frame (split_first_token frame)
  client_op serde keyword rest

abbrev no_more : Text → Result ServerOp
no_more [] = ok acknowledge
no_more (b ∷ bs) = err (extra_fields (codes "+OK"))

abbrev pub details_of : Text → Option Text
details_of [] = none
details_of (b ∷ bs) = some (b ∷ bs)

unfoldable pub parse_err : Text → Result ServerOp
unfolding owp_error split_first_token
parse_err rest = do
  (name, details) ← or_err (missing_field (codes "-ERR") (codes "error")) (split_first_token rest)
  e ← owp_error name
  ok (failure e (details_of details))

unfoldable pub parse_info : SerdeJson → Text → Result ServerOp
unfolding nonempty
parse_info serde rest = do
  text ← nonempty (codes "INFO") (codes "payload") rest
  payload ← or_invalid_json (codes "INFO") (serde.info_from_str text)
  ok (info payload)

unfoldable pub parse_msg : Text → Result ServerOp
unfolding identifier nonempty split_first_token
parse_msg rest = do
  (first, after) ← or_err (missing_field (codes "MSG") (codes "sid")) (split_first_token rest)
  sid ← identifier (codes "MSG") (codes "sid") first
  payload ← nonempty (codes "MSG") (codes "payload") after
  ok (msg sid payload)

unfoldable pub server_op : SerdeJson → Text → Text → Result ServerOp
unfolding parse_err parse_info parse_msg
server_op serde keyword rest =
    if text_eq keyword (codes "+OK")
    then no_more rest
    else if text_eq keyword (codes "-ERR")
    then parse_err rest
    else if text_eq keyword (codes "INFO")
    then parse_info serde rest
    else if text_eq keyword (codes "MSG")
    then parse_msg rest
    else err (unknown_op keyword)

unfoldable pub parse_server : SerdeJson → Text → Result ServerOp
unfolding server_op split_first_token
parse_server serde frame = do
  (keyword, rest) ← or_err empty_frame (split_first_token frame)
  server_op serde keyword rest

abbrev single_key : Option (List Text) → Result Text
single_key none = err (invalid_json (codes "PUB") (codes "root must be a JSON object"))
single_key (some (key ∷ [])) = ok key
single_key (some _) =
    err (invalid_json (codes "PUB") (codes "root object must have exactly one member"))

unfoldable pub type_hint_from_json : SerdeJson → Text → Result Text
type_hint_from_json serde text = do
  keys ← or_invalid_json (codes "PUB") (serde.object_keys text)
  single_key keys
