-- ===== src/Owp/Printer.antt =====
-- The frames that the server prints are read back: crates/oa-gateway-owp/src/codec.rs.
use oa_gateway.Prelude.{◌≡◌, ◌≢◌, refl, ap, ◌∙◌, none, some, [], ◌∷◌, arith, append-nil}
use oa_gateway.Text.{Text, codes, text_eq}
use oa_gateway.Owp.Errors.{
  ok, is_identifier, OwpError, owp_text, owp_error-owp_text, unsupported_version,
  unsupported_schema, unsupported_service, illegal_operation, illegal_argument, illegal_state,
  internal_error, invalid_message,
}
use oa_gateway.Owp.Tokens.{
  IsToken, IsTrimmed, split_last, IsTrimmed-append, IsToken-IsTrimmed, is_identifier-IsToken,
}
use oa_gateway.Owp.Wire.{IsIdentifier}
use oa_gateway.Owp.Grammar.{◌␣◌, split_space, identifier_of, nonempty_of}
use oa_gateway.Owp.Codec.{
  SerdeJson, value, InfoPayload, server_text, ServerOp, acknowledge, failure, info, msg, parse_err,
  parse_info, parse_msg, server_op, parse_server, details_of, split_first_token,
}

-- `serde_json` writes the payload as a text that it reads back, an object.
abbrev pub ReadsBack : SerdeJson → InfoPayload → Type 0
ReadsBack serde p =
    (json : Text) × (serde.info_to_string p ≡ some json)
    × (serde.info_from_str json ≡ value p)
    × (json ≢ [])
    × IsTrimmed json

-- A frame whose texts survive the wire: a text that ends the line is not empty and does not begin
-- with a space or a tab, and `serde_json` reads back what it writes for an INFO.
abbrev pub IsServerOp : SerdeJson → ServerOp → Type 0
IsServerOp serde acknowledge = Unit
IsServerOp serde (failure e none) = Unit
IsServerOp serde (failure e (some details)) = (details ≢ []) × IsTrimmed details
IsServerOp serde (info payload) = ReadsBack serde payload
IsServerOp serde (msg sid payload) = IsIdentifier sid × ((payload ≢ []) × IsTrimmed payload)

owp_text-IsIdentifier : (e : OwpError) → IsIdentifier (owp_text e)
unfolding is_identifier
owp_text-IsIdentifier unsupported_version = refl
owp_text-IsIdentifier unsupported_schema = refl
owp_text-IsIdentifier unsupported_service = refl
owp_text-IsIdentifier illegal_operation = refl
owp_text-IsIdentifier illegal_argument = refl
owp_text-IsIdentifier illegal_state = refl
owp_text-IsIdentifier internal_error = refl
owp_text-IsIdentifier invalid_message = refl

owp_text-IsToken : (e : OwpError) → IsToken (owp_text e)
owp_text-IsToken e = is_identifier-IsToken (owp_text e) (owp_text-IsIdentifier e)

details_of_given : (d : Text) → d ≢ [] → details_of d ≡ some d
details_of_given [] h = absurd (h refl)
details_of_given (b ∷ bs) h = refl

parse_err_plain : (e : OwpError) → parse_err (owp_text e) ≡ ok (failure e none)
unfolding parse_err
parse_err_plain e = rw (split_last (owp_text e) (owp_text-IsToken e), owp_error-owp_text e)

parse_err_details :
    (e : OwpError) (d : Text)
    → (d ≢ []) × IsTrimmed d
    → parse_err (owp_text e ␣ d) ≡ ok (failure e (some d))
unfolding parse_err
parse_err_details e d (given, trimmed) = rw (
  split_space (owp_text e) d (owp_text-IsToken e) trimmed,
  owp_error-owp_text e,
  details_of_given d given,
)

parse_msg_fields :
    (sid payload : Text)
    → IsIdentifier sid × ((payload ≢ []) × IsTrimmed payload)
    → parse_msg (sid ␣ payload) ≡ ok (msg sid payload)
unfolding parse_msg
parse_msg_fields sid payload (hs, (hp, trimmed)) = rw (
  split_space sid payload (is_identifier-IsToken sid hs) trimmed,
  identifier_of (codes "MSG") (codes "sid") sid hs,
  nonempty_of (codes "MSG") (codes "payload") payload hp,
)

parse_info_json :
    (serde : SerdeJson) (p : InfoPayload) (json : Text)
    → serde.info_from_str json ≡ value p
    → json ≢ []
    → parse_info serde json ≡ ok (info p)
unfolding parse_info
parse_info_json serde p json h k = rw (nonempty_of (codes "INFO") (codes "payload") json k, h)

parse_server_keyword :
    (serde : SerdeJson) (keyword rest : Text)
    → IsToken keyword
    → IsTrimmed rest
    → parse_server serde (keyword ␣ rest) ≡ server_op serde keyword rest
unfolding parse_server
parse_server_keyword serde keyword rest h k = rw (split_space keyword rest h k)

parse_server_err :
    (serde : SerdeJson) (rest : Text)
    → IsTrimmed rest
    → parse_server serde (codes "-ERR" ␣ rest) ≡ parse_err rest
unfolding server_op text_eq
parse_server_err serde rest h =
    parse_server_keyword serde (codes "-ERR") rest
      (ground arith, (refl, (refl, (refl, (refl, tt))))) h

parse_server_msg :
    (serde : SerdeJson) (rest : Text)
    → IsTrimmed rest
    → parse_server serde (codes "MSG" ␣ rest) ≡ parse_msg rest
unfolding server_op text_eq
parse_server_msg serde rest h =
    parse_server_keyword serde (codes "MSG") rest (ground arith, (refl, (refl, (refl, tt)))) h

parse_server_info :
    (serde : SerdeJson) (rest : Text)
    → IsTrimmed rest
    → parse_server serde (codes "INFO" ␣ rest) ≡ parse_info serde rest
unfolding server_op text_eq
parse_server_info serde rest h =
    parse_server_keyword serde (codes "INFO") rest
      (ground arith, (refl, (refl, (refl, (refl, tt))))) h

parse_server_ok : (serde : SerdeJson) → parse_server serde (codes "+OK") ≡ ok acknowledge
unfolding parse_server server_op split_first_token text_eq
parse_server_ok serde = refl

-- Every frame of the server whose texts survive the wire is printed, and what is printed is read back
-- as that frame: a text that ends the line is not empty and does not begin with a space or a tab, a
-- sid is an identifier, and `serde_json` reads back what it writes for the payload of an INFO.
pub parse_server-server_text :
    (serde : SerdeJson) (op : ServerOp)
    → IsServerOp serde op
    → (line : Text) × ((server_text serde op ≡ some line) × (parse_server serde line ≡ ok op))
unfolding server_text
parse_server-server_text serde acknowledge h = (codes "+OK", (refl, parse_server_ok serde))
parse_server-server_text serde (failure e none) h = (
  codes "-ERR" ␣ owp_text e,
  (
    ap (λ t. some (codes "-ERR" ␣ t)) (append-nil (owp_text e)),
    parse_server_err serde (owp_text e) (IsToken-IsTrimmed (owp_text e) (owp_text-IsToken e))
        ∙ parse_err_plain e,
  ),
)
parse_server-server_text serde (failure e (some d)) h = (
  codes "-ERR" ␣ owp_text e ␣ d,
  (
    refl,
    parse_server_err serde (owp_text e ␣ d) (IsTrimmed-append (owp_text e) _ (owp_text-IsToken e))
        ∙ parse_err_details e d h,
  ),
)
parse_server-server_text serde (info p) (json, written, read, given, trimmed) = (
  codes "INFO" ␣ json,
  (rw written, parse_server_info serde json trimmed ∙ parse_info_json serde p json read given),
)
parse_server-server_text serde (msg sid payload) h = (
  codes "MSG" ␣ sid ␣ payload,
  (
    refl,
    parse_server_msg serde (sid ␣ payload) (IsTrimmed-append sid _ (is_identifier-IsToken sid h.0))
        ∙ parse_msg_fields sid payload h,
  ),
)
