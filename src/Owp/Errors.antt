-- ===== src/Owp/Errors.antt =====
-- The error names and the identifiers of crates/oa-gateway-owp/src/codec.rs.
use oa_gateway.Prelude.{
  ℕ, ◌≡◌, ◌↔◌, refl, Bool, true, false, not, ◌&&◌, ◌||◌, [], ◌∷◌, ◌++◌, arith, leb, ◌==◌,
  if◌then◌else◌, Bool-cases, inl, inr, ◌∙◌, sym,
}
use oa_gateway.Text.{Text, codes, text_eq, text_eq_iff}

pub data OwpError : Type 0 where
  unsupported_version unsupported_schema unsupported_service illegal_operation : OwpError
  illegal_argument illegal_state internal_error invalid_message : OwpError

-- A field or an operation is named by the text that the message shows.
pub data ParseError : Type 0 where
  empty_frame : ParseError
  unknown_op : Text → ParseError
  missing_field : Text → Text → ParseError
  extra_fields : Text → ParseError
  invalid_identifier : Text → Text → Text → ParseError
  invalid_json : Text → Text → ParseError

pub data Result {ℓ} (A : Type ℓ) : Type ℓ where
  ok : A → Result A
  err : ParseError → Result A

infixl 5 ◌>>=◌
abbrev pub ◌>>=◌ {ℓ κ} : {A : Type ℓ} {B : Type κ} → Result A → (A → Result B) → Result B
ok a >>= f = f a
err e >>= f = err e

-- `Display for ParseError`
unfoldable pub parse_error_text : ParseError → Text
parse_error_text empty_frame = codes "empty frame"
parse_error_text (unknown_op op) = codes "unknown operation '" ++ (op ++ codes "'")
parse_error_text (missing_field op field) = op ++ (codes ": missing '" ++ (field ++ codes "'"))
parse_error_text (extra_fields op) = op ++ codes ": unexpected extra fields"
parse_error_text (invalid_identifier op field s) =
    op
    ++ (codes ": '" ++ (field ++ (codes "' value '" ++ (s ++ codes "' is not an OWP identifier"))))
parse_error_text (invalid_json op message) = op ++ (codes ": invalid JSON: " ++ message)

-- `Display for OwpError`
abbrev pub owp_text : OwpError → Text
owp_text unsupported_version = codes "Unsupported-Version"
owp_text unsupported_schema = codes "Unsupported-Schema"
owp_text unsupported_service = codes "Unsupported-Service"
owp_text illegal_operation = codes "Illegal-Operation"
owp_text illegal_argument = codes "Illegal-Argument"
owp_text illegal_state = codes "Illegal-State"
owp_text internal_error = codes "Internal-Error"
owp_text invalid_message = codes "Invalid-Message"

-- `FromStr for OwpError`
unfoldable pub owp_error : Text → Result OwpError
owp_error s =
    if text_eq s (codes "Unsupported-Version")
    then ok unsupported_version
    else if text_eq s (codes "Unsupported-Schema")
    then ok unsupported_schema
    else if text_eq s (codes "Unsupported-Service")
    then ok unsupported_service
    else if text_eq s (codes "Illegal-Operation")
    then ok illegal_operation
    else if text_eq s (codes "Illegal-Argument")
    then ok illegal_argument
    else if text_eq s (codes "Illegal-State")
    then ok illegal_state
    else if text_eq s (codes "Internal-Error")
    then ok internal_error
    else if text_eq s (codes "Invalid-Message")
    then ok invalid_message
    else err (unknown_op s)

pub owp_error-owp_text : (e : OwpError) → owp_error (owp_text e) ≡ ok e
unfolding owp_error text_eq
owp_error-owp_text unsupported_version = refl
owp_error-owp_text unsupported_schema = refl
owp_error-owp_text unsupported_service = refl
owp_error-owp_text illegal_operation = refl
owp_error-owp_text illegal_argument = refl
owp_error-owp_text illegal_state = refl
owp_error-owp_text internal_error = refl
owp_error-owp_text invalid_message = refl

same_text : (x e : OwpError) → ok x ≡ ok e → owp_text e ≡ owp_text x
same_text x e h = ground arith

-- One test of `owp_error`: where it answers `e`, `e` is printed as `s`.
named :
    (s : Text) (x e : OwpError) (r : Result OwpError)
    → (r ≡ ok e → owp_text e ≡ s)
    → (if text_eq s (owp_text x) then ok x else r) ≡ ok e
    → owp_text e ≡ s
named s x e r k h = elim (Bool-cases (text_eq s (owp_text x))) [
  | inl y ↦ same_text x e (rw y at h) ∙ sym ((text_eq_iff s (owp_text x)).0 y)
  | inr n ↦ k (rw n at h)
]

owp_text_of : (s : Text) (e : OwpError) → owp_error s ≡ ok e → owp_text e ≡ s
unfolding owp_error
owp_text_of s e = named s unsupported_version e _ (
    named s unsupported_schema e _ (
      named s unsupported_service e _ (
        named s illegal_operation e _ (
          named s illegal_argument e _ (
            named s illegal_state e _
              (named s internal_error e _ (named s invalid_message e _ (λ h. ground arith))))))))

-- An error name is read as an error exactly where it is the name that the error is printed as.
pub owp_error_iff : (s : Text) (e : OwpError) → (owp_error s ≡ ok e) ↔ (owp_text e ≡ s)
owp_error_iff s e = (owp_text_of s e, λ h. rw (← h) (owp_error-owp_text e))

-- `u8::is_ascii_alphanumeric` and the three signs of `is_identifier`.
abbrev pub is_word_byte : ℕ → Bool
is_word_byte b =
    (leb b'0' b && leb b b'9')
    || (leb b'A' b && leb b b'Z')
    || (leb b'a' b && leb b b'z')
    || b == b'_'
    || b == b'-'
    || b == b'.'

unfoldable pub all_word_bytes : Text → Bool
all_word_bytes [] = true
all_word_bytes (b ∷ bs) = is_word_byte b && all_word_bytes bs

abbrev pub is_empty : Text → Bool
is_empty [] = true
is_empty (c ∷ cs) = false

unfoldable pub is_identifier : Text → Bool
unfolding all_word_bytes
is_identifier s = not (is_empty s) && all_word_bytes s
