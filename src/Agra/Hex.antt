-- ===== src/Agra/Hex.antt =====
-- `AgraError` and `decode_hex` in crates/oa-gateway-agra/src/lib.rs: a pass over the digits.
use oa_gateway.Prelude.{
  ℕ, ◌+◌, ◌-◌, ◌*◌, ◌/◌, ◌%◌, ◌≡◌, ◌≤◌, ◌<◌, ◌∙◌, refl, ap, true, false, ◌&&◌, Option, none, some,
  [], ◌∷◌, ◌++◌, leb, ltb, All, if◌then◌else◌, arith, length, Bool-cases, inl, inr,
}
use oa_gateway.Text.{Text, Bytes, codes}
use oa_gateway.Owp.Hex.{
  is_ascii_space, without_space, encode_hex_upper, hex_digit, length-encode_hex_upper,
}

pub data AgraError : Type 0 where
  not_a_wrapper payload_too_large : AgraError
  json_error missing_field bad_hex : Text → AgraError

pub data Result {ℓ} (A : Type ℓ) : Type ℓ where
  ok : A → Result A
  err : AgraError → Result A

-- `?`
unfoldable pub and_then {ℓ κ} : {A : Type ℓ} {B : Type κ} → Result A → (A → Result B) → Result B
and_then (ok a) f = f a
and_then (err e) f = err e

-- `MAX_DECODED_PAYLOAD`
abbrev pub max_decoded_payload : ℕ
max_decoded_payload = 8 * 1024 * 1024

module _ (show_char : ℕ → Text) where
  abbrev nibble : ℕ → Result ℕ
  nibble b =
      if leb 48 b && leb b 57
      then ok (b - 48)
      else if leb 97 b && leb b 102
      then ok (b - 97 + 10)
      else if leb 65 b && leb b 70
      then ok (b - 65 + 10)
      else err (bad_hex (codes "invalid character " ++ show_char b))

  -- A digit behind `high`: the new `high`, and the byte that is pushed.
  abbrev paired : Option ℕ → ℕ → Option ℕ × Bytes
  paired none n = (some n, [])
  paired (some hi) n = (none, (hi * 16 + n) ∷ [])

  unfoldable pub digit : Option ℕ → ℕ → Result (Option ℕ × Bytes)
  unfolding and_then
  digit high b =
      if is_ascii_space b then ok (high, []) else and_then (nibble b) (λ n. ok (paired high n))

  abbrev onto : Bytes → Result Bytes → Result Bytes
  onto out (ok bs) = ok (out ++ bs)
  onto out (err e) = err e

  abbrev without_high : Option ℕ → Result Bytes
  without_high none = ok []
  without_high (some hi) = err (bad_hex (codes "odd number of digits"))

  -- The loop over the bytes of the text.
  unfoldable pub decode_digits : Option ℕ → Text → Result Bytes
  unfolding and_then digit
  decode_digits high [] = without_high high
  decode_digits high (b ∷ s) =
      and_then (digit high b) (λ step. onto step.1 (decode_digits step.0 s))

  unfoldable pub decode_hex : Text → Result Bytes
  unfolding decode_digits without_space
  decode_hex s =
      if ltb max_decoded_payload (length s / 2)
        && ltb max_decoded_payload (length (without_space s) / 2)
      then err payload_too_large
      else decode_digits none s

onto-nil : (show_char : ℕ → Text) (r : Result Bytes) → onto show_char [] r ≡ r
onto-nil show_char (ok bs) = refl
onto-nil show_char (err e) = refl

digit-space :
    (show_char : ℕ → Text) (high : Option ℕ) (b : ℕ)
    → is_ascii_space b ≡ true
    → digit show_char high b ≡ ok (high, [])
unfolding digit
digit-space show_char high b e = rw e refl

without_space-visible :
    (b : ℕ) (s : Text) → is_ascii_space b ≡ false → b ∷ without_space s ≡ without_space (b ∷ s)
unfolding without_space
without_space-visible b s e = rw e refl

decode_digits-without_space :
    (show_char : ℕ → Text) (high : Option ℕ) (s : Text)
    → decode_digits show_char high s ≡ decode_digits show_char high (without_space s)
unfolding decode_digits without_space and_then
decode_digits-without_space show_char high [] = refl
decode_digits-without_space show_char high (b ∷ s) = elim (Bool-cases (is_ascii_space b)) [
  | inl e ↦
      rw (digit-space show_char high b e, e)
        (onto-nil show_char (decode_digits show_char high s)
          ∙ decode_digits-without_space show_char high s)
  | inr e ↦
      ap {A = Option ℕ → Result Bytes}
        (λ f. and_then (digit show_char high b) (λ step. onto show_char step.1 (f step.0)))
        (λ i. λ h. decode_digits-without_space show_char h s i)
      ∙ ap (decode_digits show_char high) (without_space-visible b s e)
]

digit-hex_digit :
    (show_char : ℕ → Text) (high : Option ℕ) (n : ℕ)
    → n < 16
    → digit show_char high (hex_digit n) ≡ ok (paired show_char high n)
unfolding digit and_then
digit-hex_digit show_char high n h =
    let at : nibble show_char (hex_digit n) ≡ ok n = ground arith in
    let visible : is_ascii_space (hex_digit n) ≡ false = ground arith in rw (visible, at) refl

decode_digits-encode_hex_upper :
    (show_char : ℕ → Text) (bs : Bytes)
    → All (λ b. b < 256) bs
    → decode_digits show_char none (encode_hex_upper bs) ≡ ok bs
unfolding decode_digits encode_hex_upper and_then
decode_digits-encode_hex_upper show_char [] h = refl
decode_digits-encode_hex_upper show_char (b ∷ bs) h =
    rw
      (
        digit-hex_digit show_char none (b / 16) (omega (arith, h.0)),
        digit-hex_digit show_char (some (b / 16)) (b % 16) (omega arith),
        decode_digits-encode_hex_upper show_char bs h.1,
      )
      (ap (λ n. ok (n ∷ bs)) (omega arith))

-- Bytes that are written as hex are read back, also with ASCII white space among the digits.
pub decode_hex-encode_hex :
    (show_char : ℕ → Text) (bs : Bytes) (s : Text)
    → All (λ b. b < 256) bs
    → length bs ≤ max_decoded_payload
    → without_space s ≡ encode_hex_upper bs
    → decode_hex show_char s ≡ ok bs
unfolding decode_hex
decode_hex-encode_hex show_char bs s h fits e =
    let small : ltb max_decoded_payload (length (without_space s) / 2) ≡ false =
      rw e (ground (arith, length-encode_hex_upper bs, fits)) in
    let all : decode_digits show_char none s ≡ ok bs =
      decode_digits-without_space show_char none s
      ∙ rw e (decode_digits-encode_hex_upper show_char bs h) in
    rw small (elim (Bool-cases (ltb max_decoded_payload (length s / 2))) [
      | inl l ↦ rw l all
      | inr l ↦ rw l all
    ])
