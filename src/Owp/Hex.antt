-- ===== src/Owp/Hex.antt =====
-- `decode_hex`, `hex_nibble` and `encode_hex_upper` in crates/oa-gateway-owp/src/convert.rs.
use oa_gateway.Prelude.{
  ℕ, ◌+◌, ◌-◌, ◌*◌, ◌/◌, ◌%◌, ◌≡◌, ◌<◌, refl, ap, Bool, true, ◌&&◌, ◌||◌, [], ◌∷◌, ◌++◌, leb, ltb,
  ◌==◌, if◌then◌else◌, arith, length, All,
}
use oa_gateway.Prelude.Attempt.{Attempt, done, refused, ◌>>=◌}
use oa_gateway.Text.{Text, Bytes, codes}

-- `u8::is_ascii_whitespace`
abbrev pub is_ascii_space : ℕ → Bool
is_ascii_space b = b == 32 || (b == 9 || (b == 10 || (b == 12 || b == 13)))

unfoldable pub without_space : Text → Text
without_space [] = []
without_space (b ∷ bs) = let rest = without_space bs in if is_ascii_space b then rest else b ∷ rest

-- The messages; `shown` is the printed character of `{:?}`.
abbrev odd_digits : Text
odd_digits = codes "EncodedPayload is not hexBinary: odd number of digits"

abbrev invalid_digit : Text → Text
invalid_digit shown = codes "EncodedPayload is not hexBinary: invalid character " ++ shown

module _ (show_char : ℕ → Text) where
  unfoldable pub hex_nibble : ℕ → Attempt ℕ
  hex_nibble b =
      if leb 48 b && leb b 57
      then done (b - 48)
      else if leb 97 b && leb b 102
      then done (b - 97 + 10)
      else if leb 65 b && leb b 70
      then done (b - 65 + 10)
      else refused (invalid_digit (show_char b))

  -- A pair of digits, and the bytes of those behind it.
  abbrev onto_byte : ℕ → ℕ → Attempt Bytes → Attempt Bytes
  onto_byte hi lo (done bs) = done ((hi * 16 + lo) ∷ bs)
  onto_byte hi lo (refused e) = refused e

  -- The loop over the pairs; `chunks_exact` leaves out a last digit without a partner.
  unfoldable pub decode_pairs : Text → Attempt Bytes
  unfolding hex_nibble
  decode_pairs [] = done []
  decode_pairs (a ∷ []) = done []
  decode_pairs (a ∷ b ∷ rest) =
      hex_nibble a >>= λ hi. hex_nibble b >>= λ lo. onto_byte hi lo (decode_pairs rest)

  unfoldable pub decode_hex : Text → Attempt Bytes
  unfolding without_space decode_pairs
  decode_hex s =
      let digits = without_space s in
      if length digits % 2 == 0 then decode_pairs digits else refused odd_digits

-- `HEX[n]`
abbrev pub hex_digit : ℕ → ℕ
hex_digit n = if ltb n 10 then 48 + n else 55 + n

unfoldable pub encode_hex_upper : Bytes → Text
encode_hex_upper [] = []
encode_hex_upper (b ∷ bs) = hex_digit (b / 16) ∷ hex_digit (b % 16) ∷ encode_hex_upper bs

pub without_space-encode_hex_upper :
    (bs : Bytes) → All (λ b. b < 256) bs → without_space (encode_hex_upper bs) ≡ encode_hex_upper bs
unfolding without_space encode_hex_upper
without_space-encode_hex_upper [] h = refl
without_space-encode_hex_upper (b ∷ bs) h =
    ground (arith, without_space-encode_hex_upper bs h.1, h.0)

pub length-encode_hex_upper : (bs : Bytes) → length (encode_hex_upper bs) ≡ 2 * length bs
unfolding encode_hex_upper
length-encode_hex_upper [] = refl
length-encode_hex_upper (b ∷ bs) = omega (arith, length-encode_hex_upper bs)

hex_nibble-hex_digit :
    (show_char : ℕ → Text) (n : ℕ) → n < 16 → hex_nibble show_char (hex_digit n) ≡ done n
unfolding hex_nibble
hex_nibble-hex_digit show_char n h = ground arith

decode_pairs-encode_hex_upper :
    (show_char : ℕ → Text) (bs : Bytes)
    → All (λ b. b < 256) bs
    → decode_pairs show_char (encode_hex_upper bs) ≡ done bs
unfolding decode_pairs encode_hex_upper
decode_pairs-encode_hex_upper show_char [] h = refl
decode_pairs-encode_hex_upper show_char (b ∷ bs) h =
    rw
      (
        hex_nibble-hex_digit show_char (b / 16) (omega (arith, h.0)),
        hex_nibble-hex_digit show_char (b % 16) (omega arith),
        decode_pairs-encode_hex_upper show_char bs h.1,
      )
      (ap (λ n. done (n ∷ bs)) (omega arith))

-- Bytes that are written as hex are read back, also when ASCII white space is put among the digits.
pub decode_hex-encode_hex_upper :
    (show_char : ℕ → Text) (bs : Bytes) (s : Text)
    → All (λ b. b < 256) bs
    → without_space s ≡ encode_hex_upper bs
    → decode_hex show_char s ≡ done bs
unfolding decode_hex
decode_hex-encode_hex_upper show_char bs s h e =
    let even : (length (encode_hex_upper bs) % 2 == 0) ≡ true =
      ground (arith, length-encode_hex_upper bs) in
    rw (e, even) (decode_pairs-encode_hex_upper show_char bs h)
