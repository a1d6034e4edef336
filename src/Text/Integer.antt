-- ===== src/Text/Integer.antt =====
-- `i128` of the Rust standard library: its bounds, `parse` and `Display`.
use oa_gateway.Prelude.{
  ℕ, suc, ◌+◌, ◌-◌, ◌*◌, ◌^◌, Bool, true, false, Option, none, some, [], ◌∷◌, leb, ◌==◌,
  if◌then◌else◌,
}
use oa_gateway.Text.{Text}
use oa_gateway.Text.Decimal.{print_usize, is_digit}

-- `negsuc n` is `-(n + 1)`.
pub data ℤ : Type 0 where
  pos negsuc : ℕ → ℤ

abbrev pub le_ℤ : ℤ → ℤ → Bool
le_ℤ (pos a) (pos b) = leb a b
le_ℤ (pos a) (negsuc b) = false
le_ℤ (negsuc a) (pos b) = true
le_ℤ (negsuc a) (negsuc b) = leb b a

abbrev pub i128_min : ℤ
i128_min = negsuc (2 ^ 127 - 1)

abbrev pub i128_max : ℤ
i128_max = pos (2 ^ 127 - 1)

-- The value of a text of digits; none if a byte is no digit.
unfoldable pub digits_value : ℕ → Text → Option ℕ
unfolding is_digit
digits_value acc [] = some acc
digits_value acc (c ∷ cs) =
    let next = digits_value (acc * 10 + (c - 48)) cs in if is_digit c then next else none

abbrev negated : ℕ → ℤ
negated ℕ.zero = pos 0
negated (suc n) = negsuc n

-- An integer of 128 bits, by its sign and its digits.
abbrev within : Bool → Option ℕ → Option ℤ
within minus none = none
within false (some n) = if leb n (2 ^ 127 - 1) then some (pos n) else none
within true (some n) = if leb n (2 ^ 127) then some (negated n) else none

abbrev digits_of : Text → Option ℕ
unfolding digits_value
digits_of [] = none
digits_of (c ∷ cs) = digits_value 0 (c ∷ cs)

unfoldable pub parse_i128 : Text → Option ℤ
unfolding digits_of
parse_i128 [] = none
parse_i128 (c ∷ cs) =
    if c == b'-'
    then within true (digits_of cs)
    else if c == b'+'
    then within false (digits_of cs)
    else within false (digits_of (c ∷ cs))

unfoldable pub print_ℤ : ℤ → Text
unfolding print_usize
print_ℤ (pos n) = print_usize n
print_ℤ (negsuc n) = b'-' ∷ print_usize (suc n)

-- `parse` of an unsigned type of at most `max`, or of a signed one on a text without a minus.
abbrev at_most : ℕ → Option ℕ → Option ℕ
at_most max none = none
at_most max (some n) = if leb n max then some n else none

unfoldable pub parse_up_to : ℕ → Text → Option ℕ
unfolding digits_of
parse_up_to max [] = none
parse_up_to max (c ∷ cs) =
    if c == b'+' then at_most max (digits_of cs) else at_most max (digits_of (c ∷ cs))
