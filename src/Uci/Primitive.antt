-- ===== src/Uci/Primitive.antt =====
-- crates/oa-gateway-uci/src/primitive.rs: what each `xs:` primitive accepts.
use oa_gateway.Prelude.{
  ℕ, ◌-◌, ◌%◌, ◌^◌, Bool, true, false, not, ◌&&◌, ◌||◌, Option, none, some, [], ◌∷◌, leb, ◌==◌,
  if◌then◌else◌,
}
use oa_gateway.Text.{Text, codes, text_Eq}
use oa_gateway.Text.Decimal.{is_digit}
use oa_gateway.Text.Integer.{ℤ, pos, negsuc, i128_min, i128_max}
use oa_gateway.Map.{Map, get}

pub data Kind : Type 0 where
  boolean : Kind
  integer : (min max : ℤ) → Kind
  number : (exponent special : Bool) → Kind
  date_time date time duration hex_binary text : Kind

-- The names that are told apart, and their kinds.
abbrev kinds : Map Text Kind
kinds =
    (codes "xs:boolean", boolean)
    ∷ (codes "xs:byte", integer (negsuc 127) (pos 127))
    ∷ (codes "xs:short", integer (negsuc 32767) (pos 32767))
    ∷ (codes "xs:int", integer (negsuc 2147483647) (pos 2147483647))
    ∷ (codes "xs:long", integer (negsuc (2 ^ 63 - 1)) (pos (2 ^ 63 - 1)))
    ∷ (codes "xs:unsignedByte", integer (pos 0) (pos 255))
    ∷ (codes "xs:unsignedShort", integer (pos 0) (pos 65535))
    ∷ (codes "xs:unsignedInt", integer (pos 0) (pos 4294967295))
    ∷ (codes "xs:unsignedLong", integer (pos 0) (pos (2 ^ 64 - 1)))
    ∷ (codes "xs:nonNegativeInteger", integer (pos 0) i128_max)
    ∷ (codes "xs:positiveInteger", integer (pos 1) i128_max)
    ∷ (codes "xs:nonPositiveInteger", integer i128_min (pos 0))
    ∷ (codes "xs:negativeInteger", integer i128_min (negsuc 0))
    ∷ (codes "xs:integer", integer i128_min i128_max)
    ∷ (codes "xs:decimal", number false false)
    ∷ (codes "xs:double", number true true)
    ∷ (codes "xs:float", number true true)
    ∷ (codes "xs:dateTime", date_time)
    ∷ (codes "xs:date", date)
    ∷ (codes "xs:time", time)
    ∷ (codes "xs:duration", duration)
    ∷ (codes "xs:hexBinary", hex_binary)
    ∷ []

abbrev or_text : Option Kind → Kind
or_text none = text
or_text (some k) = k

unfoldable pub kind : Text → Kind
unfolding get
kind primitive = or_text (get primitive kinds)

abbrev is_text : Kind → Bool
is_text text = true
is_text _ = false

unfoldable pub is_checked : Text → Bool
unfolding kind
is_checked primitive = not (is_text (kind primitive))

-- `strip_prefix(['+', '-'])`
abbrev pub unsigned : Text → Text
unsigned [] = []
unsigned (c ∷ cs) = if c == b'+' || c == b'-' then cs else c ∷ cs

abbrev pub all_digits : Text → Bool
unfolding is_digit
all_digits [] = true
all_digits (c ∷ cs) = is_digit c && all_digits cs

abbrev is_nil : Text → Bool
is_nil [] = true
is_nil (c ∷ cs) = false

unfoldable pub integral : Text → Bool
unfolding is_digit
integral t = not (is_nil (unsigned t)) && all_digits (unsigned t)

abbrev pub is_hexdigit : ℕ → Bool
is_hexdigit c = (leb 48 c && leb c 57) || ((leb 65 c && leb c 70) || (leb 97 c && leb c 102))

abbrev pub all_hexdigits : Text → Bool
all_hexdigits [] = true
all_hexdigits (c ∷ cs) = is_hexdigit c && all_hexdigits cs

-- The years, months and days that are dates.
abbrev divides : ℕ → ℕ → Bool
divides d n = n % d == 0

unfoldable pub last_day : ℕ → ℕ → ℕ
last_day year month =
    if month == 4 || (month == 6 || (month == 9 || month == 11))
    then 30
    else if not (month == 2)
    then 31
    else if divides 4 year && (not (divides 100 year) || divides 400 year)
    then 29
    else 28

unfoldable pub is_date : ℕ → ℕ → ℕ → Bool
unfolding last_day
is_date year month day =
    not (year == 0)
    && (leb 1 month && (leb month 12 && (not (day == 0) && leb day (last_day year month))))
