-- ===== src/Uci/Lexical.antt =====
-- `refuses`, `calendar` and `clock` in crates/oa-gateway-uci/src/primitive.rs.
use oa_gateway.Prelude.{
  ℕ, ◌-◌, ◌%◌, ◌^◌, Bool, true, false, not, ◌&&◌, ◌||◌, Option, none, some, [], ◌∷◌, ◌++◌, leb,
  ◌==◌, if◌then◌else◌, length,
}
use oa_gateway.Text.{Text, codes, text_eq}
use oa_gateway.Text.Integer.{ℤ, le_ℤ, i128_min, i128_max, parse_i128, parse_up_to, print_ℤ}
use oa_gateway.Stomp.Dest.{trim_start_matches, ends_with}
use oa_gateway.Uci.Schema.{Calls}
use oa_gateway.Uci.Primitive.{
  Kind, boolean, integer, number, date_time, date, time, duration, hex_binary, text, integral,
  all_hexdigits, is_date,
}

-- The text before and after the first, and the last, byte that is `sep`.
abbrev before : ℕ → Option (Text × Text) → Option (Text × Text)
before c none = none
before c (some (a, b)) = some (c ∷ a, b)

unfoldable pub cut : ℕ → Text → Option (Text × Text)
cut sep [] = none
cut sep (c ∷ cs) = let rest = cut sep cs in if c == sep then some ([], cs) else before c rest

abbrev or_here : ℕ → ℕ → Text → Option (Text × Text) → Option (Text × Text)
or_here sep c cs none = if c == sep then some ([], cs) else none
or_here sep c cs (some (a, b)) = some (c ∷ a, b)

unfoldable pub cut_last : ℕ → Text → Option (Text × Text)
cut_last sep [] = none
cut_last sep (c ∷ cs) = or_here sep c cs (cut_last sep cs)

abbrev u32_max : ℕ
u32_max = 2 ^ 32 - 1

abbrev i64_max : ℕ
i64_max = 2 ^ 63 - 1

abbrev date_of : Option ℕ → Option ℕ → Option ℕ → Bool
unfolding is_date
date_of (some year) (some month) (some day) = is_date year month day
date_of _ _ _ = false

-- `calendar`: the year may have a minus in front.
unfoldable pub calendar : Text → Bool
unfolding cut_last parse_up_to trim_start_matches date_of
calendar t = elim (cut_last b'-' t) [
  | none ↦ false
  | some (rest, day) ↦ elim (cut_last b'-' rest) [
    | none ↦ false
    | some (year, month) ↦
        date_of (parse_up_to i64_max (trim_start_matches b'-' year)) (parse_up_to u32_max month)
          (parse_up_to u32_max day)
  ]
]

module _ (c : Calls) where
  abbrev is_zero : c.F64 → Bool
  is_zero x = c.le_f64 x (c.of_nat 0) && c.le_f64 (c.of_nat 0) x

  abbrev time_of : Option ℕ → Option ℕ → Option c.F64 → Bool
  time_of (some hour) (some minute) (some second) =
      leb minute 59
      && (not (c.le_f64 (c.of_nat 60) second)
          && (leb hour 23 || (hour == 24 && (minute == 0 && is_zero second))))
  time_of _ _ _ = false

  unfoldable pub clock : Text → Bool
  unfolding cut parse_up_to
  clock t = elim (cut b':' t) [
    | none ↦ false
    | some (hour, rest) ↦ elim (cut b':' rest) [
      | none ↦ false
      | some (minute, second) ↦
          time_of (parse_up_to u32_max hour) (parse_up_to u32_max minute) (c.parse_f64 second)
    ]
  ]

  -- A shape is anchored. The shapes below compile; `pattern` would panic on one that does not.
  abbrev matches : Text → Text → Bool
  matches shape t = elim (c.compile (codes "\\A(?:" ++ (shape ++ codes ")\\z"))) [
    | none ↦ false
    | some regex ↦ c.is_match regex t
  ]

  abbrev captured : Text → Text → Text → Option Text
  captured shape name t = elim (c.compile (codes "\\A(?:" ++ (shape ++ codes ")\\z"))) [
    | none ↦ none
    | some regex ↦ c.capture regex name t
  ]

  abbrev date_shape : Text
  date_shape = codes "-?\\d{4,}-\\d{2}-\\d{2}"

  abbrev time_shape : Text
  time_shape = codes "\\d{2}:\\d{2}:\\d{2}(\\.\\d+)?"

  abbrev zone_shape : Text
  zone_shape = codes "(Z|[+-]((0\\d|1[0-3]):[0-5]\\d|14:00))"

  abbrev dated : Text
  dated = codes "(?<date>" ++ (date_shape ++ codes ")")

  abbrev timed : Text
  timed = codes "(?<time>" ++ (time_shape ++ codes ")")

  abbrev zoned : Text
  zoned = zone_shape ++ codes "?"

  -- `caps["date"]` and `caps["time"]`, none where the shape does not match.
  abbrev checked : (Text → Bool) → Option Text → Bool
  checked test none = false
  checked test (some t) = test t

  abbrev expected : Bool → Text → Option Text
  expected true e = none
  expected false e = some e

  abbrev decimal_shape : Text
  decimal_shape = codes "[+-]?([0-9]+(\\.[0-9]*)?|\\.[0-9]+)"

  abbrev is_special : Text → Bool
  is_special t = text_eq t (codes "INF") || (text_eq t (codes "-INF") || text_eq t (codes "NaN"))

  abbrev pub in_range : ℤ → ℤ → Option ℤ → Bool
  in_range min max none = false
  in_range min max (some value) = le_ℤ min value && le_ℤ value max

  abbrev pub is_unbounded : ℤ → ℤ → Bool
  is_unbounded min max = le_ℤ min i128_min && le_ℤ i128_max max

  unfoldable pub refuses : Kind → Text → Option Text
  unfolding integral parse_i128 print_ℤ calendar clock
  refuses boolean t =
      expected
        (text_eq t (codes "true")
          || (text_eq t (codes "false") || (text_eq t (codes "1") || text_eq t (codes "0"))))
        (codes "one of 'true', 'false', '1' or '0'")
  refuses (integer min max) t =
      if not (integral t)
      then some (codes "a whole number, optionally signed")
      else expected (in_range min max (parse_i128 t) || is_unbounded min max)
          (codes "between " ++ (print_ℤ min ++ (codes " and " ++ print_ℤ max)))
  refuses (number true special) t =
      if special && is_special t
      then none
      else expected (matches (decimal_shape ++ codes "([Ee][+-]?[0-9]+)?") t)
          (codes "a number, with an optional exponent")
  refuses (number false special) t =
      if special && is_special t
      then none
      else expected (matches decimal_shape t) (codes "a number, without an exponent")
  refuses date_time t =
      let shape = dated ++ (b'T' ∷ (timed ++ zoned)) in
      expected
        (checked calendar (captured shape (codes "date") t)
          && checked clock (captured shape (codes "time") t))
        (codes "a date and time, as CCYY-MM-DDThh:mm:ss with an optional fraction and time zone")
  refuses date t =
      expected (checked calendar (captured (dated ++ zoned) (codes "date") t))
        (codes "a date, as CCYY-MM-DD")
  refuses time t =
      expected (checked clock (captured (timed ++ zoned) (codes "time") t))
        (codes "a time of day, as hh:mm:ss with an optional fraction and time zone")
  refuses duration t =
      expected
        (matches (codes "-?P((\\d+Y)?(\\d+M)?(\\d+D)?(T(\\d+H)?(\\d+M)?(\\d+(\\.\\d+)?S)?)?)") t
          && not (ends_with b'P' t || ends_with b'T' t))
        (codes "a duration, as PnYnMnDTnHnMnS with at least one part")
  refuses hex_binary t =
      expected (length t % 2 == 0 && all_hexdigits t) (codes "an even number of hex digits")
  refuses text t = none
