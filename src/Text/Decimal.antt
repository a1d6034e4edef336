-- ===== src/Text/Decimal.antt =====
-- `usize::to_string` and `str::parse::<usize>` of the Rust standard library, at 64 bits.
use oa_gateway.Prelude.{
  ℕ, zero, suc, ◌+◌, ◌-◌, ◌*◌, ◌/◌, ◌%◌, ◌^◌, ◌≤◌, ◌<◌, ◌≡◌, ◌≢◌, refl, All, Bool, true, ◌&&◌,
  Option, none, some, [], ◌∷◌, ◌++◌, arith, ltb, leb, ◌==◌, if◌then◌else◌, Bool-cases, inl, inr, ap,
  ◌∙◌, ltb→lt,
}
use oa_gateway.Text.{Text}

abbrev pub usize_max : ℕ
usize_max = 2 ^ 64 - 1

-- The decimal digits, most significant first, on fuel; `print_usize` gives enough.
print_digits : ℕ → ℕ → Text
print_digits zero n = []
print_digits (suc f) n =
    let rest = print_digits f (n / 10) in
    if ltb n 10 then (48 + n) ∷ [] else rest ++ (48 + n % 10) ∷ []

unfoldable pub print_usize : ℕ → Text
unfolding print_digits
print_usize n = print_digits (suc n) n

unfoldable pub is_digit : ℕ → Bool
is_digit c = leb 48 c && leb c 57

-- The digits after those of `acc`, with the overflow check of each step.
parse_digits : ℕ → Text → Option ℕ
parse_digits acc [] = some acc
parse_digits acc (c ∷ cs) =
    let next = parse_digits (acc * 10 + (c - 48)) cs in
    if is_digit c && leb (acc * 10 + (c - 48)) usize_max then next else none

abbrev after_plus : Text → Option ℕ
after_plus [] = none
after_plus (c ∷ cs) = parse_digits 0 (c ∷ cs)

unfoldable pub parse_usize : Text → Option ℕ
unfolding parse_digits is_digit
parse_usize [] = none
parse_usize (c ∷ cs) = if c == b'+' then after_plus cs else parse_digits 0 (c ∷ cs)

parse_digits-append :
    (acc : ℕ) (xs : Text) (d m : ℕ)
    → parse_digits acc xs ≡ some m
    → d < 10
    → m * 10 + d ≤ usize_max
    → parse_digits acc (xs ++ (48 + d) ∷ []) ≡ some (m * 10 + d)
unfolding parse_digits is_digit
parse_digits-append acc [] d m h ld hm = ground arith
parse_digits-append acc (c ∷ cs) d m h ld hm =
    ground (arith, parse_digits-append (acc * 10 + (c - 48)) cs d m)

parse_digits_one : (n : ℕ) → n < 10 → parse_digits 0 ((48 + n) ∷ []) ≡ some n
unfolding parse_digits is_digit
parse_digits_one n h = ground arith

parse_digits-print_digits :
    (f n : ℕ) → n < f → n ≤ usize_max → parse_digits 0 (print_digits f n) ≡ some n
unfolding print_digits
parse_digits-print_digits zero n h k = elim h [ ]
parse_digits-print_digits (suc f) n h k = elim (Bool-cases (ltb n 10)) [
  | inl small ↦ rw small (parse_digits_one n (ltb→lt n 10 small))
  | inr large ↦ rw large (
      parse_digits-append 0 (print_digits f (n / 10)) (n % 10) (n / 10)
        (parse_digits-print_digits f (n / 10) (ground arith) (omega arith)) (omega arith)
        (omega arith)
      ∙ ap some (omega arith))
]

-- Every printed byte is a digit, and there is one.
abbrev pub IsNumber : Text → Type 0
IsNumber xs = (xs ≢ []) × All (λ c. is_digit c ≡ true) xs

All-digits-concat :
    (xs : Text) (d : ℕ) → All (λ c. is_digit c ≡ true) xs → d < 10 → IsNumber (xs ++ (48 + d) ∷ [])
unfolding is_digit
All-digits-concat [] d h ld = ground arith
All-digits-concat (x ∷ xs) d h ld = ground (arith, All-digits-concat xs d h.1)

print_digits-IsNumber : (f n : ℕ) → n < f → IsNumber (print_digits f n)
unfolding print_digits is_digit
print_digits-IsNumber zero n h = elim h [ ]
print_digits-IsNumber (suc f) n h = elim (Bool-cases (ltb n 10)) [
  | inl small ↦ rw small (ground arith)
  | inr large ↦ rw large (
      All-digits-concat (print_digits f (n / 10)) (n % 10)
        ((print_digits-IsNumber f (n / 10) (ground arith)).1) (omega arith))
]

pub print_usize-IsNumber : (n : ℕ) → IsNumber (print_usize n)
unfolding print_usize
print_usize-IsNumber n = print_digits-IsNumber (suc n) n (omega arith)

parse_usize_digits : (xs : Text) → IsNumber xs → parse_usize xs ≡ parse_digits 0 xs
unfolding parse_usize
parse_usize_digits [] h = absurd (h.0 refl)
parse_usize_digits (c ∷ cs) h = ground arith

-- A number of 64 bits is read back from its decimal text.
pub parse_usize-print_usize : (n : ℕ) → n ≤ usize_max → parse_usize (print_usize n) ≡ some n
unfolding print_usize
parse_usize-print_usize n h =
    parse_usize_digits (print_digits (suc n) n) (print_digits-IsNumber (suc n) n (omega arith))
    ∙ parse_digits-print_digits (suc n) n (omega arith) h
