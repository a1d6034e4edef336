-- ===== src/Stomp/Escape.antt =====
-- `escape_header` and `unescape_header` of crates/oa-gateway-stomp/src/codec.rs.
use oa_gateway.Prelude.{ℕ, ◌≤◌, ◌≡◌, ◌≢◌, refl, true, ◌||◌, [], ◌∷◌, ◌++◌, arith, All, ap, ◌∙◌}
use oa_gateway.Text.{Text, Bytes}
use oa_gateway.Text.Decimal.{is_digit}
use oa_gateway.Text.Utf8.{
  Utf8State, start, one_more, two_more, second, refused, utf8_step, utf8_run, utf8_run-append,
  IsUtf8,
}
use oa_gateway.Stomp.Frame.{escape, escape_byte}
use oa_gateway.Stomp.Decode.{ok, unescape, has_nul}

-- A header name or value is read back from its escaped form.
pub unescape-escape : (s : Text) → unescape (escape s) ≡ ok s
unfolding unescape escape
unescape-escape [] = refl
unescape-escape (c ∷ cs) = ground (arith, unescape-escape cs)

-- No colon, line feed or carriage return is left in an escaped text.
abbrev pub IsClean : Text → Type 0
IsClean s = All (λ c. (c ≢ b':') × (c ≢ b'\n') × (c ≢ b'\r')) s

pub escape-IsClean : (s : Text) → IsClean (escape s)
unfolding escape
escape-IsClean [] = tt
escape-IsClean (c ∷ cs) = ground (arith, escape-IsClean cs)

pub has_nul-append : (xs ys : Bytes) → has_nul (xs ++ ys) ≡ (has_nul xs || has_nul ys)
unfolding has_nul
has_nul-append [] ys = refl
has_nul-append (x ∷ xs) ys = ground (arith, has_nul-append xs ys)

pub has_nul-escape : (s : Text) → has_nul (escape s) ≡ has_nul s
unfolding escape has_nul
has_nul-escape [] = refl
has_nul-escape (c ∷ cs) = ground (arith, has_nul-escape cs)

-- The states that the automaton can be in: the second byte of a longer form is never ASCII.
abbrev IsSound : Utf8State → Type 0
IsSound (second lo hi next) = (0x80 ≤ lo) × IsSound next
IsSound _ = Unit

utf8_step-IsSound : (s : Utf8State) (c : ℕ) → IsSound s → IsSound (utf8_step s c)
unfolding utf8_step
utf8_step-IsSound start c h = ground arith
utf8_step-IsSound one_more c h = ground arith
utf8_step-IsSound two_more c h = ground arith
utf8_step-IsSound (second lo hi next) c h = ground arith
utf8_step-IsSound refused c h = ground arith

utf8_run-escape_byte :
    (s : Utf8State) (c : ℕ) → IsSound s → utf8_run s (escape_byte c) ≡ utf8_step s c
unfolding utf8_run escape_byte
utf8_run-escape_byte start c h = ground arith
utf8_run-escape_byte one_more c h = ground arith
utf8_run-escape_byte two_more c h = ground arith
utf8_run-escape_byte (second lo hi next) c h = ground arith
utf8_run-escape_byte refused c h = ground arith

utf8_run-escape : (s : Utf8State) (xs : Text) → IsSound s → utf8_run s (escape xs) ≡ utf8_run s xs
unfolding escape utf8_run
utf8_run-escape s [] h = refl
utf8_run-escape s (c ∷ cs) h =
    utf8_run-append s (escape_byte c) (escape cs)
    ∙ ap (λ t. utf8_run t (escape cs)) (utf8_run-escape_byte s c h)
    ∙ utf8_run-escape (utf8_step s c) cs (utf8_step-IsSound s c h)

pub IsUtf8-escape : (xs : Text) → IsUtf8 xs → IsUtf8 (escape xs)
IsUtf8-escape xs h = utf8_run-escape start xs tt ∙ h

-- Digits need no escape.
pub escape_digits : (xs : Text) → All (λ c. is_digit c ≡ true) xs → escape xs ≡ xs
unfolding escape is_digit
escape_digits [] h = refl
escape_digits (c ∷ cs) h = ground (arith, escape_digits cs h.1)
