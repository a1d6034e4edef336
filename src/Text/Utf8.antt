-- ===== src/Text/Utf8.antt =====
-- `std::str::from_utf8`: which byte sequences are UTF-8 (RFC 3629), as an automaton.
use oa_gateway.Prelude.{
  ℕ, ◌<◌, ◌≡◌, refl, Bool, true, false, ◌&&◌, ◌||◌, [], ◌∷◌, ◌++◌, arith, leb, ltb, ◌==◌,
  if◌then◌else◌, ap, ◌∙◌,
}
use oa_gateway.Text.{Bytes}

-- Between characters; bytes still to come; the second byte of a longer form, with its range; refused.
pub data Utf8State : Type 0 where
  start : Utf8State
  one_more two_more : Utf8State
  second : (lo hi : ℕ) → Utf8State → Utf8State
  refused : Utf8State

abbrev within : ℕ → ℕ → ℕ → Bool
within lo hi c = leb lo c && leb c hi

unfoldable pub utf8_step : Utf8State → ℕ → Utf8State
utf8_step start c =
    if ltb c 0x80
    then start
    else if within 0xc2 0xdf c
    then one_more
    else if c == 0xe0
    then second 0xa0 0xbf one_more
    else if within 0xe1 0xec c || within 0xee 0xef c
    then two_more
    else if c == 0xed
    then second 0x80 0x9f one_more
    else if c == 0xf0
    then second 0x90 0xbf two_more
    else if within 0xf1 0xf3 c
    then second 0x80 0xbf two_more
    else if c == 0xf4
    then second 0x80 0x8f two_more
    else refused
utf8_step one_more c = if within 0x80 0xbf c then start else refused
utf8_step two_more c = if within 0x80 0xbf c then one_more else refused
utf8_step (second lo hi next) c = if within lo hi c then next else refused
utf8_step refused c = refused

unfoldable pub utf8_run : Utf8State → Bytes → Utf8State
unfolding utf8_step
utf8_run s [] = s
utf8_run s (c ∷ cs) = utf8_run (utf8_step s c) cs

abbrev at_start : Utf8State → Bool
at_start start = true
at_start _ = false

unfoldable pub is_utf8 : Bytes → Bool
unfolding utf8_run
is_utf8 bs = at_start (utf8_run start bs)

pub utf8_run-append :
    (s : Utf8State) (xs ys : Bytes) → utf8_run s (xs ++ ys) ≡ utf8_run (utf8_run s xs) ys
unfolding utf8_run
utf8_run-append s [] ys = refl
utf8_run-append s (c ∷ cs) ys = utf8_run-append (utf8_step s c) cs ys

abbrev pub IsUtf8 : Bytes → Type 0
IsUtf8 bs = utf8_run start bs ≡ start

pub is_utf8_of : (bs : Bytes) → IsUtf8 bs → is_utf8 bs ≡ true
unfolding is_utf8
is_utf8_of bs h = rw h

pub IsUtf8-append : (xs ys : Bytes) → IsUtf8 xs → IsUtf8 ys → IsUtf8 (xs ++ ys)
IsUtf8-append xs ys hx hy = utf8_run-append start xs ys ∙ ap (λ s. utf8_run s ys) hx ∙ hy

pub IsUtf8-cons : (c : ℕ) (xs : Bytes) → c < 0x80 → IsUtf8 xs → IsUtf8 (c ∷ xs)
unfolding utf8_run
IsUtf8-cons c xs h hx = ground arith
