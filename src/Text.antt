-- ===== src/Text.antt =====
-- A Rust `String` or `str` as its bytes. Every text operation of the gateway that is modelled
-- looks at ASCII bytes only, so it acts on the UTF-8 bytes one by one.
pub mod Decimal
pub mod Utf8
pub mod Space
pub mod Chars
pub mod Integer
use Prim.Native.Char.{code}
use oa_gateway.Prelude.{
  ℕ, String, ◌≡◌, refl, ◌↔◌, Bool, true, false, ◌&&◌, ◌||◌, ltb, List, [], ◌∷◌, arith, ◌==◌,
}
use oa_gateway.Prelude.Eq.{Eq}

abbrev pub Bytes : Type 0
Bytes = List ℕ

abbrev pub Text : Type 0
Text = Bytes

-- The bytes of an ASCII literal.
abbrev pub codes : String → Text
codes String.[] = []
codes (String.◌∷◌ c s) = code c ∷ codes s

unfoldable pub text_eq : Text → Text → Bool
text_eq [] [] = true
text_eq (a ∷ xs) (b ∷ ys) = a == b && text_eq xs ys
text_eq _ _ = false

-- The order of `String`.
abbrev pub text_lt : Text → Text → Bool
text_lt [] [] = false
text_lt [] (b ∷ bs) = true
text_lt (a ∷ as') [] = false
text_lt (a ∷ as') (b ∷ bs) = ltb a b || (a == b && text_lt as' bs)

text_eq_sound : (a b : Text) → text_eq a b ≡ true → a ≡ b
unfolding text_eq
text_eq_sound [] [] h = refl
text_eq_sound (a ∷ xs) (b ∷ ys) h = ground (arith, text_eq_sound xs ys)
text_eq_sound _ _ h = ground arith

text_eq_refl : (a : Text) → text_eq a a ≡ true
unfolding text_eq
text_eq_refl [] = refl
text_eq_refl (a ∷ xs) = ground (arith, text_eq_refl xs)

pub text_eq_iff : (a b : Text) → (text_eq a b ≡ true) ↔ (a ≡ b)
text_eq_iff a b = (text_eq_sound a b, λ e. rw e (text_eq_refl b))

instance abbrev pub text_Eq : Eq Text
text_Eq = record { beq = text_eq; beq_iff = text_eq_iff }
