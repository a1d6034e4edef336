-- ===== src/Text/Chars.antt =====
-- `str::chars` of the Rust standard library on UTF-8 bytes: a character begins at each byte that
-- continues none.
use oa_gateway.Prelude.{
  ℕ, zero, suc, ◌≡◌, ◌≤◌, refl, ap, Bool, true, false, ◌&&◌, [], ◌∷◌, ◌++◌, leb, if◌then◌else◌,
  arith, Bool-cases, inl, inr,
}
use oa_gateway.Text.{Text}

abbrev pub is_continuation : ℕ → Bool
is_continuation b = leb 0x80 b && leb b 0xbf

-- `chars().count()`
unfoldable pub char_count : Text → ℕ
char_count [] = 0
char_count (b ∷ bs) = let rest = char_count bs in if is_continuation b then rest else suc rest

-- `chars().take(n).collect()`
unfoldable pub take_chars : ℕ → Text → Text
take_chars n [] = []
take_chars zero (b ∷ bs) =
    let rest = take_chars zero bs in if is_continuation b then b ∷ rest else []
take_chars (suc n) (b ∷ bs) = elim (is_continuation b) [
  | true ↦ b ∷ take_chars (suc n) bs
  | false ↦ b ∷ take_chars n bs
]

pub char_count-take_chars-le : (n : ℕ) (s : Text) → char_count (take_chars n s) ≤ n
unfolding char_count take_chars
char_count-take_chars-le n [] = omega arith
char_count-take_chars-le zero (b ∷ bs) = ground (arith, char_count-take_chars-le zero bs)
char_count-take_chars-le (suc n) (b ∷ bs) = elim (Bool-cases (is_continuation b)) [
  | inl inside ↦
      rw (inside, take_chars) (ground (arith, inside, char_count-take_chars-le (suc n) bs))
  | inr start ↦ rw (start, take_chars) (ground (arith, start, char_count-take_chars-le n bs))
]

-- What `take(n)` leaves.
unfoldable pub drop_chars : ℕ → Text → Text
drop_chars n [] = []
drop_chars zero (b ∷ bs) = if is_continuation b then drop_chars zero bs else b ∷ bs
drop_chars (suc n) (b ∷ bs) = elim (is_continuation b) [
  | true ↦ drop_chars (suc n) bs
  | false ↦ drop_chars n bs
]

pub take_chars-drop_chars : (n : ℕ) (s : Text) → s ≡ take_chars n s ++ drop_chars n s
unfolding take_chars drop_chars
take_chars-drop_chars n [] = refl
take_chars-drop_chars zero (b ∷ bs) = elim (Bool-cases (is_continuation b)) [
  | inl inside ↦ rw inside (ap (λ t. b ∷ t) (take_chars-drop_chars zero bs))
  | inr start ↦ rw start refl
]
take_chars-drop_chars (suc n) (b ∷ bs) = elim (Bool-cases (is_continuation b)) [
  | inl inside ↦
      rw (inside, take_chars, drop_chars) (ap (λ t. b ∷ t) (take_chars-drop_chars (suc n) bs))
  | inr start ↦ rw (start, take_chars, drop_chars) (ap (λ t. b ∷ t) (take_chars-drop_chars n bs))
]

pub char_count-take_chars : (n : ℕ) (s : Text) → n ≤ char_count s → char_count (take_chars n s) ≡ n
unfolding char_count take_chars
char_count-take_chars zero s h = omega (arith, char_count-take_chars-le zero s)
char_count-take_chars (suc n) [] h = omega (arith, h)
char_count-take_chars (suc n) (b ∷ bs) h = elim (Bool-cases (is_continuation b)) [
  | inl inside ↦
      rw (inside, take_chars) (ground (arith, inside, h, char_count-take_chars (suc n) bs))
  | inr start ↦ rw (start, take_chars) (ground (arith, start, h, char_count-take_chars n bs))
]
