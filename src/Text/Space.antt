-- ===== src/Text/Space.antt =====
-- `str::trim_start`, `trim_end` and `trim` of the Rust standard library on UTF-8 bytes: white space is
-- Unicode's `White_Space`, of one, two or three bytes.
use oa_gateway.Prelude.{ℕ, Bool, true, false, ◌&&◌, ◌||◌, [], ◌∷◌, leb, ◌==◌, if◌then◌else◌}
use oa_gateway.Text.{Text}

abbrev pub is_space : ℕ → Bool
is_space a = (leb 9 a && leb a 13) || a == 32

abbrev is_space2 : ℕ → ℕ → Bool
is_space2 a b = a == 0xc2 && (b == 0x85 || b == 0xa0)

abbrev is_space3 : ℕ → ℕ → ℕ → Bool
is_space3 a b c =
    (a == 0xe1 && b == 0x9a && c == 0x80)
    || (a == 0xe2
        && b == 0x80
        && ((leb 0x80 c && leb c 0x8a) || c == 0xa8 || c == 0xa9 || c == 0xaf))
    || (a == 0xe2 && b == 0x81 && c == 0x9f)
    || (a == 0xe3 && b == 0x80 && c == 0x80)

unfoldable pub trim_start : Text → Text
trim_start [] = []
trim_start (a ∷ []) = if is_space a then [] else a ∷ []
trim_start (a ∷ b ∷ []) = elim (is_space a) [
  | true ↦ trim_start (b ∷ [])
  | false ↦ if is_space2 a b then [] else a ∷ b ∷ []
]
trim_start (a ∷ b ∷ c ∷ r) = elim (is_space a) [
  | true ↦ trim_start (b ∷ c ∷ r)
  | false ↦ elim (is_space2 a b) [
    | true ↦ trim_start (c ∷ r)
    | false ↦ elim (is_space3 a b c) [ true ↦ trim_start r | false ↦ a ∷ b ∷ c ∷ r ]
  ]
]

abbrev keep_unless : Text → Text → Text
keep_unless [] t = []
keep_unless (c ∷ cs) t = t

-- The text is cut where only white space follows.
unfoldable pub trim_end : Text → Text
unfolding trim_start
trim_end [] = []
trim_end (a ∷ r) = keep_unless (trim_start (a ∷ r)) (a ∷ trim_end r)

unfoldable pub trim : Text → Text
unfolding trim_start trim_end
trim s = trim_end (trim_start s)

-- `str::starts_with` for one byte.
abbrev pub begins_with : ℕ → Text → Bool
begins_with c [] = false
begins_with c (a ∷ r) = a == c
