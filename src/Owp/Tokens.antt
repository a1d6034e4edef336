-- ===== src/Owp/Tokens.antt =====
-- Fields of a frame: what `split_first_token` of crates/oa-gateway-owp/src/codec.rs reads.
use oa_gateway.Prelude.{
  ℕ, ◌≡◌, ◌≢◌, refl, true, false, some, [], ◌∷◌, ◌++◌, arith, All, Bool-cases, inl, inr, subst,
}
use oa_gateway.Text.{Text}
use oa_gateway.Owp.Errors.{is_identifier, all_word_bytes}
use oa_gateway.Owp.Codec.{is_delim, skip_delims, break_at_delim, token_of, split_first_token}

-- A field: it is not empty and holds no space and no tab.
abbrev pub HasNoDelim : Text → Type 0
HasNoDelim s = All (λ b. is_delim b ≡ false) s

abbrev pub IsToken : Text → Type 0
IsToken s = (s ≢ []) × HasNoDelim s

-- The rest of a line, without the delimiters before it.
abbrev pub IsTrimmed : Text → Type 0
IsTrimmed [] = Unit
IsTrimmed (b ∷ bs) = is_delim b ≡ false

skip_delims_none : (s : Text) → IsTrimmed s → skip_delims s ≡ s
unfolding skip_delims
skip_delims_none [] h = refl
skip_delims_none (b ∷ bs) h = rw h

skip_delims-IsTrimmed : (s : Text) → IsTrimmed (skip_delims s)
unfolding skip_delims
skip_delims-IsTrimmed [] = tt
skip_delims-IsTrimmed (b ∷ bs) = elim (Bool-cases (is_delim b)) [
  | inl d ↦ rw d (skip_delims-IsTrimmed bs)
  | inr d ↦ rw d d
]

break_at_delim-token :
    (t : Text) (d : ℕ) (r : Text)
    → HasNoDelim t
    → is_delim d ≡ true
    → break_at_delim (t ++ (d ∷ r)) ≡ (t, d ∷ r)
unfolding break_at_delim
break_at_delim-token [] d r h k = rw k
break_at_delim-token (b ∷ bs) d r h k = rw (h.0, break_at_delim-token bs d r h.1 k)

break_at_delim-last : (t : Text) → HasNoDelim t → break_at_delim t ≡ (t, [])
unfolding break_at_delim
break_at_delim-last [] h = refl
break_at_delim-last (b ∷ bs) h = rw (h.0, break_at_delim-last bs h.1)

break_at_delim-HasNoDelim : (s : Text) → HasNoDelim (break_at_delim s).0
unfolding break_at_delim
break_at_delim-HasNoDelim [] = tt
break_at_delim-HasNoDelim (b ∷ bs) = elim (Bool-cases (is_delim b)) [
  | inl d ↦ rw d tt
  | inr d ↦ rw d (d, break_at_delim-HasNoDelim bs)
]

break_at_delim_first : (b : ℕ) (bs : Text) → is_delim b ≡ false → (break_at_delim (b ∷ bs)).0 ≢ []
unfolding break_at_delim
break_at_delim_first b bs h = rw h (ground arith)

-- A field before a delimiter and a trimmed rest.
pub split_token :
    (t : Text) (d : ℕ) (r : Text)
    → IsToken t
    → is_delim d ≡ true
    → IsTrimmed r
    → split_first_token (t ++ (d ∷ r)) ≡ some (t, r)
unfolding split_first_token skip_delims
split_token [] d r h k i = absurd (h.0 refl)
split_token (b ∷ bs) d r h k i =
    rw (h.1.0, break_at_delim-token (b ∷ bs) d r h.1 k, k, skip_delims_none r i)

pub split_last : (t : Text) → IsToken t → split_first_token t ≡ some (t, [])
unfolding split_first_token skip_delims
split_last [] h = absurd (h.0 refl)
split_last (b ∷ bs) h = rw (h.1.0, break_at_delim-last (b ∷ bs) h.1)

token_of-IsToken :
    (s : Text) {t r : Text} → IsTrimmed s → token_of s ≡ some (t, r) → IsToken t × IsTrimmed r
token_of-IsToken [] h e = ground arith
token_of-IsToken (b ∷ bs) {t} {r} h e =
    subst (λ p. IsToken p.0 × IsTrimmed p.1) (some_inj e)
      ((break_at_delim_first b bs h, break_at_delim-HasNoDelim (b ∷ bs)), skip_delims-IsTrimmed _)
  where
    some_inj : {p q : Text × Text} → some p ≡ some q → p ≡ q
    some_inj {p} {q} e = ground arith

-- What is split off is a field, and what is left is trimmed.
pub split_first_token-IsToken :
    (s : Text) {t r : Text} → split_first_token s ≡ some (t, r) → IsToken t × IsTrimmed r
unfolding split_first_token
split_first_token-IsToken s e = token_of-IsToken (skip_delims s) (skip_delims-IsTrimmed s) e

pub IsTrimmed-append : (t r : Text) → IsToken t → IsTrimmed (t ++ r)
IsTrimmed-append [] r h = absurd (h.0 refl)
IsTrimmed-append (b ∷ bs) r h = h.1.0

pub IsToken-IsTrimmed : (t : Text) → IsToken t → IsTrimmed t
IsToken-IsTrimmed [] h = tt
IsToken-IsTrimmed (b ∷ bs) h = h.1.0

all_word_bytes-HasNoDelim : (s : Text) → all_word_bytes s ≡ true → HasNoDelim s
unfolding all_word_bytes
all_word_bytes-HasNoDelim [] h = tt
all_word_bytes-HasNoDelim (b ∷ bs) h = (ground arith, all_word_bytes-HasNoDelim bs (ground arith))

pub is_identifier-IsToken : (s : Text) → is_identifier s ≡ true → IsToken s
unfolding is_identifier
is_identifier-IsToken [] h = ground arith
is_identifier-IsToken (b ∷ bs) h = (ground arith, all_word_bytes-HasNoDelim (b ∷ bs) h)
