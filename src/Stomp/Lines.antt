-- ===== src/Stomp/Lines.antt =====
-- Lines and the blank line that ends a header block, in crates/oa-gateway-stomp/src/codec.rs.
use oa_gateway.Prelude.{
  ℕ, ◌+◌, ◌≡◌, ◌≢◌, ◌⊎◌, inl, inr, refl, ap, ◌∙◌, false, some, List, [], ◌∷◌, ◌++◌, arith, All,
  length, length-append, append_assoc,
}
use oa_gateway.Text.{Text, Bytes}
use oa_gateway.Stomp.Decode.{find_header_end_from, split, trim_end, lines_of, is_crlf_crlf}

-- A line that a header block can hold.
abbrev pub HasNoBreak : Text → Type 0
HasNoBreak s = All (λ c. (c ≢ b'\n') × (c ≢ b'\r')) s

abbrev pub IsLine : Text → Type 0
IsLine s = (s ≢ []) × HasNoBreak s

-- Each line with its line feed.
abbrev pub unlines : List Text → Text
unlines [] = []
unlines (l ∷ ls) = l ++ (b'\n' ∷ unlines ls)

not_crlf_crlf : (a : ℕ) (xs : Bytes) → a ≢ b'\r' → is_crlf_crlf (a ∷ xs) ≡ false
not_crlf_crlf a [] h = refl
not_crlf_crlf a (b ∷ []) h = refl
not_crlf_crlf a (b ∷ c ∷ []) h = refl
not_crlf_crlf a (b ∷ c ∷ d ∷ xs) h = ground arith

-- One round of the search, at a byte that begins no blank line.
search_on :
    (i a b : ℕ) (rest : Bytes)
    → a ≢ b'\r'
    → (a ≢ b'\n') ⊎ (b ≢ b'\n')
    → find_header_end_from i (a ∷ b ∷ rest) ≡ find_header_end_from (i + 1) (b ∷ rest)
unfolding find_header_end_from
search_on i a b rest h k = rw (not_crlf_crlf a (b ∷ rest) h) (ground arith)

search_ends : (i : ℕ) (rest : Bytes) → find_header_end_from i (b'\n' ∷ b'\n' ∷ rest) ≡ some (i + 2)
unfolding find_header_end_from
search_ends i rest = refl

-- Past a line the search stands at its line feed.
skip_line :
    (i : ℕ) (cs : Text) (d : ℕ) (more : Bytes)
    → HasNoBreak cs
    → find_header_end_from i (cs ++ (b'\n' ∷ d ∷ more))
      ≡ find_header_end_from (i + length cs) (b'\n' ∷ d ∷ more)
skip_line i [] d more h = ap (λ j. find_header_end_from j (b'\n' ∷ d ∷ more)) (omega arith)
skip_line i (c ∷ []) d more h = search_on i c b'\n' (d ∷ more) h.0.1 (inl h.0.0)
skip_line i (c ∷ x ∷ cs) d more h =
    search_on i c x (cs ++ (b'\n' ∷ d ∷ more)) h.0.1 (inl h.0.0)
    ∙ skip_line (i + 1) (x ∷ cs) d more h.1
    ∙ ap (λ j. find_header_end_from j (b'\n' ∷ d ∷ more)) (omega arith)

-- The search ends behind the blank line that follows the lines.
pub find_header_end_from-unlines :
    (i : ℕ) (l : Text) (ls : List Text) (more : Bytes)
    → IsLine l
    → All IsLine ls
    → find_header_end_from i (unlines (l ∷ ls) ++ (b'\n' ∷ more))
      ≡ some (i + length (unlines (l ∷ ls)) + 1)
find_header_end_from-unlines i l [] more h hs = rw (append_assoc l (b'\n' ∷ []) (b'\n' ∷ more)) (
    skip_line i l b'\n' more h.1
    ∙ search_ends (i + length l) more
    ∙ ap some (omega (arith, length-append l (b'\n' ∷ []))))
find_header_end_from-unlines i l ([] ∷ ls) more h hs = absurd (hs.0.0 refl)
find_header_end_from-unlines i l ((c ∷ cs) ∷ ls) more h hs =
    rw (append_assoc l (b'\n' ∷ unlines ((c ∷ cs) ∷ ls)) (b'\n' ∷ more)) (
      skip_line i l c _ h.1
      ∙ search_on (i + length l) b'\n' c _ (omega arith) (inr hs.0.1.0.0)
      ∙ find_header_end_from-unlines (i + length l + 1) (c ∷ cs) ls more hs.0 hs.1
      ∙ ap some (omega (arith, length-append l (b'\n' ∷ unlines ((c ∷ cs) ∷ ls)))))

split-line :
    (l : Text) (more : Text)
    → HasNoBreak l
    → split b'\n' (l ++ (b'\n' ∷ more)) ≡ l ∷ split b'\n' more
unfolding split
split-line [] more h = refl
split-line (c ∷ cs) more h = ground (arith, split-line cs more h.1)

trim_end-HasNoBreak : (l : Text) → HasNoBreak l → trim_end b'\r' l ≡ l
unfolding trim_end
trim_end-HasNoBreak [] h = refl
trim_end-HasNoBreak (c ∷ []) h = ground arith
trim_end-HasNoBreak (c ∷ x ∷ cs) h = rw (trim_end-HasNoBreak (x ∷ cs) h.1)

-- The lines of a header block, the blank line and what follows it included.
pub lines_of-unlines :
    (ls : List Text) → All IsLine ls → lines_of (unlines ls ++ (b'\n' ∷ [])) ≡ ls ++ ([] ∷ [] ∷ [])
unfolding split trim_end
lines_of-unlines [] h = refl
lines_of-unlines (l ∷ ls) h =
    rw
      (
        append_assoc l (b'\n' ∷ unlines ls) (b'\n' ∷ []),
        split-line l (unlines ls ++ (b'\n' ∷ [])) h.0.1,
        trim_end-HasNoBreak l h.0.1,
      )
      (ap (λ t. l ∷ t) (lines_of-unlines ls h.1))
