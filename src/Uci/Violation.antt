-- ===== src/Uci/Violation.antt =====
-- crates/oa-gateway-uci/src/validate/violation.rs.
use oa_gateway.Prelude.{
  ℕ, ◌-◌, ◌≡◌, ◌≤◌, ◌<◌, ◌⊎◌, refl, List, [], ◌∷◌, ◌++◌, map, length, take, ltb, leb, if◌then◌else◌,
  arith, Bool-cases, inl, inr,
}
use oa_gateway.Text.{Text, codes}
use oa_gateway.Text.Decimal.{print_usize}
use oa_gateway.Text.Chars.{
  char_count, take_chars, drop_chars, take_chars-drop_chars, char_count-take_chars,
}
use oa_gateway.Uci.Errors.{max_depth}
use oa_gateway.Uci.Extension.{join}

-- `MAX_VIOLATIONS`
abbrev pub max_violations : ℕ
max_violations = 32

pub data ViolationKind : Type 0 where
  undeclared missing : (element : Text) → ViolationKind
  too_few : (element : Text) (min found : ℕ) → ViolationKind
  too_many : (element : Text) (max found : ℕ) → ViolationKind
  no_alternative many_alternatives : List Text → ViolationKind
  abstract_type : (type_name : Text) → ViolationKind
  unusable_type : (type_name reason : Text) → ViolationKind
  too_deep : ViolationKind
  not_enumerated : (value : Text) (allowed : List Text) (total : ℕ) → ViolationKind
  length_of : (value : Text) (len : ℕ) (unit requirement : Text) → ViolationKind
  out_of_range : (value requirement : Text) → ViolationKind
  pattern_mismatch : (value : Text) (patterns : List Text) → ViolationKind
  not_lexical : (value primitive expected : Text) → ViolationKind

pub record Violation : Type 0 where
  pub path : Text
  pub kind : ViolationKind

abbrev pub ellipsis : Text
ellipsis = 0xe2 ∷ 0x80 ∷ 0xa6 ∷ []

unfoldable pub abbreviated : Text → Text
unfolding char_count take_chars
abbreviated text = if leb (char_count text) 60 then text else take_chars 60 text ++ ellipsis

abbrev in_quotes : Text → Text
in_quotes n = b'\'' ∷ (n ++ (b'\'' ∷ []))

unfoldable pub quoted : List Text → Text
unfolding join
quoted names = join (codes ", ") (map in_quotes names)

-- `Display for ViolationKind`
abbrev several : Text → List Text → Text
unfolding abbreviated print_usize
several value (only ∷ []) =
    in_quotes (abbreviated value)
    ++ (codes " does not match the pattern " ++ in_quotes (abbreviated only))
several value many =
    in_quotes (abbreviated value)
    ++ (codes " does not match any of the "
        ++ (print_usize (length many) ++ codes " patterns this type allows"))

unfoldable pub kind_text : ViolationKind → Text
unfolding abbreviated quoted print_usize several
kind_text (undeclared element) = in_quotes element ++ codes " is not declared by this type"
kind_text (missing element) = in_quotes element ++ codes " is required and absent"
kind_text (too_few element min found) =
    in_quotes element
    ++ (codes " appears "
        ++ (print_usize found ++ (codes " times, minOccurs is " ++ print_usize min)))
kind_text (too_many element max found) =
    in_quotes element
    ++ (codes " appears "
        ++ (print_usize found ++ (codes " times, maxOccurs is " ++ print_usize max)))
kind_text (no_alternative alternatives) =
    codes "none of " ++ (quoted alternatives ++ codes " is present, and one of them must be")
kind_text (many_alternatives taken) =
    quoted taken ++ codes " are all present, and they are alternatives"
kind_text (abstract_type type_name) =
    in_quotes type_name ++ codes " is abstract, so a concrete type has to be named"
kind_text (unusable_type type_name reason) =
    codes "declared type " ++ (in_quotes type_name ++ (codes " cannot be used: " ++ reason))
kind_text too_deep = codes "nests deeper than " ++ (print_usize max_depth ++ codes " elements")
kind_text (not_enumerated value allowed total) =
    in_quotes (abbreviated value)
    ++ (codes " is not one of the "
        ++ (print_usize total
            ++ (codes " values this type allows: "
                ++ (quoted allowed
                    ++ (if ltb (length allowed) total then codes ", " ++ ellipsis else [])))))
kind_text (length_of value len unit requirement) =
    in_quotes (abbreviated value)
    ++ (codes " is "
        ++ (print_usize len ++ (codes " " ++ (unit ++ (codes ", and has to be " ++ requirement)))))
kind_text (out_of_range value requirement) =
    abbreviated value ++ (codes " is out of range: it has to be " ++ requirement)
kind_text (pattern_mismatch value patterns) = several value patterns
kind_text (not_lexical value primitive expected) =
    in_quotes (abbreviated value)
    ++ (codes " is not a valid " ++ (primitive ++ (codes ": expected " ++ expected)))

-- `Display for Violation`
unfoldable pub violation_text : Violation → Text
unfolding kind_text
violation_text v = v.path ++ (codes ": " ++ kind_text v.kind)

unfoldable pub summarize : List Violation → Text
unfolding join violation_text print_usize
summarize violations =
    let shown = join (codes "; ") (map violation_text (take 3 violations)) in
    if ltb 3 (length violations)
    then shown ++ (codes " (and " ++ (print_usize (length violations - 3) ++ codes " more)"))
    else shown

-- A text of at most 60 characters itself, or the first 60 characters of a longer one and the ellipsis.
abbrev pub IsAbbreviation : Text → Text → Type 0
IsAbbreviation text short =
    ((char_count text ≤ 60) × (short ≡ text))
    ⊎ ((60 < char_count text)
        × ((cut : Text) × (rest : Text) × (text ≡ cut ++ rest)
            × (char_count cut ≡ 60)
            × (short ≡ cut ++ ellipsis)))

-- The text of a value in a violation is the value if it has at most 60 characters, and otherwise its
-- first 60 characters and an ellipsis.
pub abbreviated-IsAbbreviation : (text : Text) → IsAbbreviation text (abbreviated text)
unfolding abbreviated
abbreviated-IsAbbreviation text = elim (Bool-cases (leb (char_count text) 60)) [
  | inl short ↦ rw short (inl (ground (arith, short), refl))
  | inr long ↦
      let above : 60 < char_count text = ground (arith, long) in
      rw long (
        inr (
          above,
          (
            take_chars 60 text,
            drop_chars 60 text,
            take_chars-drop_chars 60 text,
            char_count-take_chars 60 text (omega (arith, above)),
            refl,
          ),
        ))
]
