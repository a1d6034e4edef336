-- ===== src/Uci/Values.antt =====
-- `check_value` in crates/oa-gateway-uci/src/validate/rules.rs: the check of a leaf.
use oa_gateway.Prelude.{
  ℕ, Bool, false, not, ◌||◌, Option, none, some, List, [], ◌∷◌, ◌++◌, length, take, ltb, ◌==◌,
  if◌then◌else◌, is_some,
}
use oa_gateway.Text.{Text, codes, text_Eq}
use oa_gateway.Text.Decimal.{print_usize}
use oa_gateway.Map.{contains}
use oa_gateway.Uci.Schema.{Calls, Schema, Pattern, accepts}
use oa_gateway.Uci.Facets.{Effective, is_empty, effective_facets, primitive}
use oa_gateway.Uci.Primitive.{kind}
use oa_gateway.Uci.Lexical.{refuses}
use oa_gateway.Uci.Rules.{Report, note, note_if, value_length}
use oa_gateway.Uci.Violation.{
  not_enumerated, length_of, out_of_range, pattern_mismatch, not_lexical,
}

module _ (c : Calls) where
  unfoldable pub accepts_any : List (Pattern c) → Text → Bool
  unfolding accepts
  accepts_any [] t = false
  accepts_any (p ∷ ps) t = accepts c p t || accepts_any ps t

  abbrev sources : List (Pattern c) → List Text
  sources [] = []
  sources (p ∷ ps) = p.source ∷ sources ps

  unfoldable pub check_enumeration : Option (List Text) → Text → Text → Report → Report
  unfolding note_if contains
  check_enumeration none t path out = out
  check_enumeration (some allowed) t path out =
      note_if (not (contains t allowed)) path (not_enumerated t (take 4 allowed) (length allowed))
        out

  -- A bound, the test that a value breaks it, and what is required.
  unfoldable pub check_length :
      Option ℕ → (ℕ → Bool) → Text → ℕ × Text → Text → Text → Report → Report
  unfolding note_if print_usize
  check_length none breaks required (len, unit) t path out = out
  check_length (some b) breaks required (len, unit) t path out =
      note_if (breaks b) path (length_of t len unit (required ++ print_usize b)) out

  unfoldable pub check_patterns : List (List (Pattern c)) → Text → Text → Report → Report
  unfolding note_if accepts_any
  check_patterns [] t path out = out
  check_patterns (ps ∷ pss) t path out =
      check_patterns pss t path
        (note_if (not (accepts_any ps t)) path (pattern_mismatch t (sources ps)) out)

  unfoldable pub check_bound : Option c.F64 → (c.F64 → Bool) → Text → Text → Text → Report → Report
  unfolding note_if
  check_bound none breaks required t path out = out
  check_bound (some b) breaks required t path out =
      note_if (breaks b) path (out_of_range t (required ++ c.show_f64 b)) out

  unfoldable pub check_range : Effective c → Option c.F64 → Text → Text → Report → Report
  unfolding check_bound
  check_range e none t path out = out
  check_range e (some x) t path out =
      check_bound e.max_exclusive (λ b. c.le_f64 b x) (codes "less than ") t path
        (check_bound e.min_exclusive (λ b. c.le_f64 x b) (codes "greater than ") t path
          (check_bound e.max_inclusive (λ b. c.lt_f64 b x) (codes "at most ") t path
            (check_bound e.min_inclusive (λ b. c.lt_f64 x b) (codes "at least ") t path out)))

  abbrev pub is_bounded : Effective c → Bool
  is_bounded e =
      is_some e.min_inclusive
      || (is_some e.max_inclusive || (is_some e.min_exclusive || is_some e.max_exclusive))

  unfoldable pub check_lengths : Effective c → ℕ × Text → Text → Text → Report → Report
  unfolding check_length
  check_lengths e measured t path out =
      check_length e.max_length (λ b. ltb b measured.0) (codes "at most ") measured t path
        (check_length e.min_length (λ b. ltb measured.0 b) (codes "at least ") measured t path
          (check_length e.length (λ b. not (measured.0 == b)) (codes "exactly ") measured t path
            out))

  unfoldable pub check_facets : Effective c → ℕ × Text → Text → Text → Report → Report
  unfolding is_empty check_enumeration check_lengths check_patterns check_range
  check_facets e measured t path out =
      if is_empty e
      then out
      else (let checked =
            check_patterns e.patterns t path
              (check_lengths e measured t path (check_enumeration e.enumeration t path out)) in
          if is_bounded e then check_range e (c.parse_f64 t) t path checked else checked)

  unfoldable pub check_value : Text → Schema c → Text → Text → Report → Report
  unfolding note primitive kind refuses effective_facets value_length check_facets
  check_value t s type_name path out =
      let xs = primitive s type_name in
      elim (refuses c (kind xs) t) [
        | some expected ↦ note path (not_lexical t xs expected) out
        | none ↦ check_facets (effective_facets s type_name) (value_length t xs) t path out
      ]
