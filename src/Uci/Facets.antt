-- ===== src/Uci/Facets.antt =====
-- Restriction chains in crates/oa-gateway-uci/src/schema.rs: `primitive` and `effective_facets`.
use oa_gateway.Prelude.{
  ℕ, zero, suc, Bool, true, false, not, ◌&&◌, ◌||◌, Option, none, some, List, [], ◌∷◌, ◌++◌, ltb,
  if◌then◌else◌, is_some,
}
use oa_gateway.Text.{Text, codes, text_Eq}
use oa_gateway.Map.{get, contains_key}
use oa_gateway.Stomp.Dest.{strip_prefix}
use oa_gateway.Uci.Schema.{Calls, Schema, Facets, Pattern}

-- `MAX_SIMPLE_DEPTH`
abbrev pub max_simple_depth : ℕ
max_simple_depth = 16

-- `str::starts_with`
abbrev pub is_xs : Text → Bool
unfolding strip_prefix
is_xs t = is_some (strip_prefix (codes "xs:") t)

-- `stricter`: which of two bounds is kept when both are there.
unfoldable pub stricter {ℓ} : {A : Type ℓ} → (A → A → A) → Option A → Option A → Option A
stricter keep none b = b
stricter keep (some a) none = some a
stricter keep (some a) (some b) = some (keep a b)

abbrev pub larger : ℕ → ℕ → ℕ
larger a b = if ltb b a then a else b

abbrev pub smaller : ℕ → ℕ → ℕ
smaller a b = if ltb a b then a else b

abbrev first_of {ℓ} : {A : Type ℓ} → Option A → Option A → Option A
first_of none b = b
first_of (some a) b = some a

pub record Effective (c : Calls) : Type 0 where
  pub enumeration : Option (List Text)
  pub patterns : List (List (Pattern c))
  pub length : Option ℕ
  pub min_length : Option ℕ
  pub max_length : Option ℕ
  pub min_inclusive : Option c.F64
  pub max_inclusive : Option c.F64
  pub min_exclusive : Option c.F64
  pub max_exclusive : Option c.F64

-- The enumeration of one link counts unless it is empty.
abbrev enumerated : List Text → Option (List Text)
enumerated [] = none
enumerated (v ∷ vs) = some (v ∷ vs)

-- `Vec::is_empty`
abbrev pub is_nil {ℓ} : {A : Type ℓ} → List A → Bool
is_nil [] = true
is_nil (x ∷ xs) = false

module _ {c : Calls} where
  abbrev pub default_effective : Effective c
  default_effective = record {
    enumeration = none;
    patterns = [];
    length = none;
    min_length = none;
    max_length = none;
    min_inclusive = none;
    max_inclusive = none;
    min_exclusive = none;
    max_exclusive = none;
  }

  abbrev pub with_patterns : List (Pattern c) → List (List (Pattern c)) → List (List (Pattern c))
  with_patterns [] groups = groups
  with_patterns (p ∷ ps) groups = groups ++ ((p ∷ ps) ∷ [])

  -- `Effective::is_empty`
  unfoldable pub is_empty : Effective c → Bool
  is_empty e =
      not (is_some e.enumeration)
      && (is_nil e.patterns
          && (not (is_some e.length)
              && (not (is_some e.min_length)
                  && (not (is_some e.max_length)
                      && (not (is_some e.min_inclusive)
                          && (not (is_some e.max_inclusive)
                              && (not (is_some e.min_exclusive)
                                  && not (is_some e.max_exclusive))))))))

  -- One round of the loop of `effective_facets`.
  unfoldable pub narrowed : Effective c → Facets c → Effective c
  unfolding stricter
  narrowed out facets = record {
    enumeration = first_of out.enumeration (enumerated facets.enumeration);
    patterns = with_patterns facets.patterns out.patterns;
    length = first_of out.length facets.length;
    min_length = stricter larger out.min_length facets.min_length;
    max_length = stricter smaller out.max_length facets.max_length;
    min_inclusive = stricter c.max_f64 out.min_inclusive facets.min_inclusive;
    max_inclusive = stricter c.min_f64 out.max_inclusive facets.max_inclusive;
    min_exclusive = stricter c.max_f64 out.min_exclusive facets.min_exclusive;
    max_exclusive = stricter c.min_f64 out.max_exclusive facets.max_exclusive;
  }

  -- The rounds that are left.
  unfoldable pub effective_from : ℕ → Schema c → Text → Effective c → Effective c
  unfolding get narrowed
  effective_from zero s current out = out
  effective_from (suc n) s current out = elim (get current s.simple_types) [
    | none ↦ out
    | some simple ↦ effective_from n s simple.base (narrowed out simple.facets)
  ]

  unfoldable pub effective_facets : Schema c → Text → Effective c
  unfolding effective_from
  effective_facets s t = effective_from max_simple_depth s t default_effective

  unfoldable pub primitive_from : ℕ → Schema c → Text → Text
  unfolding get strip_prefix
  primitive_from zero s current = current
  primitive_from (suc n) s current = elim (is_xs current) [
    | true ↦ current
    | false ↦ elim (get current s.simple_types) [
      | none ↦ current
      | some simple ↦ primitive_from n s simple.base
    ]
  ]

  -- `Schema::primitive`
  unfoldable pub primitive : Schema c → Text → Text
  unfolding primitive_from
  primitive s t = primitive_from max_simple_depth s t

  unfoldable pub is_complex : Schema c → Text → Bool
  unfolding contains_key
  is_complex s t = contains_key t s.complex_types

  unfoldable pub is_simple : Schema c → Text → Bool
  unfolding contains_key strip_prefix
  is_simple s t = is_xs t || contains_key t s.simple_types
