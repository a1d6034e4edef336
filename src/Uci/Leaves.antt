-- ===== src/Uci/Leaves.antt =====
-- `check_value` of crates/oa-gateway-uci/src/validate/rules.rs against what it asks for.
use oa_gateway.Prelude.{
  ℕ, ◌≡◌, ◌↔◌, refl, Bool, true, false, not, ◌&&◌, ◌||◌, Option, none, some, List, [], ◌∷◌, All,
  ltb, ◌==◌, arith, Bool-cases, Option-cases, inl, inr, is_some,
}
use oa_gateway.Text.{Text, text_Eq}
use oa_gateway.Map.{contains}
use oa_gateway.Uci.Schema.{Calls, Schema, Pattern}
use oa_gateway.Uci.Facets.{Effective, is_empty, is_nil, effective_facets, primitive}
use oa_gateway.Uci.Narrowing.{IsAtLeast, IsAtMost}
use oa_gateway.Uci.Primitive.{kind}
use oa_gateway.Uci.Lexical.{refuses}
use oa_gateway.Uci.Rules.{value_length}
use oa_gateway.Uci.Values.{
  accepts_any, check_enumeration, check_length, check_lengths, check_patterns, check_bound,
  check_range, check_facets, check_value, is_bounded,
}
use oa_gateway.Uci.Reports.{
  Reports, Reports-skip, Reports-then, Reports-iff, Reports-note, Reports-note_if,
}
use oa_gateway.Uci.Valid.{IsEnumerated, IsExactly, IsKept, IsInRange, HasFacets, IsValue}

module _ (c : Calls) where
  check_enumeration-Reports :
      (allowed : Option (List Text)) (t path : Text)
      → Reports (check_enumeration c allowed t path) (IsEnumerated allowed t)
  unfolding check_enumeration
  check_enumeration-Reports none t path = Reports-skip
  check_enumeration-Reports (some allowed) t path =
      Reports-iff (ground arith) (Reports-note_if (not (contains t allowed)) path _)

  Unbroken : Option ℕ → (ℕ → Bool) → Type 0
  Unbroken none breaks = Unit
  Unbroken (some b) breaks = breaks b ≡ false

  check_length-Reports :
      (bound : Option ℕ) (breaks : ℕ → Bool) (required : Text) (measured : ℕ × Text) (t path : Text)
      → Reports (check_length c bound breaks required measured t path) (Unbroken bound breaks)
  unfolding check_length Unbroken
  check_length-Reports none breaks required measured t path = Reports-skip
  check_length-Reports (some b) breaks required measured t path = Reports-note_if (breaks b) path _

  check_patterns-Reports :
      (pss : List (List (Pattern c))) (t path : Text)
      → Reports (check_patterns c pss t path) (All (λ ps. accepts_any c ps t ≡ true) pss)
  unfolding check_patterns
  check_patterns-Reports [] t path = Reports-skip
  check_patterns-Reports (ps ∷ pss) t path =
      Reports-then (Reports-iff (ground arith) (Reports-note_if (not (accepts_any c ps t)) path _))
        (check_patterns-Reports pss t path)

  check_bound-Reports :
      (bound : Option c.F64) (breaks : c.F64 → Bool) (required t path : Text)
      → Reports (check_bound c bound breaks required t path) (IsKept c bound breaks)
  unfolding check_bound
  check_bound-Reports none breaks required t path = Reports-skip
  check_bound-Reports (some b) breaks required t path = Reports-note_if (breaks b) path _

  check_range-Reports :
      (e : Effective c) (x : Option c.F64) (t path : Text)
      → Reports (check_range c e x t path) (IsInRange c e x)
  unfolding check_range
  check_range-Reports e none t path = Reports-skip
  check_range-Reports e (some x) t path =
      Reports-iff (λ h. (h.0.0.0, (h.0.0.1, (h.0.1, h.1))), λ h. (((h.0, h.1.0), h.1.1.0), h.1.1.1))
        (Reports-then
          (Reports-then
            (Reports-then (check_bound-Reports e.min_inclusive _ _ t path)
              (check_bound-Reports e.max_inclusive _ _ t path))
            (check_bound-Reports e.min_exclusive _ _ t path))
          (check_bound-Reports e.max_exclusive _ _ t path))

  IsExactly-iff : (o : Option ℕ) (n : ℕ) → Unbroken o (λ b. not (n == b)) ↔ IsExactly o n
  unfolding Unbroken
  IsExactly-iff none n = (λ h. h, λ h. h)
  IsExactly-iff (some b) n = ground arith

  least_iff : (o : Option ℕ) (n : ℕ) → Unbroken o (λ b. ltb n b) ↔ IsAtLeast o n
  unfolding Unbroken
  least_iff none n = (λ h. h, λ h. h)
  least_iff (some b) n = ground arith

  most_iff : (o : Option ℕ) (n : ℕ) → Unbroken o (λ b. ltb b n) ↔ IsAtMost o n
  unfolding Unbroken
  most_iff none n = (λ h. h, λ h. h)
  most_iff (some b) n = ground arith

  check_lengths-Reports :
      (e : Effective c) (measured : ℕ × Text) (t path : Text)
      → Reports (check_lengths c e measured t path) (
          (IsExactly e.length measured.0 × IsAtLeast e.min_length measured.0)
          × IsAtMost e.max_length measured.0)
  unfolding check_lengths
  check_lengths-Reports e measured t path =
      Reports-then
        (Reports-then
          (Reports-iff (IsExactly-iff e.length measured.0)
            (check_length-Reports e.length _ _ measured t path))
          (Reports-iff (least_iff e.min_length measured.0)
            (check_length-Reports e.min_length _ _ measured t path)))
        (Reports-iff (most_iff e.max_length measured.0)
          (check_length-Reports e.max_length _ _ measured t path))

is_none : {A : Type 0} (o : Option A) → not (is_some o) ≡ true → o ≡ none
is_none none h = refl
is_none (some a) h = ground arith

and_true : (a b : Bool) → (a && b) ≡ true → (a ≡ true) × (b ≡ true)
and_true true b h = (refl, h)
and_true false b h = ground arith

not_some : {A : Type 0} (o : Option A) → is_some o ≡ false → o ≡ none
not_some none h = refl
not_some (some a) h = ground arith

or_false : (a b : Bool) → (a || b) ≡ false → (a ≡ false) × (b ≡ false)
or_false true b h = ground arith
or_false false b h = (refl, h)

module _ (c : Calls) where
  IsInRange-unbounded :
      (e : Effective c) (x : Option c.F64) → is_bounded c e ≡ false → IsInRange c e x
  IsInRange-unbounded e none h = tt
  IsInRange-unbounded e (some x) h =
      let (a, r) = or_false _ _ h in
      let (b, r) = or_false _ _ r in
      let (d, f) = or_false _ _ r in
      rw
        (
          not_some e.min_inclusive a,
          not_some e.max_inclusive b,
          not_some e.min_exclusive d,
          not_some e.max_exclusive f,
        )
        (tt, (tt, (tt, tt)))

  nil_patterns :
      (pss : List (List (Pattern c))) (t : Text)
      → is_nil pss ≡ true
      → All (λ ps. accepts_any c ps t ≡ true) pss
  nil_patterns [] t h = tt
  nil_patterns (ps ∷ pss) t h = ground arith

  none_bounded :
      (a b d f : Bool)
      → (not a && (not b && (not d && not f))) ≡ true
      → (a || (b || (d || f))) ≡ false
  none_bounded a b d f h = ground arith

  HasFacets-empty : (e : Effective c) (len : ℕ) (t : Text) → is_empty e ≡ true → HasFacets c e len t
  unfolding is_empty
  HasFacets-empty e len t h =
      let (enumeration, r) = and_true _ _ h in
      let (patterns, r) = and_true _ _ r in
      let (exact, r) = and_true _ _ r in
      let (least, r) = and_true _ _ r in
      let (most, bounds) = and_true _ _ r in
      record {
        enumerated = rw (is_none e.enumeration enumeration) tt;
        exact = rw (is_none e.length exact) tt;
        least = rw (is_none e.min_length least) tt;
        most = rw (is_none e.max_length most) tt;
        patterned = nil_patterns e.patterns t patterns;
        ranged = IsInRange-unbounded e (c.parse_f64 t) (
            none_bounded (is_some e.min_inclusive) (is_some e.max_inclusive)
              (is_some e.min_exclusive) (is_some e.max_exclusive) bounds);
      }

  -- The checks before the bounds.
  IsUnranged : Effective c → ℕ → Text → Type 0
  IsUnranged e n t =
      (IsEnumerated e.enumeration t
        × ((IsExactly e.length n × IsAtLeast e.min_length n) × IsAtMost e.max_length n))
      × All (λ ps. accepts_any c ps t ≡ true) e.patterns

  IsUnranged-Reports :
      (e : Effective c) (measured : ℕ × Text) (t path : Text)
      → Reports
          (λ out.
            check_patterns c e.patterns t path
              (check_lengths c e measured t path (check_enumeration c e.enumeration t path out)))
          (IsUnranged e measured.0 t)
  unfolding IsUnranged
  IsUnranged-Reports e measured t path =
      Reports-then
        (Reports-then (check_enumeration-Reports c e.enumeration t path)
          (check_lengths-Reports c e measured t path))
        (check_patterns-Reports c e.patterns t path)

  HasFacets-iff :
      (e : Effective c) (n : ℕ) (t : Text)
      → (IsUnranged e n t × IsInRange c e (c.parse_f64 t)) ↔ HasFacets c e n t
  unfolding IsUnranged
  HasFacets-iff e n t = (
    λ h. record {
      enumerated = h.0.0.0;
      exact = h.0.0.1.0.0;
      least = h.0.0.1.0.1;
      most = h.0.0.1.1;
      patterned = h.0.1;
      ranged = h.1;
    },
    λ v. (((v.enumerated, ((v.exact, v.least), v.most)), v.patterned), v.ranged),
  )

  check_facets-Reports :
      (e : Effective c) (measured : ℕ × Text) (t path : Text)
      → Reports (check_facets c e measured t path) (HasFacets c e measured.0 t)
  unfolding check_facets
  check_facets-Reports e measured t path = elim (Bool-cases (is_empty e)) [
    | inl empty ↦
        rw (empty, check_facets)
          (Reports-iff (λ _. HasFacets-empty e measured.0 t empty, λ _. tt) Reports-skip)
    | inr filled ↦ elim (Bool-cases (is_bounded c e)) [
      | inl bounded ↦
          rw (filled, bounded, check_facets)
            (Reports-iff (HasFacets-iff e measured.0 t) (
              Reports-then (IsUnranged-Reports e measured t path)
                (check_range-Reports c e (c.parse_f64 t) t path)))
      | inr free ↦
          rw (filled, free, check_facets)
            (Reports-iff
              (
                λ h.
                    (HasFacets-iff e measured.0 t).0
                      (h, IsInRange-unbounded e (c.parse_f64 t) free),
                λ v. ((HasFacets-iff e measured.0 t).1 v).0,
              )
              (IsUnranged-Reports e measured t path))
    ]
  ]

  pub check_value-Reports :
      (t : Text) (s : Schema c) (type_name path : Text)
      → Reports (check_value c t s type_name path) (IsValue c s type_name t)
  unfolding check_value
  check_value-Reports t s type_name path =
      let xs = primitive s type_name in
      elim (Option-cases (refuses c (kind xs) t)) [
        | inl lexical ↦
            rw (lexical, check_value)
              (Reports-iff (λ h. (refl, h), λ h. h.1)
                (check_facets-Reports (effective_facets s type_name) (value_length t xs) t path))
        | inr (expected, refused) ↦
            rw (refused, check_value)
              (Reports-iff (λ h. elim h [ ], λ h. ground (arith, h.0)) (Reports-note path _))
      ]
