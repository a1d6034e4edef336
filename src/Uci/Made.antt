-- ===== src/Uci/Made.antt =====
-- What `groups` and `flatten` of crates/oa-gateway-uci/src/schema.rs give, against what a type is made of.
use oa_gateway.Prelude.{
  ℕ, zero, suc, ◌≡◌, ◌≢◌, ◌<◌, ◌↔◌, ◌∙◌, sym, ap, refl, subst, true, false, Option, none, some,
  List, [], ◌∷◌, ◌++◌, length, arith, Bool-cases, Option-cases, inl, inr,
}
use oa_gateway.Text.{Text, text_eq, text_eq_iff, text_Eq}
use oa_gateway.Map.{contains}
use oa_gateway.Uci.Errors.{UciError, Result, ok, err}
use oa_gateway.Uci.Schema.{Calls, Schema, ComplexContent, groups, extension, Group}
use oa_gateway.Uci.Extension.{
  content_of, groups_chain, groups_of, groups_at, IsMadeOf, onto_some, cyclic,
}
use oa_gateway.Uci.Acyclic.{groups_chain_seen, groups_chain_new, groups_at-ends}

module _ {c : Calls} (s : Schema c) where
  -- A type is made of what it is, in as many steps, in one way only.
  IsMadeOf-depth :
      (n m : ℕ) (t : Text) (gs hs : List Group) → IsMadeOf s n t gs → IsMadeOf s m t hs → n ≡ m
  IsMadeOf-depth zero zero t gs hs p q = refl
  IsMadeOf-depth zero (suc m) t gs hs p (base, (extra, (inner, (q, _)))) = ground arith
  IsMadeOf-depth (suc n) zero t gs hs (base, (extra, (inner, (p, _)))) q = ground arith
  IsMadeOf-depth (suc n) (suc m) t gs hs (b, (e, (i, (p, (p', _)))))
        (b', (e', (i', (q, (q', _))))) =
      let same : b' ≡ b = ground (arith, p, q) in
      ap suc (IsMadeOf-depth n m b i i' p' (subst (λ base. IsMadeOf s m base i') same q'))

  -- The extensions on the way to a type have more steps than the type.
  IsAbove : ℕ → List Text → Type 0
  IsAbove n chain =
      (t : Text)
      → contains t chain ≡ true
      → (m : ℕ) × ((gs : List Group) × ((n < m) × IsMadeOf s m t gs))

  some_injective : {r q : Result (List Group)} → some r ≡ some q → r ≡ q
  some_injective h = ground arith

  onto_some-ok :
      (r : Option (Result (List Group))) (extra gs : List Group)
      → onto_some r extra ≡ some (ok gs)
      → (inner : List Group) × ((r ≡ some (ok inner)) × (gs ≡ inner ++ extra))
  onto_some-ok none extra gs h = ground arith
  onto_some-ok (some (ok inner)) extra gs h = (inner, (refl, ground arith))
  onto_some-ok (some (err e)) extra gs h = ground arith

  pub IsMade : Text → List Group → Type 0
  IsMade t gs = (n : ℕ) × IsMadeOf s n t gs

  found_of :
      (t : Text) (content : Option ComplexContent) (walk : Text → Option (Result (List Group)))
      → (gs : List Group) → content_of t s ≡ content
      → ((base : Text) (inner : List Group) → walk base ≡ some (ok inner) → IsMade base inner)
      → groups_of t content walk ≡ some (ok gs)
      → IsMade t gs
  unfolding IsMade
  found_of t none walk gs e h r = ground arith
  found_of t (some (groups hs)) walk gs e h r = (0, ground arith)
  found_of t (some (extension base extra)) walk gs e h r =
      let (inner, (walked, all)) = onto_some-ok (walk base) extra gs r in
      let (n, made) = h base inner walked in (suc n, (base, (extra, (inner, (e, (made, all))))))

  no_fuel : (chain : List Text) (t : Text) → groups_chain zero s chain t ≡ none
  unfolding groups_chain
  no_fuel chain t = refl

  err_ne : {e : UciError} {gs : List Group} → some (err e) ≢ some (ok gs)
  err_ne h = ground arith

  found :
      (fuel : ℕ) (chain : List Text) (t : Text) (gs : List Group)
      → groups_chain fuel s chain t ≡ some (ok gs)
      → IsMade t gs
  unfolding cyclic
  found zero chain t gs h = ground (arith, no_fuel chain t)
  found (suc fuel) chain t gs h = elim (Bool-cases (contains t chain)) [
    | inl seen ↦ elim (err_ne (sym (groups_chain_seen s fuel chain t seen) ∙ h)) [ ]
    | inr new ↦
        found_of t (content_of t s) (groups_chain fuel s (t ∷ chain)) gs refl
          (λ base inner. found fuel (t ∷ chain) base inner)
          (sym (groups_chain_new s fuel chain t new) ∙ h)
  ]

  IsAbove-cons :
      (n : ℕ) (t : Text) (gs : List Group) (chain : List Text)
      → IsMadeOf s (suc n) t gs
      → IsAbove (suc n) chain
      → IsAbove n (t ∷ chain)
  unfolding IsAbove contains
  IsAbove-cons n t gs chain made above u there = elim (Bool-cases (text_eq t u)) [
    | inl same ↦ (
      suc n,
      (gs, (omega arith, subst (λ k. IsMadeOf s (suc n) k gs) ((text_eq_iff t u).0 same) made)),
    )
    | inr other ↦
        let (m, (hs, (less, higher))) = above u (ground arith) in (m, (hs, (omega arith, higher)))
  ]

  is_new :
      (n : ℕ) (t : Text) (gs : List Group) (chain : List Text)
      → IsMadeOf s n t gs
      → IsAbove n chain
      → contains t chain ≡ false
  unfolding IsAbove
  is_new n t gs chain made above = elim (Bool-cases (contains t chain)) [
    | inl seen ↦
        let (m, (hs, (less, higher))) = above t seen in
        ground (arith, IsMadeOf-depth n m t gs hs made higher)
    | inr new ↦ new
  ]

  -- On any fuel, the walk of a made type gives its groups if it ends.
  walked :
      (n fuel : ℕ) (chain : List Text) (t : Text) (gs : List Group) (r : Result (List Group))
      → IsMadeOf s n t gs
      → IsAbove n chain
      → groups_chain fuel s chain t ≡ some r
      → r ≡ ok gs
  walked n zero chain t gs r made above h = ground (arith, no_fuel chain t)
  walked zero (suc fuel) chain t gs r made above h =
      let new = is_new zero t gs chain made above in
      let step = groups_chain_new s fuel chain t new in
      some_injective (sym h ∙ step ∙ ap (λ o. groups_of t o (groups_chain fuel s (t ∷ chain))) made)
  walked (suc n) (suc fuel) chain t gs r made above h =
      let (base, (extra, (inner, (is, (made', all))))) = made in
      let new = is_new (suc n) t gs chain made above in
      let step =
        groups_chain_new s fuel chain t new
        ∙ ap (λ o. groups_of t o (groups_chain fuel s (t ∷ chain))) is in
      elim (Option-cases (groups_chain fuel s (t ∷ chain) base)) [
        | inl gone ↦ ground (arith, step, gone, h)
        | inr (r', there) ↦
            let same =
              walked n fuel (t ∷ chain) base inner r' made' (IsAbove-cons n t gs chain made above)
                there in
            some_injective (
              sym h
              ∙ step
              ∙ ap (λ o. onto_some o extra) (there ∙ ap some same)
              ∙ ap (λ gs. some (ok gs)) (sym all))
      ]

  IsAbove-nil : (n : ℕ) → IsAbove n []
  unfolding IsAbove contains
  IsAbove-nil n t h = ground arith

  -- `groups` gives exactly what a type is made of: each base's groups before those that extend it. A
  -- type with no such chain, since it is cyclic or names an unknown type, is an error.
  pub groups_at_iff : (t : Text) (gs : List Group) → (groups_at s t ≡ ok gs) ↔ IsMade t gs
  unfolding IsMade
  groups_at_iff t gs = (
    λ h. found (suc (length s.complex_types)) [] t gs (groups_at-ends s t ∙ ap some h),
    λ made.
        walked made.0 (suc (length s.complex_types)) [] t gs (groups_at s t) made.1
          (IsAbove-nil made.0) (groups_at-ends s t),
  )
