-- ===== src/Uci/Acyclic.antt =====
-- `groups` in crates/oa-gateway-uci/src/schema.rs always ends, and gives what a type is made of.
use oa_gateway.Prelude.{
  ℕ, zero, suc, ◌+◌, ◌≡◌, ◌≢◌, ◌≤◌, ◌<◌, ◌∙◌, sym, refl, true, false, Option, none, some, List, [],
  ◌∷◌, length, arith, Bool-cases, Option-cases, inl, inr, subst,
}
use oa_gateway.Text.{Text, text_eq, text_eq_iff, text_Eq}
use oa_gateway.Map.{Map, get, contains, contains_key, remove, get-remove}
use oa_gateway.Map.Sizes.{IsDistinct}
use oa_gateway.Uci.Errors.{Result}
use oa_gateway.Uci.Schema.{Calls, Schema, ComplexContent, groups, extension, Group}
use oa_gateway.Uci.Extension.{
  content_of, groups_chain, groups_of, groups_at, onto_some, or_cyclic, cyclic,
}

module _ {V : Type 0} where
  length-remove-le : (k : Text) (m : Map Text V) → length (remove k m) ≤ length m
  unfolding remove
  length-remove-le k [] = omega arith
  length-remove-le k ((j, v) ∷ m) = ground (arith, length-remove-le k m)

  length-remove-lt :
      (k : Text) (m : Map Text V) {v : V} → get k m ≡ some v → length (remove k m) < length m
  unfolding get remove
  length-remove-lt k [] h = ground arith
  length-remove-lt k ((j, u) ∷ m) {v} h =
      ground (arith, length-remove-lt k m {v = v}, length-remove-le k m)

  -- Names of a map that are all different are no more than its entries.
  pub AreNames : Map Text V → List Text → Type 0
  AreNames m names = (t : Text) → contains t names ≡ true → contains_key t m ≡ true

  pub length-names :
      (names : List Text) (m : Map Text V)
      → IsDistinct names
      → AreNames m names
      → length names ≤ length m
  unfolding AreNames contains contains_key
  length-names [] m d h = omega arith
  length-names (t ∷ ts) m d h = elim (Option-cases (get t m)) [
    | inl missing ↦ ground (arith, h t, text_eq_iff t t)
    | inr (v, there) ↦ omega (
      arith,
      length-remove-lt t m there,
      length-names ts (remove t m) d.1
          (λ u in_ts. ground (arith, h u, get-remove t u m, text_eq_iff t u, d.0, in_ts)),
    )
  ]

module _ {c : Calls} (s : Schema c) where
  content_of-some :
      (t : Text) {content : ComplexContent}
      → content_of t s ≡ some content
      → contains_key t s.complex_types ≡ true
  unfolding contains_key content_of
  content_of-some t h = ground arith

  onto_some-none :
      (r : Option (Result (List Group))) (extra : List Group) → onto_some r extra ≡ none → r ≡ none
  onto_some-none none extra h = refl
  onto_some-none (some r) extra h = ground arith

  pub groups_chain_seen :
      (fuel : ℕ) (chain : List Text) (t : Text)
      → contains t chain ≡ true
      → groups_chain (suc fuel) s chain t ≡ some (cyclic chain t)
  unfolding groups_chain
  groups_chain_seen fuel chain t seen = rw (seen, groups_chain) refl

  pub groups_chain_new :
      (fuel : ℕ) (chain : List Text) (t : Text)
      → contains t chain ≡ false
      → groups_chain (suc fuel) s chain t
        ≡ groups_of t (content_of t s) (groups_chain fuel s (t ∷ chain))
  unfolding groups_chain
  groups_chain_new fuel chain t new = rw (new, groups_chain) refl

  groups_of-ends :
      (t : Text) (content : Option ComplexContent) (walk : Text → Option (Result (List Group)))
      → content_of t s ≡ content
      → ((base : Text) → contains_key t s.complex_types ≡ true → walk base ≢ none)
      → groups_of t content walk ≢ none
  groups_of-ends t none walk e h gone = ground arith
  groups_of-ends t (some (groups gs)) walk e h gone = ground arith
  groups_of-ends t (some (extension base extra)) walk e h gone =
      h base (content_of-some t e) (onto_some-none (walk base) extra gone)

  AreNames-cons :
      (t : Text) (chain : List Text)
      → contains_key t s.complex_types ≡ true
      → AreNames s.complex_types chain
      → AreNames s.complex_types (t ∷ chain)
  unfolding AreNames contains
  AreNames-cons t chain known names u there = elim (Bool-cases (text_eq t u)) [
    | inl same ↦ subst (λ k. contains_key k s.complex_types ≡ true) ((text_eq_iff t u).0 same) known
    | inr other ↦ names u (ground arith)
  ]

  -- With fuel for the types that the chain does not have yet, the walk ends.
  groups_chain-ends :
      (fuel : ℕ) (chain : List Text) (t : Text)
      → length s.complex_types < fuel + length chain
      → IsDistinct chain
      → AreNames s.complex_types chain
      → groups_chain fuel s chain t ≢ none
  groups_chain-ends zero chain t enough d names gone =
      ground (arith, length-names chain s.complex_types d names)
  groups_chain-ends (suc fuel) chain t enough d names gone = elim (Bool-cases (contains t chain)) [
    | inl seen ↦ ground (arith, groups_chain_seen fuel chain t seen, gone)
    | inr new ↦
        groups_of-ends t (content_of t s) (groups_chain fuel s (t ∷ chain)) refl
          (λ base known.
            groups_chain-ends fuel (t ∷ chain) base (omega arith) (new, d)
              (AreNames-cons t chain known names))
          (sym (groups_chain_new fuel chain t new) ∙ gone)
  ]

  AreNames-nil : AreNames s.complex_types []
  unfolding AreNames contains
  AreNames-nil t h = ground arith

  or_cyclic-some : (o : Option (Result (List Group))) → o ≢ none → o ≡ some (or_cyclic o)
  or_cyclic-some none h = elim (h refl) [ ]
  or_cyclic-some (some r) h = refl

  -- The fuel of `groups` is enough for every schema, cyclic ones included.
  pub groups_at-ends :
      (t : Text) → groups_chain (suc (length s.complex_types)) s [] t ≡ some (groups_at s t)
  unfolding groups_at
  groups_at-ends t =
      or_cyclic-some (groups_chain (suc (length s.complex_types)) s [] t)
        (groups_chain-ends (suc (length s.complex_types)) [] t (omega arith) tt AreNames-nil)
