-- ===== src/Uci/Narrowing.antt =====
-- The facets in force against the links of a restriction chain: `effective_facets` in
-- crates/oa-gateway-uci/src/schema.rs.
use oa_gateway.Prelude.{
  ℕ, zero, suc, ◌≤◌, ◌↔◌, Option, none, some, List, [], ◌∷◌, arith, All, Option-cases, inl, inr,
}
use oa_gateway.Text.{Text, text_Eq}
use oa_gateway.Map.{get}
use oa_gateway.Uci.Schema.{Calls, Schema, Facets}
use oa_gateway.Uci.Facets.{
  Effective, default_effective, narrowed, stricter, larger, smaller, effective_from,
  effective_facets, max_simple_depth,
}

abbrev pub IsAtLeast : Option ℕ → ℕ → Type 0
IsAtLeast none n = Unit
IsAtLeast (some b) n = b ≤ n

abbrev pub IsAtMost : Option ℕ → ℕ → Type 0
IsAtMost none n = Unit
IsAtMost (some b) n = n ≤ b

IsAtLeast-stricter :
    (a b : Option ℕ) (n : ℕ) → IsAtLeast (stricter larger a b) n ↔ (IsAtLeast a n × IsAtLeast b n)
unfolding stricter
IsAtLeast-stricter none b n = (λ h. (tt, h), λ h. h.1)
IsAtLeast-stricter (some a) none n = (λ h. (h, tt), λ h. h.0)
IsAtLeast-stricter (some a) (some b) n = ground arith

IsAtMost-stricter :
    (a b : Option ℕ) (n : ℕ) → IsAtMost (stricter smaller a b) n ↔ (IsAtMost a n × IsAtMost b n)
unfolding stricter
IsAtMost-stricter none b n = (λ h. (tt, h), λ h. h.1)
IsAtMost-stricter (some a) none n = (λ h. (h, tt), λ h. h.0)
IsAtMost-stricter (some a) (some b) n = ground arith

module _ {c : Calls} where
  -- The links of the chain that the walk reads.
  unfoldable pub links : ℕ → Schema c → Text → List (Facets c)
  unfolding get
  links zero s t = []
  links (suc n) s t = elim (get t s.simple_types) [
    | none ↦ []
    | some simple ↦ simple.facets ∷ links n s simple.base
  ]

  -- A length that a link allows.
  abbrev pub IsFitting : ℕ → Facets c → Type 0
  IsFitting n f = IsAtLeast f.min_length n × IsAtMost f.max_length n

  abbrev pub IsFittingAll : ℕ → Effective c → Type 0
  IsFittingAll n e = IsAtLeast e.min_length n × IsAtMost e.max_length n

  IsFittingAll-narrowed :
      (n : ℕ) (e : Effective c) (f : Facets c)
      → IsFittingAll n (narrowed e f) ↔ (IsFittingAll n e × IsFitting n f)
  unfolding narrowed
  IsFittingAll-narrowed n e f =
      let (least, least') = IsAtLeast-stricter e.min_length f.min_length n in
      let (most, most') = IsAtMost-stricter e.max_length f.max_length n in
      (
        λ h. (((least h.0).0, (most h.1).0), ((least h.0).1, (most h.1).1)),
        λ h. (least' (h.0.0, h.1.0), most' (h.0.1, h.1.1)),
      )

  IsFittingAll-effective_from :
      (k : ℕ) (s : Schema c) (t : Text) (e : Effective c) (n : ℕ)
      → IsFittingAll n (effective_from k s t e)
        ↔ (IsFittingAll n e × All (IsFitting n) (links k s t))
  unfolding effective_from links
  IsFittingAll-effective_from zero s t e n = (λ h. (h, tt), λ h. h.0)
  IsFittingAll-effective_from (suc k) s t e n = elim (Option-cases (get t s.simple_types)) [
    | inl missing ↦ rw (missing, effective_from, links) ((λ h. (h, tt)), (λ h. h.0))
    | inr (simple, there) ↦
        let (to, from) = IsFittingAll-effective_from k s simple.base (narrowed e simple.facets) n in
        let (split, join) = IsFittingAll-narrowed n e simple.facets in
        rw (there, effective_from, links)
          (
            λ h. ((split (to h).0).0, ((split (to h).0).1, (to h).1)),
            λ h. from (join (h.0, h.1.0), h.1.1),
          )
  ]

  -- A length fits the bounds in force for a type exactly when it fits those of every link of the
  -- type's restriction chain that the walk reads.
  pub IsFittingAll-effective_facets :
      (s : Schema c) (t : Text) (n : ℕ)
      → IsFittingAll n (effective_facets s t) ↔ All (IsFitting n) (links max_simple_depth s t)
  unfolding effective_facets
  IsFittingAll-effective_facets s t n =
      let (to, from) = IsFittingAll-effective_from max_simple_depth s t default_effective n in
      (λ h. (to h).1, λ h. from ((tt, tt), h))
