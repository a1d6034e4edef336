-- ===== src/Uci/Sound.antt =====
-- Each check of crates/oa-gateway-uci/src/validate/rules.rs against what it asks for.
use oa_gateway.Prelude.{
  ℕ, zero, suc, ◌≡◌, ◌≢◌, ◌↔◌, ◌∙◌, refl, ap, sym, subst, Bool, true, false, not, Option, none,
  some, List, [], ◌∷◌, All, ltb, leb, if◌then◌else◌, arith, ◌⊎◌, Bool-cases, Option-cases, inl, inr,
}
use oa_gateway.Text.{Text, text_eq, text_eq_iff, text_Eq}
use oa_gateway.Map.{get}
use oa_gateway.Uci.Schema.{
  Calls, Schema, Group, GroupKind, in_sequence, in_choice, Element, MaxOccurs, bounded, unbounded,
}
use oa_gateway.Uci.Instance.{Fields, childless, field}
use oa_gateway.Uci.Rules.{
  check_max, check_occurs, check_sequence, check_taken, check_group, check_groups, check_declared,
  check_abstract, count_of, taken, find_element, is_declared,
}
use oa_gateway.Uci.Reports.{
  Reports, Reports-skip, Reports-then, Reports-iff, Reports-note, Reports-note_if,
}
use oa_gateway.Uci.Valid.{
  IsWithinMax, IsOccurring, IsOneTaken, IsGroup, IsDeclared, IsConcreteUnlessNamed,
}

check_max-Reports :
    (max : MaxOccurs) (element : Text) (found : ℕ) (path : Text)
    → Reports (check_max max element found path) (IsWithinMax max found)
unfolding check_max
check_max-Reports (bounded max) element found path =
    Reports-iff (ground arith) (Reports-note_if (ltb max found) path _)
check_max-Reports unbounded element found path = Reports-skip

within_zero : (max : MaxOccurs) → IsWithinMax max 0
within_zero (bounded max) = omega arith
within_zero unbounded = tt

check_occurs-Reports :
    (path : Text) (decl : Element) (n : ℕ) → Reports (check_occurs path decl n) (IsOccurring decl n)
unfolding check_occurs
check_occurs-Reports path decl zero =
    Reports-iff (λ h. (ground (arith, h), within_zero decl.max_occurs), λ h. ground (arith, h.0))
      (Reports-note_if (leb 1 decl.min_occurs) path _)
check_occurs-Reports path decl (suc n) =
    Reports-iff (λ h. (ground (arith, h.0), h.1), λ h. (ground (arith, h.0), h.1))
      (Reports-then (Reports-note_if (ltb (suc n) decl.min_occurs) path _)
        (check_max-Reports decl.max_occurs decl.name (suc n) path))

declared_iff : (o : Option Element) → (not (is_declared o) ≡ false) ↔ (o ≢ none)
declared_iff none = (λ h e. ground (arith, h), λ h. elim (h refl) [ ])
declared_iff (some e) = (λ h e. ground (arith, e), λ h. refl)

true_ne_false : true ≢ false
true_ne_false h = ground arith

name_of : Element → Text
name_of e = e.name

taken_if :
    {x e : Element} {xs : List Element} (there : Bool)
    → (if there then x ∷ xs else xs) ≡ e ∷ []
    → ((there ≡ true) × (x ≡ e)) ⊎ ((there ≡ false) × (xs ≡ e ∷ []))
taken_if true h = inl (refl, ground arith)
taken_if false h = inr (refl, h)

module _ {c : Calls} where
  check_sequence-Reports :
      (path : Text) (fs : Fields c) (decls : List Element)
      → Reports
          (check_sequence path fs decls)
          (All (λ decl. IsOccurring decl (count_of fs decl.name)) decls)
  unfolding check_sequence
  check_sequence-Reports path fs [] = Reports-skip
  check_sequence-Reports path fs (decl ∷ decls) =
      Reports-then (check_occurs-Reports path decl (count_of fs decl.name))
        (check_sequence-Reports path fs decls)

  taken-there :
      (fs : Fields c) (elements : List Element) (e : Element)
      → taken fs elements ≡ e ∷ []
      → ltb 0 (count_of fs e.name) ≡ true
  unfolding taken
  taken-there fs [] e h = ground arith
  taken-there fs (x ∷ xs) e h = elim (taken_if (ltb 0 (count_of fs x.name)) h) [
    | inl (there, same) ↦ subst (λ e. ltb 0 (count_of fs e.name) ≡ true) same there
    | inr (absent, later) ↦ taken-there fs xs e later
  ]

  taken-found :
      (fs : Fields c) (elements : List Element) (e : Element)
      → taken fs elements ≡ e ∷ []
      → find_element e.name elements ≡ some e
  unfolding taken find_element
  taken-found fs [] e h = ground arith
  taken-found fs (x ∷ xs) e h = elim (taken_if (ltb 0 (count_of fs x.name)) h) [
    | inl (there, same) ↦ ground (arith, same, text_eq_iff x.name e.name, ap name_of same)
    | inr (absent, later) ↦ elim (Bool-cases (text_eq x.name e.name)) [
      | inl equal ↦
          let gone =
            subst (λ name. ltb 0 (count_of fs name) ≡ false) ((text_eq_iff x.name e.name).0 equal)
              absent in
          elim (true_ne_false (sym (taken-there fs xs e later) ∙ gone)) [ ]
      | inr other ↦ rw other (taken-found fs xs e later)
    ]
  ]

  check_taken-Reports :
      (path : Text) (fs : Fields c) (elements tk : List Element)
      → taken fs elements ≡ tk
      → Reports (check_taken path fs elements tk) (IsOneTaken fs tk)
  unfolding check_taken
  check_taken-Reports path fs elements [] h = Reports-note path _
  check_taken-Reports path fs elements (e ∷ []) h =
      rw (taken-found fs elements e h, check_taken)
        (check_max-Reports e.max_occurs e.name (count_of fs e.name) path)
  check_taken-Reports path fs elements (e ∷ f ∷ es) h = Reports-note path _

  check_group-Reports :
      (path : Text) (fs : Fields c) (kind : GroupKind) (elements : List Element)
      → Reports (check_group path fs kind elements) (IsGroup fs kind elements)
  unfolding check_group
  check_group-Reports path fs in_sequence elements = check_sequence-Reports path fs elements
  check_group-Reports path fs in_choice elements =
      check_taken-Reports path fs elements (taken fs elements) refl

  pub check_groups-Reports :
      (path : Text) (fs : Fields c) (gs : List Group)
      → Reports (check_groups path fs gs) (All (λ g. IsGroup fs g.kind g.elements) gs)
  unfolding check_groups
  check_groups-Reports path fs [] = Reports-skip
  check_groups-Reports path fs (g ∷ gs) =
      Reports-then (check_group-Reports path fs g.kind g.elements) (check_groups-Reports path fs gs)

  pub check_declared-Reports :
      (path : Text) (decls : List Element) (fs : Fields c)
      → Reports (check_declared path decls fs) (IsDeclared decls fs)
  unfolding check_declared
  check_declared-Reports path decls childless = Reports-skip
  check_declared-Reports path decls (field name f fs) =
      Reports-then
        (Reports-iff (declared_iff (find_element name decls))
          (Reports-note_if (not (is_declared (find_element name decls))) path _))
        (check_declared-Reports path decls fs)

  pub check_abstract-Reports :
      (s : Schema c) (named : Option Text) (t path : Text)
      → Reports (check_abstract s named t path) (IsConcreteUnlessNamed s named t)
  unfolding check_abstract
  check_abstract-Reports s (some named) t path = Reports-skip
  check_abstract-Reports s none t path = elim (Option-cases (get t s.complex_types)) [
    | inl unknown ↦ rw (unknown, check_abstract) Reports-skip
    | inr (ct, known) ↦ rw (known, check_abstract) (Reports-note_if ct.is_abstract path _)
  ]
