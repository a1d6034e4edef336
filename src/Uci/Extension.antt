-- ===== src/Uci/Extension.antt =====
-- Extension chains in crates/oa-gateway-uci/src/schema.rs: `groups`, `groups_chain`, `flatten`.
use oa_gateway.Prelude.{
  ℕ, zero, suc, ◌≡◌, true, false, Option, none, some, List, [], ◌∷◌, ◌++◌, length,
}
use oa_gateway.Text.{Text, codes, text_Eq}
use oa_gateway.Map.{get, contains}
use oa_gateway.Uci.Errors.{Result, ok, err, unknown_type, xsd}
use oa_gateway.Uci.Schema.{Calls, Schema, ComplexContent, groups, extension, Group, Element}

-- `slice::join`
unfoldable pub join : Text → List Text → Text
join sep [] = []
join sep (t ∷ []) = t
join sep (t ∷ u ∷ ts) = t ++ (sep ++ join sep (u ∷ ts))

-- A stack's list has its last element first.
abbrev from_first : List Text → List Text → List Text
from_first [] acc = acc
from_first (t ∷ ts) acc = from_first ts (t ∷ acc)

abbrev pub onto : Result (List Group) → List Group → Result (List Group)
onto (ok gs) extra = ok (gs ++ extra)
onto (err e) extra = err e

abbrev pub onto_some : Option (Result (List Group)) → List Group → Option (Result (List Group))
onto_some none extra = none
onto_some (some r) extra = some (onto r extra)

unfoldable pub cyclic : List Text → Text → Result (List Group)
unfolding join
cyclic chain t =
    err (xsd (codes "cyclic extension chain: " ++ join (codes " -> ") (from_first (t ∷ chain) [])))

-- What a type's content gives, from the groups of its base.
abbrev pub groups_of :
    Text
    → Option ComplexContent
    → (Text → Option (Result (List Group)))
    → Option (Result (List Group))
groups_of t none base_groups = some (err (unknown_type t))
groups_of t (some (groups gs)) base_groups = some (ok gs)
groups_of t (some (extension base extra)) base_groups = onto_some (base_groups base) extra

abbrev pub flattened : List Group → List Element
flattened [] = []
flattened (g ∷ gs) = g.elements ++ flattened gs

abbrev flattened_result : Result (List Group) → Result (List Element)
flattened_result (ok gs) = ok (flattened gs)
flattened_result (err e) = err e

abbrev pub or_cyclic : Option (Result (List Group)) → Result (List Group)
or_cyclic none = err (xsd [])
or_cyclic (some r) = r

module _ {c : Calls} where
  unfoldable pub content_of : Text → Schema c → Option ComplexContent
  unfolding get
  content_of t s = elim (get t s.complex_types) [ none ↦ none | some ct ↦ some ct.content ]

  -- `groups_chain` on fuel, none without it. The chain is the stack `chain`; what the loop pushes is
  -- popped before it returns groups.
  unfoldable pub groups_chain : ℕ → Schema c → List Text → Text → Option (Result (List Group))
  unfolding contains content_of
  groups_chain zero s chain t = none
  groups_chain (suc fuel) s chain t = elim (contains t chain) [
    | true ↦ some (cyclic chain t)
    | false ↦ groups_of t (content_of t s) (groups_chain fuel s (t ∷ chain))
  ]

  -- `Schema::groups`, with fuel for a chain of all complex types.
  unfoldable pub groups_at : Schema c → Text → Result (List Group)
  unfolding groups_chain
  groups_at s t = or_cyclic (groups_chain (suc (length s.complex_types)) s [] t)

  unfoldable pub flatten : Schema c → Text → Result (List Element)
  unfolding groups_at
  flatten s t = flattened_result (groups_at s t)

  -- What a type is made of, in `n` steps of extension: the groups of its base, then its own.
  abbrev pub IsMadeOf : Schema c → ℕ → Text → List Group → Type 0
  IsMadeOf s zero t gs = content_of t s ≡ some (groups gs)
  IsMadeOf s (suc n) t gs =
      (base : Text) × ((extra : List Group) × ((inner : List Group) × ((content_of t s
              ≡ some (extension base extra))
            × (IsMadeOf s n base inner × (gs ≡ inner ++ extra)))))
