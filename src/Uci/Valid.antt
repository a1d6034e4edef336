-- ===== src/Uci/Valid.antt =====
-- What crates/oa-gateway-uci/src/validate/rules.rs asks of a message, said without a report.
use oa_gateway.Prelude.{
  ℕ, suc, ◌≡◌, ◌≢◌, ◌≤◌, Bool, true, false, Option, none, some, List, [], ◌∷◌, All,
}
use oa_gateway.Text.{Text, text_Eq}
use oa_gateway.Map.{get, contains}
use oa_gateway.Uci.Errors
use oa_gateway.Uci.Errors.{max_depth}
use oa_gateway.Uci.Schema.{
  Calls, Schema, Group, GroupKind, in_sequence, in_choice, Element, MaxOccurs, bounded, unbounded,
  ComplexType, global_type,
}
use oa_gateway.Uci.Extension.{groups_at, flattened}
use oa_gateway.Uci.Facets.{Effective, effective_facets, primitive}
use oa_gateway.Uci.Narrowing.{IsAtLeast, IsAtMost}
use oa_gateway.Uci.Primitive.{kind}
use oa_gateway.Uci.Lexical.{refuses}
use oa_gateway.Uci.Instance.{
  Node, Fields, Field, Nodes, Message, simple, complex, childless, field, one, many, itemless, item,
  as_text,
}
use oa_gateway.Uci.Rules.{count_of, taken, find_element, value_length}
use oa_gateway.Uci.Values.{accepts_any}
use oa_gateway.Uci.Check.{actual_type, declared}

abbrev pub IsWithinMax : MaxOccurs → ℕ → Type 0
IsWithinMax (bounded max) n = n ≤ max
IsWithinMax unbounded n = Unit

abbrev pub IsOccurring : Element → ℕ → Type 0
IsOccurring decl n = (decl.min_occurs ≤ n) × IsWithinMax decl.max_occurs n

-- One alternative is taken, and not more often than it may.
abbrev pub IsOneTaken : {c : Calls} → Fields c → List Element → Type 0
IsOneTaken fs (e ∷ []) = IsWithinMax e.max_occurs (count_of fs e.name)
IsOneTaken fs _ = ⊥

abbrev pub IsGroup : {c : Calls} → Fields c → GroupKind → List Element → Type 0
IsGroup fs in_sequence elements = All (λ decl. IsOccurring decl (count_of fs decl.name)) elements
IsGroup fs in_choice elements = IsOneTaken fs (taken fs elements)

-- Each field has a declaration.
abbrev pub IsDeclared : {c : Calls} → List Element → Fields c → Type 0
IsDeclared decls childless = Unit
IsDeclared decls (field name f fs) = (find_element name decls ≢ none) × IsDeclared decls fs

abbrev pub IsConcrete : Option ComplexType → Type 0
IsConcrete none = Unit
IsConcrete (some ct) = ct.is_abstract ≡ false

abbrev pub IsEnumerated : Option (List Text) → Text → Type 0
IsEnumerated none t = Unit
IsEnumerated (some allowed) t = contains t allowed ≡ true

abbrev pub IsExactly : Option ℕ → ℕ → Type 0
IsExactly none n = Unit
IsExactly (some b) n = n ≡ b

module _ (c : Calls) where
  -- A value does not break a bound, if there is one.
  abbrev pub IsKept : Option c.F64 → (c.F64 → Bool) → Type 0
  IsKept none breaks = Unit
  IsKept (some b) breaks = breaks b ≡ false

  abbrev pub IsInRange : Effective c → Option c.F64 → Type 0
  IsInRange e none = Unit
  IsInRange e (some x) =
      IsKept e.min_inclusive (λ b. c.lt_f64 x b)
      × (IsKept e.max_inclusive (λ b. c.lt_f64 b x)
          × (IsKept e.min_exclusive (λ b. c.le_f64 x b)
              × IsKept e.max_exclusive (λ b. c.le_f64 b x)))

  -- A value has every facet of its type.
  pub record HasFacets (e : Effective c) (len : ℕ) (t : Text) : Type 0 where
    pub enumerated : IsEnumerated e.enumeration t
    pub exact : IsExactly e.length len
    pub least : IsAtLeast e.min_length len
    pub most : IsAtMost e.max_length len
    pub patterned : All (λ ps. accepts_any c ps t ≡ true) e.patterns
    pub ranged : IsInRange e (c.parse_f64 t)

  abbrev pub IsValue : Schema c → Text → Text → Type 0
  IsValue s type_name t =
      (refuses c (kind (primitive s type_name)) t ≡ none)
      × HasFacets (effective_facets s type_name) (value_length t (primitive s type_name)).0 t

module _ {c : Calls} (s : Schema c) where
  -- The type that stands in the schema is not abstract. Where the node names a type itself, nothing is
  -- asked: `check` does not look whether the named type is abstract.
  abbrev pub IsConcreteUnlessNamed : Option Text → Text → Type 0
  IsConcreteUnlessNamed (some named) t = Unit
  IsConcreteUnlessNamed none t = IsConcrete (get t s.complex_types)

  abbrev pub IsLevel : List Group → Fields c → Type 0
  IsLevel gs fs = IsDeclared (flattened gs) fs × All (λ g. IsGroup fs g.kind g.elements) gs

  abbrev pub IsOfElement : Option Element → (Text → Type 0) → Type 0
  IsOfElement none P = Unit
  IsOfElement (some decl) P = P decl.type_name

  abbrev pub IsOfGroups : Errors.Result (List Group) → (List Group → Type 0) → Type 0
  IsOfGroups (Errors.err e) P = ⊥
  IsOfGroups (Errors.ok gs) P = P gs

  unfoldable mutual
    -- A node follows its type: it is not too deep, a leaf is a value of the type, and a complex node
    -- has a usable type, which is not abstract where the node names none, fields that are declared and occur as they should, and children
    -- that follow theirs.
    pub IsValid : Node c → Text → ℕ → Type 0
    IsValid (simple v) t depth = (depth ≤ max_depth) × IsValue c s t (as_text v)
    IsValid (complex named fs) t depth =
        (depth ≤ max_depth)
        × (IsConcreteUnlessNamed named t
            × IsOfGroups (groups_at s (actual_type named t))
                (λ gs. IsLevel gs fs × AreValid fs (flattened gs) depth))

    pub AreValid : Fields c → List Element → ℕ → Type 0
    AreValid childless decls depth = Unit
    AreValid (field name f fs) decls depth =
        IsOfElement (find_element name decls) (λ t. IsValidField f t depth)
        × AreValid fs decls depth

    pub IsValidField : Field c → Text → ℕ → Type 0
    IsValidField (one n) t depth = IsValid n t (suc depth)
    IsValidField (many ns) t depth = AreValidItems ns t depth

    pub AreValidItems : Nodes c → Text → ℕ → Type 0
    AreValidItems itemless t depth = Unit
    AreValidItems (item n ns) t depth = IsValid n t (suc depth) × AreValidItems ns t depth

  unfoldable pub IsValidMessage : Message c → Type 0
  unfolding global_type
  IsValidMessage m = IsValid m.body (declared (global_type m.name s) m.name) 0
