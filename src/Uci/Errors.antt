-- ===== src/Uci/Errors.antt =====
-- crates/oa-gateway-uci/src/error.rs.
use oa_gateway.Prelude.{ℕ, ◌≡◌, ◌⊎◌, inl, inr, refl, ◌++◌}
use oa_gateway.Text.{Text, codes}
use oa_gateway.Text.Decimal.{print_usize}

pub data UciError : Type 0 where
  not_utf8 : UciError
  json xml unknown_element unknown_type xsd : Text → UciError
  at : (path message : Text) → UciError
  too_deep : (path : Text) → UciError

pub data Result {ℓ} (A : Type ℓ) : Type ℓ where
  ok : A → Result A
  err : UciError → Result A

-- `MAX_DEPTH` in crates/oa-gateway-uci/src/lib.rs
abbrev pub max_depth : ℕ
max_depth = 96

-- `Display for UciError`
unfoldable pub error_text : UciError → Text
unfolding print_usize
error_text not_utf8 = codes "not valid UTF-8"
error_text (json e) = codes "invalid OMS JSON: " ++ e
error_text (xml e) = codes "invalid UCI XML: " ++ e
error_text (unknown_element e) = codes "unknown global element '" ++ (e ++ codes "'")
error_text (unknown_type e) = codes "unknown type '" ++ (e ++ codes "'")
error_text (xsd e) = codes "unsupported or malformed XSD: " ++ e
error_text (at path message) = codes "at " ++ (path ++ (codes ": " ++ message))
error_text (too_deep path) =
    codes "at "
    ++ (path ++ (codes ": nesting is deeper than " ++ (print_usize max_depth ++ codes " elements")))

-- `?`
unfoldable pub and_then {ℓ κ} : {A : Type ℓ} {B : Type κ} → Result A → (A → Result B) → Result B
and_then (ok a) f = f a
and_then (err e) f = err e

-- A predicate on the result, which an error meets.
abbrev pub IfOk {ℓ κ} : {A : Type ℓ} → (A → Type κ) → Result A → Type κ
IfOk P (ok a) = P a
IfOk P (err e) = Unit

-- A predicate on the result, which no error meets.
abbrev pub IsOk {ℓ} : {A : Type ℓ} → (A → Type 0) → Result A → Type 0
IsOk P (ok a) = P a
IsOk P (err e) = ⊥

pub and_then-IfOk {ℓ κ ι η} :
    {A : Type ℓ} {B : Type κ} (P : A → Type ι) (Q : B → Type η) (x : Result A) (f : A → Result B)
    → IfOk P x
    → ((a : A) → P a → IfOk Q (f a))
    → IfOk Q (and_then x f)
unfolding and_then
and_then-IfOk P Q (ok a) f p q = q a p
and_then-IfOk P Q (err e) f p q = tt

pub and_then-IsOk {ℓ κ} :
    {A : Type ℓ} {B : Type κ} (P : A → Type 0) (Q : B → Type 0) (x : Result A) (f : A → Result B)
    → IsOk P x
    → ((a : A) → P a → IsOk Q (f a))
    → IsOk Q (and_then x f)
unfolding and_then
and_then-IsOk P Q (ok a) f p q = q a p
and_then-IsOk P Q (err e) f p q = elim p [ ]

pub Result-cases {ℓ} :
    {A : Type ℓ} (x : Result A) → ((a : A) × (x ≡ ok a)) ⊎ ((e : UciError) × (x ≡ err e))
Result-cases (ok a) = inl (a, refl)
Result-cases (err e) = inr (e, refl)
