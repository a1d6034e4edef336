-- ===== src/Prelude/Attempt.antt =====
-- A Rust `Result` whose error is a message.
use mathlib.Core.Option.{Option, none, some}
use oa_gateway.Text.{Text}

pub data Attempt {ℓ} (A : Type ℓ) : Type ℓ where
  done : A → Attempt A
  refused : Text → Attempt A

infixl 5 ◌>>=◌
abbrev pub ◌>>=◌ {ℓ κ} : {A : Type ℓ} {B : Type κ} → Attempt A → (A → Attempt B) → Attempt B
done a >>= f = f a
refused e >>= f = refused e

abbrev pub or_refused {ℓ} : {A : Type ℓ} → Text → Option A → Attempt A
or_refused e none = refused e
or_refused e (some a) = done a

-- A predicate on the result, which an error meets.
abbrev pub IfDone {ℓ κ} : {A : Type ℓ} → (A → Type κ) → Attempt A → Type κ
IfDone P (done a) = P a
IfDone P (refused e) = Unit

pub bind-IfDone {ℓ κ ι} :
    {A : Type ℓ} {B : Type κ} (P : B → Type ι) (x : Attempt A) (f : A → Attempt B)
    → ((a : A) → IfDone P (f a))
    → IfDone P (x >>= f)
bind-IfDone P (done a) f h = h a
bind-IfDone P (refused e) f h = tt
