-- ===== src/Prelude/Eq.antt =====
-- Rust's `Eq`, as an interface: a test that decides equality.
use mathlib.Core.Path.{◌≡◌, refl}
use mathlib.Core.Logic.{◌↔◌}
use mathlib.Core.Bool.{Bool, true}

pub record Eq {ℓ} (A : Type ℓ) : Type ℓ where
  pub beq : A → A → Bool
  pub beq_iff : (a b : A) → (beq a b ≡ true) ↔ (a ≡ b)

module _ {ℓ} {A : Type ℓ} ⦃e : Eq A⦄ where
  infix 50 ◌=?◌
  abbrev pub ◌=?◌ : A → A → Bool
  ◌=?◌ = e.beq

  pub =?_refl : (a : A) → (a =? a) ≡ true
  =?_refl a = (e.beq_iff a a).1 refl
