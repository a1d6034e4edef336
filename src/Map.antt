-- ===== src/Map.antt =====
-- `HashMap`, `BTreeMap` and `HashSet` of the Rust standard library, as lists. The code may meet the
-- entries of a hash table in any order; the one that the lists have stands for it. Where it goes
-- through a `BTreeMap`, the entries are put in the order of their keys first.
pub mod Buckets
pub mod Sizes
use oa_gateway.Prelude.{
  ℕ, ◌≡◌, refl, Bool, true, false, not, ◌&&◌, ◌||◌, Option, none, some, List, [], ◌∷◌, arith,
  if◌then◌else◌, Bool-cases, inl, inr,
}
use oa_gateway.Prelude.Eq.{Eq, ◌=?◌, =?_refl}

abbrev pub Set {ℓ} : Type ℓ → Type ℓ
Set A = List A

abbrev pub Map {ℓ} : Type ℓ → Type ℓ → Type ℓ
Map K V = List (K × V)

module _ {ℓ} {A : Type ℓ} ⦃e : Eq A⦄ where
  unfoldable pub contains : A → Set A → Bool
  contains a [] = false
  contains a (x ∷ xs) = (x =? a) || contains a xs

  pub contains-nil : (a : A) → contains a [] ≡ false
  unfolding contains
  contains-nil a = refl

  -- `HashSet::insert`
  unfoldable pub set_insert : A → Set A → Set A
  unfolding contains
  set_insert a xs = if contains a xs then xs else a ∷ xs

  -- `HashSet::remove`
  unfoldable pub set_remove : A → Set A → Set A
  set_remove a [] = []
  set_remove a (x ∷ xs) = let rest = set_remove a xs in if x =? a then rest else x ∷ rest

  -- `HashSet::extend`
  unfoldable pub set_extend : Set A → Set A → Set A
  unfolding set_insert
  set_extend xs [] = xs
  set_extend xs (y ∷ ys) = set_extend (set_insert y xs) ys

  pub contains-set_insert :
      (a b : A) (xs : Set A) → contains b (set_insert a xs) ≡ ((a =? b) || contains b xs)
  unfolding set_insert
  contains-set_insert a b xs = elim (Bool-cases (contains a xs)) [
    | inl old ↦ rw old (elim (Bool-cases (a =? b)) [
      | inl same ↦ rw same (ground (arith, (e.beq_iff a b).0 same))
      | inr other ↦ rw other
    ])
    | inr new ↦ rw new
  ]

  pub contains-set_remove :
      (a b : A) (xs : Set A) → contains b (set_remove a xs) ≡ (not (a =? b) && contains b xs)
  unfolding contains set_remove
  contains-set_remove a b [] = ground arith
  contains-set_remove a b (x ∷ xs) =
      ground (arith, contains-set_remove a b xs, e.beq_iff x a, e.beq_iff x b, e.beq_iff a b)

  pub contains-set_extend :
      (b : A) (xs ys : Set A) → contains b (set_extend xs ys) ≡ (contains b xs || contains b ys)
  unfolding set_extend contains
  contains-set_extend b xs [] = ground arith
  contains-set_extend b xs (y ∷ ys) =
      ground (arith, contains-set_extend b (set_insert y xs) ys, contains-set_insert y b xs)

module _ {ℓ} {K V : Type ℓ} ⦃e : Eq K⦄ where
  unfoldable pub get : K → Map K V → Option V
  get k [] = none
  get k ((j, v) ∷ m) = if j =? k then some v else get k m

  unfoldable pub remove : K → Map K V → Map K V
  remove k [] = []
  remove k ((j, v) ∷ m) = let rest = remove k m in if j =? k then rest else (j, v) ∷ rest

  unfoldable pub insert : K → V → Map K V → Map K V
  unfolding remove
  insert k v m = (k, v) ∷ remove k m

  pub get-remove : (k j : K) (m : Map K V) → get j (remove k m) ≡ (if k =? j then none else get j m)
  unfolding get remove
  get-remove k j [] = ground arith
  get-remove k j ((i, v) ∷ m) =
      ground (arith, get-remove k j m, e.beq_iff i k, e.beq_iff i j, e.beq_iff k j)

  pub get-insert :
      (k j : K) (v : V) (m : Map K V) → get j (insert k v m) ≡ (if k =? j then some v else get j m)
  unfolding get insert
  get-insert k j v m = ground (arith, get-remove k j m)

  unfoldable pub contains_key : K → Map K V → Bool
  unfolding get
  contains_key k m = elim (get k m) [ none ↦ false | some v ↦ true ]
