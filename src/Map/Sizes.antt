-- ===== src/Map/Sizes.antt =====
-- Sets and maps without repetition: their sizes, and when two of them hold the same.
use mathlib.Core.List.{Perm}
use mathlib.Core.List.Perm
use oa_gateway.Prelude.{
  Bool, Option-cases, if◌then◌else◌, suc, ◌≡◌, refl, true, false, none, some, List, [], ◌∷◌, arith,
  length, subst, Bool-cases, inl, inr,
}
use oa_gateway.Prelude.Eq.{Eq, ◌=?◌, =?_refl}
use oa_gateway.Map.Buckets.{bucket, bucket-insert, bucket-put_back, bucket_found, add_to, drop_from}
use oa_gateway.Map.{
  Set, Map, contains, set_insert, set_remove, set_extend, get, insert, remove, contains-set_remove,
  get-remove,
}

module _ {ℓ} {A : Type ℓ} ⦃e : Eq A⦄ where
  -- A list that represents a set: nothing stands in it twice.
  abbrev pub IsDistinct : List A → Type 0
  IsDistinct [] = Unit
  IsDistinct (x ∷ xs) = (contains x xs ≡ false) × IsDistinct xs

  pub set_insert-IsDistinct : (a : A) (xs : Set A) → IsDistinct xs → IsDistinct (set_insert a xs)
  unfolding set_insert
  set_insert-IsDistinct a xs h = ground arith

  pub set_remove-IsDistinct : (a : A) (xs : Set A) → IsDistinct xs → IsDistinct (set_remove a xs)
  unfolding set_remove
  set_remove-IsDistinct a [] h = tt
  set_remove-IsDistinct a (x ∷ xs) h =
      ground (arith, set_remove-IsDistinct a xs h.1, contains-set_remove a x xs)

  pub set_extend-IsDistinct : (xs ys : Set A) → IsDistinct xs → IsDistinct (set_extend xs ys)
  unfolding set_extend
  set_extend-IsDistinct xs [] h = h
  set_extend-IsDistinct xs (y ∷ ys) h =
      set_extend-IsDistinct (set_insert y xs) ys (set_insert-IsDistinct y xs h)

  set_remove_absent : (a : A) (xs : Set A) → contains a xs ≡ false → set_remove a xs ≡ xs
  unfolding set_remove contains
  set_remove_absent a [] h = refl
  set_remove_absent a (x ∷ xs) h = ground (arith, set_remove_absent a xs)

  perm-set_remove :
      (a : A) (xs : Set A) → IsDistinct xs → contains a xs ≡ true → Perm xs (a ∷ set_remove a xs)
  unfolding set_remove contains
  perm-set_remove a [] h c = ground arith
  perm-set_remove a (x ∷ xs) h c = elim (Bool-cases (x =? a)) [
    | inl same ↦
        let eq = (e.beq_iff x a).0 same in
        let gone = set_remove_absent a xs (subst (λ z. contains z xs ≡ false) eq h.0) in
        rw (same, gone, ← eq) (Perm.refl _)
    | inr other ↦
        rw other
          (Perm.trans (Perm.cons x (perm-set_remove a xs h.1 (ground arith))) (Perm.swap a x _))
  ]

  -- Two sets with the same elements are the same up to order.
  pub perm_of_contains :
      (xs ys : Set A)
      → IsDistinct xs
      → IsDistinct ys
      → ((a : A) → contains a xs ≡ contains a ys)
      → Perm xs ys
  unfolding contains
  perm_of_contains [] [] hx hy h = Perm.refl []
  perm_of_contains [] (y ∷ ys) hx hy h = ground (arith, h y, =?_refl y)
  perm_of_contains (x ∷ xs) ys hx hy h =
      let there : contains x ys ≡ true = ground (arith, h x, =?_refl x) in
      Perm.trans
        (Perm.cons x (
          perm_of_contains xs (set_remove x ys) hx.1 (set_remove-IsDistinct x ys hy)
            (λ a. ground (arith, h a, contains-set_remove x a ys, e.beq_iff x a, hx.0))))
        (Perm.symm (perm-set_remove x ys hy there))

module _ {ℓ} {K V : Type ℓ} ⦃e : Eq K⦄ where
  -- No key stands twice.
  abbrev pub HasDistinctKeys : Map K V → Type ℓ
  HasDistinctKeys [] = Unit
  HasDistinctKeys ((k, v) ∷ m) = (get k m ≡ none) × HasDistinctKeys m

  pub remove-HasDistinctKeys :
      (k : K) (m : Map K V) → HasDistinctKeys m → HasDistinctKeys (remove k m)
  unfolding remove
  remove-HasDistinctKeys k [] h = tt
  remove-HasDistinctKeys k ((j, v) ∷ m) h =
      ground (arith, remove-HasDistinctKeys k m h.1, get-remove k j m)

  pub insert-HasDistinctKeys :
      (k : K) (v : V) (m : Map K V) → HasDistinctKeys m → HasDistinctKeys (insert k v m)
  unfolding insert
  insert-HasDistinctKeys k v m h =
      (ground (arith, get-remove k k m, =?_refl k), remove-HasDistinctKeys k m h)

  pub remove_absent : (k : K) (m : Map K V) → get k m ≡ none → remove k m ≡ m
  unfolding remove get
  remove_absent k [] h = refl
  remove_absent k ((j, v) ∷ m) h = ground (arith, remove_absent k m)

  pub length-insert_new :
      (k : K) (v : V) (m : Map K V) → get k m ≡ none → length (insert k v m) ≡ suc (length m)
  unfolding insert
  length-insert_new k v m h = rw (remove_absent k m h)

  pub length-remove :
      (k : K) {v : V} (m : Map K V)
      → HasDistinctKeys m
      → get k m ≡ some v
      → suc (length (remove k m)) ≡ length m
  unfolding remove get
  length-remove k [] d h = ground arith
  length-remove k {v} ((j, w) ∷ m) d h = elim (Bool-cases (j =? k)) [
    | inl same ↦
        let gone = remove_absent k m (subst (λ z. get z m ≡ none) ((e.beq_iff j k).0 same) d.0) in
        rw (same, gone)
    | inr other ↦ rw other (ground (arith, length-remove k {v = v} m d.1))
  ]

module _ {ℓ} {A : Type ℓ} ⦃d : Eq A⦄ where
  pub if-IsDistinct :
      (b : Bool) (xs ys : List A)
      → IsDistinct xs
      → IsDistinct ys
      → IsDistinct (if b then xs else ys)
  if-IsDistinct true xs ys hx hy = hx
  if-IsDistinct false xs ys hx hy = hy

module _ {ℓ} {K A : Type ℓ} ⦃e : Eq K⦄ ⦃d : Eq A⦄ where
  -- Each set of a map of sets stays one.
  pub add_to-IsDistinct :
      (k j : K) (a : A) (m : Map K (Set A))
      → IsDistinct (bucket j m)
      → IsDistinct (bucket k m)
      → IsDistinct (bucket j (add_to k a m))
  unfolding add_to
  add_to-IsDistinct k j a m hj hk =
      rw (bucket-insert k j (set_insert a (bucket k m)) m)
        (if-IsDistinct (k =? j) _ _ (set_insert-IsDistinct a (bucket k m) hk) hj)

  pub drop_from-IsDistinct :
      (k j : K) (a : A) (m : Map K (Set A))
      → IsDistinct (bucket j m)
      → IsDistinct (bucket k m)
      → IsDistinct (bucket j (drop_from k a m))
  unfolding drop_from
  drop_from-IsDistinct k j a m hj hk = elim (Option-cases (get k m)) [
    | inl missing ↦ rw (missing, drop_from) hj
    | inr (s, there) ↦
        rw (there, drop_from)
          (rw (bucket-put_back k j (set_remove a s) m) (
            if-IsDistinct (k =? j) _ _
              (set_remove-IsDistinct a s (rw (bucket_found k m there) at hk)) hj))
  ]
