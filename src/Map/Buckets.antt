-- ===== src/Map/Buckets.antt =====
-- A map of sets, `HashMap<K, HashSet<A>>`, which drops a set that becomes empty.
use oa_gateway.Prelude.{
  Bool, true, false, ◌≡◌, refl, ◌≢◌, not, ◌&&◌, ◌||◌, Option, none, some, List, [], ◌∷◌, arith,
  if◌then◌else◌, Option-cases, inl, inr,
}
use oa_gateway.Prelude.Eq.{Eq, ◌=?◌}
use oa_gateway.Map.{
  Set, Map, contains, set_insert, set_remove, get, insert, remove, contains-set_insert,
  contains-set_remove, get-remove, get-insert,
}

abbrev pub or_default {ℓ} : {A : Type ℓ} → Option (List A) → List A
or_default none = []
or_default (some xs) = xs

-- What is written back once an element is gone: a bucket that is now empty loses its key.
unfoldable pub put_back {ℓ} :
    {K B : Type ℓ} ⦃e : Eq K⦄ → K → List B → Map K (List B) → Map K (List B)
put_back k [] m = remove k m
put_back k (x ∷ xs) m = insert k (x ∷ xs) m

module _ {ℓ} {K A : Type ℓ} ⦃e : Eq K⦄ where
  -- The bucket of a key, empty where the key is missing.
  unfoldable pub bucket : K → Map K (List A) → List A
  bucket k m = or_default (get k m)

  pub bucket-nil : (k : K) → bucket k [] ≡ []
  unfolding bucket get
  bucket-nil k = refl

  pub bucket_missing : (k : K) (m : Map K (List A)) → get k m ≡ none → bucket k m ≡ []
  unfolding bucket
  bucket_missing k m h = rw h

  pub bucket_found : (k : K) {s : List A} (m : Map K (List A)) → get k m ≡ some s → bucket k m ≡ s
  unfolding bucket
  bucket_found k m h = rw h

  pub bucket-insert :
      (k j : K) (s : List A) (m : Map K (List A))
      → bucket j (insert k s m) ≡ (if k =? j then s else bucket j m)
  unfolding bucket
  bucket-insert k j s m = ground (arith, get-insert k j s m)

  pub bucket-remove :
      (k j : K) (m : Map K (List A)) → bucket j (remove k m) ≡ (if k =? j then [] else bucket j m)
  unfolding bucket
  bucket-remove k j m = ground (arith, get-remove k j m)

  pub bucket-put_back :
      (k j : K) (s : List A) (m : Map K (List A))
      → bucket j (put_back k s m) ≡ (if k =? j then s else bucket j m)
  unfolding put_back
  bucket-put_back k j [] m = bucket-remove k j m
  bucket-put_back k j (x ∷ xs) m = bucket-insert k j (x ∷ xs) m

module _ {ℓ} {K A : Type ℓ} ⦃e : Eq K⦄ ⦃d : Eq A⦄ where
  -- `m.entry(k).or_default().insert(a)`
  unfoldable pub add_to : K → A → Map K (Set A) → Map K (Set A)
  unfolding bucket
  add_to k a m = insert k (set_insert a (bucket k m)) m

  -- `if let Some(set) = m.get_mut(k) { set.remove(a); if set.is_empty() { m.remove(k) } }`
  unfoldable pub drop_from : K → A → Map K (Set A) → Map K (Set A)
  unfolding put_back
  drop_from k a m = elim (get k m) [ none ↦ m | some s ↦ put_back k (set_remove a s) m ]

  pub drop_from_missing : (k : K) (a : A) (m : Map K (Set A)) → get k m ≡ none → drop_from k a m ≡ m
  unfolding drop_from
  drop_from_missing k a m h = rw (h, drop_from)

  pub contains-add_to :
      (k j : K) (a b : A) (m : Map K (Set A))
      → contains b (bucket j (add_to k a m)) ≡ (((k =? j) && (a =? b)) || contains b (bucket j m))
  unfolding add_to
  contains-add_to k j a b m = ground (
    arith,
    bucket-insert k j (set_insert a (bucket k m)) m,
    contains-set_insert a b (bucket k m),
    e.beq_iff k j,
  )

  pub contains-drop_from :
      (k j : K) (a b : A) (m : Map K (Set A))
      → contains b (bucket j (drop_from k a m))
        ≡ (not ((k =? j) && (a =? b)) && contains b (bucket j m))
  unfolding drop_from bucket contains
  contains-drop_from k j a b m = elim (Option-cases (get k m)) [
    | inl none_there ↦ rw (none_there, drop_from) (ground (arith, e.beq_iff k j))
    | inr (s, there) ↦
        rw (there, drop_from)
          (ground (
            arith,
            bucket-put_back k j (set_remove a s) m,
            contains-set_remove a b s,
            e.beq_iff k j,
          ))
  ]

-- No key is kept for an empty bucket.
abbrev pub IsLean {ℓ} : {K A : Type ℓ} ⦃e : Eq K⦄ → Map K (List A) → Type ℓ
IsLean {K} m = (j : K) → get j m ≢ some []

module _ {ℓ} {K A : Type ℓ} ⦃e : Eq K⦄ where
  pub put_back-IsLean :
      (k : K) (s : List A) (m : Map K (List A)) → IsLean m → IsLean (put_back k s m)
  unfolding put_back
  put_back-IsLean k [] m h j = ground (arith, get-remove k j m, h j)
  put_back-IsLean k (x ∷ xs) m h j = ground (arith, get-insert k j (x ∷ xs) m, h j)

  pub if-IsLean :
      (b : Bool) (m n : Map K (List A)) → IsLean m → IsLean n → IsLean (if b then m else n)
  if-IsLean true m n hm hn = hm
  if-IsLean false m n hm hn = hn

  pub remove-IsLean : (k : K) (m : Map K (List A)) → IsLean m → IsLean (remove k m)
  remove-IsLean k m h j = ground (arith, get-remove k j m, h j)

  pub insert-IsLean :
      (k : K) (s : List A) (m : Map K (List A)) → s ≢ [] → IsLean m → IsLean (insert k s m)
  insert-IsLean k s m n h j = ground (arith, get-insert k j s m, h j)

module _ {ℓ} {A : Type ℓ} ⦃d : Eq A⦄ where
  set_insert-ne-nil : (a : A) (s : Set A) → set_insert a s ≢ []
  unfolding set_insert contains
  set_insert-ne-nil a [] = ground arith
  set_insert-ne-nil a (x ∷ xs) = ground arith

module _ {ℓ} {K A : Type ℓ} ⦃e : Eq K⦄ ⦃d : Eq A⦄ where
  pub add_to-ne-nil : (k : K) (a : A) (m : Map K (Set A)) → add_to k a m ≢ []
  unfolding add_to insert
  add_to-ne-nil k a m = ground arith

  pub add_to-IsLean : (k : K) (a : A) (m : Map K (Set A)) → IsLean m → IsLean (add_to k a m)
  unfolding add_to
  add_to-IsLean k a m h = insert-IsLean k _ m (set_insert-ne-nil a (bucket k m)) h

  pub drop_from-IsLean : (k : K) (a : A) (m : Map K (Set A)) → IsLean m → IsLean (drop_from k a m)
  unfolding drop_from
  drop_from-IsLean k a m h = elim (Option-cases (get k m)) [
    | inl missing ↦ rw (missing, drop_from) h
    | inr (s, there) ↦ rw (there, drop_from) (put_back-IsLean k (set_remove a s) m h)
  ]
