-- ===== src/Collections/Sorted.antt =====
-- The entries of a `BTreeMap` stand in strictly increasing key order, and its length follows.
use anyflow.Prelude.{
  suc, ◌≡◌, refl, Bool, true, false, ◌&&◌, none, [], ◌∷◌, ◌++◌, Ordering, arith, length,
  if◌then◌else◌, Key,
}
use anyflow.Collections.BTreeMap.{BTreeMap, get, insert, remove, modify, contains_key}

abbrev pub is_below : Ordering → Bool
is_below Ordering.lt = true
is_below _ = false

module _ {ℓ κ} {K : Type ℓ} {V : Type κ} ⦃k : Key K⦄ where
  -- `a` is below every key of the map.
  abbrev pub above : K → BTreeMap K V → Bool
  above a [] = true
  above a ((b, v) ∷ m) = is_below (k.cmp a b) && above a m

  abbrev pub is_sorted : BTreeMap K V → Bool
  is_sorted [] = true
  is_sorted ((a, v) ∷ m) = above a m && is_sorted m

  above_trans :
      (a b : K) (m : BTreeMap K V) → k.cmp a b ≡ Ordering.lt → above b m ≡ true → above a m ≡ true
  above_trans a b [] e h = refl
  above_trans a b ((c, v) ∷ m) e h = ground (arith, above_trans a b m e, k.cmp_trans a b c)

  above-insert :
      (a b : K) (v : V) (m : BTreeMap K V)
      → k.cmp a b ≡ Ordering.lt
      → above a m ≡ true
      → above a (insert b v m) ≡ true
  unfolding insert
  above-insert a b v [] e h = ground arith
  above-insert a b v ((c, w) ∷ m) e h = ground (arith, above-insert a b v m e)

  above-remove : (a b : K) (m : BTreeMap K V) → above a m ≡ true → above a (remove b m) ≡ true
  unfolding remove
  above-remove a b [] h = refl
  above-remove a b ((c, w) ∷ m) h = ground (arith, above-remove a b m)

  pub is_sorted-insert :
      (a : K) (v : V) (m : BTreeMap K V) → is_sorted m ≡ true → is_sorted (insert a v m) ≡ true
  unfolding insert
  is_sorted-insert a v [] h = refl
  is_sorted-insert a v ((b, w) ∷ m) h = ground (
    arith,
    is_sorted-insert a v m,
    above_trans a b m,
    above-insert b a v m,
    k.cmp_eq a b,
    k.cmp_flip b a,
  )

  pub is_sorted-remove :
      (a : K) (m : BTreeMap K V) → is_sorted m ≡ true → is_sorted (remove a m) ≡ true
  unfolding remove
  is_sorted-remove a [] h = refl
  is_sorted-remove a ((b, w) ∷ m) h = ground (arith, is_sorted-remove a m, above-remove b a m)

  pub get-above : (a : K) (m : BTreeMap K V) → above a m ≡ true → get a m ≡ none
  unfolding get
  get-above a [] h = refl
  get-above a ((b, v) ∷ m) h = ground (arith, get-above a m)

  -- A key that is there keeps its slot; a new key takes one.
  pub length-insert :
      (a : K) (v : V) (m : BTreeMap K V)
      → is_sorted m ≡ true
      → length (insert a v m) ≡ (if contains_key a m then length m else suc (length m))
  unfolding insert contains_key
  length-insert a v [] h = refl
  length-insert a v ((b, w) ∷ m) h =
      ground (arith, length-insert a v m, get-above a m, above_trans a b m)

  above-modify : (a b : K) (f : V → V) (m : BTreeMap K V) → above b (modify a f m) ≡ above b m
  unfolding modify
  above-modify a b f [] = refl
  above-modify a b f ((c, w) ∷ m) = ground (arith, above-modify a b f m)

  pub is_sorted-modify :
      (a : K) (f : V → V) (m : BTreeMap K V) → is_sorted (modify a f m) ≡ is_sorted m
  unfolding modify
  is_sorted-modify a f [] = refl
  is_sorted-modify a f ((b, w) ∷ m) = ground (arith, is_sorted-modify a f m, above-modify a b f m)

  above-append :
      (a b : K) (v : V) (acc m : BTreeMap K V)
      → above b (acc ++ (a, v) ∷ m) ≡ true
      → is_below (k.cmp b a) ≡ true
  above-append a b v [] m h = ground arith
  above-append a b v ((c, w) ∷ acc) m h = ground (arith, above-append a b v acc m)

  -- A key past all others goes to the end.
  pub insert-last :
      (a : K) (v : V) (acc m : BTreeMap K V)
      → is_sorted (acc ++ (a, v) ∷ m) ≡ true
      → insert a v acc ≡ acc ++ (a, v) ∷ []
  unfolding insert
  insert-last a v [] m h = refl
  insert-last a v ((b, w) ∷ acc) m h =
      let below = above-append a b v acc m (ground arith) in
      ground (arith, insert-last a v acc m, k.cmp_flip b a)
