-- ===== src/Collections/BTreeMap.antt =====
-- `std::collections::BTreeMap`, as the list of its entries in key order.
use mathlib.Core.Option
use anyflow.Prelude.{
  ◌+◌, ◌≤◌, ◌<◌, ◌≡◌, refl, Bool, Option, none, some, List, [], ◌∷◌, Ordering, arith, length,
  if◌then◌else◌, Key, ◌=?◌, is_some, =?_iff,
}

abbrev pub BTreeMap {ℓ κ} : Type ℓ → Type κ → Type (ℓ ⊔ κ)
BTreeMap K V = List (K × V)

module _ {ℓ κ} {K : Type ℓ} {V : Type κ} ⦃k : Key K⦄ where
  unfoldable pub get : K → BTreeMap K V → Option V
  get a [] = none
  get a ((b, v) ∷ m) = if a =? b then some v else get a m

  unfoldable pub contains_key : K → BTreeMap K V → Bool
  unfolding get
  contains_key a m = is_some (get a m)

  unfoldable pub insert : K → V → BTreeMap K V → BTreeMap K V
  insert a v [] = (a, v) ∷ []
  insert a v ((b, w) ∷ m) = elim (k.cmp a b) [
    | Ordering.lt ↦ (a, v) ∷ (b, w) ∷ m
    | Ordering.eq ↦ (a, v) ∷ m
    | Ordering.gt ↦ (b, w) ∷ insert a v m
  ]

  unfoldable pub remove : K → BTreeMap K V → BTreeMap K V
  remove a [] = []
  remove a ((b, w) ∷ m) = if a =? b then remove a m else (b, w) ∷ remove a m

  -- `get_mut`, and the change made through it.
  unfoldable pub modify : K → (V → V) → BTreeMap K V → BTreeMap K V
  modify a f [] = []
  modify a f ((b, w) ∷ m) = if a =? b then (b, f w) ∷ m else (b, w) ∷ modify a f m

  -- `values().cloned().collect()`
  abbrev pub values : BTreeMap K V → List V
  values [] = []
  values ((a, v) ∷ m) = v ∷ values m

  pub get-insert :
      (a b : K) (v : V) (m : BTreeMap K V)
      → get b (insert a v m) ≡ (if b =? a then some v else get b m)
  unfolding get insert
  get-insert a b v [] = refl
  get-insert a b v ((c, w) ∷ m) =
      ground (arith, =?_iff b a, =?_iff b c, k.cmp_eq a c, get-insert a b v m)

  pub get-remove :
      (a b : K) (m : BTreeMap K V) → get b (remove a m) ≡ (if b =? a then none else get b m)
  unfolding get remove
  get-remove a b [] = ground arith
  get-remove a b ((c, w) ∷ m) = ground (arith, =?_iff b a, =?_iff b c, =?_iff a c, get-remove a b m)

  pub length-insert-le : (a : K) (v : V) (m : BTreeMap K V) → length (insert a v m) ≤ length m + 1
  unfolding insert
  length-insert-le a v [] = omega arith
  length-insert-le a v ((b, w) ∷ m) = ground (arith, length-insert-le a v m)

  pub length-remove-le : (a : K) (m : BTreeMap K V) → length (remove a m) ≤ length m
  unfolding remove
  length-remove-le a [] = omega arith
  length-remove-le a ((b, w) ∷ m) = ground (arith, length-remove-le a m)

  pub length-remove-lt :
      (a : K) (v : V) (m : BTreeMap K V) → get a m ≡ some v → length (remove a m) < length m
  unfolding get remove
  length-remove-lt a v [] e = cc
  length-remove-lt a v ((b, w) ∷ m) e = ground (arith, length-remove-lt a v m, length-remove-le a m)

  pub get-modify :
      (a b : K) (f : V → V) (m : BTreeMap K V)
      → get b (modify a f m) ≡ (if b =? a then Option.map f (get b m) else get b m)
  unfolding get modify
  get-modify a b f [] = ground arith
  get-modify a b f ((c, w) ∷ m) =
      ground (arith, =?_iff b a, =?_iff b c, =?_iff a c, get-modify a b f m)
