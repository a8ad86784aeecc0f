-- ===== src/Prelude/Ordered.antt =====
-- The total orders that the program's `BTreeMap`s and `BTreeSet`s are kept by, and byte strings
-- under Rust's lexicographic order.
use Prim.Native.Nat.{ℕ, compare, Ordering}
use mathlib.Core.Path.{◌≡◌, refl}
use mathlib.Core.Logic.{◌↔◌}
use mathlib.Core.Bool.{Bool, true, false}
use mathlib.Core.List.{List, [], ◌∷◌}
use native.Mathlib.Omega.{arith}

-- Rust's `Ord`, as far as the maps rely on it.
pub record Key {ℓ} (K : Type ℓ) : Type ℓ where
  pub cmp : K → K → Ordering
  pub cmp_eq : (a b : K) → (cmp a b ≡ Ordering.eq) ↔ (a ≡ b)
  pub cmp_flip : (a b : K) → (cmp a b ≡ Ordering.lt) ↔ (cmp b a ≡ Ordering.gt)
  pub cmp_trans :
      (a b c : K) → cmp a b ≡ Ordering.lt → cmp b c ≡ Ordering.lt → cmp a c ≡ Ordering.lt

abbrev pub is_eq : Ordering → Bool
is_eq Ordering.eq = true
is_eq _ = false

infix 50 ◌=?◌
abbrev pub ◌=?◌ {ℓ} : {K : Type ℓ} ⦃k : Key K⦄ → K → K → Bool
◌=?◌ ⦃k⦄ a b = is_eq (k.cmp a b)

is_eq_iff : (o : Ordering) → (is_eq o ≡ true) ↔ (o ≡ Ordering.eq)
is_eq_iff Ordering.lt = (λ e. cc, λ e. cc)
is_eq_iff Ordering.eq = (λ e. refl, λ e. refl)
is_eq_iff Ordering.gt = (λ e. cc, λ e. cc)

module _ {ℓ} {K : Type ℓ} ⦃k : Key K⦄ where
  pub =?_iff : (a b : K) → ((a =? b) ≡ true) ↔ (a ≡ b)
  =?_iff a b = (
    λ e. (k.cmp_eq a b).0 ((is_eq_iff (k.cmp a b)).0 e),
    λ e. (is_eq_iff (k.cmp a b)).1 ((k.cmp_eq a b).1 e),
  )

  pub =?_refl : (a : K) → (a =? a) ≡ true
  =?_refl a = (=?_iff a a).1 refl

-- A byte string, `[u8]`; a UTF-8 text, `str`, is its bytes.
abbrev pub Bytes : Type 0
Bytes = List ℕ

unfoldable pub cmp_bytes : Bytes → Bytes → Ordering
cmp_bytes [] [] = Ordering.eq
cmp_bytes [] (y ∷ ys) = Ordering.lt
cmp_bytes (x ∷ xs) [] = Ordering.gt
cmp_bytes (x ∷ xs) (y ∷ ys) = elim (compare x y) [
  | Ordering.lt ↦ Ordering.lt
  | Ordering.eq ↦ cmp_bytes xs ys
  | Ordering.gt ↦ Ordering.gt
]

cmp_bytes-to_eq : (a b : Bytes) → cmp_bytes a b ≡ Ordering.eq → a ≡ b
unfolding cmp_bytes
cmp_bytes-to_eq [] [] e = refl
cmp_bytes-to_eq [] (y ∷ ys) e = cc
cmp_bytes-to_eq (x ∷ xs) [] e = cc
cmp_bytes-to_eq (x ∷ xs) (y ∷ ys) e = ground (arith, cmp_bytes-to_eq xs ys)

cmp_bytes_refl : (a : Bytes) → cmp_bytes a a ≡ Ordering.eq
unfolding cmp_bytes
cmp_bytes_refl [] = refl
cmp_bytes_refl (x ∷ xs) = ground (arith, cmp_bytes_refl xs)

pub cmp_bytes_eq : (a b : Bytes) → (cmp_bytes a b ≡ Ordering.eq) ↔ (a ≡ b)
cmp_bytes_eq a b = (cmp_bytes-to_eq a b, λ e. rw e (cmp_bytes_refl b))

cmp_bytes-flip : (a b : Bytes) → cmp_bytes a b ≡ Ordering.lt → cmp_bytes b a ≡ Ordering.gt
unfolding cmp_bytes
cmp_bytes-flip [] [] e = cc
cmp_bytes-flip [] (y ∷ ys) e = refl
cmp_bytes-flip (x ∷ xs) [] e = cc
cmp_bytes-flip (x ∷ xs) (y ∷ ys) e = ground (arith, cmp_bytes-flip xs ys)

cmp_bytes-unflip : (a b : Bytes) → cmp_bytes b a ≡ Ordering.gt → cmp_bytes a b ≡ Ordering.lt
unfolding cmp_bytes
cmp_bytes-unflip [] [] e = cc
cmp_bytes-unflip [] (y ∷ ys) e = refl
cmp_bytes-unflip (x ∷ xs) [] e = cc
cmp_bytes-unflip (x ∷ xs) (y ∷ ys) e = ground (arith, cmp_bytes-unflip xs ys)

pub cmp_bytes_flip : (a b : Bytes) → (cmp_bytes a b ≡ Ordering.lt) ↔ (cmp_bytes b a ≡ Ordering.gt)
cmp_bytes_flip a b = (cmp_bytes-flip a b, cmp_bytes-unflip a b)

pub cmp_bytes_trans :
    (a b c : Bytes)
    → cmp_bytes a b ≡ Ordering.lt
    → cmp_bytes b c ≡ Ordering.lt
    → cmp_bytes a c ≡ Ordering.lt
unfolding cmp_bytes
cmp_bytes_trans [] [] [] e f = cc
cmp_bytes_trans [] (y ∷ ys) [] e f = cc
cmp_bytes_trans [] b (z ∷ zs) e f = refl
cmp_bytes_trans (x ∷ xs) [] c e f = cc
cmp_bytes_trans (x ∷ xs) (y ∷ ys) [] e f = cc
cmp_bytes_trans (x ∷ xs) (y ∷ ys) (z ∷ zs) e f = ground (arith, cmp_bytes_trans xs ys zs)

pub compare_eq : (a b : ℕ) → (compare a b ≡ Ordering.eq) ↔ (a ≡ b)
compare_eq a b = ground arith

pub compare_flip : (a b : ℕ) → (compare a b ≡ Ordering.lt) ↔ (compare b a ≡ Ordering.gt)
compare_flip a b = ground arith

pub compare_trans :
    (a b c : ℕ) → compare a b ≡ Ordering.lt → compare b c ≡ Ordering.lt → compare a c ≡ Ordering.lt
compare_trans a b c e f = ground arith

instance abbrev pub nat_key : Key ℕ
nat_key = record {
  cmp = compare;
  cmp_eq = compare_eq;
  cmp_flip = compare_flip;
  cmp_trans = compare_trans;
}

instance abbrev pub bytes_key : Key Bytes
bytes_key = record {
  cmp = cmp_bytes;
  cmp_eq = cmp_bytes_eq;
  cmp_flip = cmp_bytes_flip;
  cmp_trans = cmp_bytes_trans;
}
