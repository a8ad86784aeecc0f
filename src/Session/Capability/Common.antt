-- ===== src/Session/Capability/Common.antt =====
-- `negotiate` of capability.rs is the intersection of two sets, in order.
use anyflow.Prelude.{
  ◌≡◌, refl, Bool, true, false, ◌&&◌, ◌||◌, List, [], ◌∷◌, keep, any, Bytes, Ordering, bytes_key,
  cmp_bytes, cmp_bytes_eq, cmp_bytes_flip, ◌=?◌, =?_iff, =?_refl, arith, Bool-cases, inl, inr,
}
use anyflow.Session.Capability.{
  CapabilityRegistry, supports, insert_sorted, sort, dedup_after, dedup, negotiate,
}

abbrev pub has : Bytes → List Bytes → Bool
has a bs = any (λ b. a =? b) bs

pub has-keep :
    (q : Bytes → Bool) (a : Bytes) (bs : List Bytes) → has a (keep q bs) ≡ (q a && has a bs)
has-keep q a [] = ground arith
has-keep q a (b ∷ bs) = elim (Bool-cases (a =? b)) [
  | inl e ↦ let same : a ≡ b = (=?_iff a b).0 e in ground (arith, has-keep q a bs, =?_refl b)
  | inr e ↦ ground (arith, has-keep q a bs)
]

has-insert_sorted :
    (a b : Bytes) (bs : List Bytes) → has a (insert_sorted b bs) ≡ (a =? b || has a bs)
unfolding insert_sorted
has-insert_sorted a b [] = ground arith
has-insert_sorted a b (c ∷ bs) = ground (arith, has-insert_sorted a b bs)

has-sort : (a : Bytes) (bs : List Bytes) → has a (sort bs) ≡ has a bs
unfolding sort
has-sort a [] = refl
has-sort a (b ∷ bs) = ground (arith, has-insert_sorted a b (sort bs), has-sort a bs)

has-dedup_after :
    (a b : Bytes) (bs : List Bytes) → (a =? b || has a (dedup_after b bs)) ≡ (a =? b || has a bs)
unfolding dedup_after
has-dedup_after a b [] = refl
has-dedup_after a b (c ∷ bs) =
    ground (arith, has-dedup_after a c bs, =?_iff b c, =?_iff a c, =?_iff a b)

has-dedup : (a : Bytes) (bs : List Bytes) → has a (dedup bs) ≡ has a bs
unfolding dedup
has-dedup a [] = refl
has-dedup a (b ∷ bs) = has-dedup_after a b bs

-- No entry is below the one before it.
abbrev not_above : Ordering → Bool
not_above Ordering.gt = false
not_above _ = true

abbrev from : Bytes → List Bytes → Bool
from a [] = true
from a (b ∷ bs) = not_above (cmp_bytes a b) && from b bs

abbrev ascending : List Bytes → Bool
ascending [] = true
ascending (a ∷ rest) = from a rest

abbrev strictly_from : Bytes → List Bytes → Bool
strictly_from a [] = true
strictly_from a (b ∷ bs) =
    (elim (cmp_bytes a b) [ Ordering.lt ↦ true | _ ↦ false ]) && strictly_from b bs

abbrev pub is_strictly_ascending : List Bytes → Bool
is_strictly_ascending [] = true
is_strictly_ascending (a ∷ rest) = strictly_from a rest

from-insert_sorted :
    (a b : Bytes) (bs : List Bytes)
    → not_above (cmp_bytes a b) ≡ true
    → from a bs ≡ true
    → from a (insert_sorted b bs) ≡ true
unfolding insert_sorted
from-insert_sorted a b [] x h = ground arith
from-insert_sorted a b (c ∷ bs) x h = ground (arith, from-insert_sorted c b bs, cmp_bytes_flip c b)

ascending-insert_sorted :
    (b : Bytes) (bs : List Bytes) → ascending bs ≡ true → ascending (insert_sorted b bs) ≡ true
unfolding insert_sorted
ascending-insert_sorted b [] h = refl
ascending-insert_sorted b (c ∷ bs) h = ground (arith, from-insert_sorted c b bs, cmp_bytes_flip c b)

ascending-sort : (bs : List Bytes) → ascending (sort bs) ≡ true
unfolding sort
ascending-sort [] = refl
ascending-sort (b ∷ bs) = ascending-insert_sorted b (sort bs) (ascending-sort bs)

strictly_from-dedup_after :
    (a : Bytes) (bs : List Bytes) → from a bs ≡ true → strictly_from a (dedup_after a bs) ≡ true
unfolding dedup_after
strictly_from-dedup_after a [] h = refl
strictly_from-dedup_after a (b ∷ bs) h =
    ground (arith, strictly_from-dedup_after b bs, =?_iff a b, cmp_bytes_eq a b)

strictly-dedup : (bs : List Bytes) → ascending bs ≡ true → is_strictly_ascending (dedup bs) ≡ true
unfolding dedup
strictly-dedup [] h = refl
strictly-dedup (b ∷ bs) h = strictly_from-dedup_after b bs h

-- What two devices agree on is what the peer advertises and this one supports, in strictly
-- ascending order, so each once.
pub negotiate_lem :
    (r : CapabilityRegistry) (peer_advertised : List Bytes)
    → ((id : Bytes)
        → has id (negotiate r peer_advertised) ≡ (supports r id && has id peer_advertised))
      × (is_strictly_ascending (negotiate r peer_advertised) ≡ true)
unfolding negotiate
negotiate_lem r peer_advertised =
    let common = keep (supports r) peer_advertised in
    (
      λ id. ground (
        arith,
        has-dedup id (sort common),
        has-sort id common,
        has-keep (supports r) id peer_advertised,
      ),
      strictly-dedup (sort common) (ascending-sort common),
    )
