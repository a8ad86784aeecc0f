-- ===== src/Session/Capability.antt =====
-- desktop/core/src/capability.rs: which capabilities two devices have in common.
pub mod Common
use anyflow.Prelude.{
  Bool, true, false, List, [], ◌∷◌, map, keep, Bytes, Ordering, bytes_key, cmp_bytes, ◌=?◌,
  if◌then◌else◌,
}
use anyflow.Collections.BTreeMap
use anyflow.Collections.BTreeMap.{BTreeMap}

-- The registry's map, from the id of a capability to its implementation, of which only the keys
-- are read here.
pub record CapabilityRegistry : Type 0 where
  pub inner : BTreeMap Bytes (Unit {0})

unfoldable pub advertised : CapabilityRegistry → List Bytes
advertised r = map (λ (x : Bytes × Unit {0}). x.0) r.inner

unfoldable pub supports : CapabilityRegistry → Bytes → Bool
unfolding BTreeMap.contains_key
supports r id = BTreeMap.contains_key id r.inner

-- `sort` of a `Vec<String>`.
unfoldable pub insert_sorted : Bytes → List Bytes → List Bytes
unfolding cmp_bytes
insert_sorted a [] = a ∷ []
insert_sorted a (b ∷ bs) = elim (cmp_bytes a b) [
  | Ordering.gt ↦ b ∷ insert_sorted a bs
  | _ ↦ a ∷ b ∷ bs
]

unfoldable pub sort : List Bytes → List Bytes
unfolding insert_sorted
sort [] = []
sort (a ∷ rest) = insert_sorted a (sort rest)

-- `dedup`: of equal neighbours the first stays.
unfoldable pub dedup_after : Bytes → List Bytes → List Bytes
dedup_after a [] = []
dedup_after a (b ∷ bs) = let rest = dedup_after b bs in if a =? b then rest else b ∷ rest

unfoldable pub dedup : List Bytes → List Bytes
unfolding dedup_after
dedup [] = []
dedup (a ∷ rest) = a ∷ dedup_after a rest

unfoldable pub negotiate : CapabilityRegistry → List Bytes → List Bytes
unfolding supports sort dedup
negotiate r peer_advertised = dedup (sort (keep (supports r) peer_advertised))

pub register : Bytes → CapabilityRegistry → CapabilityRegistry
unfolding BTreeMap.insert
register id r = record { inner = BTreeMap.insert id tt r.inner }
