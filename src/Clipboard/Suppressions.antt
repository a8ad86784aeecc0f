-- ===== src/Clipboard/Suppressions.antt =====
-- `SuppressionCache` of dedup.rs: the texts that this device has just put on its clipboard itself.
pub mod Budget
pub mod Armed
pub mod Held
pub mod Between
use anyflow.Prelude.{
  ℕ, zero, suc, ◌-◌, Bool, Option, none, some, List, [], ◌∷◌, ◌++◌, length, position, remove_at,
  leb, ◌==◌, if◌then◌else◌, Bytes, bytes_key, ◌=?◌,
}
use anyflow.Clipboard.Events.{trim}

abbrev pub suppression_entries : ℕ
suppression_entries = 64

-- in seconds
abbrev pub suppression_ttl : ℕ
suppression_ttl = 10

pub record Suppressed : Type 0 where
  pub hash : Bytes
  pub at : ℕ
  pub origin_device_id : Bytes

pub record SuppressionCache : Type 0 where
  pub entries : List Suppressed
  pub capacity : ℕ
  pub ttl : ℕ

unfoldable pub new : ℕ → ℕ → SuppressionCache
new capacity ttl = record { entries = []; capacity = capacity; ttl = ttl }

pub drop_expired : ℕ → ℕ → List Suppressed → List Suppressed
drop_expired now ttl [] = []
drop_expired now ttl (e ∷ rest) =
    let live = drop_expired now ttl rest in if leb ttl (now - e.at) then live else e ∷ rest

pub expire : ℕ → SuppressionCache → SuppressionCache
unfolding drop_expired
expire now c = record c { entries = drop_expired now c.ttl c.entries }

unfoldable pub arm : ℕ → Bytes → Bytes → SuppressionCache → SuppressionCache
unfolding expire
arm now hash origin_device_id c =
    let c' = expire now c in
    let e : Suppressed = record { hash = hash; at = now; origin_device_id = origin_device_id } in
    record c' { entries = trim c'.capacity (c'.entries ++ e ∷ []) }

abbrev pub has_hash : Bytes → Suppressed → Bool
has_hash hash e = e.hash =? hash

-- The entry that `remove(index)` takes out.
pub nth : ℕ → List Suppressed → Option Suppressed
nth index [] = none
nth zero (e ∷ rest) = some e
nth (suc index) (e ∷ rest) = nth index rest

abbrev pub origin_of : Option Suppressed → Option Bytes
origin_of none = none
origin_of (some e) = some e.origin_device_id

unfoldable pub take : ℕ → Bytes → SuppressionCache → SuppressionCache × Option Bytes
unfolding expire nth
take now hash c =
    let c' = expire now c in
    elim (position (has_hash hash) c'.entries) [
      | none ↦ (c', none)
      | some index ↦
          (record c' { entries = remove_at index c'.entries }, origin_of (nth index c'.entries))
    ]

pub len : ℕ → SuppressionCache → SuppressionCache × ℕ
unfolding expire
len now c = let c' = expire now c in (c', length c'.entries)

pub is_empty : ℕ → SuppressionCache → SuppressionCache × Bool
unfolding len
is_empty now c = let (c', n) = len now c in (c', n == 0)
