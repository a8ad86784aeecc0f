-- ===== src/Clipboard/Events.antt =====
-- `EventCache` of dedup.rs: the ids of the events seen lately.
pub mod Once
use anyflow.Prelude.{
  ℕ, ◌-◌, Bool, true, false, not, ◌&&◌, List, [], ◌∷◌, ◌++◌, length, any, leb, ltb, ◌==◌,
  if◌then◌else◌, Bytes, bytes_key, ◌=?◌,
}

abbrev pub event_cache_entries : ℕ
event_cache_entries = 256

-- in seconds
abbrev pub event_cache_ttl : ℕ
event_cache_ttl = 300

abbrev pub Entry : Type 0
Entry = Bytes × ℕ

pub record EventCache : Type 0 where
  pub entries : List Entry
  pub capacity : ℕ
  pub ttl : ℕ

unfoldable pub new : ℕ → ℕ → EventCache
new capacity ttl = record { entries = []; capacity = capacity; ttl = ttl }

-- `while let Some((_, at)) = front()`: `duration_since` is zero for an instant to come.
pub drop_expired : ℕ → ℕ → List Entry → List Entry
drop_expired now ttl [] = []
drop_expired now ttl ((id, at) ∷ rest) =
    let live = drop_expired now ttl rest in if leb ttl (now - at) then live else (id, at) ∷ rest

pub expire : ℕ → EventCache → EventCache
unfolding drop_expired
expire now c = record c { entries = drop_expired now c.ttl c.entries }

-- `while self.entries.len() > self.capacity { self.entries.pop_front(); }`
unfoldable pub trim : {A : Type 0} → ℕ → List A → List A
trim capacity [] = []
trim capacity (x ∷ rest) =
    let shorter = trim capacity rest in
    if ltb capacity (length (x ∷ rest)) then shorter else x ∷ rest

unfoldable pub admit : ℕ → Bytes → EventCache → EventCache × Bool
unfolding expire trim
admit now event_id c =
    let c' = expire now c in
    if any (λ (x : Entry). x.0 =? event_id) c'.entries
    then (c', false)
    else (record c' { entries = trim c'.capacity (c'.entries ++ (event_id, now) ∷ []) }, true)

pub contains : ℕ → Bytes → EventCache → Bool
contains now event_id c = any (λ (x : Entry). (x.0 =? event_id) && ltb (now - x.1) c.ttl) c.entries

pub len : ℕ → EventCache → EventCache × ℕ
unfolding expire
len now c = let c' = expire now c in (c', length c'.entries)

pub is_empty : ℕ → EventCache → EventCache × Bool
unfolding len
is_empty now c = let (c', n) = len now c in (c', n == 0)
