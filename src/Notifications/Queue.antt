-- ===== src/Notifications/Queue.antt =====
-- desktop/capabilities/notifications/src/queue.rs: the bounded, coalescing queue of display work
-- for one peer. `WorkQueue` is a mutex over `QueueState`; each method is one critical section, so a
-- method is a function from the state to the new state and its result.
pub mod Slots
pub mod Admit
pub mod Bounds
pub mod Settled
pub mod Coalescing
pub mod Terminal
pub mod Latest
pub mod Examples
use anyflow.Prelude.{
  ℕ, zero, suc, ◌+◌, ◌^◌, Bool, true, false, not, ◌||◌, Option, none, some, List, [], ◌∷◌, ◌++◌,
  reverse, length, set, remove_at, any, position, leb, if◌then◌else◌, saturating_add, Bytes, Key,
  ◌=?◌,
}
use anyflow.Notifications.Id.{NotificationId, id_key}
use anyflow.Notifications.Wire.{NotificationUpsert, SyncMarker}

-- desktop/capabilities/notifications/src/lib.rs
pub record Incoming : Type 0 where
  pub id : NotificationId
  pub message : NotificationUpsert

pub data CloseAllReason : Type 0 where
  revoked grace_expired role_narrowed : CloseAllReason

pub data Work : Type 0 where
  announce_roles : Work
  upsert : Incoming → Work
  remove : NotificationId → Work
  dismiss : NotificationId → Bytes → Work
  sync : SyncMarker → Work
  lock_changed : Bool → Work
  close_all : CloseAllReason → Work

abbrev pub is_terminal : Work → Bool
is_terminal (remove id) = true
is_terminal (close_all r) = true
is_terminal _ = false

abbrev pub is_barrier : Work → Bool
is_barrier (sync m) = true
is_barrier (close_all r) = true
is_barrier (lock_changed b) = true
is_barrier _ = false

abbrev is_announce : Work → Bool
is_announce announce_roles = true
is_announce _ = false

-- The `if let Work::Upsert(pending)` with its test of the identity.
abbrev pub is_upsert_of : NotificationId → Work → Bool
is_upsert_of id (upsert pending) = pending.id =? id
is_upsert_of id _ = false

pub data Offered : Type 0 where
  queued coalesced evicted dropped : Offered

abbrev pub max_queued_work : ℕ
max_queued_work = 256

pub record QueueState : Type 0 where
  pub items : List Work
  pub coalesced : ℕ  -- u64
  pub evicted : ℕ  -- u64
  pub dropped_terminal : ℕ  -- u64
  pub high_water : ℕ  -- usize

pub new : QueueState
new = record { items = []; coalesced = 0; evicted = 0; dropped_terminal = 0; high_water = 0 }

pub record QueueStats : Type 0 where
  pub pending : ℕ
  pub coalesced : ℕ
  pub evicted : ℕ
  pub dropped_terminal : ℕ
  pub high_water : ℕ

pub stats : QueueState → QueueStats
stats s = record {
  pending = length s.items;
  coalesced = s.coalesced;
  evicted = s.evicted;
  dropped_terminal = s.dropped_terminal;
  high_water = s.high_water;
}

-- How the loop of `upsert_slot` ends: by `return Some(index)`, by `return None`, or by running off
-- the end.
pub data Walk : Type 0 where
  found : ℕ → Walk
  blocked : Walk
  clear : Walk

pub walk : NotificationId → List (ℕ × Work) → Walk
walk id [] = clear
walk id ((index, item) ∷ rest) =
    if is_barrier item then blocked else if is_upsert_of id item then found index else walk id rest

-- `iter().enumerate()`
pub enumerate : ℕ → List Work → List (ℕ × Work)
enumerate n [] = []
enumerate n (w ∷ ws) = (n, w) ∷ enumerate (suc n) ws

abbrev pub slot_of : Walk → Option ℕ
slot_of (found index) = some index
slot_of blocked = none
slot_of clear = none

pub upsert_slot : NotificationId → List Work → Option ℕ
unfolding walk enumerate
upsert_slot id items = slot_of (walk id (reverse (enumerate 0 items)))

-- `saturating_add(1)` of a u64
abbrev pub count_up : ℕ → ℕ
count_up n = saturating_add 64 n 1

abbrev max : ℕ → ℕ → ℕ
max a b = if leb a b then b else a

pub push : QueueState → Work → QueueState
push s work =
    let items' = s.items ++ work ∷ [] in
    record s { items = items'; high_water = max s.high_water (length items') }

-- Part 2 of `offer`, "the ceiling", and the push behind it.
pub admit : QueueState → Work → QueueState × Offered
unfolding push
admit s work =
    if leb max_queued_work (length s.items)
    then elim (position (λ w. not (is_terminal w)) s.items) [
      | some index ↦ (
        push (record s { items = remove_at index s.items; evicted = count_up s.evicted }) work,
        evicted,
      )
      | none ↦ (record s { dropped_terminal = count_up s.dropped_terminal }, dropped)
    ]
    else (push s work, queued)

-- Part 1, "coalescing", by the kind of work offered.
pub offer : QueueState → Work → QueueState × Offered
unfolding admit
offer s (upsert incoming) = elim (upsert_slot incoming.id s.items) [
  | some slot ↦ (
    record s { items = set s.items slot (upsert incoming); coalesced = count_up s.coalesced },
    coalesced,
  )
  | none ↦ admit s (upsert incoming)
]
offer s (remove id) = elim (upsert_slot id s.items) [
  | some slot ↦ admit (record s { items = remove_at slot s.items }) (remove id)
  | none ↦ admit s (remove id)
]
offer s announce_roles =
    if any is_announce s.items
    then (record s { coalesced = count_up s.coalesced }, coalesced)
    else admit s announce_roles
offer s work = admit s work

pub drain : QueueState → QueueState × List Work
drain s = (record s { items = [] }, s.items)

pub is_empty : QueueState → Bool
is_empty s = elim s.items [ [] ↦ true | w ∷ ws ↦ false ]
