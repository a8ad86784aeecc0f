-- ===== src/Notifications/Mirror.antt =====
-- desktop/capabilities/notifications/src/mirror.rs: the notifications that this desktop shows for
-- one peer, bounded, keyed by the identity that the peer gave.
pub mod Table
pub mod Eviction
pub mod Handles
pub mod Examples
use anyflow.Prelude.{
  ℕ, suc, ◌+◌, ◌≡◌, refl, Bool, true, false, not, Option, none, some, List, [], ◌∷◌, arith, length,
  leb, if◌then◌else◌, saturating_add, keep, map, Bytes, ◌==◌, is_some,
}
use anyflow.Collections.BTreeMap
use anyflow.Collections.BTreeMap.{BTreeMap}
use anyflow.Notifications.Id.{NotificationId, id_key}

-- desktop/capabilities/notifications/src/backend/mod.rs
pub data Urgency : Type 0 where
  low normal : Urgency

abbrev pub ServerId : Type 0
ServerId = ℕ  -- u32

pub record MirrorEntry : Type 0 where
  pub server_id : Option ServerId
  pub content_hash : Bytes
  pub app_name : Bytes
  pub urgency : Urgency
  pub reduced : Bool
  pub origin_device_id : Bytes
  pub seq : ℕ  -- u64

pub record MirrorTable : Type 0 where
  pub entries : BTreeMap NotificationId MirrorEntry
  pub next_seq : ℕ  -- u64
  pub evicted : ℕ  -- u64

abbrev pub max_mirrors_per_peer : ℕ
max_mirrors_per_peer = 200

abbrev pub Named : Type 0
Named = NotificationId × MirrorEntry

pub new : MirrorTable
new = record { entries = []; next_seq = 0; evicted = 0 }

pub len : MirrorTable → ℕ
len t = length t.entries

pub get : NotificationId → MirrorTable → Option MirrorEntry
unfolding BTreeMap.get
get id t = BTreeMap.get id t.entries

pub contains : NotificationId → MirrorTable → Bool
unfolding BTreeMap.contains_key
contains id t = BTreeMap.contains_key id t.entries

-- `iter().min_by_key(|(_, e)| e.seq)`: the first of the smallest.
abbrev older : Named → Option Named → Named
older x none = x
older (i, x) (some (j, y)) = if leb x.seq y.seq then (i, x) else (j, y)

pub oldest : BTreeMap NotificationId MirrorEntry → Option Named
oldest [] = none
oldest (x ∷ m) = some (older x (oldest m))

-- `BTreeMap::remove_entry`
abbrev named : NotificationId → Option MirrorEntry → Option Named
named id none = none
named id (some e) = some (id, e)

pub evict_if_full : MirrorTable → MirrorTable × Option Named
unfolding oldest BTreeMap.get BTreeMap.remove
evict_if_full t =
    if leb max_mirrors_per_peer (length t.entries)
    then elim (oldest t.entries) [
      | none ↦ (t, none)
      | some (id, e) ↦ (
        record t {
          entries = BTreeMap.remove id t.entries;
          evicted = saturating_add 64 t.evicted 1;
        },
        named id (BTreeMap.get id t.entries),
      )
    ]
    else (t, none)

-- The entry that `insert` builds out of its arguments and the next sequence number.
pub record Shown : Type 0 where
  pub server_id : Option ServerId
  pub content_hash : Bytes
  pub app_name : Bytes
  pub urgency : Urgency
  pub reduced : Bool
  pub origin_device_id : Bytes

abbrev pub entry_of : Shown → ℕ → MirrorEntry
entry_of n seq = record {
  server_id = n.server_id;
  content_hash = n.content_hash;
  app_name = n.app_name;
  urgency = n.urgency;
  reduced = n.reduced;
  origin_device_id = n.origin_device_id;
  seq = seq;
}

store : MirrorTable → NotificationId → Shown → MirrorTable
unfolding BTreeMap.insert
store t id n = record t {
  next_seq = saturating_add 64 t.next_seq 1;
  entries = BTreeMap.insert id (entry_of n t.next_seq) t.entries;
}

abbrev pub make_room : NotificationId → MirrorTable → MirrorTable × Option Named
make_room id t = if contains id t then (t, none) else evict_if_full t

pub insert : MirrorTable → NotificationId → Shown → MirrorTable × Option Named
unfolding contains evict_if_full store
insert t id n = let (t', evicted) = make_room id t in (store t' id n, evicted)

-- The table without the entry, and the entry.
pub remove : NotificationId → MirrorTable → MirrorTable × Option MirrorEntry
unfolding BTreeMap.remove BTreeMap.get
remove id t = (record t { entries = BTreeMap.remove id t.entries }, BTreeMap.get id t.entries)

abbrev pub has_handle : ServerId → Named → Bool
has_handle server_id (id, e) = elim e.server_id [ none ↦ false | some s ↦ s == server_id ]

-- `iter().find(|(_, e)| e.server_id == Some(server_id))`
pub find_handle : ServerId → BTreeMap NotificationId MirrorEntry → Option Named
find_handle server_id [] = none
find_handle server_id (x ∷ m) = if has_handle server_id x then some x else find_handle server_id m

pub forget_server_id : ServerId → MirrorTable → MirrorTable × Option Named
unfolding find_handle BTreeMap.get BTreeMap.remove
forget_server_id server_id t = elim (find_handle server_id t.entries) [
  | none ↦ (t, none)
  | some (id, e) ↦
      (record t { entries = BTreeMap.remove id t.entries }, named id (BTreeMap.get id t.entries))
]

abbrev clear_handle : Named → Named
clear_handle (id, e) = (id, record e { server_id = none })

pub invalidate_server_ids : MirrorTable → MirrorTable
invalidate_server_ids t = record t { entries = map clear_handle t.entries }

-- `named` is a `BTreeSet`, given here by its membership test.
pub not_named_in : (NotificationId → Bool) → MirrorTable → List NotificationId
not_named_in named t = keep (λ id. not (named id)) (map (λ (x : Named). x.0) t.entries)

pub drain : MirrorTable → MirrorTable × List Named
drain t = (record t { entries = [] }, t.entries)
