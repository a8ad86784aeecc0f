-- ===== src/Notifications/Snapshot.antt =====
-- desktop/core/src/notifications.rs, "Snapshot framing": BEGIN, the upserts of a snapshot, END.
pub mod Trace
pub mod Examples
use anyflow.Prelude.{
  ℕ, Bool, true, false, Option, none, some, [], length, if◌then◌else◌, Bytes, ◌==◌, ◌=?◌, bytes_key,
  is_some,
}
use anyflow.Collections.BTreeMap
use anyflow.Collections.BTreeMap.{BTreeMap}
use anyflow.Notifications.Id.{NotificationId, id_key}
use anyflow.Notifications.Wire.{SyncMarker}

-- `BTreeSet<NotificationId>`
abbrev pub IdSet : Type 0
IdSet = BTreeMap NotificationId (Unit {0})

pub data SnapshotRejection : Type 0 where
  end_without_begin wrong_sync_id : SnapshotRejection

pub data SnapshotStep : Type 0 where
  opened recorded live : SnapshotStep
  complete : IdSet → SnapshotStep
  restarted : SnapshotStep
  ignored : SnapshotRejection → SnapshotStep

pub record Open : Type 0 where
  pub sync_id : Bytes
  pub named : IdSet

pub record Snapshot : Type 0 where
  pub open_one : Option Open

pub new : Snapshot
new = record { open_one = none }

pub is_open : Snapshot → Bool
is_open s = is_some s.open_one

pub named_count : Snapshot → ℕ
named_count s = elim s.open_one [ none ↦ 0 | some o ↦ length o.named ]

pub data Phase : Type 0 where
  unspecified begin end : Phase

-- prost's accessor: a number that the enum lacks is the default.
abbrev pub phase : SyncMarker → Phase
phase m = if m.phase == 1 then begin else if m.phase == 2 then end else unspecified

on_begin : Snapshot → SyncMarker → Snapshot × SnapshotStep
on_begin s m = (
  record { open_one = some (record { sync_id = m.sync_id; named = [] }) },
  if is_some s.open_one then restarted else opened,
)

on_end : Option Open → SyncMarker → Snapshot × SnapshotStep
on_end none m = (record { open_one = none }, ignored end_without_begin)
on_end (some o) m =
    if o.sync_id =? m.sync_id
    then (record { open_one = none }, complete o.named)
    else (record { open_one = some o }, ignored wrong_sync_id)

pub marker : Snapshot → SyncMarker → Snapshot × SnapshotStep
unfolding on_begin on_end
marker s m = elim (phase m) [
  | unspecified ↦ (s, ignored end_without_begin)
  | begin ↦ on_begin s m
  | end ↦ on_end s.open_one m
]

pub upsert : Snapshot → NotificationId → Snapshot × SnapshotStep
unfolding BTreeMap.insert
upsert s id = elim s.open_one [
  | none ↦ (s, live)
  | some o ↦
      (record { open_one = some (record o { named = BTreeMap.insert id tt o.named }) }, recorded)
]

pub abandon : Snapshot → Snapshot
abandon s = record { open_one = none }
