-- ===== src/Notifications/Snapshot/Examples.antt =====
-- A snapshot of one notification, with a stray END inside.
use anyflow.Prelude.{◌≡◌, refl, any, [], ◌∷◌, cmp_bytes, List, ℕ}
use anyflow.Collections.BTreeMap
use anyflow.Notifications.Id.{NotificationId, id_key}
use anyflow.Notifications.Wire.{SyncMarker}
use anyflow.Notifications.Snapshot.{IdSet, complete, marker, new}
use anyflow.Notifications.Snapshot.Trace.{Event, marked, upserted, run, shows, marker_complete}

abbrev mark : ℕ → ℕ → SyncMarker
mark sync_id phase = record { sync_id = sync_id ∷ []; phase = phase }

abbrev inner : List Event
inner = upserted (record { bytes = 1 ∷ [] }) ∷ marked (mark 9 2) ∷ []

marker_complete_example :
    (named : IdSet) × ((marker (run new (marked (mark 7 1) ∷ inner)) (mark 7 2)).1 ≡ complete named)
    × ((marker (run new (marked (mark 7 1) ∷ inner)) (mark 7 2)).0 ≡ new)
    × ((id : NotificationId) → BTreeMap.contains_key id named ≡ any (shows id) inner)
unfolding cmp_bytes
marker_complete_example = marker_complete new (mark 7 1) (mark 7 2) inner refl refl refl refl
