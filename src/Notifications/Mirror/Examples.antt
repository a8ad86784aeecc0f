-- ===== src/Notifications/Mirror/Examples.antt =====
-- The mirror table of desktop/capabilities/notifications/src/mirror.rs on small inputs, and at its
-- ceiling.
use anyflow.Prelude.{ℕ, zero, suc, ◌≤◌, none, ◌≡◌, refl, false, some, [], ◌∷◌, arith, cmp_bytes}
use anyflow.Collections.BTreeMap.{BTreeMap}
use anyflow.Notifications.Id.{NotificationId}
use anyflow.Notifications.Mirror.Table.{IsValid}
use anyflow.Notifications.Mirror.Eviction.{insert_evicts}
use anyflow.Notifications.Mirror.{
  MirrorEntry, MirrorTable, Shown, normal, get, insert, contains, entry_of, len,
}

abbrev id : ℕ → NotificationId
id seed = record { bytes = seed ∷ [] }

abbrev shown : ℕ → Shown
shown handle = record {
  server_id = some handle;
  content_hash = [];
  app_name = [];
  urgency = normal;
  reduced = false;
  origin_device_id = [];
}

-- A table at its ceiling: identities and sequence numbers from `n` up.
filled : ℕ → ℕ → BTreeMap NotificationId MirrorEntry
filled zero n = []
filled (suc k) n = (id n, entry_of (shown n) n) ∷ filled k (suc n)

abbrev full : MirrorTable
full = record { entries = filled 200 0; next_seq = 200; evicted = 0 }

full-IsValid : IsValid full
unfolding filled cmp_bytes
full-IsValid = record { sorted = refl; within = omega arith }

insert_evicts_example :
    (o : NotificationId) × (e : MirrorEntry) × ((insert full (id 250) (shown 9)).1 ≡ some (o, e))
    × (get o full ≡ some e)
    × (get o (insert full (id 250) (shown 9)).0 ≡ none)
    × ((j : NotificationId) (f : MirrorEntry) → get j full ≡ some f → e.seq ≤ f.seq)
unfolding filled cmp_bytes contains len
insert_evicts_example = (insert_evicts full (id 250) (shown 9) full-IsValid).0 refl refl
