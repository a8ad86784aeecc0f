-- ===== src/Notifications/Queue/Examples.antt =====
-- The queue of desktop/capabilities/notifications/src/queue.rs on small inputs.
use anyflow.Prelude.{
  ℕ, ◌≡◌, refl, true, false, none, some, List, [], ◌∷◌, ◌++◌, replicate, length, cmp_bytes,
}
use anyflow.Notifications.Id.{NotificationId}
use anyflow.Notifications.Wire.{NotificationUpsert}
use anyflow.Notifications.Queue.Settled.{IsSettled, settled, quiet, offer-IsSettled}
use anyflow.Notifications.Queue.Latest.{latest, offer-latest}
use anyflow.Notifications.Queue.{
  Work, Incoming, QueueState, coalesced, queued, upsert, remove, sync, upsert_slot, offer,
}

abbrev id : ℕ → NotificationId
id seed = record { bytes = replicate 15 0 ++ seed ∷ [] }

abbrev message : NotificationUpsert
message = record {
  notification_id = replicate 16 0;
  origin_device_id = replicate 32 b'0';
  app_id = [];
  app_label = [];
  title = [];
  body = [];
  posted_at_unix_ms = 0;
  importance = 2;
  privacy = 2;
  category = 7;
  progress = none;
  ongoing = false;
  dismissible = true;
  group_id = [];
  group_summary = false;
  secondary_profile = false;
  redacted = false;
  content_hash = [];
}

abbrev shows : ℕ → ℕ → Incoming
shows seed text = record { id = id seed; message = record message { body = text ∷ [] } }

abbrev marker : Work
marker = sync (record { sync_id = replicate 16 7; phase = 2 })

abbrev holding : List Work → QueueState
holding items = record {
  items = items;
  coalesced = 0;
  evicted = 0;
  dropped_terminal = 0;
  high_water = length items;
}

-- An upsert from before a snapshot marker, and two from behind it.
abbrev mixed : QueueState
mixed = holding (
    upsert (shows 1 b'a')
    ∷ marker
    ∷ upsert (shows 2 b'b')
    ∷ upsert (shows 1 b'c')
    ∷ remove (id 3)
    ∷ [])

abbrev update : Incoming
update = shows 2 b'd'

update_coalesces : (offer mixed (upsert update)).1 ≡ coalesced
unfolding offer upsert_slot cmp_bytes
update_coalesces = refl

-- Coalescing does not cross the marker.
update_behind_marker :
    (offer (holding (upsert (shows 1 b'a') ∷ marker ∷ [])) (upsert (shows 1 b'b'))).1 ≡ queued
unfolding offer upsert_slot cmp_bytes
update_behind_marker = refl

mixed-IsSettled : IsSettled mixed
unfolding settled quiet cmp_bytes
mixed-IsSettled = refl

offer-IsSettled_example : IsSettled (offer mixed (remove (id 1))).0
offer-IsSettled_example = offer-IsSettled mixed (remove (id 1)) mixed-IsSettled

offer-latest_example : latest (id 2) (offer mixed (upsert update)).0.items ≡ some (upsert update)
unfolding offer upsert_slot cmp_bytes
offer-latest_example = offer-latest mixed (id 2) (upsert update) mixed-IsSettled refl (λ e. cc)
