-- ===== src/Notifications/Validate/Examples.antt =====
-- Validation of a plain message, and of one with no identity.
use anyflow.Prelude.{◌≡◌, refl, true, false, none, [], ◌∷◌, replicate, Bytes, ok}
use anyflow.Notifications.Wire.{NotificationUpsert}
use anyflow.Notifications.Validate.{validate_upsert}
use anyflow.Notifications.Validate.Accepted.{IsWellFormed, validate_upsert_iff}

abbrev plain : NotificationUpsert
plain = record {
  notification_id = replicate 16 1;
  origin_device_id = replicate 32 b'a';
  app_id = b'x' ∷ [];
  app_label = [];
  title = b'h' ∷ b'i' ∷ [];
  body = [];
  posted_at_unix_ms = 0;
  importance = 2;
  privacy = 2;
  category = 7;
  progress = none;
  ongoing = false;
  dismissible = true;
  group_id = [];
  group_summary = false;
  secondary_profile = false;
  redacted = false;
  content_hash = replicate 32 0;
}

plain_accepted : validate_upsert plain ≡ ok (record { bytes = replicate 16 1 })
unfolding validate_upsert
plain_accepted = refl

validate_upsert_iff_example :
    IsWellFormed plain × (◌≡◌ {A = Bytes} (replicate 16 1) plain.notification_id)
validate_upsert_iff_example =
    (validate_upsert_iff plain (record { bytes = replicate 16 1 })).0 plain_accepted
