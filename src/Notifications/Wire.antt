-- ===== src/Notifications/Wire.antt =====
-- The messages of protocol/proto/omnibridge/v1/capabilities/notifications_v1.proto as prost
-- decodes them: a text is its UTF-8 bytes, an enum field is the number on the wire (an i32, given
-- by its bit pattern), an absent message field is `none`.
use anyflow.Prelude.{ℕ, Bool, Option, List, Bytes}

pub record NotificationRoles : Type 0 where
  pub roles : List ℕ
  pub epoch : ℕ  -- uint32

pub record Progress : Type 0 where
  pub current : ℕ
  pub max : ℕ
  pub indeterminate : Bool

pub record NotificationUpsert : Type 0 where
  pub notification_id : Bytes
  pub origin_device_id : Bytes
  pub app_id : Bytes
  pub app_label : Bytes
  pub title : Bytes
  pub body : Bytes
  pub posted_at_unix_ms : ℕ  -- int64
  pub importance : ℕ
  pub privacy : ℕ
  pub category : ℕ
  pub progress : Option Progress
  pub ongoing : Bool
  pub dismissible : Bool
  pub group_id : Bytes
  pub group_summary : Bool
  pub secondary_profile : Bool
  pub redacted : Bool
  pub content_hash : Bytes

pub record NotificationRemove : Type 0 where
  pub notification_id : Bytes
  pub origin_device_id : Bytes

pub record DismissRequest : Type 0 where
  pub notification_id : Bytes
  pub origin_device_id : Bytes

pub record NotificationResult : Type 0 where
  pub notification_id : Bytes
  pub outcome : ℕ

pub record SyncMarker : Type 0 where
  pub sync_id : Bytes
  pub phase : ℕ

-- The cases of the `body` oneof.
pub data Body : Type 0 where
  roles : NotificationRoles → Body
  upsert : NotificationUpsert → Body
  remove : NotificationRemove → Body
  dismiss : DismissRequest → Body
  result : NotificationResult → Body
  sync : SyncMarker → Body

pub record NotificationControl : Type 0 where
  pub body : Option Body
