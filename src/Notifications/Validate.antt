-- ===== src/Notifications/Validate.antt =====
-- desktop/core/src/notifications.rs, "Rejections" and "Validation": what a message has to be before
-- anything acts on it. A text is its UTF-8 bytes, so `len` and `contains('\0')` are of bytes.
pub mod Accepted
pub mod Answerable
pub mod Examples
use anyflow.Prelude.{
  is_nil, ℕ, ◌+◌, Bool, true, false, not, ◌&&◌, ◌||◌, Option, none, some, List, [], ◌∷◌, any, all,
  length, leb, ltb, ◌==◌, if◌then◌else◌, Bytes, Result, ok, err, ◌>>=◌, ◌>>◌, require, forget,
  ok_or, is_ok,
}
use anyflow.Notifications.Id.{NotificationId}
use anyflow.Notifications.Wire.{
  NotificationRoles, NotificationUpsert, NotificationRemove, DismissRequest, NotificationResult,
  SyncMarker, Body, NotificationControl,
}

abbrev pub notification_id_len : ℕ
notification_id_len = 16

abbrev pub sync_id_len : ℕ
sync_id_len = 16

abbrev pub group_id_len : ℕ
group_id_len = 8

abbrev pub content_hash_len : ℕ
content_hash_len = 32

abbrev pub device_id_hex_len : ℕ
device_id_hex_len = 32

abbrev pub max_app_id_bytes : ℕ
max_app_id_bytes = 255

abbrev pub max_app_label_bytes : ℕ
max_app_label_bytes = 128

abbrev pub max_title_bytes : ℕ
max_title_bytes = 512

abbrev pub max_body_bytes : ℕ
max_body_bytes = 4096

abbrev pub max_notification_bytes : ℕ
max_notification_bytes = 8192

-- The `&'static str` names of fields.
pub data Field : Type 0 where
  notification_id sync_id group_id content_hash app_id app_label title body : Field

pub data Rejection : Type 0 where
  bad_identifier_width : Field → ℕ → ℕ → Rejection
  too_long : Field → ℕ → ℕ → Rejection
  contains_nul : Field → Rejection
  malformed_device_id : Rejection
  unset_epoch : Rejection
  message_too_large : ℕ → ℕ → Rejection
  empty_body : Rejection

-- The two outcomes of `pb::NotificationOutcome` that a rejection maps to.
pub data Outcome : Type 0 where
  too_large invalid : Outcome

pub outcome : Rejection → Outcome
outcome (too_long f limit got) = too_large
outcome (message_too_large limit got) = too_large
outcome _ = invalid

abbrev is_id_field : Field → Bool
is_id_field notification_id = true
is_id_field _ = false

pub is_answerable : Rejection → Bool
is_answerable (bad_identifier_width field expected got) = not (is_id_field field)
is_answerable _ = true

pub from_bytes : Bytes → Result NotificationId Rejection
from_bytes bytes =
    if length bytes == notification_id_len
    then ok (record { bytes = bytes })
    else err (bad_identifier_width notification_id notification_id_len (length bytes))

abbrev pub is_nul : ℕ → Bool
is_nul b = b == 0

pub check_text : Field → Bytes → ℕ → Result (Unit {0}) Rejection
check_text field value limit =
    if ltb limit (length value)
    then err (too_long field limit (length value))
    else if any is_nul value
    then err (contains_nul field)
    else ok tt

-- `b.is_ascii_digit() || (b'a'..=b'f').contains(&b)`
abbrev pub is_lower_hex : ℕ → Bool
is_lower_hex b = leb b'0' b && leb b b'9' || leb b'a' b && leb b b'f'

pub check_device_id : Bytes → Result (Unit {0}) Rejection
check_device_id value =
    if not (length value == device_id_hex_len) || not (all is_lower_hex value)
    then err malformed_device_id
    else ok tt

pub check_optional_digest : Field → Bytes → ℕ → Result (Unit {0}) Rejection
check_optional_digest field value expected =
    if is_nil value || length value == expected
    then ok tt
    else err (bad_identifier_width field expected (length value))

pub validate_upsert : NotificationUpsert → Result NotificationId Rejection
unfolding from_bytes check_device_id check_text check_optional_digest
validate_upsert msg = do
  id ← from_bytes msg.notification_id
  check_device_id msg.origin_device_id
  check_text app_id msg.app_id max_app_id_bytes
  check_text app_label msg.app_label max_app_label_bytes
  check_text title msg.title max_title_bytes
  check_text body msg.body max_body_bytes
  check_optional_digest group_id msg.group_id group_id_len
  check_optional_digest content_hash msg.content_hash content_hash_len
  ok id

pub validate_remove : NotificationRemove → Result NotificationId Rejection
unfolding from_bytes check_device_id
validate_remove msg = do
  id ← from_bytes msg.notification_id
  check_device_id msg.origin_device_id
  ok id

pub validate_dismiss : DismissRequest → Result NotificationId Rejection
unfolding from_bytes check_device_id
validate_dismiss msg = do
  id ← from_bytes msg.notification_id
  check_device_id msg.origin_device_id
  ok id

pub validate_roles : NotificationRoles → Result (Unit {0}) Rejection
validate_roles msg = if msg.epoch == 0 then err unset_epoch else ok tt

pub validate_sync_marker : SyncMarker → Result (Unit {0}) Rejection
validate_sync_marker msg =
    let got = length msg.sync_id in
    if not (got == sync_id_len) then err (bad_identifier_width sync_id sync_id_len got) else ok tt

validate_body : Body → Result (Unit {0}) Rejection
unfolding validate_roles validate_upsert validate_remove validate_dismiss validate_sync_marker
    from_bytes
validate_body (Body.roles m) = validate_roles m
validate_body (Body.upsert m) = forget (validate_upsert m)
validate_body (Body.remove m) = forget (validate_remove m)
validate_body (Body.dismiss m) = forget (validate_dismiss m)
validate_body (Body.result m) = forget (from_bytes m.notification_id)
validate_body (Body.sync m) = validate_sync_marker m

pub validate_control : NotificationControl → ℕ → Result (Unit {0}) Rejection
unfolding validate_body
validate_control msg encoded_len =
    if ltb max_notification_bytes encoded_len
    then err (message_too_large max_notification_bytes encoded_len)
    else do message ← ok_or msg.body empty_body; validate_body message
