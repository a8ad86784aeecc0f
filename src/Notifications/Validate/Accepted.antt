-- ===== src/Notifications/Validate/Accepted.antt =====
-- Validation accepts exactly the well-formed messages, and says what a rejection may be answered to.
use anyflow.Prelude.{
  ℕ, ◌≤◌, ◌≡◌, refl, ◌↔◌, ◌⊎◌, inl, true, false, [], ◌∷◌, any, all, length, Bytes, ok, is_ok, arith,
}
use anyflow.Notifications.Id.{NotificationId}
use anyflow.Notifications.Wire.{NotificationUpsert}
use anyflow.Notifications.Validate.{
  Field, from_bytes, check_text, check_device_id, check_optional_digest, is_nul, is_lower_hex,
  app_id, app_label, title, body, group_id, content_hash, validate_upsert, device_id_hex_len,
  notification_id_len, max_app_id_bytes, max_app_label_bytes, max_title_bytes, max_body_bytes,
  group_id_len, content_hash_len,
}

abbrev pub IsText : Bytes → ℕ → Type 0
IsText value limit = (length value ≤ limit) × (any is_nul value ≡ false)

abbrev pub IsDeviceId : Bytes → Type 0
IsDeviceId value = (length value ≡ device_id_hex_len) × (all is_lower_hex value ≡ true)

abbrev pub IsDigest : Bytes → ℕ → Type 0
IsDigest value expected = (length value ≡ 0) ⊎ (length value ≡ expected)

pub record IsWellFormed (m : NotificationUpsert) : Type 0 where
  pub id : length m.notification_id ≡ notification_id_len
  pub origin : IsDeviceId m.origin_device_id
  pub app : IsText m.app_id max_app_id_bytes
  pub label : IsText m.app_label max_app_label_bytes
  pub head : IsText m.title max_title_bytes
  pub text : IsText m.body max_body_bytes
  pub group : IsDigest m.group_id group_id_len
  pub hash : IsDigest m.content_hash content_hash_len

check_text_iff :
    (f : Field) (value : Bytes) (limit : ℕ)
    → (is_ok (check_text f value limit) ≡ true) ↔ IsText value limit
unfolding check_text
check_text_iff f value limit = (λ h. ground arith, λ h. ground arith)

check_device_id_iff : (value : Bytes) → (is_ok (check_device_id value) ≡ true) ↔ IsDeviceId value
unfolding check_device_id
check_device_id_iff value = (λ h. ground arith, λ h. ground arith)

check_optional_digest_iff :
    (f : Field) (value : Bytes) (expected : ℕ)
    → (is_ok (check_optional_digest f value expected) ≡ true) ↔ IsDigest value expected
unfolding check_optional_digest
check_optional_digest_iff f [] expected = (λ h. inl refl, λ h. refl)
check_optional_digest_iff f (b ∷ bs) expected = (λ h. ground arith, λ h. ground arith)

from_bytes_iff :
    (b : Bytes) (id : NotificationId)
    → (from_bytes b ≡ ok id) ↔ ((length b ≡ notification_id_len) × (id.bytes ≡ b))
unfolding from_bytes
from_bytes_iff b id = (λ h. ground arith, λ h. ground arith)

abbrev Checked : NotificationUpsert → Type 0
Checked m =
    (is_ok (check_device_id m.origin_device_id) ≡ true)
    × (is_ok (check_text app_id m.app_id max_app_id_bytes) ≡ true)
    × (is_ok (check_text app_label m.app_label max_app_label_bytes) ≡ true)
    × (is_ok (check_text title m.title max_title_bytes) ≡ true)
    × (is_ok (check_text body m.body max_body_bytes) ≡ true)
    × (is_ok (check_optional_digest group_id m.group_id group_id_len) ≡ true)
    × (is_ok (check_optional_digest content_hash m.content_hash content_hash_len) ≡ true)

validate_upsert-Checked :
    (m : NotificationUpsert) (id : NotificationId)
    → (validate_upsert m ≡ ok id) ↔ ((from_bytes m.notification_id ≡ ok id) × Checked m)
unfolding validate_upsert
validate_upsert-Checked m id = (λ h. ground arith, λ h. ground arith)

-- An upsert is accepted exactly when every field is well formed, under the identity it names.
pub validate_upsert_iff :
    (m : NotificationUpsert) (id : NotificationId)
    → (validate_upsert m ≡ ok id) ↔ (IsWellFormed m × (id.bytes ≡ m.notification_id))
validate_upsert_iff m id = (
  λ h.
      let (parsed, origin, app, label, head, text, group, hash) = flat h in
      let (width, same) = (from_bytes_iff m.notification_id id).0 parsed in
      (
        record {
          id = width;
          origin = (check_device_id_iff m.origin_device_id).0 origin;
          app = (check_text_iff app_id m.app_id max_app_id_bytes).0 app;
          label = (check_text_iff app_label m.app_label max_app_label_bytes).0 label;
          head = (check_text_iff title m.title max_title_bytes).0 head;
          text = (check_text_iff body m.body max_body_bytes).0 text;
          group = (check_optional_digest_iff group_id m.group_id group_id_len).0 group;
          hash = (check_optional_digest_iff content_hash m.content_hash content_hash_len).0 hash;
        },
        same,
      ),
  λ h.
      let (w, same) = h in
      (validate_upsert-Checked m id).1 (
        (from_bytes_iff m.notification_id id).1 (w.id, same),
        (
          (check_device_id_iff m.origin_device_id).1 w.origin,
          (check_text_iff app_id m.app_id max_app_id_bytes).1 w.app,
          (check_text_iff app_label m.app_label max_app_label_bytes).1 w.label,
          (check_text_iff title m.title max_title_bytes).1 w.head,
          (check_text_iff body m.body max_body_bytes).1 w.text,
          (check_optional_digest_iff group_id m.group_id group_id_len).1 w.group,
          (check_optional_digest_iff content_hash m.content_hash content_hash_len).1 w.hash,
        ),
      ),
)
  where
    flat :
        validate_upsert m ≡ ok id
        → (from_bytes m.notification_id ≡ ok id)
          × (is_ok (check_device_id m.origin_device_id) ≡ true)
          × (is_ok (check_text app_id m.app_id max_app_id_bytes) ≡ true)
          × (is_ok (check_text app_label m.app_label max_app_label_bytes) ≡ true)
          × (is_ok (check_text title m.title max_title_bytes) ≡ true)
          × (is_ok (check_text body m.body max_body_bytes) ≡ true)
          × (is_ok (check_optional_digest group_id m.group_id group_id_len) ≡ true)
          × (is_ok (check_optional_digest content_hash m.content_hash content_hash_len) ≡ true)
    flat h =
        let (p, c) = (validate_upsert-Checked m id).0 h in (p, c.0, c.1, c.2, c.3, c.4, c.5, c.6)
