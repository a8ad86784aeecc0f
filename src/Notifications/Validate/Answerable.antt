-- ===== src/Notifications/Validate/Answerable.antt =====
-- Which rejected messages can be answered, and what an accepted one names.
use anyflow.Prelude.{
  ℕ, ◌≤◌, ◌≡◌, ◌≢◌, refl, inl, inr, Bool, true, false, Option, none, some, length, ◌==◌, Bytes,
  Result, ok, err, forget, arith, Option-cases,
}
use anyflow.Notifications.Id.{NotificationId}
use anyflow.Notifications.Wire.{NotificationUpsert, Body, NotificationControl}
use anyflow.Notifications.Validate.{
  Field, Rejection, is_answerable, from_bytes, check_text, check_device_id, check_optional_digest,
  notification_id, app_id, app_label, title, body, group_id, content_hash, validate_upsert,
  validate_roles, validate_sync_marker, validate_body, validate_control, max_notification_bytes,
  notification_id_len, max_app_id_bytes, max_app_label_bytes, max_title_bytes, max_body_bytes,
  group_id_len, content_hash_len, validate_remove, validate_dismiss,
}
use anyflow.Notifications.Validate.Accepted.{validate_upsert_iff}

-- The identity that a message names.
abbrev pub identity_of : Body → Option Bytes
identity_of (Body.roles m) = none
identity_of (Body.upsert m) = some m.notification_id
identity_of (Body.remove m) = some m.notification_id
identity_of (Body.dismiss m) = some m.notification_id
identity_of (Body.result m) = some m.notification_id
identity_of (Body.sync m) = none

abbrev pub names_answer : Option Bytes → Bool
names_answer none = true
names_answer (some id) = length id == notification_id_len

abbrev pub is_refused {ℓ} : {A : Type ℓ} → Result A Rejection → (Rejection → Bool) → Bool
is_refused (ok a) p = true
is_refused (err r) p = p r

device_id-answerable :
    (value : Bytes) (r : Rejection) → check_device_id value ≡ err r → is_answerable r ≡ true
unfolding check_device_id is_answerable
device_id-answerable value r h = ground arith

text-answerable :
    (f : Field) (value : Bytes) (limit : ℕ) (r : Rejection)
    → check_text f value limit ≡ err r
    → is_answerable r ≡ true
unfolding check_text is_answerable
text-answerable f value limit r h = ground arith

digest-answerable :
    (f : Field) (value : Bytes) (expected : ℕ) (r : Rejection)
    → f ≢ notification_id
    → check_optional_digest f value expected ≡ err r
    → is_answerable r ≡ true
unfolding check_optional_digest is_answerable
digest-answerable f value expected r n h = ground arith

width-answerable :
    (b : Bytes) (r : Rejection)
    → from_bytes b ≡ err r
    → (is_answerable r ≡ false) × ((length b == notification_id_len) ≡ false)
unfolding from_bytes is_answerable
width-answerable b r h = (ground arith, ground arith)

from_bytes-width :
    (b : Bytes) (id : NotificationId)
    → from_bytes b ≡ ok id
    → (length b == notification_id_len) ≡ true
unfolding from_bytes
from_bytes-width b id h = ground arith

upsert-answerable :
    (m : NotificationUpsert) (r : Rejection)
    → validate_upsert m ≡ err r
    → is_answerable r ≡ (length m.notification_id == notification_id_len)
unfolding validate_upsert
upsert-answerable m r h = go (from_bytes m.notification_id) refl
  where
    go :
        (p : Result NotificationId Rejection)
        → from_bytes m.notification_id ≡ p
        → is_answerable r ≡ (length m.notification_id == notification_id_len)
    go (err e) f = ground (arith, width-answerable m.notification_id e f)
    go (ok id) f = ground (
      arith,
      from_bytes-width m.notification_id id f,
      device_id-answerable m.origin_device_id r,
      text-answerable app_id m.app_id max_app_id_bytes r,
      text-answerable app_label m.app_label max_app_label_bytes r,
      text-answerable title m.title max_title_bytes r,
      text-answerable body m.body max_body_bytes r,
      digest-answerable group_id m.group_id group_id_len r (λ e. cc),
      digest-answerable content_hash m.content_hash content_hash_len r (λ e. cc),
    )

named-answerable :
    (i o : Bytes) (r : Rejection)
    → forget (validate_remove (record { notification_id = i; origin_device_id = o })) ≡ err r
    → is_answerable r ≡ (length i == notification_id_len)
unfolding validate_remove
named-answerable i o r h = go (from_bytes i) refl
  where
    go :
        (p : Result NotificationId Rejection)
        → from_bytes i ≡ p
        → is_answerable r ≡ (length i == notification_id_len)
    go (err e) f = ground (arith, width-answerable i e f)
    go (ok id) f = ground (arith, from_bytes-width i id f, device_id-answerable o r)

body-answerable :
    (b : Body) (r : Rejection)
    → validate_body b ≡ err r
    → is_answerable r ≡ names_answer (identity_of b)
unfolding validate_body
body-answerable (Body.roles m) r h = unfold validate_roles is_answerable in ground arith
body-answerable (Body.upsert m) r h = upsert-answerable m r (ground arith)
body-answerable (Body.remove m) r h = named-answerable m.notification_id m.origin_device_id r h
body-answerable (Body.dismiss m) r h =
    named-answerable m.notification_id m.origin_device_id r
      (unfold validate_remove validate_dismiss in h)
body-answerable (Body.result m) r h = unfold from_bytes is_answerable in ground arith
body-answerable (Body.sync m) r h = unfold validate_sync_marker is_answerable in ground arith

-- A control message of at most 8192 bytes that is rejected may be answered, unless it names an
-- identity of the wrong width: then there is no identity to answer about.
pub validate_control-answerable :
    (m : NotificationControl) (encoded_len : ℕ) (b : Body) (r : Rejection)
    → encoded_len ≤ max_notification_bytes
    → m.body ≡ some b
    → validate_control m encoded_len ≡ err r
    → is_answerable r ≡ names_answer (identity_of b)
unfolding validate_control
validate_control-answerable m encoded_len b r fits e h = ground (arith, body-answerable b r)

upsert-accepted :
    (m : NotificationUpsert) (id : NotificationId)
    → validate_upsert m ≡ ok id
    → (length m.notification_id == notification_id_len) ≡ true
upsert-accepted m id h = ground (arith, ((validate_upsert_iff m id).0 h).0.id)

named-accepted :
    (i o : Bytes)
    → forget (validate_remove (record { notification_id = i; origin_device_id = o })) ≡ ok tt
    → (length i == notification_id_len) ≡ true
unfolding validate_remove from_bytes
named-accepted i o h = ground arith

body-accepted : (b : Body) → validate_body b ≡ ok tt → names_answer (identity_of b) ≡ true
unfolding validate_body
body-accepted (Body.roles m) h = refl
body-accepted (Body.upsert m) h = go (validate_upsert m) refl
  where
    go :
        (r : Result NotificationId Rejection)
        → validate_upsert m ≡ r
        → (length m.notification_id == notification_id_len) ≡ true
    go (ok id) e = upsert-accepted m id e
    go (err x) e = absurd (ground arith)
body-accepted (Body.remove m) h = named-accepted m.notification_id m.origin_device_id h
body-accepted (Body.dismiss m) h =
    named-accepted m.notification_id m.origin_device_id
      (unfold validate_remove validate_dismiss in h)
body-accepted (Body.result m) h = unfold from_bytes in ground arith
body-accepted (Body.sync m) h = refl

-- A control message that is accepted has a body, is at most 8192 bytes, and names no identity but
-- one of sixteen bytes.
pub validate_control-accepted :
    (m : NotificationControl) (encoded_len : ℕ)
    → validate_control m encoded_len ≡ ok tt
    → (encoded_len ≤ max_notification_bytes)
      × (b : Body) × (m.body ≡ some b)
      × (names_answer (identity_of b) ≡ true)
unfolding validate_control
validate_control-accepted m encoded_len h = elim (Option-cases m.body) [
  | inl e ↦ absurd (ground arith)
  | inr (b, e) ↦ (ground arith, b, e, body-accepted b (ground arith))
]
