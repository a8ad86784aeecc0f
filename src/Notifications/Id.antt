-- ===== src/Notifications/Id.antt =====
-- desktop/core/src/notifications.rs, `NotificationId`: sixteen bytes, ordered as bytes are.
use anyflow.Prelude.{
  ◌≡◌, ap, ◌↔◌, Ordering, Key, Bytes, cmp_bytes, cmp_bytes_eq, cmp_bytes_flip, cmp_bytes_trans,
}

pub record NotificationId : Type 0 where
  pub bytes : Bytes

pub cmp_id_eq : (a b : NotificationId) → (cmp_bytes a.bytes b.bytes ≡ Ordering.eq) ↔ (a ≡ b)
cmp_id_eq a b = (
  λ e. let p = (cmp_bytes_eq a.bytes b.bytes).0 e in λ i. record { bytes = p i },
  λ e. (cmp_bytes_eq a.bytes b.bytes).1 (ap (λ (x : NotificationId). x.bytes) e),
)

instance abbrev pub id_key : Key NotificationId
id_key = record {
  cmp = λ a b. cmp_bytes a.bytes b.bytes;
  cmp_eq = cmp_id_eq;
  cmp_flip = λ a b. cmp_bytes_flip a.bytes b.bytes;
  cmp_trans = λ a b c. cmp_bytes_trans a.bytes b.bytes c.bytes;
}
