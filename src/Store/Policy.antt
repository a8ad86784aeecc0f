-- ===== src/Store/Policy.antt =====
-- desktop/core/src/clipboard_policy.rs and notification_policy.rs: what a granted device may do.
use anyflow.Prelude.{Bool, true, false, ◌&&◌}

pub record ClipboardPolicy : Type 0 where
  pub allow_send : Bool
  pub allow_receive : Bool
  pub auto_send : Bool
  pub auto_receive : Bool

abbrev pub clipboard_default : ClipboardPolicy
clipboard_default = record {
  allow_send = true;
  allow_receive = true;
  auto_send = false;
  auto_receive = false;
}

abbrev pub clipboard_denied : ClipboardPolicy
clipboard_denied = record {
  allow_send = false;
  allow_receive = false;
  auto_send = false;
  auto_receive = false;
}

pub may_auto_send : ClipboardPolicy → Bool
may_auto_send p = p.allow_send && p.auto_send

unfoldable pub may_auto_receive : ClipboardPolicy → Bool
may_auto_receive p = p.allow_receive && p.auto_receive

pub data LockPolicy : Type 0 where
  full app_only suppress : LockPolicy

pub record NotificationPolicy : Type 0 where
  pub allow_mirror : Bool
  pub when_sink_locked : LockPolicy
  pub allow_dismiss_sync : Bool

abbrev pub notification_default : NotificationPolicy
notification_default = record {
  allow_mirror = true;
  when_sink_locked = app_only;
  allow_dismiss_sync = false;
}

abbrev pub notification_denied : NotificationPolicy
notification_denied = record {
  allow_mirror = false;
  when_sink_locked = suppress;
  allow_dismiss_sync = false;
}

pub may_sync_dismissals : NotificationPolicy → Bool
may_sync_dismissals p = p.allow_mirror && p.allow_dismiss_sync
