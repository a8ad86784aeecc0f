-- ===== src/Notifications.antt =====
-- The notification mirror: desktop/core/src/notifications.rs and desktop/capabilities/notifications.
pub mod Wire
pub mod Id
pub mod Snapshot
pub mod Roles
pub mod Text
pub mod Validate
pub mod Queue
pub mod Mirror
