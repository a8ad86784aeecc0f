-- ===== src/Clipboard.antt =====
-- desktop/capabilities/clipboard/src/dedup.rs: the two caches that keep a clipboard text from being
-- applied twice, or sent back to where it came from. Time is a number, given to each call.
pub mod Events
pub mod Suppressions
pub mod Text
pub mod Manager
