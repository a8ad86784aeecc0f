-- ===== src/Files.antt =====
-- desktop/capabilities/files: sending and receiving files.
pub mod Transfer
pub mod Filename
pub mod Stream
pub mod Destination
pub mod Auth
pub mod Manager
