-- ===== src/Collections.antt =====
-- The standard collections that the program uses.
pub mod BTreeMap
pub mod Sorted
