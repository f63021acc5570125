-- ===== src/Storage.antt =====
-- tako_vm/storage.py: the table execution_records, as a dictionary of rows by execution_id.
-- A row gives each column its value, `none` for SQL's NULL.
pub mod Columns
pub mod Records
pub mod Effects
pub mod Terminal
pub mod Identity
pub mod Unique
pub mod Keys
pub mod Decode
pub mod RoundTrip
pub mod Reading
pub mod Listing
pub mod Sessions
pub mod DeadLetters
