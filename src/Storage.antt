-- ===== src/Storage.antt =====
-- The authoritative store of the machine self (src/hal9000/sentience/storage/database.py).
pub mod Models
pub mod Envelope
pub mod Rows
pub mod Json
pub mod Table
pub mod Exact
pub mod Verify
pub mod History
