-- ===== src/Sentience.antt =====
-- The machine self (src/hal9000/sentience): the tables that its ledgers share, and the ledgers.
pub mod Tables
pub mod Runtime
pub mod Impact
pub mod Episodes
pub mod Degradation
pub mod Capabilities
pub mod Lease
pub mod Outbox
pub mod Actions
