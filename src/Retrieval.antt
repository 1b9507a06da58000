-- ===== src/Retrieval.antt =====
-- The reading of the machine's memory (src/hal9000/sentience/retrieval).
pub mod TokenBudget
