-- ===== src/Speech.antt =====
-- The spoken answers (src/hal9000/speech).
pub mod Chunker
