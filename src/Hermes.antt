-- ===== src/Hermes.antt =====
-- The client of the Hermes agent (src/hal9000/hermes).
pub mod Router
