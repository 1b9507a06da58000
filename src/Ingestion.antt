-- ===== src/Ingestion.antt =====
-- The intake of observations (src/hal9000/sentience/event_bus.py and src/hal9000/sentience/events).
pub mod Observations
pub mod Routing
pub mod Sampler
pub mod Writer
pub mod Coalescer
pub mod Bus
