-- ===== src/Ingestion/Coalescer/Severities.antt =====
-- The severity that a run keeps in its row (the CASE of `_flush_one`,
-- src/hal9000/sentience/events/coalescer.py).
use bollywood_hal.Prelude.{◌≡◌, ◌≤◌, ◌<◌, ◌↔◌, arith}
use bollywood_hal.Storage.Models.{Severity}
use bollywood_hal.Ingestion.Sampler.{rank}
use bollywood_hal.Ingestion.Coalescer.{raise_severity}
use bollywood_hal.Ingestion.Coalescer.Runs.{higher}

-- The severity of a row is never lowered, and it is the higher of the old one and the new one exactly
-- if a new one that is higher is a warning at least: `notice` and `info` never replace a lower one.
pub raise_severity-higher :
    (old new : Severity)
    → (rank old ≤ rank (raise_severity old new))
      × ((raise_severity old new ≡ higher old new) ↔ (rank old < rank new → 3 ≤ rank new))
unfolding raise_severity
raise_severity-higher old new = ground arith
