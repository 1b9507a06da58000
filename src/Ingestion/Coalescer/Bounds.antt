-- ===== src/Ingestion/Coalescer/Bounds.antt =====
-- The open runs of the coalescer stay within their limit.
use bollywood_hal.Prelude.{ℕ, ◌≡◌, ◌≤◌, String, List, [], ◌∷◌, length}
use bollywood_hal.Ingestion.Observations.{EventRunInput, Normalizer}
use bollywood_hal.Ingestion.Coalescer.{Coalescer}
use bollywood_hal.Ingestion.Coalescer.Runs.{add}

-- a limit that is positive, and that the open runs keep
pub record Bounded (n : ℕ) (k : Coalescer) : Type 0 where
  pub positive : 1 ≤ n
  pub limit : k.max_open_runs ≡ n
  pub open_runs : length k.runs ≤ n

module _ (score : String → ℕ → ℕ) (nz : Normalizer) where
  -- the coalescer after some observations
  unfoldable pub adds : List EventRunInput → Coalescer → Coalescer
  adds [] k = k
  adds (x ∷ xs) k = adds xs (add score nz x k).1
