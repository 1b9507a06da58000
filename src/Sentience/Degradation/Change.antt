-- ===== src/Sentience/Degradation/Change.antt =====
-- The degradation state machine as a step relation on the tables, which the operations of
-- `DegradationEngine` (src/hal9000/sentience/degradation/engine.py) implement.
pub mod Transactions
pub mod Refinement
pub mod Keeps
pub mod Phrases
pub mod Edges
use bollywood_hal.Prelude.{ℕ, ◌≡◌, String, true, false, Option, none, some}
use bollywood_hal.Action.{ok}
use bollywood_hal.Storage.Models.{degrading, degraded, recovering, DegradationSeverity}
use bollywood_hal.Sentience.Tables.{EpisodeRow, degradation_phrase, recovery_phrase, Tables}
use bollywood_hal.Sentience.Degradation.{active_row, latest_recovered, all_restored}
use bollywood_hal.Sentience.Degradation.Projections.{
  set_episode, stop_task, insert_episode, enqueue_phrase, Loss, set_loss, set_degraded,
  set_cancelled, set_recovering, set_flapped, set_recovered,
}

module _ {F : Type 0} where
  -- The rows that a loss is added to: the active one, or else the one that recovered last.
  pub data Reopens (t : Tables F) (row : EpisodeRow) : Type 0 where
    aggregates : active_row t ≡ some row → Reopens t row
    flaps : active_row t ≡ none → latest_recovered t ≡ some row → Reopens t row

  -- One move of the machine, with the state that it starts from and the restoration that it needs.
  pub data Change (t t' : Tables F) : Type 0 where
    unchanged : t' ≡ t → Change t t'
    started :
        (row : EpisodeRow) (u : Tables F) (severity : DegradationSeverity) (task : Option String)
        (stamp : ℕ)
        → active_row t ≡ none
        → row.state ≡ degrading
        → insert_episode row t ≡ ok u
        → t' ≡ stop_task severity task stamp u
        → Change t t'
    lost :
        (row : EpisodeRow) (loss : Loss) (event : String) (task : Option String) (stamp : ℕ)
        → Reopens t row
        → t'
          ≡ stop_task loss.severity task stamp
              (set_episode row.episode_id (set_loss row.state loss event) t)
        → Change t t'
    confirmed :
        (row : EpisodeRow) (stamp : ℕ) (outbox phrase event : String)
        → active_row t ≡ some row
        → row.state ≡ degrading
        → all_restored t row.required_capabilities ≡ false
        → t'
          ≡ enqueue_phrase degradation_phrase row.episode_id outbox phrase stamp
              (set_episode row.episode_id (set_degraded stamp outbox event) t)
        → Change t t'
    cancelled :
        (row : EpisodeRow) (stamp monotonic : ℕ) (event : String)
        → active_row t ≡ some row
        → row.state ≡ degrading
        → all_restored t row.required_capabilities ≡ true
        → t' ≡ set_episode row.episode_id (set_cancelled stamp monotonic event) t
        → Change t t'
    restoring :
        (row : EpisodeRow) (profile boot : String) (stamp monotonic : ℕ) (event : String)
        → active_row t ≡ some row
        → row.state ≡ degraded
        → all_restored t row.required_capabilities ≡ true
        → t' ≡ set_episode row.episode_id (set_recovering profile boot stamp monotonic event) t
        → Change t t'
    flapped :
        (row : EpisodeRow) (profile event : String)
        → active_row t ≡ some row
        → row.state ≡ recovering
        → all_restored t row.required_capabilities ≡ false
        → t' ≡ set_episode row.episode_id (set_flapped profile event) t
        → Change t t'
    recovered :
        (row : EpisodeRow) (profile : String) (stamp monotonic : ℕ) (outbox phrase event : String)
        → active_row t ≡ some row
        → row.state ≡ recovering
        → all_restored t row.required_capabilities ≡ true
        → t'
          ≡ enqueue_phrase recovery_phrase row.episode_id outbox phrase stamp
              (set_episode row.episode_id (set_recovered profile stamp outbox monotonic event) t)
        → Change t t'
