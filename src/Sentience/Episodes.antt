-- ===== src/Sentience/Episodes.antt =====
-- `DegradationStatus` of src/hal9000/sentience/degradation/episodes.py, and `DegradationEngine.status`.
use bollywood_hal.Prelude.{ℕ, String, Bool, true, false, Option, none, some, List, []}
use bollywood_hal.Sentience.Degradation.{truthy}
use bollywood_hal.Storage.Models.{DegradationState, nominal, DegradationSeverity}
use bollywood_hal.Storage.Table.{select_latest}
use bollywood_hal.Sentience.Tables.{EpisodeRow, Tables}

pub record DegradationStatus : Type 0 where
  pub state : DegradationState
  pub episode_id : Option String
  pub severity : DegradationSeverity
  pub nominal_profile : String
  pub active_profile : String
  pub lost_capabilities : List String
  pub affected_tasks : List String
  pub fallback_model : Option String
  pub phrase_emitted : Bool
  pub recovery_phrase_emitted : Bool
  pub recovery_started_at : Option ℕ
  pub recovered_at : Option ℕ
  pub conclusions : List String

-- `DegradationStatus.from_row`
unfoldable pub from_row : EpisodeRow → DegradationStatus
unfolding truthy
from_row r = record {
  state = r.state;
  episode_id = some r.episode_id;
  severity = r.severity;
  nominal_profile = r.nominal_profile;
  active_profile = r.active_profile;
  lost_capabilities = r.lost_capabilities;
  affected_tasks = r.affected_tasks;
  fallback_model = truthy r.fallback_model;
  phrase_emitted = r.phrase_emitted;
  recovery_phrase_emitted = r.recovery_phrase_emitted;
  recovery_started_at = r.recovery_started_at;
  recovered_at = r.recovered_at;
  conclusions = r.conclusions;
}

-- `DegradationStatus(DegradationState.NOMINAL)`, with the defaults of the class
unfoldable pub no_episode : DegradationStatus
no_episode = record {
  state = nominal;
  episode_id = none;
  severity = DegradationSeverity.peripheral;
  nominal_profile = "hal-full";
  active_profile = "hal-full";
  lost_capabilities = [];
  affected_tasks = [];
  fallback_model = none;
  phrase_emitted = false;
  recovery_phrase_emitted = false;
  recovery_started_at = none;
  recovered_at = none;
  conclusions = [];
}

unfoldable pub status : {F : Type 0} → Tables F → DegradationStatus
unfolding from_row no_episode
status t = elim (select_latest (λ _. true) (λ (r : EpisodeRow). r.started_at) t.episodes) [
  | none ↦ no_episode
  | some r ↦ from_row r
]
