-- ===== src/Sentience/Degradation/Records.antt =====
-- The events that `DegradationEngine` appends and the values that it writes
-- (src/hal9000/sentience/degradation/engine.py).
use bollywood_hal.Prelude.{
  String, false, Option, none, some, List, [], ◌∷◌, add_text, add_texts, ◌=s◌, if◌then◌else◌,
}
use bollywood_hal.Storage.Models.{
  degrading, DegradationSeverity, Severity, warning, error, observation,
}
use bollywood_hal.Storage.Json.{Json, obj, field, end}
use bollywood_hal.Sentience.Tables.{EpisodeRow}
use bollywood_hal.Sentience.Runtime.{Now, utc_ms, NewEvent}
use bollywood_hal.Sentience.Impact.{from_impact, maximum}
use bollywood_hal.Sentience.Degradation.{CapabilityTransition, Engine}
use bollywood_hal.Sentience.Degradation.Projections.{is_critical, Loss}

-- The UUIDs that one operation may draw.
pub record Fresh : Type 0 where
  pub event_id : String
  pub episode_id : String
  pub outbox_id : String

-- `Severity.ERROR if severity is CRITICAL else Severity.WARNING`
unfoldable pub loss_severity : DegradationSeverity → Severity
loss_severity s = if is_critical s then error else warning

unfoldable pub severity_text : DegradationSeverity → String
severity_text DegradationSeverity.cosmetic = "cosmetic"
severity_text DegradationSeverity.peripheral = "peripheral"
severity_text DegradationSeverity.cognitive = "cognitive"
severity_text DegradationSeverity.critical = "critical"

abbrev pub pair : String → Json → String → Json → Json
pair k v l w = obj (field k v (field l w end))

-- `_event`
unfoldable pub engine_event :
    String → String → Severity → Json → Option String → Option String → Fresh → NewEvent
engine_event event_type episode_id severity payload task_id causation_id fresh = record {
  event_id = fresh.event_id;
  source = "hal.degradation";
  event_type = event_type;
  subject = episode_id;
  severity = severity;
  origin = observation;
  payload = payload;
  task_id = task_id;
  causation_id = causation_id;
  idempotency_key = none;
}

-- `row[…] or uuid.uuid4()`
unfoldable pub or_fresh : Option String → Fresh → String
or_fresh none fresh = fresh.outbox_id
or_fresh (some id) fresh = if id =s "" then fresh.outbox_id else id

abbrev pub one_or_none : Option String → List String
one_or_none none = []
one_or_none (some s) = s ∷ []

abbrev pub add_optional : Option String → List String → List String
add_optional none xs = xs
add_optional (some s) xs = add_text s xs

-- the row that `_start_episode` inserts
unfoldable pub new_row :
    {F D : Type 0}
    → Engine F D
    → CapabilityTransition
    → String
    → Option String
    → Now
    → Fresh
    → Option String
    → List String
    → EpisodeRow
new_row e transition profile fallback now fresh task_id required = record {
  episode_id = fresh.episode_id;
  state = degrading;
  started_at = utc_ms now;
  aggregation_closed_at = none;
  nominal_profile = e.nominal_profile;
  active_profile = profile;
  severity = from_impact transition.task_impact;
  lost_capabilities = transition.capability_id ∷ [];
  affected_tasks = one_or_none task_id;
  fallback_model = fallback;
  cause_event_ids = transition.event_id ∷ [];
  phrase_outbox_id = none;
  phrase_emitted = false;
  recovery_started_at = none;
  recovered_at = none;
  recovery_phrase_outbox_id = none;
  recovery_phrase_emitted = false;
  conclusions = [];
  last_transition_event_id = fresh.event_id;
  required_capabilities = required;
  timer_boot_id = some e.runtime.boot_id;
  started_monotonic_ns = some now.monotonic_ns;
  recovery_started_monotonic_ns = none;
  recovered_monotonic_ns = none;
}

-- what `_aggregate_loss` computes from the row that it read; an empty id is not added
unfoldable pub loss_of :
    EpisodeRow → CapabilityTransition → String → Option String → Option String → List String → Loss
loss_of row transition profile fallback task_id required = record {
  active_profile = profile;
  severity = maximum row.severity (from_impact transition.task_impact);
  lost = add_nonempty transition.capability_id row.lost_capabilities;
  tasks = add_optional task_id row.affected_tasks;
  fallback_model = fallback;
  causes = add_nonempty transition.event_id row.cause_event_ids;
  required = add_texts required row.required_capabilities;
}
  where
    add_nonempty : String → List String → List String
    add_nonempty s xs = if s =s "" then xs else add_text s xs
