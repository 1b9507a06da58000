-- ===== src/Sentience/Capabilities/Events.antt =====
-- The events of the capability and task ledgers (src/hal9000/sentience/capabilities).
use bollywood_hal.Prelude.{String, Bool, ◌=s◌, Option, none, some, ltb}
use bollywood_hal.Storage.Models.{CapabilityLifecycle, EventOrigin, Severity}
use bollywood_hal.Storage.Json.{Json}
use bollywood_hal.Storage.Table.{row_count}
use bollywood_hal.Sentience.Tables.{
  ImpactLevel, none_impact, cosmetic, peripheral, cognitive, critical, DefinitionRow, Tables,
}
use bollywood_hal.Sentience.Runtime.{NewEvent}

abbrev pub lifecycle_text : CapabilityLifecycle → String
lifecycle_text CapabilityLifecycle.unknown = "UNKNOWN"
lifecycle_text CapabilityLifecycle.discovered = "DISCOVERED"
lifecycle_text CapabilityLifecycle.initializing = "INITIALIZING"
lifecycle_text CapabilityLifecycle.ready = "READY"
lifecycle_text CapabilityLifecycle.degraded = "DEGRADED"
lifecycle_text CapabilityLifecycle.unreliable = "UNRELIABLE"
lifecycle_text CapabilityLifecycle.denied = "DENIED"
lifecycle_text CapabilityLifecycle.unavailable = "UNAVAILABLE"
lifecycle_text CapabilityLifecycle.disconnected = "DISCONNECTED"
lifecycle_text CapabilityLifecycle.failed = "FAILED"
lifecycle_text CapabilityLifecycle.recovering = "RECOVERING"
lifecycle_text CapabilityLifecycle.stale = "STALE"

abbrev pub impact_text : ImpactLevel → String
impact_text none_impact = "none"
impact_text cosmetic = "cosmetic"
impact_text peripheral = "peripheral"
impact_text cognitive = "cognitive"
impact_text critical = "critical"

-- an event of a ledger on one subject
abbrev pub ledger_event :
    String
    → String
    → String
    → String
    → Severity
    → EventOrigin
    → Json
    → Option String
    → String
    → NewEvent
ledger_event event_id source event_type subject severity origin payload task_id key = record {
  event_id = event_id;
  source = source;
  event_type = event_type;
  subject = subject;
  severity = severity;
  origin = origin;
  payload = payload;
  task_id = task_id;
  causation_id = none;
  idempotency_key = some key;
}

unfoldable pub is_defined : {F : Type 0} → Tables F → String → Bool
unfolding row_count
is_defined t capability_id =
    ltb 0 (row_count (λ (d : DefinitionRow). d.capability_id =s capability_id) t.definitions)
