-- ===== src/Ingestion/Observations.antt =====
-- `EventRunInput` of src/hal9000/sentience/events/coalescer.py, and what Python's `re`, `hashlib`,
-- `json` and `uuid` decide about an observation, a parameter.
use bollywood_hal.Prelude.{ℕ, String, Option, List}
use bollywood_hal.Storage.Models.{RetentionClass, Sensitivity, Severity}
use bollywood_hal.Storage.Json.{Json}

-- `observed_at` is the millisecond since the epoch of a timezone-aware time; `none` is a naive one.
pub record EventRunInput : Type 0 where
  pub source : String
  pub type : String
  pub subject : String
  pub observed_at : Option ℕ
  pub severity : Severity
  pub task_id : Option String
  pub normalized_template : String
  pub redacted_payload : Json
  pub retention_class : RetentionClass
  pub sensitivity : Sensitivity

pub record Normalizer : Type 0 where
  -- `redact_data(value)`
  pub redact_data : Json → Json
  -- `stable_fingerprint(normalize_observation(source, type, subject, payload))`
  pub fingerprint : String → String → String → Json → String
  -- `json.dumps(payload, sort_keys=True, separators=(",", ":"))[:16_384]`
  pub dumps : Json → String
  -- `redact_text(template)[:4096]`
  pub redact_template : String → String
  -- `uuid.uuid5(uuid.NAMESPACE_URL, "hal-event-run:" + "|".join(key))`
  pub run_id : List String → String
  -- `datetime.isoformat` of a second
  pub iso_second : ℕ → String
