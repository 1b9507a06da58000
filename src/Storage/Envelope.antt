-- ===== src/Storage/Envelope.antt =====
-- `EventEnvelope` of src/hal9000/sentience/event_envelope.py. What Python's own libraries decide
-- about a field (`uuid.UUID`, `re`, `json.dumps`, `math.isfinite`, `datetime.fromisoformat`) is a
-- parameter, `Platform`. A payload is a value of the type `P`, a float one of the type `F`.
use bollywood_hal.Prelude.{ℕ, ◌*◌, String, Bool, true, false, not, Option, none, some, leb, ◌==◌}
use bollywood_hal.Action.{Result, ok, raised, validation_error, ◌>>◌, require}
use bollywood_hal.Storage.Models.{RetentionClass, Sensitivity, Severity, EventOrigin, observation}

-- A Python `int`.
pub data ℤ : Type 0 where
  pos : ℕ → ℤ
  negsuc : ℕ → ℤ

is_negative : ℤ → Bool
is_negative (pos n) = false
is_negative (negsuc n) = true

pub record Platform (P F : Type 0) : Type 0 where
  -- `uuid.UUID(value)` does not raise
  pub is_uuid : String → Bool
  -- `_NAME.fullmatch(value)`
  pub is_name : String → Bool
  -- `math.isfinite(c) and 0 <= c <= 1`
  pub in_unit_interval : F → Bool
  -- the bytes of the canonical JSON text of a payload; `none` where `json.dumps` raises
  pub payload_bytes : P → Option ℕ
  -- `len(value)`
  pub text_length : String → ℕ
  -- the offset of a parsed ISO timestamp is that of UTC; `none` where it does not parse
  pub stamp_is_utc : String → Option Bool

pub record Envelope (P F : Type 0) : Type 0 where
  pub event_id : String
  pub schema_version : ℕ
  pub occurred_at_utc : String
  pub received_at_utc : String
  pub monotonic_ns : ℤ
  pub boot_id : String
  pub source : String
  pub type : String
  pub subject : String
  pub severity : Severity
  pub correlation_id : Option String
  pub causation_id : Option String
  pub task_id : Option String
  pub origin : EventOrigin
  pub confidence : F
  pub retention_class : RetentionClass
  pub sensitivity : Sensitivity
  pub payload : P
  pub idempotency_key : Option String
  pub internal : Bool

abbrev pub schema_version : ℕ
schema_version = 1

abbrev pub max_event_payload_bytes : ℕ
max_event_payload_bytes = 256 * 1024

is_observation : EventOrigin → Bool
is_observation observation = true
is_observation _ = false

-- the property `observed`
unfoldable pub observed : {P F : Type 0} → Envelope P F → Bool
unfolding is_observation
observed e = is_observation e.origin

module _ {P F : Type 0} (p : Platform P F) where
  check_optional : String → Option String → Result (Unit {0})
  check_optional label none = ok tt
  check_optional label (some v) = require (leb (p.text_length v) 512) (validation_error label)

  check_payload : Option ℕ → Result (Unit {0})
  check_payload none = raised (validation_error "payload must be finite JSON data")
  check_payload (some n) =
      require (leb n max_event_payload_bytes)
        (validation_error "event payload exceeds the bounded envelope limit")

  check_stamp : String → Option Bool → Result (Unit {0})
  check_stamp label none = raised (validation_error label)
  check_stamp label (some utc) = require utc (validation_error label)

  unfoldable pub validate : Envelope P F → Result (Unit {0})
  unfolding is_negative check_optional check_payload check_stamp
  validate e = do
    require (p.is_uuid e.event_id) (validation_error "event_id must be a UUID")
    require (p.is_uuid e.boot_id) (validation_error "boot_id must be a UUID")
    require (p.is_name e.source) (validation_error "source is missing or malformed")
    require (p.is_name e.type) (validation_error "type is missing or malformed")
    require (p.is_name e.subject) (validation_error "subject is missing or malformed")
    require (e.schema_version == schema_version)
        (validation_error "unsupported event schema version")
    require (not (is_negative e.monotonic_ns))
        (validation_error "monotonic_ns must not be negative")
    require (p.in_unit_interval e.confidence)
        (validation_error "confidence must be between 0 and 1")
    check_payload (p.payload_bytes e.payload)
    check_optional "correlation_id is malformed" e.correlation_id
    check_optional "causation_id is malformed" e.causation_id
    check_optional "task_id is malformed" e.task_id
    check_optional "idempotency_key is malformed" e.idempotency_key
    check_stamp "occurred_at_utc" (p.stamp_is_utc e.occurred_at_utc)
    check_stamp "received_at_utc" (p.stamp_is_utc e.received_at_utc)

  -- `replace(self, payload=payload)`, validated again
  unfoldable pub with_payload : Envelope P F → P → Result (Envelope P F)
  with_payload e payload = do
    let updated = record e { payload = payload }
    validate updated
    ok updated
