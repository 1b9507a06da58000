-- ===== src/Sentience/Runtime.antt =====
-- What a ledger is built with, and the events that it appends
-- (`EventEnvelope.new` of src/hal9000/sentience/event_envelope.py).
use bollywood_hal.Prelude.{ℕ, ◌/◌, String, false, Option, none, some}
use bollywood_hal.Action.{Action}
use bollywood_hal.Storage.Models.{forever, internal, Severity, EventOrigin, StoredEvent}
use bollywood_hal.Storage.Envelope.{pos, Platform, Envelope, schema_version}
use bollywood_hal.Storage.Json.{Json}
use bollywood_hal.Storage.Rows.{Codec, Db}
use bollywood_hal.Storage.Exact.{Projection, append_exact_event}
use bollywood_hal.Sentience.Tables.{Tables}

-- `iso` is `datetime.isoformat` of a millisecond, `one` the float 1.0.
pub record Runtime (F D : Type 0) : Type 0 where
  pub platform : Platform Json F
  pub codec : Codec Json F D
  pub one : F
  pub iso : ℕ → String
  pub boot_id : String

-- the database of the machine self
abbrev pub Self : Type 0 → Type 0 → Type 0
Self F D = Db Json F D (Tables F)

-- One reading of the clocks: the wall clock in microseconds, the monotonic one in nanoseconds.
pub record Now : Type 0 where
  pub wall_us : ℕ
  pub monotonic_ns : ℕ

-- the millisecond that `utc_iso` writes
abbrev pub utc_ms : Now → ℕ
utc_ms now = now.wall_us / 1000

-- The arguments that the ledgers give to `EventEnvelope.new`; `event_id` is the fresh UUID.
pub record NewEvent : Type 0 where
  pub event_id : String
  pub source : String
  pub event_type : String
  pub subject : String
  pub severity : Severity
  pub origin : EventOrigin
  pub payload : Json
  pub task_id : Option String
  pub causation_id : Option String
  pub idempotency_key : Option String

module _ {F D : Type 0} (rt : Runtime F D) where
  unfoldable pub new_event : NewEvent → Now → Envelope Json F
  new_event n now = record {
    event_id = n.event_id;
    schema_version = schema_version;
    occurred_at_utc = rt.iso (utc_ms now);
    received_at_utc = rt.iso (utc_ms now);
    monotonic_ns = pos now.monotonic_ns;
    boot_id = rt.boot_id;
    source = n.source;
    type = n.event_type;
    subject = n.subject;
    severity = n.severity;
    correlation_id = none;
    causation_id = n.causation_id;
    task_id = n.task_id;
    origin = n.origin;
    confidence = rt.one;
    retention_class = forever;
    sensitivity = internal;
    payload = n.payload;
    idempotency_key = n.idempotency_key;
    internal = false;
  }

  -- `self.database.append_exact_event(event, projection=project)`
  unfoldable pub append : NewEvent → Now → Projection (Tables F) → Action (Self F D) StoredEvent
  unfolding new_event
  append n now project =
      append_exact_event rt.platform rt.codec (new_event n now) (some project) none
