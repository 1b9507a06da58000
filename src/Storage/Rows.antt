-- ===== src/Storage/Rows.antt =====
-- The table `exact_events` of src/hal9000/sentience/storage/database.py: its rows, the lookups that
-- `append_exact_event` makes in it, and what `_event_hash` hashes. The rows are a list, the oldest
-- first; `last_sequence` is SQLite's AUTOINCREMENT counter; all other tables are a value of a type
-- `T`. JSON text and SHA-256 are parameters, `Codec`.
use bollywood_hal.Prelude.{
  ℕ, String, ◌≡◌, ◌↔◌, Bool, true, false, ◌||◌, Option, none, some, List, [], ◌∷◌, ◌=s◌,
  if◌then◌else◌,
}
use bollywood_hal.Storage.Models.{RetentionClass, forever, Sensitivity, Severity, EventOrigin}
use bollywood_hal.Storage.Envelope.{ℤ, Envelope}

-- The object whose canonical JSON text `_event_hash` hashes.
pub record Canonical (F D : Type 0) : Type 0 where
  pub sequence : ℕ
  pub previous_hash : Option D
  pub event_id : String
  pub schema_version : ℕ
  pub occurred_at_utc : String
  pub received_at_utc : String
  pub monotonic_ns : ℤ
  pub boot_id : String
  pub source : String
  pub type : String
  pub subject : String
  pub severity : Severity
  pub correlation_id : Option String
  pub causation_id : Option String
  pub task_id : Option String
  pub origin : EventOrigin
  pub confidence : F
  pub retention_class : RetentionClass
  pub sensitivity : Sensitivity
  pub payload_json : String

-- `D` is the type of the texts "sha256:…".
pub record Codec (P F D : Type 0) : Type 0 where
  pub dumps : P → String
  pub redact : P → P
  pub digest : Canonical F D → D
  pub same : D → D → Bool
  pub same_iff : (a b : D) → (same a b ≡ true) ↔ (a ≡ b)

pub record Row (P F D : Type 0) : Type 0 where
  pub sequence : ℕ
  pub event : Envelope P F
  pub payload_json : String
  pub previous_hash : Option D
  pub event_hash : Option D

pub record Db (P F D T : Type 0) : Type 0 where
  pub events : List (Row P F D)
  pub last_sequence : ℕ
  pub tables : T

unfoldable pub empty : {P F D T : Type 0} → T → Db P F D T
empty t = record { events = []; last_sequence = 0; tables = t }

unfoldable pub canonical : {P F D : Type 0} → ℕ → Option D → Envelope P F → String → Canonical F D
canonical sequence previous e payload_json = record {
  sequence = sequence;
  previous_hash = previous;
  event_id = e.event_id;
  schema_version = e.schema_version;
  occurred_at_utc = e.occurred_at_utc;
  received_at_utc = e.received_at_utc;
  monotonic_ns = e.monotonic_ns;
  boot_id = e.boot_id;
  source = e.source;
  type = e.type;
  subject = e.subject;
  severity = e.severity;
  correlation_id = e.correlation_id;
  causation_id = e.causation_id;
  task_id = e.task_id;
  origin = e.origin;
  confidence = e.confidence;
  retention_class = e.retention_class;
  sensitivity = e.sensitivity;
  payload_json = payload_json;
}

-- `? IS NOT NULL AND idempotency_key=?`
unfoldable pub same_key : Option String → Option String → Bool
same_key none stored = false
same_key (some k) none = false
same_key (some k) (some j) = j =s k

is_forever : RetentionClass → Bool
is_forever forever = true
is_forever _ = false

unfoldable pub should_chain : {P F : Type 0} → Option Bool → Envelope P F → Bool
unfolding is_forever
should_chain none e = is_forever e.retention_class
should_chain (some forced) e = forced

unfoldable pub latest : {D : Type 0} → Option D → Option D → Option D
latest none before = before
latest (some h) before = some h

module _ {P F D : Type 0} where
  abbrev pub matches : Envelope P F → Row P F D → Bool
  matches e r = r.event.event_id =s e.event_id || same_key e.idempotency_key r.event.idempotency_key

  -- the first row in the order of `sequence`, LIMIT 1
  unfoldable pub find_existing : Envelope P F → List (Row P F D) → Option (Row P F D)
  find_existing e [] = none
  find_existing e (r ∷ rs) = if matches e r then some r else find_existing e rs

  -- `event_hash` of the latest row that has one, or `before`
  unfoldable pub last_hash : Option D → List (Row P F D) → Option D
  unfolding latest
  last_hash before [] = before
  last_hash before (r ∷ rs) = last_hash (latest r.event_hash before) rs
