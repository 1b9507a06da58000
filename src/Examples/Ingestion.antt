-- ===== src/Examples/Ingestion.antt =====
-- The theorems of the writer and the bus at concrete inputs.
use bollywood_hal.Prelude.{
  ℕ, ◌+◌, ◌≡◌, ◌≤◌, refl, String, true, false, none, some, List, [], ◌∷◌, length, leb,
}
use bollywood_hal.Action.{ok}
use bollywood_hal.Storage.Models.{forever, internal, info, error, Severity}
use bollywood_hal.Storage.Json.{Json, null}
use bollywood_hal.Storage.Rows.{Db, empty, find_existing}
use bollywood_hal.Storage.Exact.{append_exact_event, redacted, insert, new_row}
use bollywood_hal.Storage.Envelope.{validate, with_payload}
use bollywood_hal.Storage.Exact.Known.{has_key}
use bollywood_hal.Storage.Table.{row_count}
use bollywood_hal.Ingestion.Observations.{EventRunInput, Normalizer}
use bollywood_hal.Ingestion.Writer.{WriteRequest, Writer, new_writer, flush, work}
use bollywood_hal.Ingestion.Writer.Accounting.{
  WriterStep, submits, works, answers, steps, submitted, flush-answers,
}
use bollywood_hal.Ingestion.Bus.{SampleRate, Bus, new_bus, emit_drop_summary}
use bollywood_hal.Ingestion.Bus.Drops.{sampled_out, total}
use bollywood_hal.Ingestion.Bus.Accounting.{
  BusStep, publishes, takes, summarises, bus_steps, untouched, bus_steps-accounts,
}
use bollywood_hal.Ingestion.Bus.Summary.{emit_drop_summary_repeated}
use bollywood_hal.Examples.Chain.{Digest}
use bollywood_hal.Examples.World.{platform, codec, event_on, runtime, at_seconds}

abbrev small_writer : Writer Json ℕ Digest ℕ
small_writer = record {
  capacity = 1;
  queue = [];
  resolved = [];
  synchronous_fallbacks = 0;
  closed = false;
  database = empty 0;
}

abbrev request : ℕ → String → WriteRequest Json ℕ ℕ
request n id = record { future = n; event = event_on id forever; projection = none }

abbrev requests : List (WriterStep Json ℕ ℕ)
requests =
    submits (request 1 "e1") ∷ submits (request 2 "e2") ∷ works true ∷ submits (request 3 "e3") ∷ []

small_writer_is_new : new_writer 1 (empty 0) ≡ ok small_writer
unfolding new_writer
small_writer_is_new = refl

flush-answers_example :
    ((flush platform codec (steps platform codec requests small_writer)).queue ≡ [])
    × (row_count
          (answers 2)
          (flush platform codec (steps platform codec requests small_writer)).resolved
        ≡ submitted 2 requests)
flush-answers_example =
    flush-answers platform codec 1 (empty 0) small_writer small_writer_is_new requests 2

abbrev pub normalizer : Normalizer
normalizer = record {
  redact_data = λ x. x;
  fingerprint = λ _ t _ _. t;
  dumps = λ _. "{}";
  redact_template = λ s. s;
  run_id = λ _. "run";
  iso_second = λ _. "1970-01-01T00:00:00Z";
}

abbrev half : SampleRate
half = record { is_zero = false; is_one = false; score_below = λ n. leb n 0 }

abbrev pub seen : String → Severity → EventRunInput
seen source severity = record {
  source = source;
  type = "disk.full";
  subject = "disk";
  observed_at = some 1000;
  severity = severity;
  task_id = none;
  normalized_template = "disk full";
  redacted_payload = null;
  retention_class = forever;
  sensitivity = internal;
}

abbrev small_bus : Bus ℕ Digest ℕ
small_bus = record {
  summary_nonce = "n";
  telemetry_capacity = 1;
  telemetry = [];
  closed = false;
  drops = [];
  high_fingerprints = [];
  internal_sample_counter = 0;
  writer = small_writer;
}

small_bus_is_new : new_bus 3 2 "n" small_writer ≡ ok small_bus
unfolding new_bus
small_bus_is_new = refl

abbrev traffic : List BusStep
traffic =
    publishes true 1 "e1" (at_seconds 1) (seen "disk" info)
    ∷ publishes true 2 "e2" (at_seconds 2) (seen "disk" error)
    ∷ takes
    ∷ summarises 3 "e3" (at_seconds 3)
    ∷ publishes false 4 "e4" (at_seconds 4) (seen "hal.sentience.bus" info)
    ∷ []

bus_steps-accounts_example :
    let (t, b) = bus_steps runtime normalizer half traffic (untouched, small_bus) in
    (t.published ≡ t.taken + (length b.telemetry + total b.drops) + t.reported + t.cleared)
    × (length b.telemetry + 2 ≤ 3)
    × (length b.drops ≤ 131)
    × (length b.high_fingerprints ≤ 1024)
bus_steps-accounts_example =
    bus_steps-accounts runtime normalizer half 3 2 "n" small_writer small_bus small_bus_is_new
      traffic

-- the store after a first summary
abbrev summarised_once : Db Json ℕ Digest ℕ
summarised_once =
    (append_exact_event platform codec (event_on "telemetry-dropped:boot:n" forever) none none
      (empty 0)).1

abbrev later_bus : Bus ℕ Digest ℕ
later_bus = record small_bus {
  drops =
      record {
        source = "hal.sentience.bus";
        event_type = "tick";
        count = 7;
        first_at = 1000;
        last_at = 2000;
        reason = sampled_out;
      }
      ∷ [];
  writer = record small_writer { database = summarised_once };
}

summarised_once-has_key : has_key "telemetry-dropped:boot:n" summarised_once.events ≡ true
unfolding append_exact_event has_key redacted validate with_payload insert find_existing empty
    new_row
summarised_once-has_key = refl

emit_drop_summary_repeated_example :
    let b = (emit_drop_summary runtime normalizer half 5 "e5" (at_seconds 5) later_bus).1 in
    (b.drops ≡ []) × ((work platform codec false b.writer).database ≡ summarised_once)
emit_drop_summary_repeated_example =
    emit_drop_summary_repeated runtime normalizer half 5 "e5" (at_seconds 5) later_bus refl refl
      summarised_once-has_key
