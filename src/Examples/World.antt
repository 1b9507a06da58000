-- ===== src/Examples/World.antt =====
-- A platform, a codec, events and an engine to run the definitions on.
use bollywood_hal.Prelude.{ℕ, ◌*◌, ◌+◌, String, true, false, none, some, leb, ◌=s◌, not}
use bollywood_hal.Action.{ok}
use bollywood_hal.Storage.Models.{
  public, info, observation, unavailable, RetentionClass, CapabilityLifecycle,
}
use bollywood_hal.Storage.Envelope.{pos, Platform, Envelope}
use bollywood_hal.Storage.Json.{Json, null}
use bollywood_hal.Storage.Rows.{Codec, empty}
use bollywood_hal.Storage.Exact.{Projection}
use bollywood_hal.Sentience.Tables.{DefinitionRow, no_rows, cognitive}
use bollywood_hal.Sentience.Runtime.{Runtime, Self, Now}
use bollywood_hal.Sentience.Capabilities.{CapabilityRegistry}
use bollywood_hal.Sentience.Capabilities.Registry.{TransitionRequest}
use bollywood_hal.Sentience.Degradation.{CapabilityTransition, Engine}
use bollywood_hal.Sentience.Degradation.Records.{Fresh}
use bollywood_hal.Examples.Chain.{Digest, digest, same, same_iff}

abbrev pub platform : Platform Json ℕ
platform = record {
  is_uuid = λ s. not (s =s "");
  is_name = λ s. not (s =s "");
  in_unit_interval = λ x. leb x 1;
  payload_bytes = λ _. some 2;
  text_length = λ _. 8;
  stamp_is_utc = λ _. some true;
}

abbrev pub codec : Codec Json ℕ Digest
codec = record {
  dumps = λ _. "{}";
  redact = λ x. x;
  digest = digest;
  same = same;
  same_iff = same_iff;
}

abbrev pub event_on : String → RetentionClass → Envelope Json ℕ
event_on id retention = record {
  event_id = id;
  schema_version = 1;
  occurred_at_utc = "2026-01-01T00:00:00.000Z";
  received_at_utc = "2026-01-01T00:00:00.000Z";
  monotonic_ns = pos 1;
  boot_id = "boot";
  source = "hal.test";
  type = "test.event";
  subject = "subject";
  severity = info;
  correlation_id = none;
  causation_id = none;
  task_id = none;
  origin = observation;
  confidence = 1;
  retention_class = retention;
  sensitivity = public;
  payload = null;
  idempotency_key = some id;
  internal = false;
}

-- a projection that counts its runs
abbrev pub count_up : Projection ℕ
count_up sequence n = ok (sequence + n)

abbrev pub runtime : Runtime ℕ Digest
runtime = record {
  platform = platform;
  codec = codec;
  one = 1;
  iso = λ _. "2026-01-01T00:00:00.000Z";
  boot_id = "boot";
}

abbrev pub engine : Engine ℕ Digest
engine = record {
  runtime = runtime;
  settings = record {
    aggregation_window_seconds = 5;
    recovery_stability_seconds = 30;
    flap_suppression_seconds = 60;
    phrase = "degraded";
    recovery_phrase = "recovered";
  };
  nominal_profile = "nominal";
}

abbrev pub at_seconds : ℕ → Now
at_seconds n = record { wall_us = n * 1000000; monotonic_ns = n * 1000000000 }

abbrev pub fresh_ids : String → String → String → Fresh
fresh_ids event episode outbox = record {
  event_id = event;
  episode_id = episode;
  outbox_id = outbox;
}

abbrev pub loss_of_reasoning : CapabilityTransition
loss_of_reasoning = record {
  transition_id = "t1";
  capability_id = "cognition.reasoning";
  previous = CapabilityLifecycle.ready;
  current = unavailable;
  expected = false;
  material = true;
  task_impact = cognitive;
  event_id = "e0";
}

abbrev pub machine_self : Self ℕ Digest
machine_self = empty no_rows

abbrev pub registry : CapabilityRegistry ℕ Digest
registry = record { runtime = runtime; clean = λ _ s. s }

abbrev pub reasoning : DefinitionRow
reasoning = record {
  capability_id = "reasoning";
  display_name = "Reasoning";
  category = "cognition";
  nominal_requirement = "required";
  weight = 200;
  material_class = "cognitive";
  configured = true;
}

abbrev pub reasoning_failed : TransitionRequest ℕ
reasoning_failed = record {
  capability_id = "reasoning";
  state = CapabilityLifecycle.failed;
  reason = "quota";
  evidence = null;
  task_id = some "task";
  expected = false;
  permission_scope = "available";
  trust_state = "verified";
  confidence = 1;
  health = none;
  freshness_deadline = none;
  replacement_capability = none;
  active_profile = none;
}
