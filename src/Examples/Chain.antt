-- ===== src/Examples/Chain.antt =====
-- A digest without collisions, in place of SHA-256: a text that repeats all that it covers.
use bollywood_hal.Prelude.{
  ℕ, ◌≡◌, ◌↔◌, refl, String, Bool, true, false, Option, none, some, arith, ◌=s◌, =s_iff,
}
use native.Mathlib.Decide.{ℕ_discrete}
use bollywood_hal.Storage.Rows.{Canonical}

pub data Digest : Type 0 where
  start : Canonical ℕ (Unit {0}) → Digest
  after : Digest → Canonical ℕ (Unit {0}) → Digest

forget : Canonical ℕ Digest → Canonical ℕ (Unit {0})
forget c = record {
  sequence = c.sequence;
  previous_hash = none;
  event_id = c.event_id;
  schema_version = c.schema_version;
  occurred_at_utc = c.occurred_at_utc;
  received_at_utc = c.received_at_utc;
  monotonic_ns = c.monotonic_ns;
  boot_id = c.boot_id;
  source = c.source;
  type = c.type;
  subject = c.subject;
  severity = c.severity;
  correlation_id = c.correlation_id;
  causation_id = c.causation_id;
  task_id = c.task_id;
  origin = c.origin;
  confidence = c.confidence;
  retention_class = c.retention_class;
  sensitivity = c.sensitivity;
  payload_json = c.payload_json;
}

restore : Option Digest → Canonical ℕ (Unit {0}) → Canonical ℕ Digest
restore previous c = record {
  sequence = c.sequence;
  previous_hash = previous;
  event_id = c.event_id;
  schema_version = c.schema_version;
  occurred_at_utc = c.occurred_at_utc;
  received_at_utc = c.received_at_utc;
  monotonic_ns = c.monotonic_ns;
  boot_id = c.boot_id;
  source = c.source;
  type = c.type;
  subject = c.subject;
  severity = c.severity;
  correlation_id = c.correlation_id;
  causation_id = c.causation_id;
  task_id = c.task_id;
  origin = c.origin;
  confidence = c.confidence;
  retention_class = c.retention_class;
  sensitivity = c.sensitivity;
  payload_json = c.payload_json;
}

digest_of : Option Digest → Canonical ℕ (Unit {0}) → Digest
digest_of none c = start c
digest_of (some d) c = after d c

undo : Digest → Canonical ℕ Digest
unfolding restore
undo (start c) = restore none c
undo (after d c) = restore (some d) c

pub digest : Canonical ℕ Digest → Digest
unfolding digest_of forget
digest c = digest_of c.previous_hash (forget c)

undo-digest_of :
    (o : Option Digest) (c : Canonical ℕ (Unit {0})) → undo (digest_of o c) ≡ restore o c
unfolding undo digest_of
undo-digest_of none c = refl
undo-digest_of (some d) c = refl

undo-digest : (c : Canonical ℕ Digest) → undo (digest c) ≡ c
unfolding digest restore forget
undo-digest c = undo-digest_of c.previous_hash (forget c)

pub collision_free : (a b : Canonical ℕ Digest) → digest a ≡ digest b → a ≡ b
collision_free a b h = cc (undo-digest a, undo-digest b, h)

str_dec : (a b : String) (t : Bool) → (a =s b) ≡ t → Dec (a ≡ b)
str_dec a b true e = yes ((=s_iff a b).0 e)
str_dec a b false e = no (λ same. absurd (ground (arith, (=s_iff a b).1 same)))

String_discrete : Discrete String
String_discrete a b = str_dec a b (a =s b) refl

Digest-discrete : Discrete Digest
Digest-discrete = hlevel (ℕ_discrete, String_discrete)

is_yes : {A : Type 0} → Dec A → Bool
is_yes (yes a) = true
is_yes (no n) = false

pub same : Digest → Digest → Bool
unfolding is_yes
same a b = is_yes (Digest-discrete a b)

is_yes_iff : {A : Type 0} (d : Dec A) → (is_yes d ≡ true) ↔ A
unfolding is_yes
is_yes_iff (yes a) = (λ _. a, λ _. refl)
is_yes_iff (no n) = (λ h. absurd (ground arith), λ a. absurd (n a))

pub same_iff : (a b : Digest) → (same a b ≡ true) ↔ (a ≡ b)
unfolding same
same_iff a b = is_yes_iff (Digest-discrete a b)
