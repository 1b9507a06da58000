-- ===== src/Ingestion/Bus.antt =====
-- `BoundedEventBus` of src/hal9000/sentience/event_bus.py. A counter is in `_drops` under the key of
-- its own source, type and reason, so the dictionary is the list of its counters, the oldest first.
-- `_high_fingerprints` is the list of its keys, the least recently used first.
pub mod Drops
pub mod Events
pub mod Kept
pub mod Accounting
pub mod Summary
use bollywood_hal.Prelude.{
  ℕ, ◌+◌, ◌-◌, String, Bool, true, false, not, ◌&&◌, ◌||◌, ◌=s◌, ◌+s◌, text_startswith, contains,
  Option, none, some, is_some, List, [], ◌∷◌, ◌++◌, length, ltb, leb, if◌then◌else◌,
}
use bollywood_hal.Action.{
  Exception, Result, ok, raised, value_error, validation_error, Action, bind, pure,
}
use bollywood_hal.Storage.Models.{observation, Severity, error, critical, warning}
use bollywood_hal.Storage.Json.{Json, num, text, arr, obj, field, end, nil, cons, Items}
use bollywood_hal.Storage.Rows.{Db}
use bollywood_hal.Storage.Exact.Known.{has_key}
use bollywood_hal.Storage.Exact.{Projection}
use bollywood_hal.Storage.Envelope.{Envelope, validate}
use bollywood_hal.Sentience.Runtime.{Runtime, Now, NewEvent, new_event}
use bollywood_hal.Sentience.Capabilities.Events.{ledger_event}
use bollywood_hal.Ingestion.Observations.{EventRunInput, Normalizer}
use bollywood_hal.Ingestion.Writer.{WriteRequest, Writer, submit, flush}
use bollywood_hal.Ingestion.Bus.Events.{first_high_severity, drop_summary}
use bollywood_hal.Ingestion.Bus.Drops.{
  DropReason, allocation_exhausted, sampled_out, queue_full, reason_text, DropCounter, record_drop,
  total, earliest, latest,
}

-- The tests of `internal_event_sample_rate`, a float: `rate <= 0`, `rate >= 1`, and for an ordinal
-- whether its hash is below the rate.
pub record SampleRate : Type 0 where
  pub is_zero : Bool
  pub is_one : Bool
  pub score_below : ℕ → Bool

pub record Bus (F D T : Type 0) : Type 0 where
  pub summary_nonce : String
  pub telemetry_capacity : ℕ
  pub telemetry : List EventRunInput
  pub closed : Bool
  pub drops : List DropCounter
  pub high_fingerprints : List String
  pub internal_sample_counter : ℕ
  pub writer : Writer Json F D T

abbrev pub high_fingerprint_capacity : ℕ
high_fingerprint_capacity = 1024

-- `queue_capacity - exact_reserve` must be positive
unfoldable pub new_bus : {F D T : Type 0} → ℕ → ℕ → String → Writer Json F D T → Result (Bus F D T)
new_bus queue_capacity exact_reserve nonce writer =
    if leb queue_capacity exact_reserve
    then raised (value_error "ingestion queue must leave capacity beyond its exact reserve")
    else ok (record {
      summary_nonce = nonce;
      telemetry_capacity = queue_capacity - exact_reserve;
      telemetry = [];
      closed = false;
      drops = [];
      high_fingerprints = [];
      internal_sample_counter = 0;
      writer = writer;
    })

abbrev pub is_severe : Severity → Bool
is_severe error = true
is_severe critical = true
is_severe _ = false

-- `_sample_internal_event`
unfoldable pub sample_internal_event : {F D T : Type 0} → SampleRate → Bus F D T → Bool × Bus F D T
sample_internal_event rate b =
    if rate.is_zero then (false, b) else if rate.is_one then (true, b) else (
      rate.score_below b.internal_sample_counter,
      record b { internal_sample_counter = b.internal_sample_counter + 1 },
    )

unfoldable pub remove_text : String → List String → List String
remove_text x [] = []
remove_text x (y ∷ ys) = let rest = remove_text x ys in if x =s y then rest else y ∷ rest

-- `popitem(last=False)`
abbrev pub drop_oldest : List String → List String
drop_oldest [] = []
drop_oldest (x ∷ xs) = xs

-- a new key of the ordered dictionary, bounded by its capacity
unfoldable pub remember : String → List String → List String
unfolding remove_text
remember x xs =
    let all = remove_text x xs ++ x ∷ [] in
    if ltb high_fingerprint_capacity (length all) then drop_oldest all else all

module _ {F D T : Type 0} where
  -- `_record_drop`; `utc_iso` refuses a naive time
  unfoldable pub drop_observation : EventRunInput → DropReason → Action (Bus F D T) Bool
  unfolding record_drop
  drop_observation item reason b = elim item.observed_at [
    | none ↦ (raised (validation_error "event timestamps must be timezone-aware"), b)
    | some stamp ↦
        (ok false, record b { drops = record_drop item.source item.type reason stamp b.drops })
  ]

  -- `put_nowait`
  unfoldable pub enqueue : EventRunInput → Action (Bus F D T) Bool
  unfolding drop_observation
  enqueue item b =
      if ltb (length b.telemetry) b.telemetry_capacity
      then (ok true, record b { telemetry = b.telemetry ++ item ∷ [] })
      else drop_observation item queue_full b

module _ {F D T : Type 0} (rt : Runtime F D) (nz : Normalizer) (rate : SampleRate) where
  -- `publish_exact`
  unfoldable pub publish_exact :
      ℕ → Envelope Json F → Option (Projection T) → Action (Bus F D T) (Unit {0})
  unfolding submit
  publish_exact future event projection b =
      let (refused, w) =
        submit rt.platform rt.codec
          (record { future = future; event = event; projection = projection }) b.writer in
      (elim refused [ none ↦ ok tt | some e ↦ raised e ], record b { writer = w })

  -- `EventEnvelope.new`, which validates, and `publish_exact`
  unfoldable pub publish_new : ℕ → Envelope Json F → Action (Bus F D T) (Unit {0})
  unfolding publish_exact
  publish_new future event b = elim (validate rt.platform event) [
    | ok _ ↦ publish_exact future event none b
    | raised e ↦ (raised e, b)
  ]

  -- `_persist_first_high_severity`; `future` and `event_id` are the new identities
  unfoldable pub persist_first_high_severity :
      ℕ → String → Now → EventRunInput → Action (Bus F D T) (Unit {0})
  unfolding publish_new first_high_severity remember
  persist_first_high_severity future event_id now item b =
      let fingerprint = nz.fingerprint item.source item.type item.subject item.redacted_payload in
      let seen = record b { high_fingerprints = remember fingerprint b.high_fingerprints } in
      if contains fingerprint b.high_fingerprints
      then (ok tt, seen)
      else if has_key ("first-high-severity:" +s fingerprint) b.writer.database.events
      then (ok tt, seen)
      else publish_new future (first_high_severity rt event_id item fingerprint now) seen

  -- an observation that is not sampled out
  unfoldable pub accept : ℕ → String → Now → EventRunInput → Action (Bus F D T) Bool
  unfolding persist_first_high_severity enqueue
  accept future event_id now item =
      if is_severe item.severity
      then bind (persist_first_high_severity future event_id now item) (λ _. enqueue item)
      else enqueue item

  -- an observation of the program's own
  unfoldable pub accept_internal : ℕ → String → Now → EventRunInput → Action (Bus F D T) Bool
  unfolding sample_internal_event drop_observation accept
  accept_internal future event_id now item b =
      let (sampled, b') = sample_internal_event rate b in
      if sampled then accept future event_id now item b' else drop_observation item sampled_out b'

  -- `publish_observation`; `allowed` is what `non_authority_state_writes_allowed(2048)` returns
  unfoldable pub publish_observation :
      Bool → ℕ → String → Now → EventRunInput → Action (Bus F D T) Bool
  unfolding drop_observation accept accept_internal
  publish_observation allowed future event_id now item b =
      if b.closed
      then (ok false, b)
      else if not allowed
      then drop_observation item allocation_exhausted b
      else if text_startswith item.source "hal.sentience" && not (is_severe item.severity)
      then accept_internal future event_id now item b
      else accept future event_id now item b

  -- one `get` of the telemetry thread
  unfoldable pub take_observation : Action (Bus F D T) (Option EventRunInput)
  take_observation b = elim b.telemetry [
    | [] ↦ (ok none, b)
    | item ∷ rest ↦ (ok (some item), record b { telemetry = rest })
  ]

  -- `_emit_drop_summary`; the result is the event whose future the source returns
  unfoldable pub emit_drop_summary :
      ℕ → String → Now → Action (Bus F D T) (Option (Envelope Json F))
  unfolding drop_summary publish_new
  emit_drop_summary future event_id now b = elim b.drops [
    | [] ↦ (ok none, b)
    | d ∷ ds ↦
        let event = drop_summary rt event_id now d ds b.summary_nonce in
        bind (publish_new future event) (λ _. pure (some event)) (record b { drops = [] })
  ]
