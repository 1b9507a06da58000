-- ===== src/Sentience/Degradation/Steps.antt =====
-- The transactions of `DegradationEngine` (src/hal9000/sentience/degradation/engine.py): each appends
-- one exact event and changes the tables with it. An operation takes the reading of the clocks
-- (`_timing`) and the UUIDs that it may draw; `db` is the store that it reads before its transaction.
use bollywood_hal.Prelude.{String, false, Option, none, some, [], ◌∷◌}
use bollywood_hal.Action.{ok, ◌>>=◌, Action}
use bollywood_hal.Storage.Models.{info, warning, StoredEvent}
use bollywood_hal.Storage.Json.{bool, text, texts, obj, field, end}
use bollywood_hal.Sentience.Tables.{EpisodeRow, degradation_phrase, recovery_phrase}
use bollywood_hal.Sentience.Runtime.{Self, Now, utc_ms, append}
use bollywood_hal.Sentience.Impact.{from_impact}
use bollywood_hal.Sentience.Degradation.{
  CapabilityTransition, Engine, event_task, required_snapshot,
}
use bollywood_hal.Sentience.Degradation.Projections.{
  set_episode, stop_task, insert_episode, enqueue_phrase, set_loss, set_degraded, set_cancelled,
  set_recovering, set_flapped, set_recovered,
}
use bollywood_hal.Sentience.Degradation.Records.{
  Fresh, loss_severity, severity_text, pair, engine_event, or_fresh, new_row, loss_of,
}

module _ {F D : Type 0} (e : Engine F D) where
  unfoldable pub start_episode :
      CapabilityTransition → String → Option String → Now → Fresh → Action (Self F D) StoredEvent
  unfolding new_row engine_event
  start_episode transition profile fallback now fresh db =
      let task_id = event_task transition.event_id db in
      let severity = from_impact transition.task_impact in
      append e.runtime
        (engine_event "degradation.started" fresh.episode_id (loss_severity severity)
          (obj (
            field "state" (text "DEGRADING") (
              field "lost_capabilities" (texts (transition.capability_id ∷ [])) (
                field "cause_event_ids" (texts (transition.event_id ∷ [])) (
                  field "severity" (text (severity_text severity))
                    (field "active_profile" (text profile) end))))))
          task_id (some transition.event_id) fresh)
        now
        (λ _ t. do
          t' ←
              insert_episode
                (new_row e transition profile fallback now fresh task_id
                  (required_snapshot transition.capability_id task_id db.tables))
                t
          ok (stop_task severity task_id (utc_ms now) t'))
        db

  unfoldable pub aggregate_loss :
      EpisodeRow
      → CapabilityTransition
      → String
      → Option String
      → Now
      → Fresh
      → Action (Self F D) StoredEvent
  unfolding loss_of engine_event
  aggregate_loss row transition profile fallback now fresh db =
      let task_id = event_task transition.event_id db in
      let loss =
        loss_of row transition profile fallback task_id
          (required_snapshot transition.capability_id task_id db.tables) in
      append e.runtime
        (engine_event "degradation.loss.aggregated" row.episode_id (loss_severity loss.severity)
          (pair "lost_capability" (text transition.capability_id) "severity"
            (text (severity_text loss.severity)))
          task_id (some transition.event_id) fresh)
        now
        (λ _ t. ok (
          stop_task loss.severity task_id (utc_ms now)
            (set_episode row.episode_id (set_loss row.state loss fresh.event_id) t)))
        db

  unfoldable pub enter_degraded : EpisodeRow → Now → Fresh → Action (Self F D) StoredEvent
  unfolding engine_event or_fresh
  enter_degraded row now fresh =
      let outbox_id = or_fresh row.phrase_outbox_id fresh in
      append e.runtime
        (engine_event "degradation.aggregation.closed" row.episode_id (loss_severity row.severity)
          (pair "state" (text "DEGRADED") "outbox_id" (text outbox_id)) none none fresh)
        now
        (λ _ t. ok (
          enqueue_phrase degradation_phrase row.episode_id outbox_id e.settings.phrase (utc_ms now)
            (set_episode row.episode_id (set_degraded (utc_ms now) outbox_id fresh.event_id) t)))

  unfoldable pub cancel_transient : EpisodeRow → Now → Fresh → Action (Self F D) StoredEvent
  unfolding engine_event
  cancel_transient row now fresh =
      append e.runtime
        (engine_event "degradation.transient.recovered" row.episode_id info
          (pair "state" (text "NOMINAL") "phrase_emitted" (bool false)) none none fresh)
        now
        (λ _ t. ok (
          set_episode row.episode_id (set_cancelled (utc_ms now) now.monotonic_ns fresh.event_id)
            t))

  unfoldable pub start_recovery : EpisodeRow → String → Now → Fresh → Action (Self F D) StoredEvent
  unfolding engine_event
  start_recovery row profile now fresh =
      append e.runtime
        (engine_event "degradation.recovery.started" row.episode_id info
          (pair "state" (text "RECOVERING") "active_profile" (text profile)) none none fresh)
        now
        (λ _ t. ok (
          set_episode row.episode_id
            (set_recovering profile e.runtime.boot_id (utc_ms now) now.monotonic_ns fresh.event_id)
            t))

  unfoldable pub return_to_degraded :
      EpisodeRow → String → Now → Fresh → Action (Self F D) StoredEvent
  unfolding engine_event
  return_to_degraded row profile now fresh =
      append e.runtime
        (engine_event "degradation.recovery.flapped" row.episode_id warning
          (pair "state" (text "DEGRADED") "active_profile" (text profile)) none none fresh)
        now (λ _ t. ok (set_episode row.episode_id (set_flapped profile fresh.event_id) t))

  unfoldable pub finish_recovery : EpisodeRow → Now → Fresh → Action (Self F D) StoredEvent
  unfolding engine_event or_fresh
  finish_recovery row now fresh =
      let outbox_id = or_fresh row.recovery_phrase_outbox_id fresh in
      append e.runtime
        (engine_event "degradation.recovery.stable" row.episode_id info
          (pair "state" (text "NOMINAL") "outbox_id" (text outbox_id)) none none fresh)
        now
        (λ _ t. ok (
          enqueue_phrase recovery_phrase row.episode_id outbox_id e.settings.recovery_phrase
            (utc_ms now)
            (set_episode row.episode_id
              (set_recovered e.nominal_profile (utc_ms now) outbox_id now.monotonic_ns
                fresh.event_id)
              t)))
