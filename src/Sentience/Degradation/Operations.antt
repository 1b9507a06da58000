-- ===== src/Sentience/Degradation/Operations.antt =====
-- The operations of `DegradationEngine` (src/hal9000/sentience/degradation/engine.py): what a capability
-- transition and what the passing of time do to the active episode.
use bollywood_hal.Prelude.{
  String, Bool, true, false, not, ◌||◌, Option, none, some, leb, if◌then◌else◌,
}
use bollywood_hal.Action.{ok, Action, bind}
use bollywood_hal.Storage.Models.{DegradationState, degrading, degraded, recovering, StoredEvent}
use bollywood_hal.Sentience.Tables.{EpisodeRow, Tables}
use bollywood_hal.Sentience.Runtime.{Self, Now}
use bollywood_hal.Sentience.Impact.{is_material}
use bollywood_hal.Sentience.Episodes.{DegradationStatus, status}
use bollywood_hal.Sentience.Degradation.{
  CapabilityTransition, Engine, is_ready, active_row, elapsed_ns, seconds,
  recent_recovered_for_flap, all_restored,
}
use bollywood_hal.Sentience.Degradation.Records.{Fresh}
use bollywood_hal.Sentience.Degradation.Steps.{
  start_episode, aggregate_loss, enter_degraded, cancel_transient, start_recovery,
  return_to_degraded, finish_recovery,
}

module _ {F D : Type 0} (e : Engine F D) where
  -- `return self.status()`
  abbrev pub report : Action (Self F D) DegradationStatus
  report db = (ok (status db.tables), db)

  abbrev pub reporting : Action (Self F D) StoredEvent → Action (Self F D) DegradationStatus
  reporting m = bind m (λ _. report)

  -- not all that the episode requires is restored
  unfoldable pub reconcile_lost :
      DegradationState → EpisodeRow → String → Now → Fresh → Action (Self F D) DegradationStatus
  reconcile_lost recovering row profile now fresh =
      reporting (return_to_degraded e row profile now fresh)
  reconcile_lost _ row profile now fresh = report

  -- all that the episode requires is restored
  unfoldable pub reconcile_restored :
      DegradationState → EpisodeRow → String → Now → Fresh → Action (Self F D) DegradationStatus
  reconcile_restored degrading row profile now fresh = reporting (cancel_transient e row now fresh)
  reconcile_restored degraded row profile now fresh =
      reporting (start_recovery e row profile now fresh)
  reconcile_restored _ row profile now fresh = report

  unfoldable pub reconcile_recovery :
      EpisodeRow → String → Now → Fresh → Action (Self F D) DegradationStatus
  unfolding reconcile_lost reconcile_restored
  reconcile_recovery row profile now fresh db =
      if not (all_restored db.tables row.required_capabilities)
      then reconcile_lost row.state row profile now fresh db
      else reconcile_restored row.state row profile now fresh db

  unfoldable pub reconcile :
      Option EpisodeRow → String → Now → Fresh → Action (Self F D) DegradationStatus
  unfolding reconcile_recovery
  reconcile none profile now fresh = report
  reconcile (some row) profile now fresh = reconcile_recovery row profile now fresh

  unfoldable pub loss_on :
      Option EpisodeRow
      → CapabilityTransition
      → String
      → Option String
      → Now
      → Fresh
      → Action (Self F D) StoredEvent
  loss_on none transition profile fallback now fresh =
      start_episode e transition profile fallback now fresh
  loss_on (some row) transition profile fallback now fresh =
      aggregate_loss e row transition profile fallback now fresh

  unfoldable pub or_flap : Option EpisodeRow → Tables F → Now → Option EpisodeRow
  or_flap none t now = recent_recovered_for_flap e t now
  or_flap (some row) t now = some row

  unfoldable pub on_transition :
      CapabilityTransition
      → String
      → Option String
      → Now
      → Fresh
      → Action (Self F D) DegradationStatus
  unfolding reconcile loss_on or_flap
  on_transition transition profile fallback now fresh db =
      let active = active_row db.tables in
      if is_ready transition.current
      then reconcile active profile now fresh db
      else if not transition.material || transition.expected
      then reconcile active profile now fresh db
      else if not (is_material transition.task_impact)
      then report db
      else reporting (loss_on (or_flap active db.tables now) transition profile fallback now fresh)
          db

  -- a step that waits for its time; the status is returned in any case
  unfoldable pub once : Bool → Action (Self F D) StoredEvent → Action (Self F D) DegradationStatus
  once true m = reporting m
  once false m = report

  unfoldable pub tick_state :
      DegradationState → Bool → EpisodeRow → Now → Fresh → Action (Self F D) DegradationStatus
  unfolding once
  tick_state degrading restored row now fresh =
      once
        (leb (seconds e.settings.aggregation_window_seconds) (
          elapsed_ns e.runtime.boot_id row.timer_boot_id (some row.started_at)
            row.started_monotonic_ns now))
        (if restored then cancel_transient e row now fresh else enter_degraded e row now fresh)
  tick_state recovering false row now fresh =
      reporting (return_to_degraded e row row.active_profile now fresh)
  tick_state recovering true row now fresh =
      once
        (leb (seconds e.settings.recovery_stability_seconds) (
          elapsed_ns e.runtime.boot_id row.timer_boot_id row.recovery_started_at
            row.recovery_started_monotonic_ns now))
        (finish_recovery e row now fresh)
  tick_state _ restored row now fresh = report

  unfoldable pub tick_row : EpisodeRow → Now → Fresh → Action (Self F D) DegradationStatus
  unfolding tick_state
  tick_row row now fresh db =
      tick_state row.state (all_restored db.tables row.required_capabilities) row now fresh db

  unfoldable pub tick_active : Option EpisodeRow → Now → Fresh → Action (Self F D) DegradationStatus
  unfolding tick_row
  tick_active none now fresh = report
  tick_active (some row) now fresh = tick_row row now fresh

  unfoldable pub tick : Now → Fresh → Action (Self F D) DegradationStatus
  unfolding tick_active
  tick now fresh db = tick_active (active_row db.tables) now fresh db
