-- ===== src/Sentience/Degradation/Change/Refinement.antt =====
-- The operations of `DegradationEngine` (src/hal9000/sentience/degradation/engine.py) make the moves
-- of the state machine, and no others.
use bollywood_hal.Prelude.{
  ◌≡◌, refl, String, Bool, true, false, not, Option, none, some, arith, inl, inr, Bool-cases,
  Option-cases, ◌||◌,
}
use mathlib.Core.Path.{subst}
use bollywood_hal.Action.{Result, ok, raised, Action, continue}
use bollywood_hal.Storage.Models.{
  DegradationState, nominal, degrading, degraded, recovering, StoredEvent,
}
use bollywood_hal.Sentience.Tables.{EpisodeRow, Tables}
use bollywood_hal.Sentience.Runtime.{Self, Now}
use bollywood_hal.Sentience.Degradation.{
  CapabilityTransition, Engine, active_row, latest_recovered, all_restored,
  recent_recovered_for_flap, is_ready,
}
use bollywood_hal.Sentience.Impact.{is_material}
use bollywood_hal.Sentience.Degradation.Records.{Fresh}
use bollywood_hal.Sentience.Degradation.Steps.{
  enter_degraded, cancel_transient, start_recovery, return_to_degraded, finish_recovery,
}
use bollywood_hal.Sentience.Degradation.Operations.{
  reporting, report, reconcile_lost, reconcile_restored, reconcile_recovery, reconcile, loss_on,
  or_flap, on_transition, once, tick_state, tick_active, tick,
}
use bollywood_hal.Sentience.Degradation.Change.{aggregates, flaps, Change, unchanged}
use bollywood_hal.Sentience.Degradation.Change.Transactions.{
  Moves, start_episode-Moves, aggregate_loss-Moves, enter_degraded-Moves, cancel_transient-Moves,
  start_recovery-Moves, return_to_degraded-Moves, finish_recovery-Moves,
}

module _ {F D : Type 0} where
  after_report :
      (e : Engine F D) (r : Result StoredEvent) (db : Self F D)
      → db ≡ (continue r (λ _. report e) db).1
  after_report e (ok a) db = refl
  after_report e (raised x) db = refl

  -- `return self.status()` changes nothing
  reporting_rule :
      (Q : Tables F → Type 0) (e : Engine F D) (m : Action (Self F D) StoredEvent) (db : Self F D)
      → Q (m db).1.tables
      → Q (reporting e m db).1.tables
  reporting_rule Q e m db h =
      subst (λ (d : Self F D). Q d.tables) (after_report e (m db).0 (m db).1) h

module _ {F D : Type 0} (e : Engine F D) (now : Now) (fresh : Fresh) (db : Self F D) where
  reported :
      (m : Action (Self F D) StoredEvent)
      → Moves e now fresh db m
      → Moves e now fresh db (reporting e m)
  unfolding Moves
  reported m = reporting_rule (Change db.tables) e m db

  report-Moves : Moves e now fresh db (report e)
  unfolding Moves
  report-Moves = unchanged refl

  once-Moves :
      (b : Bool) (m : Action (Self F D) StoredEvent)
      → Moves e now fresh db m
      → Moves e now fresh db (once e b m)
  unfolding once
  once-Moves true m h = reported m h
  once-Moves false m h = report-Moves

  module _ (row : EpisodeRow) (read : active_row db.tables ≡ some row) where
    reconcile_lost-Moves :
        (profile : String) (s : DegradationState)
        → row.state ≡ s
        → all_restored db.tables row.required_capabilities ≡ false
        → Moves e now fresh db (reconcile_lost e s row profile now fresh)
    unfolding reconcile_lost
    reconcile_lost-Moves profile recovering s missing =
        reported (return_to_degraded e row profile now fresh)
          (return_to_degraded-Moves e now fresh db row read profile s missing)
    reconcile_lost-Moves profile _ s missing = report-Moves

    reconcile_restored-Moves :
        (profile : String) (s : DegradationState)
        → row.state ≡ s
        → all_restored db.tables row.required_capabilities ≡ true
        → Moves e now fresh db (reconcile_restored e s row profile now fresh)
    unfolding reconcile_restored
    reconcile_restored-Moves profile degrading s back =
        reported (cancel_transient e row now fresh)
          (cancel_transient-Moves e now fresh db row read s back)
    reconcile_restored-Moves profile degraded s back =
        reported (start_recovery e row profile now fresh)
          (start_recovery-Moves e now fresh db row read profile s back)
    reconcile_restored-Moves profile _ s back = report-Moves

    reconcile_recovery-Moves :
        (profile : String) → Moves e now fresh db (reconcile_recovery e row profile now fresh)
    unfolding reconcile_recovery Moves
    reconcile_recovery-Moves profile =
        elim (Bool-cases (all_restored db.tables row.required_capabilities)) [
          | inl back ↦ rw back (reconcile_restored-Moves profile row.state refl back)
          | inr missing ↦ rw missing (reconcile_lost-Moves profile row.state refl missing)
        ]

    tick_state-Moves :
        (s : DegradationState) (restored : Bool)
        → row.state ≡ s
        → all_restored db.tables row.required_capabilities ≡ restored
        → Moves e now fresh db (tick_state e s restored row now fresh)
    unfolding tick_state
    tick_state-Moves degrading true s back =
        once-Moves _ (cancel_transient e row now fresh)
          (cancel_transient-Moves e now fresh db row read s back)
    tick_state-Moves degrading false s missing =
        once-Moves _ (enter_degraded e row now fresh)
          (enter_degraded-Moves e now fresh db row read s missing)
    tick_state-Moves recovering true s back =
        once-Moves _ (finish_recovery e row now fresh)
          (finish_recovery-Moves e now fresh db row read s back)
    tick_state-Moves recovering false s missing =
        reported (return_to_degraded e row row.active_profile now fresh)
          (return_to_degraded-Moves e now fresh db row read row.active_profile s missing)
    tick_state-Moves nominal restored s h = report-Moves
    tick_state-Moves degraded true s h = report-Moves
    tick_state-Moves degraded false s h = report-Moves

  reconcile-Moves :
      (o : Option EpisodeRow) (profile : String)
      → active_row db.tables ≡ o
      → Moves e now fresh db (reconcile e o profile now fresh)
  unfolding reconcile
  reconcile-Moves none profile read = report-Moves
  reconcile-Moves (some row) profile read = reconcile_recovery-Moves row read profile

  latest_of_recent :
      (row : EpisodeRow)
      → recent_recovered_for_flap e db.tables now ≡ some row
      → latest_recovered db.tables ≡ some row
  unfolding recent_recovered_for_flap
  latest_of_recent row recent = ground arith

  loss_on-Moves :
      (o : Option EpisodeRow) (transition : CapabilityTransition) (profile : String)
      (fallback : Option String)
      → active_row db.tables ≡ o
      → Moves e now fresh db
          (loss_on e (or_flap e o db.tables now) transition profile fallback now fresh)
  unfolding loss_on or_flap
  loss_on-Moves (some row) transition profile fallback read =
      aggregate_loss-Moves e now fresh db row transition profile fallback (aggregates read)
  loss_on-Moves none transition profile fallback read =
      elim (Option-cases (recent_recovered_for_flap e db.tables now)) [
        | inl none_recent ↦
            rw none_recent (start_episode-Moves e now fresh db transition profile fallback read)
        | inr (row, recent) ↦ rw recent (
            aggregate_loss-Moves e now fresh db row transition profile fallback
              (flaps read (latest_of_recent row recent)))
      ]

  -- Whatever transition the engine is told, and whatever the append of its event answers, the tables
  -- it leaves are one move of the state machine away from those it found.
  pub on_transition_refines :
      (transition : CapabilityTransition) (profile : String) (fallback : Option String)
      → Moves e now fresh db (on_transition e transition profile fallback now fresh)
  unfolding on_transition Moves
  on_transition_refines transition profile fallback =
      elim (Bool-cases (is_ready transition.current)) [
        | inl ready ↦ rw ready waiting
        | inr not_ready ↦ elim (Bool-cases (not transition.material || transition.expected)) [
          | inl minor ↦ rw (not_ready, minor) waiting
          | inr unexpected ↦ elim (Bool-cases (not (is_material transition.task_impact))) [
            | inl slight ↦ rw (not_ready, unexpected, slight) (unchanged refl)
            | inr material ↦
                rw (not_ready, unexpected, material)
                  (reported
                    (loss_on e (or_flap e (active_row db.tables) db.tables now) transition profile
                      fallback now fresh)
                    (loss_on-Moves (active_row db.tables) transition profile fallback refl))
          ]
        ]
      ]
    where
      waiting : Moves e now fresh db (reconcile e (active_row db.tables) profile now fresh)
      waiting = reconcile-Moves (active_row db.tables) profile refl

  tick_active-Moves :
      (o : Option EpisodeRow)
      → active_row db.tables ≡ o
      → Moves e now fresh db (tick_active e o now fresh)
  unfolding tick_active Moves
  tick_active-Moves none read = unchanged refl
  tick_active-Moves (some row) read =
      tick_state-Moves row read row.state (all_restored db.tables row.required_capabilities) refl
        refl

  -- The passing of time is one move of the state machine too, errors included.
  pub tick_refines : Moves e now fresh db (tick e now fresh)
  unfolding tick Moves
  tick_refines = tick_active-Moves (active_row db.tables) refl
