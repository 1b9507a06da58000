-- ===== src/Sentience/Degradation/Change/Transactions.antt =====
-- Each transaction of `DegradationEngine` (src/hal9000/sentience/degradation/engine.py) is one move of
-- the state machine, or changes nothing.
use bollywood_hal.Prelude.{◌+◌, ◌≡◌, refl, sym, String, true, false, Option, none, some}
use bollywood_hal.Action.{ok-injective, map-eq-ok, ok, Action}
use bollywood_hal.Storage.Models.{degrading, degraded, recovering}
use bollywood_hal.Storage.Exact.{Projection, run_projection}
use bollywood_hal.Storage.Exact.Append.{append_exact_event_rule}
use bollywood_hal.Sentience.Tables.{EpisodeRow, Tables}
use bollywood_hal.Sentience.Runtime.{Runtime, Self, Now, NewEvent, append, new_event}
use bollywood_hal.Sentience.Degradation.{CapabilityTransition, Engine, active_row, all_restored}
use bollywood_hal.Sentience.Degradation.Records.{Fresh, new_row}
use bollywood_hal.Sentience.Degradation.Steps.{
  start_episode, aggregate_loss, enter_degraded, cancel_transient, start_recovery,
  return_to_degraded, finish_recovery,
}
use bollywood_hal.Sentience.Degradation.Change.{
  Reopens, Change, unchanged, started, lost, confirmed, cancelled, restoring, flapped, recovered,
}

module _ {F D : Type 0} where
  -- what an append may leave in the tables: what stood there, or what the projection made of it
  pub append_rule :
      (Q : Tables F → Type 0) (rt : Runtime F D) (n : NewEvent) (now : Now)
      (project : Projection (Tables F)) (db : Self F D)
      → ((t : Tables F) → project (db.last_sequence + 1) db.tables ≡ ok t → Q t)
      → Q db.tables
      → Q (append rt n now project db).1.tables
  unfolding append run_projection
  append_rule Q rt n now project db made kept =
      append_exact_event_rule rt.platform rt.codec (λ (d : Self F D). Q d.tables) none
        (some project) (new_event rt n now) db (λ r t fresh ran. made t ran) kept

module _ {F D : Type 0} (e : Engine F D) (now : Now) (fresh : Fresh) (db : Self F D) where
  -- what an operation leaves is one move away from what it found
  unfoldable pub Moves : {A : Type 0} → Action (Self F D) A → Type 0
  Moves m = Change db.tables (m db).1.tables

  pub start_episode-Moves :
      (transition : CapabilityTransition) (profile : String) (fallback : Option String)
      → active_row db.tables ≡ none
      → Moves (start_episode e transition profile fallback now fresh)
  unfolding Moves start_episode new_row
  start_episode-Moves transition profile fallback idle =
      append_rule (Change db.tables) e.runtime _ now _ db
        (λ t made.
          let (u, inserted, result) = map-eq-ok _ _ made in
          started _ u _ _ _ idle refl inserted result)
        (unchanged refl)

  pub aggregate_loss-Moves :
      (row : EpisodeRow) (transition : CapabilityTransition) (profile : String)
      (fallback : Option String)
      → Reopens db.tables row
      → Moves (aggregate_loss e row transition profile fallback now fresh)
  unfolding Moves aggregate_loss
  aggregate_loss-Moves row transition profile fallback read =
      append_rule (Change db.tables) e.runtime _ now _ db
        (λ t made. lost row _ fresh.event_id _ _ read (sym (ok-injective made))) (unchanged refl)

  module _ (row : EpisodeRow) (read : active_row db.tables ≡ some row) where
    pub enter_degraded-Moves :
        row.state ≡ degrading
        → all_restored db.tables row.required_capabilities ≡ false
        → Moves (enter_degraded e row now fresh)
    unfolding Moves enter_degraded
    enter_degraded-Moves s missing =
        append_rule (Change db.tables) e.runtime _ now _ db
          (λ t made. confirmed row _ _ _ _ read s missing (sym (ok-injective made)))
          (unchanged refl)

    pub cancel_transient-Moves :
        row.state ≡ degrading
        → all_restored db.tables row.required_capabilities ≡ true
        → Moves (cancel_transient e row now fresh)
    unfolding Moves cancel_transient
    cancel_transient-Moves s back =
        append_rule (Change db.tables) e.runtime _ now _ db
          (λ t made. cancelled row _ _ _ read s back (sym (ok-injective made))) (unchanged refl)

    pub start_recovery-Moves :
        (profile : String)
        → row.state ≡ degraded
        → all_restored db.tables row.required_capabilities ≡ true
        → Moves (start_recovery e row profile now fresh)
    unfolding Moves start_recovery
    start_recovery-Moves profile s back =
        append_rule (Change db.tables) e.runtime _ now _ db
          (λ t made. restoring row _ _ _ _ _ read s back (sym (ok-injective made))) (unchanged refl)

    pub return_to_degraded-Moves :
        (profile : String)
        → row.state ≡ recovering
        → all_restored db.tables row.required_capabilities ≡ false
        → Moves (return_to_degraded e row profile now fresh)
    unfolding Moves return_to_degraded
    return_to_degraded-Moves profile s missing =
        append_rule (Change db.tables) e.runtime _ now _ db
          (λ t made. flapped row _ _ read s missing (sym (ok-injective made))) (unchanged refl)

    pub finish_recovery-Moves :
        row.state ≡ recovering
        → all_restored db.tables row.required_capabilities ≡ true
        → Moves (finish_recovery e row now fresh)
    unfolding Moves finish_recovery
    finish_recovery-Moves s back =
        append_rule (Change db.tables) e.runtime _ now _ db
          (λ t made. recovered row _ _ _ _ _ _ read s back (sym (ok-injective made)))
          (unchanged refl)
