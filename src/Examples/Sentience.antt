-- ===== src/Examples/Sentience.antt =====
-- The theorems on the machine self at concrete inputs.
use bollywood_hal.Prelude.{ℕ, ◌≡◌, refl, ◌↔◌, ◌⊎◌, String, true, false, none, some, [], ◌∷◌}
use bollywood_hal.Storage.Models.{DegradationSeverity, degrading, degraded}
use bollywood_hal.Sentience.Tables.{critical}
use bollywood_hal.Sentience.Runtime.{Self}
use bollywood_hal.Sentience.Impact.{classify_task_impact, is_material, classify_task_impact_iff}
use bollywood_hal.Sentience.Degradation.Operations.{on_transition, tick}
use bollywood_hal.Action.{Result, ok}
use bollywood_hal.Sentience.Outbox.{Dispatcher, dispatch_one}
use bollywood_hal.Sentience.Degradation.Change.Edges.{Evolves}
use bollywood_hal.Sentience.Degradation.Life.{
  Reachable, opened, then_step, told, ticked, dispatched, Sound, Reachable-Sound, Step-Evolves,
}
use bollywood_hal.Sentience.Tables.{EpisodeRow, no_rows}
use bollywood_hal.Sentience.Episodes.{status}
use bollywood_hal.Storage.Table.{select_latest, later, select_one}
use bollywood_hal.Storage.Rows.{empty, find_existing}
use bollywood_hal.Storage.Envelope.{validate, with_payload}
use bollywood_hal.Storage.Exact.{
  append_exact_event, append_validated, redacted, insert, transaction, run_projection, finish,
}
use bollywood_hal.Sentience.Runtime.{append, new_event}
use bollywood_hal.Sentience.Degradation.{active_row, all_restored, is_restored, elapsed_ns}
use bollywood_hal.Sentience.Degradation.Records.{engine_event}
use bollywood_hal.Sentience.Degradation.Steps.{enter_degraded}
use bollywood_hal.Sentience.Degradation.Operations.{tick_active, tick_row, tick_state, once}
use bollywood_hal.Sentience.Degradation.Timing.{Reaches, target, tick-Reaches}
use bollywood_hal.Storage.Table.{row_count}
use bollywood_hal.Sentience.Degradation.{recent_recovered_for_flap, latest_recovered, event_task}
use bollywood_hal.Sentience.Degradation.Projections.{insert_episode, stop_task}
use bollywood_hal.Sentience.Degradation.Steps.{start_episode}
use bollywood_hal.Sentience.Degradation.Operations.{loss_on, or_flap}
use bollywood_hal.Sentience.Degradation.Losses.{Settles, Begins, on_transition-Told}
use bollywood_hal.Examples.Chain.{Digest}
use bollywood_hal.Examples.World.{
  runtime, engine, at_seconds, fresh_ids, loss_of_reasoning, machine_self,
}

abbrev required : String
required = "required"

abbrev cognition : String
cognition = "cognitive"

classify_task_impact_iff_example :
    ((is_material (classify_task_impact required cognition false false) ≡ true) ↔ (
      (false ≡ true)
      ⊎ ((required ≡ "required") × ((cognition ≡ "cognitive") ⊎ (cognition ≡ "operational")))))
    × ((classify_task_impact required cognition false false ≡ critical)
        ↔ ((false ≡ true) × (false ≡ true)))
classify_task_impact_iff_example = classify_task_impact_iff required cognition false false

abbrev lost_once : Self ℕ Digest
lost_once =
    (on_transition engine loss_of_reasoning "fallback" none (at_seconds 1)
      (fresh_ids "e1" "episode" "o1") machine_self).1

abbrev confirmed_loss : Self ℕ Digest
confirmed_loss = (tick engine (at_seconds 9) (fresh_ids "e2" "" "o2") lost_once).1

-- the phrase is spoken
abbrev voice : Dispatcher ℕ Digest
voice = record { runtime = runtime; owner = "dispatcher"; cut = λ _. "failed" }

abbrev heard : String → Result (Unit {0})
heard _ = ok tt

abbrev spoken_loss : Self ℕ Digest
spoken_loss =
    (dispatch_one voice true heard heard (at_seconds 10) (at_seconds 11) "e3" confirmed_loss).1

reach_lost : Reachable engine lost_once
reach_lost =
    then_step opened
      (told loss_of_reasoning "fallback" none (at_seconds 1) (fresh_ids "e1" "episode" "o1"))

reach_confirmed : Reachable engine confirmed_loss
reach_confirmed = then_step reach_lost (ticked (at_seconds 9) (fresh_ids "e2" "" "o2"))

reach_spoken : Reachable engine spoken_loss
reach_spoken =
    then_step reach_confirmed
      (dispatched voice true heard heard (at_seconds 10) (at_seconds 11) "e3")

Reachable-Sound_example : Sound engine spoken_loss.tables
Reachable-Sound_example = Reachable-Sound engine reach_spoken

Step-Evolves_example : Evolves lost_once.tables.episodes confirmed_loss.tables.episodes
Step-Evolves_example =
    Step-Evolves engine reach_lost (ticked (at_seconds 9) (fresh_ids "e2" "" "o2"))

-- an episode whose window began at second 1
abbrev open_row : EpisodeRow
open_row = record {
  episode_id = "episode";
  state = degrading;
  severity = DegradationSeverity.cognitive;
  nominal_profile = "nominal";
  active_profile = "fallback";
  lost_capabilities = "cognition.reasoning" ∷ [];
  affected_tasks = [];
  fallback_model = none;
  cause_event_ids = "e0" ∷ [];
  required_capabilities = "cognition.reasoning" ∷ [];
  started_at = 1000;
  started_monotonic_ns = some 1000000000;
  timer_boot_id = some runtime.boot_id;
  aggregation_closed_at = none;
  phrase_outbox_id = none;
  phrase_emitted = false;
  recovery_started_at = none;
  recovery_started_monotonic_ns = none;
  recovered_at = none;
  recovered_monotonic_ns = none;
  recovery_phrase_outbox_id = none;
  recovery_phrase_emitted = false;
  last_transition_event_id = "e1";
  conclusions = [];
}

abbrev waiting_self : Self ℕ Digest
waiting_self = empty (record no_rows { episodes = open_row ∷ [] })

abbrev ticked_self : Self ℕ Digest
ticked_self = (tick engine (at_seconds 9) (fresh_ids "e2" "" "o2") waiting_self).1

open_row_read : active_row waiting_self.tables ≡ some open_row
unfolding active_row select_latest later empty
open_row_read = refl

tick_ran :
    tick engine (at_seconds 9) (fresh_ids "e2" "" "o2") waiting_self
    ≡ (ok (status ticked_self.tables), ticked_self)
unfolding tick tick_active tick_row tick_state once all_restored is_restored elapsed_ns
    enter_degraded engine_event append append_exact_event append_validated redacted validate
    with_payload insert find_existing new_event transaction run_projection finish empty active_row
    select_latest later select_one
tick_ran = refl

tick-Reaches_example : Reaches (some degraded) "episode" waiting_self ticked_self
unfolding empty target all_restored is_restored select_one elapsed_ns
tick-Reaches_example =
    tick-Reaches engine (at_seconds 9) (fresh_ids "e2" "" "o2") waiting_self ticked_self tt open_row
      (status ticked_self.tables) open_row_read tick_ran

told_ran :
    on_transition engine loss_of_reasoning "fallback" none
      (at_seconds 1)
      (fresh_ids "e1" "episode" "o1")
      machine_self
    ≡ (ok (status lost_once.tables), lost_once)
unfolding on_transition loss_on or_flap recent_recovered_for_flap latest_recovered start_episode
    engine_event append append_exact_event append_validated redacted validate with_payload insert
    find_existing new_event transaction run_projection finish empty active_row select_latest later
    select_one insert_episode row_count stop_task event_task
told_ran = refl

on_transition-Told_example :
    ((false ≡ true) ⊎ (true ≡ false) ⊎ (false ≡ true) → Settles machine_self lost_once none)
    × (false ≡ false
        → true ≡ true
        → false ≡ false
        → (is_material loss_of_reasoning.task_impact ≡ false → lost_once ≡ machine_self)
          × (is_material loss_of_reasoning.task_impact ≡ true
              → Begins "cognition.reasoning" machine_self lost_once))
unfolding empty active_row select_latest recent_recovered_for_flap latest_recovered
on_transition-Told_example =
    on_transition-Told engine (at_seconds 1) (fresh_ids "e1" "episode" "o1") machine_self lost_once
      tt "fallback" (status lost_once.tables) loss_of_reasoning none told_ran
