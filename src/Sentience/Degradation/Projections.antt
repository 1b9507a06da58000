-- ===== src/Sentience/Degradation/Projections.antt =====
-- The updates of the tables that the operations of `DegradationEngine` make beside their events
-- (the functions `project` of src/hal9000/sentience/degradation/engine.py).
use bollywood_hal.Prelude.{
  ℕ, String, Bool, true, false, ◌&&◌, ◌||◌, Option, none, some, List, [], ◌∷◌, ◌++◌, ltb, ◌=s◌,
  sorted, if◌then◌else◌,
}
use bollywood_hal.Action.{Result, ok, raised, integrity_error}
use bollywood_hal.Storage.Models.{
  DegradationState, nominal, degraded, recovering, DegradationSeverity,
}
use bollywood_hal.Storage.Table.{update_where, row_count, insert_or_ignore}
use bollywood_hal.Sentience.Tables.{
  TaskState, checkpoint_required, completed, cancelled, TaskRow, EpisodeRow, PhraseKind,
  degradation_phrase, recovery_phrase, OutboxRow, Tables,
}

-- `state NOT IN ('completed','cancelled')`
abbrev pub is_open : TaskState → Bool
is_open completed = false
is_open cancelled = false
is_open _ = true

abbrev pub is_critical : DegradationSeverity → Bool
is_critical DegradationSeverity.critical = true
is_critical _ = false

abbrev pub same_kind : PhraseKind → PhraseKind → Bool
same_kind degradation_phrase degradation_phrase = true
same_kind recovery_phrase recovery_phrase = true
same_kind _ _ = false

module _ {F : Type 0} where
  -- UPDATE degradation_episodes SET … WHERE episode_id=?
  unfoldable pub set_episode : String → (EpisodeRow → EpisodeRow) → Tables F → Tables F
  set_episode episode_id change t = record t {
    episodes = update_where (λ (r : EpisodeRow). r.episode_id =s episode_id) change t.episodes;
  }

  -- a critical loss under a task asks for a checkpoint of the task
  unfoldable pub stop_task : DegradationSeverity → Option String → ℕ → Tables F → Tables F
  stop_task severity none stamp t = t
  stop_task severity (some task_id) stamp t =
      if is_critical severity
      then record t {
        tasks =
            update_where (λ (k : TaskRow). k.task_id =s task_id && is_open k.state)
              (λ (k : TaskRow). record k { state = checkpoint_required; updated_at = stamp })
              t.tasks;
      }
      else t

  -- INSERT INTO degradation_episodes, whose primary key is the episode
  unfoldable pub insert_episode : EpisodeRow → Tables F → Result (Tables F)
  insert_episode row t =
      if ltb 0 (row_count (λ (r : EpisodeRow). r.episode_id =s row.episode_id) t.episodes)
      then raised (integrity_error row.episode_id)
      else ok (record t { episodes = t.episodes ++ row ∷ [] })

  -- INSERT OR IGNORE INTO outbox; `outbox_id` and `idempotency_key` are UNIQUE
  unfoldable pub enqueue_phrase : PhraseKind → String → String → String → ℕ → Tables F → Tables F
  enqueue_phrase kind episode_id outbox_id phrase stamp t = record t {
    outbox =
        insert_or_ignore
          (λ (o : OutboxRow).
            o.outbox_id =s outbox_id || (same_kind o.kind kind && o.episode_id =s episode_id))
          (record {
            outbox_id = outbox_id;
            kind = kind;
            episode_id = episode_id;
            phrase = phrase;
            created_at = stamp;
            available_at = stamp;
            claimed_at = none;
            claim_owner = none;
            emitted_at = none;
            delivery_channel = none;
            attempts = 0;
            last_error = none;
          })
          t.outbox;
  }

-- The new values of `_aggregate_loss`.
pub record Loss : Type 0 where
  pub active_profile : String
  pub severity : DegradationSeverity
  pub lost : List String
  pub tasks : List String
  pub fallback_model : Option String
  pub causes : List String
  pub required : List String

abbrev pub after_loss : DegradationState → DegradationState
after_loss recovering = degraded
after_loss nominal = degraded
after_loss s = s

-- COALESCE(?, column)
abbrev pub coalesce : Option String → Option String → Option String
coalesce none old = old
coalesce (some s) old = some s

-- The state that is written is computed from the row that was read before the transaction.
unfoldable pub set_loss : DegradationState → Loss → String → EpisodeRow → EpisodeRow
set_loss read l event_id r = record r {
  state = after_loss read;
  active_profile = l.active_profile;
  severity = l.severity;
  lost_capabilities = sorted l.lost;
  affected_tasks = sorted l.tasks;
  fallback_model = coalesce l.fallback_model r.fallback_model;
  cause_event_ids = l.causes;
  required_capabilities = sorted l.required;
  recovery_started_at = none;
  recovered_at = none;
  recovered_monotonic_ns = none;
  last_transition_event_id = event_id;
}

unfoldable pub set_degraded : ℕ → String → String → EpisodeRow → EpisodeRow
set_degraded stamp outbox_id event_id r = record r {
  state = degraded;
  aggregation_closed_at = some stamp;
  phrase_outbox_id = some outbox_id;
  last_transition_event_id = event_id;
}

unfoldable pub set_cancelled : ℕ → ℕ → String → EpisodeRow → EpisodeRow
set_cancelled stamp monotonic event_id r = record r {
  state = nominal;
  recovered_at = some stamp;
  recovered_monotonic_ns = some monotonic;
  last_transition_event_id = event_id;
}

unfoldable pub set_recovering : String → String → ℕ → ℕ → String → EpisodeRow → EpisodeRow
set_recovering profile boot stamp monotonic event_id r = record r {
  state = recovering;
  active_profile = profile;
  recovery_started_at = some stamp;
  recovery_started_monotonic_ns = some monotonic;
  timer_boot_id = some boot;
  last_transition_event_id = event_id;
}

unfoldable pub set_flapped : String → String → EpisodeRow → EpisodeRow
set_flapped profile event_id r = record r {
  state = degraded;
  active_profile = profile;
  recovery_started_at = none;
  recovery_started_monotonic_ns = none;
  last_transition_event_id = event_id;
}

unfoldable pub set_recovered : String → ℕ → String → ℕ → String → EpisodeRow → EpisodeRow
set_recovered profile stamp outbox_id monotonic event_id r = record r {
  state = nominal;
  active_profile = profile;
  recovered_at = some stamp;
  recovery_phrase_outbox_id = some outbox_id;
  recovered_monotonic_ns = some monotonic;
  last_transition_event_id = event_id;
}
