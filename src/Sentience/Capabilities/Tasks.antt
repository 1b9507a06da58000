-- ===== src/Sentience/Capabilities/Tasks.antt =====
-- `TaskLedger` of src/hal9000/sentience/capabilities/tasks.py.
pub mod Closed
pub mod Numbering
use bollywood_hal.Prelude.{
  ℕ, ◌+◌, max, String, Bool, true, false, not, ◌&&◌, ◌==◌, ◌=s◌, ◌+s◌, Option, none, some, List, [],
  ◌∷◌, ◌++◌, ltb, if◌then◌else◌,
}
use bollywood_hal.Action.{
  Result, ok, raised, key_error, integrity_error, ◌>>=◌, ◌>>◌, require, Action, bind, pure,
}
use bollywood_hal.Storage.Models.{observation, Severity, info, notice, warning}
use bollywood_hal.Storage.Json.{Json, bool, text, obj, field, end}
use bollywood_hal.Storage.Table.{row_count, update_where}
use bollywood_hal.Storage.Exact.{Projection}
use bollywood_hal.Sentience.Tables.{
  TaskState, completed, completed_unverified, cancelled, interrupted, TaskRow, CheckpointRow,
  Tables,
}
use bollywood_hal.Sentience.Runtime.{Self, Now, utc_ms, NewEvent, append}
use bollywood_hal.Sentience.Degradation.Projections.{is_open}
use bollywood_hal.Sentience.Capabilities.{CapabilityRegistry}
use bollywood_hal.Sentience.Capabilities.Events.{ledger_event}
use bollywood_hal.Sentience.Capabilities.Requirements.{or_new}

abbrev pub state_text : TaskState → String
state_text TaskState.active = "active"
state_text TaskState.checkpoint_required = "checkpoint_required"
state_text completed = "completed"
state_text completed_unverified = "completed_unverified"
state_text cancelled = "cancelled"
state_text interrupted = "interrupted"

-- `_event`
unfoldable pub task_event : String → String → Json → Severity → String → String → NewEvent
task_event event_type task_id payload severity key event_id =
    ledger_event event_id "hal.tasks" event_type task_id severity observation payload (some task_id)
      key

-- COALESCE(MAX(sequence), 0) over the checkpoints of a task
unfoldable pub last_checkpoint : String → List CheckpointRow → ℕ
last_checkpoint task_id [] = 0
last_checkpoint task_id (c ∷ cs) =
    let rest = last_checkpoint task_id cs in
    if c.task_id =s task_id then max c.sequence rest else rest

module _ {F : Type 0} where
  -- UPDATE tasks SET … WHERE task_id=? AND state NOT IN ('completed','cancelled'), which must find one
  unfoldable pub close_task : String → (TaskRow → TaskRow) → Projection (Tables F)
  unfolding row_count update_where
  close_task task_id change _ t =
      let open_task = λ (k : TaskRow). k.task_id =s task_id && is_open k.state in
      require (row_count open_task t.tasks == 1) (key_error task_id)
      >> ok (record t { tasks = update_where open_task change t.tasks })

unfoldable pub finish_state : Bool → TaskState
finish_state verified = if verified then completed else completed_unverified

unfoldable pub interrupt_state : Bool → TaskState
interrupt_state is_cancelled = if is_cancelled then cancelled else interrupted

unfoldable pub set_finished : Bool → ℕ → String → TaskRow → TaskRow
unfolding finish_state
set_finished verified stamp event_id k = record k {
  state = finish_state verified;
  completed_at = some stamp;
  updated_at = stamp;
  exact_completion_event_id = some event_id;
}

unfoldable pub set_interrupted : Bool → ℕ → TaskRow → TaskRow
unfolding interrupt_state
set_interrupted is_cancelled stamp k = record k {
  state = interrupt_state is_cancelled;
  interrupted_at = some stamp;
  updated_at = stamp;
}

unfoldable pub set_checkpoint : String → Json → ℕ → TaskRow → TaskRow
set_checkpoint checkpoint_id unresolved stamp k = record k {
  current_checkpoint_id = some checkpoint_id;
  updated_at = stamp;
  unresolved = unresolved;
}

abbrev pub finish_key : String → Bool → String
finish_key task_id verified =
    "task-finish:" +s task_id +s ":" +s (if verified then "completed" else "completed_unverified")

module _ {F D : Type 0} (g : CapabilityRegistry F D) where
  unfoldable pub project_checkpoint :
      String → String → Json → Json → Json → Now → Projection (Tables F)
  unfolding row_count update_where last_checkpoint set_checkpoint
  project_checkpoint checkpoint_id task_id state unresolved pending now _ t = do
    require (ltb 0 (row_count (λ (k : TaskRow). k.task_id =s task_id) t.tasks)) (key_error task_id)
    require
        (not (
          ltb 0
            (row_count (λ (c : CheckpointRow). c.checkpoint_id =s checkpoint_id) t.checkpoints)))
        (integrity_error "UNIQUE")
    ok (record t {
      checkpoints =
          t.checkpoints
          ++ record {
            checkpoint_id = checkpoint_id;
            task_id = task_id;
            sequence = last_checkpoint task_id t.checkpoints + 1;
            created_at = utc_ms now;
            state = state;
            unresolved = unresolved;
            pending_actions = pending;
          }
            ∷ [];
      tasks =
          update_where (λ (k : TaskRow). k.task_id =s task_id)
            (set_checkpoint checkpoint_id unresolved (utc_ms now)) t.tasks;
    })

  unfoldable pub checkpoint :
      String → Json → Json → Json → Option String → Now → String → String → Action (Self F D) String
  unfolding or_new task_event project_checkpoint
  checkpoint task_id state unresolved pending given now fresh_checkpoint event_id =
      let checkpoint_id = or_new given fresh_checkpoint in
      let redact = g.runtime.codec.redact in
      bind
        (append g.runtime
          (task_event "task.checkpointed" task_id
            (obj (
              field "checkpoint_id" (text checkpoint_id) (
                field "unresolved" (redact unresolved)
                  (field "pending_actions" (redact pending) end))))
            info ("task-checkpoint:" +s checkpoint_id) event_id)
          now
          (project_checkpoint checkpoint_id task_id (redact state) (redact unresolved)
            (redact pending) now))
        (λ _. pure checkpoint_id)

  unfoldable pub finish : String → String → Bool → Now → String → Action (Self F D) Bool
  unfolding task_event close_task set_finished
  finish task_id outcome verified now event_id =
      bind
        (append g.runtime
          (task_event (if verified then "task.completed" else "task.completion.uncertain") task_id
            (obj (
              field "outcome" (text (g.clean 4000 outcome)) (field "verified" (bool verified) end)))
            (if verified then info else warning) (finish_key task_id verified) event_id)
          now (close_task task_id (set_finished verified (utc_ms now) event_id)))
        (λ _. pure true)

  unfoldable pub interrupt : String → String → Bool → Now → String → Action (Self F D) Bool
  unfolding task_event close_task set_interrupted
  interrupt task_id reason is_cancelled now event_id =
      bind
        (append g.runtime
          (task_event (if is_cancelled then "task.cancelled" else "task.interrupted") task_id
            (obj (field "reason" (text (g.clean 2000 reason)) end)) notice
            ("task-interrupt:"
              +s task_id
              +s ":"
              +s (if is_cancelled then "cancelled" else "interrupted"))
            event_id)
          now (close_task task_id (set_interrupted is_cancelled (utc_ms now))))
        (λ _. pure true)
