-- ===== src/Examples/Capabilities.antt =====
-- The theorems on the capability and task ledgers at concrete inputs.
use bollywood_hal.Prelude.{
  ℕ, ◌≡◌, refl, String, true, false, some, List, [], ◌∷◌, map, length, All, sorted,
}
use bollywood_hal.Action.{ok}
use bollywood_hal.Storage.Models.{CapabilityLifecycle}
use bollywood_hal.Storage.Json.{null}
use bollywood_hal.Storage.Exact.Known.{has_key}
use bollywood_hal.Storage.Envelope.{validate, with_payload}
use bollywood_hal.Storage.Rows.{find_existing, empty, same_key}
use bollywood_hal.Storage.Exact.{append_exact_event, redacted, insert, new_row}
use bollywood_hal.Sentience.Tables.{CurrentRow}
use bollywood_hal.Sentience.Runtime.{Self, append}
use bollywood_hal.Sentience.Capabilities.{CapabilityState, current}
use bollywood_hal.Sentience.Capabilities.Defaults.{list_current}
use bollywood_hal.Sentience.Capabilities.Defaults.Listed.{FromRow, list_current-ok}
use bollywood_hal.Sentience.Capabilities.Registry.{define, transition, transition_record}
use bollywood_hal.Sentience.Capabilities.Registry.Known.{
  define_known, set_task_requirement_known, finish_known,
}
use bollywood_hal.Sentience.Capabilities.Requirements.{create_task, set_task_requirement}
use bollywood_hal.Sentience.Capabilities.Tasks.{finish, interrupt}
use bollywood_hal.Sentience.Capabilities.Tasks.Closed.{
  TaskCall, checkpointed, finished, stopped, calls, Closed, calls-Closed,
}
use bollywood_hal.Sentience.Degradation.{CapabilityTransition}
use bollywood_hal.Sentience.Capabilities.Tasks.Numbering.{
  NumberedFrom, numbered-none, calls-NumberedFrom,
}
use bollywood_hal.Examples.Chain.{Digest}
use bollywood_hal.Examples.World.{registry, reasoning, reasoning_failed, at_seconds, machine_self}

abbrev defined : Self ℕ Digest
defined = (define registry reasoning (at_seconds 1) "e1" machine_self).1

defined_key : has_key "capability-definition:v1:reasoning" defined.events ≡ true
unfolding has_key define append append_exact_event redacted validate with_payload insert
    find_existing empty new_row
defined_key = refl

define_known_example :
    (define registry (record reasoning { configured = false }) (at_seconds 2) "e2" defined).1
    ≡ defined
define_known_example =
    define_known registry (record reasoning { configured = false }) (at_seconds 2) "e2" defined
      defined_key

abbrev with_task : Self ℕ Digest
with_task =
    (create_task registry "title" "ordinary" [] (some "task") (at_seconds 2) "" "e2" defined).1

abbrev required : Self ℕ Digest
required =
    (set_task_requirement registry "task" "reasoning" CapabilityLifecycle.ready false "why"
      (at_seconds 3) "e3" with_task).1

required_key : has_key "task-requirement:task:reasoning:0" required.events ≡ true
unfolding has_key define create_task set_task_requirement append append_exact_event redacted
    validate with_payload insert find_existing empty new_row
required_key = refl

set_task_requirement_known_example :
    (set_task_requirement registry "task" "reasoning" CapabilityLifecycle.degraded false "less"
      (at_seconds 4)
      "e4"
      required).1
    ≡ required
set_task_requirement_known_example =
    set_task_requirement_known registry "task" "reasoning" CapabilityLifecycle.degraded false "less"
      (at_seconds 4) "e4" required required_key

abbrev unsure : Self ℕ Digest
unsure = (finish registry "task" "done" false (at_seconds 5) "e5" with_task).1

abbrev stopped_again : Self ℕ Digest
stopped_again = (interrupt registry "task" "more" false (at_seconds 6) "e6" unsure).1

unsure_key : has_key "task-finish:task:completed_unverified" stopped_again.events ≡ true
unfolding has_key define create_task finish interrupt append append_exact_event redacted validate
    with_payload insert find_existing empty new_row
unsure_key = refl

finish_known_example :
    (finish registry "task" "done now" false (at_seconds 7) "e7" stopped_again).1 ≡ stopped_again
finish_known_example =
    finish_known registry "task" "done now" false (at_seconds 7) "e7" stopped_again unsure_key

abbrev work : List TaskCall
work =
    checkpointed "task" null null null (some "c1") (at_seconds 3) "" "e3"
    ∷ finished "task" "done" true (at_seconds 5) "e5"
    ∷ stopped "task" "late" true (at_seconds 6) "e6"
    ∷ []

calls-Closed_example : Closed with_task.tables.tasks (calls registry work with_task).tables.tasks
calls-Closed_example = calls-Closed registry work with_task

abbrev failed : Self ℕ Digest
failed = (transition registry reasoning_failed (at_seconds 3) "t1" "e3" with_task).1

abbrev reported : CapabilityTransition
reported = transition_record registry with_task.tables reasoning_failed reasoning "t1" "e3"

no_checkpoints : (k : String) → NumberedFrom k 0 with_task.tables.checkpoints
unfolding define create_task append append_exact_event redacted validate with_payload insert
    find_existing empty new_row same_key
no_checkpoints k = numbered-none k

calls-NumberedFrom_example :
    NumberedFrom "task" 0 (calls registry work with_task).tables.checkpoints
calls-NumberedFrom_example = calls-NumberedFrom registry work with_task no_checkpoints "task"

list_current-ok_example :
    (ss : List (CapabilityState ℕ)) × (list_current failed.tables ≡ ok ss)
    × (map (λ (s : CapabilityState ℕ). s.capability_id) ss
        ≡ sorted (map (λ (c : CurrentRow ℕ). c.capability_id) failed.tables.current))
    × (length ss ≡ length failed.tables.current)
    × All (FromRow failed.tables.current) ss
list_current-ok_example = list_current-ok failed.tables
