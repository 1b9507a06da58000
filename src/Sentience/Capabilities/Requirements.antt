-- ===== src/Sentience/Capabilities/Requirements.antt =====
-- The tasks and what they require: `create_task` and `set_task_requirement` of `CapabilityRegistry`
-- (src/hal9000/sentience/capabilities/registry.py).
use bollywood_hal.Prelude.{
  String, Bool, true, not, ◌&&◌, ◌||◌, ◌=s◌, ◌+s◌, Option, none, some, List, [], ◌∷◌, ◌++◌, ltb,
  if◌then◌else◌,
}
use bollywood_hal.Action.{Result, ok, key_error, integrity_error, ◌>>◌, require, Action, bind, pure}
use bollywood_hal.Storage.Models.{CapabilityLifecycle, observation, info, notice, StoredEvent}
use bollywood_hal.Storage.Json.{Fields, nil, arr, bool, text, obj, field, end}
use bollywood_hal.Storage.Table.{row_count, upsert}
use bollywood_hal.Sentience.Tables.{active, TaskRow, RequirementRow, Tables}
use bollywood_hal.Sentience.Runtime.{Self, Now, utc_ms, append}
use bollywood_hal.Sentience.Degradation.{truthy}
use bollywood_hal.Sentience.Capabilities.{CapabilityRegistry}
use bollywood_hal.Sentience.Capabilities.Events.{lifecycle_text, ledger_event, is_defined}

abbrev pub requirement_key : String → String → Bool → String
requirement_key task_id capability_id unsafe =
    "task-requirement:" +s task_id +s ":" +s capability_id +s ":" +s (if unsafe then "1" else "0")

-- What a caller of `create_task` requires of a capability.
pub record TaskRequirement : Type 0 where
  pub capability_id : String
  pub minimum_state : CapabilityLifecycle
  pub unsafe_if_lost : Bool

-- `task_id or str(uuid.uuid4())`
unfoldable pub or_new : Option String → String → String
unfolding truthy
or_new given fresh = elim (truthy given) [ none ↦ fresh | some s ↦ s ]

requirement_fields : List TaskRequirement → Fields
requirement_fields [] = end
requirement_fields (q ∷ qs) =
    field q.capability_id
      (obj (
        field "minimum_state" (text (lifecycle_text q.minimum_state))
          (field "unsafe_if_lost" (bool q.unsafe_if_lost) end)))
      (requirement_fields qs)

module _ {F : Type 0} where
  abbrev pub add_requirement : String → TaskRequirement → Tables F → Tables F
  add_requirement task_id q t = record t {
    requirements =
        t.requirements
        ++ record {
          task_id = task_id;
          capability_id = q.capability_id;
          minimum_state = q.minimum_state;
          required = true;
          unsafe_if_lost = q.unsafe_if_lost;
          reason = "";
        }
          ∷ [];
  }

  -- the INSERT of each requirement, with its primary key and its references
  unfoldable pub insert_requirements : String → List TaskRequirement → Tables F → Result (Tables F)
  unfolding is_defined row_count
  insert_requirements task_id [] t = ok t
  insert_requirements task_id (q ∷ qs) t =
      let rest = insert_requirements task_id qs (add_requirement task_id q t) in
      do
        require (is_defined t q.capability_id) (integrity_error "FOREIGN KEY")
        require
            (not (
              ltb 0 (
                row_count
                  (λ (r : RequirementRow).
                    r.task_id =s task_id && r.capability_id =s q.capability_id)
                  t.requirements)))
            (integrity_error "UNIQUE")
        rest

module _ {F D : Type 0} (g : CapabilityRegistry F D) where
  unfoldable pub create_task :
      String
      → String
      → List TaskRequirement
      → Option String
      → Now
      → String
      → String
      → Action (Self F D) String
  unfolding or_new requirement_fields insert_requirements row_count
  create_task title risk_level requirements given now fresh_task event_id =
      let task_id = or_new given fresh_task in
      let clean_title = g.clean 1000 title in
      bind
        (append g.runtime
          (ledger_event event_id "hal.tasks" "task.created" task_id info observation
            (obj (
              field "title" (text clean_title) (
                field "risk_level" (text risk_level)
                  (field "requirements" (obj (requirement_fields requirements)) end))))
            (some task_id) ("task-create:" +s task_id))
          now
          (λ _ t. do
            require (not (ltb 0 (row_count (λ (k : TaskRow). k.task_id =s task_id) t.tasks)))
                (integrity_error "UNIQUE")
            insert_requirements task_id requirements (record t {
              tasks =
                  t.tasks
                  ++ record {
                    task_id = task_id;
                    title = clean_title;
                    state = active;
                    created_at = utc_ms now;
                    updated_at = utc_ms now;
                    completed_at = none;
                    interrupted_at = none;
                    risk_level = risk_level;
                    current_checkpoint_id = none;
                    exact_completion_event_id = none;
                    unresolved = arr nil;
                  }
                    ∷ [];
            })))
        (λ _. pure task_id)

  unfoldable pub set_task_requirement :
      String
      → String
      → CapabilityLifecycle
      → Bool
      → String
      → Now
      → String
      → Action (Self F D) StoredEvent
  unfolding row_count is_defined upsert
  set_task_requirement task_id capability_id minimum unsafe reason now event_id =
      append g.runtime
        (ledger_event event_id "hal.tasks" "task.capability.required" capability_id notice
          observation
          (obj (
            field "task_id" (text task_id) (
              field "minimum_state" (text (lifecycle_text minimum)) (
                field "unsafe_if_lost" (bool unsafe)
                  (field "reason" (text (g.clean 2000 reason)) end)))))
          (some task_id) (requirement_key task_id capability_id unsafe))
        now
        (λ _ t. do
          require (ltb 0 (row_count (λ (k : TaskRow). k.task_id =s task_id) t.tasks))
              (key_error task_id)
          require (is_defined t capability_id) (key_error capability_id)
          ok (record t {
            requirements =
                upsert
                  (λ (r : RequirementRow). r.task_id =s task_id && r.capability_id =s capability_id)
                  (λ (r : RequirementRow). record r {
                    minimum_state = minimum;
                    required = true;
                    unsafe_if_lost = r.unsafe_if_lost || unsafe;
                    reason = g.clean 2000 reason;
                  })
                  (record {
                    task_id = task_id;
                    capability_id = capability_id;
                    minimum_state = minimum;
                    required = true;
                    unsafe_if_lost = unsafe;
                    reason = g.clean 2000 reason;
                  })
                  t.requirements;
          }))
