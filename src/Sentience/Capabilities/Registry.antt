-- ===== src/Sentience/Capabilities/Registry.antt =====
-- The writes of `CapabilityRegistry` (src/hal9000/sentience/capabilities/registry.py): each appends one
-- exact event, and changes the tables with it.
pub mod Known
pub mod Current
use bollywood_hal.Prelude.{
  ℕ, String, Bool, true, false, not, ◌&&◌, ◌||◌, ◌=s◌, ◌+s◌, Option, none, some, List, [], ◌∷◌,
  ◌++◌, ltb, if◌then◌else◌, contains,
}
use bollywood_hal.Action.{
  Result, ok, raised, key_error, integrity_error, ◌>>=◌, ◌>>◌, require, Action, raise, bind, pure,
}
use bollywood_hal.Storage.Models.{
  CapabilityLifecycle, EventOrigin, observation, configuration, Severity, info, notice, warning,
  error, StoredEvent,
}
use bollywood_hal.Storage.Json.{Json, Fields, null, bool, num, text, obj, field, end, optional}
use bollywood_hal.Storage.Table.{select_one, row_count, insert_or_ignore, upsert}
use bollywood_hal.Storage.Exact.{Projection}
use bollywood_hal.Sentience.Tables.{
  ImpactLevel, none_impact, cosmetic, peripheral, cognitive, critical, DefinitionRow, CurrentRow,
  EdgeRow, TransitionRow, TaskState, active, TaskRow, RequirementRow, Tables,
}
use bollywood_hal.Sentience.Runtime.{Self, Now, utc_ms, NewEvent, append}
use bollywood_hal.Sentience.Impact.{classify_task_impact, is_material}
use bollywood_hal.Sentience.Degradation.{CapabilityTransition, truthy}
use bollywood_hal.Sentience.Capabilities.{CapabilityRegistry, is_loss, current_row}
use bollywood_hal.Sentience.Capabilities.Events.{
  lifecycle_text, impact_text, ledger_event, is_defined,
}

is_critical_impact : ImpactLevel → Bool
is_critical_impact critical = true
is_critical_impact _ = false

abbrev pub definition_key : String → String
definition_key capability_id = "capability-definition:v1:" +s capability_id

-- CHECK (nominal_requirement IN …) of the migration
abbrev pub nominal_requirements : List String
nominal_requirements = "required" ∷ "optional" ∷ "disabled" ∷ []

-- What a caller of `transition` gives.
pub record TransitionRequest (F : Type 0) : Type 0 where
  pub capability_id : String
  pub state : CapabilityLifecycle
  pub reason : String
  pub evidence : Json
  pub task_id : Option String
  pub expected : Bool
  pub permission_scope : String
  pub trust_state : String
  pub confidence : F
  pub health : Option F
  pub freshness_deadline : Option String
  pub replacement_capability : Option String
  pub active_profile : Option String

module _ {F D : Type 0} (g : CapabilityRegistry F D) where
  unfoldable pub define : DefinitionRow → Now → String → Action (Self F D) StoredEvent
  unfolding upsert
  define d now event_id =
      append g.runtime
        (ledger_event event_id "hal.capabilities" "capability.defined" d.capability_id info
          configuration
          (obj (
            field "display_name" (text d.display_name) (
              field "category" (text d.category) (
                field "nominal_requirement" (text d.nominal_requirement) (
                  field "weight" (num d.weight) (
                    field "material_class" (text d.material_class)
                      (field "configured" (bool d.configured) end)))))))
          none (definition_key d.capability_id))
        now
        (λ _ t.
          require (contains d.nominal_requirement nominal_requirements) (integrity_error "CHECK")
          >> ok (record t {
            definitions =
                upsert (λ (r : DefinitionRow). r.capability_id =s d.capability_id) (λ _. d) d
                  t.definitions;
          }))

  unfoldable pub add_dependency : String → String → Now → String → Action (Self F D) StoredEvent
  unfolding is_defined insert_or_ignore
  add_dependency parent required now event_id =
      append g.runtime
        (ledger_event event_id "hal.capabilities" "capability.dependency.configured" parent info
          configuration
          (obj (
            field "required_capability" (text required) (field "minimum_state" (text "READY") end)))
          none ("capability-edge:v1:" +s parent +s ":" +s required))
        now
        (λ _ t.
          require (is_defined t parent && is_defined t required) (integrity_error "FOREIGN KEY")
          >> ok (record t {
            edges =
                insert_or_ignore
                  (λ (x : EdgeRow).
                    x.parent_capability =s parent && x.required_capability =s required)
                  (record { parent_capability = parent; required_capability = required }) t.edges;
          }))

  -- `capability_id` and the material part of what `transition` computes before its event
  unfoldable pub impact_of : Tables F → TransitionRequest F → DefinitionRow → ImpactLevel
  unfolding is_loss classify_task_impact truthy select_one
  impact_of t q d =
      let requirement : Option RequirementRow = elim (truthy q.task_id) [
        | none ↦ none
        | some task_id ↦
            select_one
              (λ (r : RequirementRow). r.task_id =s task_id && r.capability_id =s q.capability_id)
              t.requirements
      ] in
      let requires : Bool = elim requirement [ none ↦ false | some r ↦ r.required ] in
      let unsafe : Bool = elim requirement [ none ↦ false | some r ↦ r.unsafe_if_lost ] in
      if is_loss q.state
      then classify_task_impact d.nominal_requirement d.material_class requires unsafe
      else none_impact

  unfoldable pub previous_state : Tables F → String → CapabilityLifecycle
  unfolding current_row
  previous_state t capability_id = elim (current_row t capability_id) [
    | none ↦ CapabilityLifecycle.unknown
    | some r ↦ r.lifecycle_state
  ]

  -- the row of capability_current that `transition` writes
  unfoldable pub new_current : TransitionRequest F → ImpactLevel → Now → String → CurrentRow F
  new_current q impact now event_id = record {
    capability_id = q.capability_id;
    lifecycle_state = q.state;
    health = q.health;
    permission_scope = q.permission_scope;
    trust_state = q.trust_state;
    confidence = q.confidence;
    observed_at = utc_ms now;
    freshness_deadline = q.freshness_deadline;
    evidence_event_id = event_id;
    replacement_capability = q.replacement_capability;
    active_profile = q.active_profile;
    current_task_impact = impact;
  }

  unfoldable pub project_transition :
      TransitionRequest F → CapabilityTransition → Now → Projection (Tables F)
  unfolding is_defined new_current upsert row_count
  project_transition q c now _ t = do
    require
        (not (
          ltb 0 (
            row_count
              (λ (x : TransitionRow).
                x.transition_id =s c.transition_id || x.event_id =s c.event_id)
              t.transitions)))
        (integrity_error "UNIQUE")
    require (is_defined t q.capability_id) (integrity_error "FOREIGN KEY")
    ok (record t {
      transitions =
          t.transitions
          ++ record {
            transition_id = c.transition_id;
            capability_id = q.capability_id;
            from_state = c.previous;
            to_state = q.state;
            expected = q.expected;
            material = c.material;
            occurred_at = utc_ms now;
            event_id = c.event_id;
            reason = g.clean 2000 q.reason;
            task_impact = c.task_impact;
          }
            ∷ [];
      current =
          upsert (λ (r : CurrentRow F). r.capability_id =s q.capability_id)
            (λ _. new_current q c.task_impact now c.event_id)
            (new_current q c.task_impact now c.event_id) t.current;
    })

  -- what `transition` returns
  unfoldable pub transition_record :
      Tables F → TransitionRequest F → DefinitionRow → String → String → CapabilityTransition
  unfolding impact_of previous_state is_loss
  transition_record t q d transition_id event_id =
      let impact = impact_of t q d in
      record {
        transition_id = transition_id;
        capability_id = q.capability_id;
        previous = previous_state t q.capability_id;
        current = q.state;
        expected = q.expected;
        material = (not q.expected && is_loss q.state) && is_material impact;
        task_impact = impact;
        event_id = event_id;
      }

  transition_event : TransitionRequest F → CapabilityTransition → NewEvent
  unfolding is_critical_impact
  transition_event q c =
      ledger_event c.event_id "hal.capabilities" "capability.transitioned" q.capability_id
        (if is_critical_impact c.task_impact then error else if c.material then warning else info)
        observation
        (obj (
          field "from" (text (lifecycle_text c.previous)) (
            field "to" (text (lifecycle_text q.state)) (
              field "reason" (text (g.clean 2000 q.reason)) (
                field "expected" (bool q.expected) (
                  field "material" (bool c.material) (
                    field "task_impact" (text (impact_text c.task_impact)) (
                      field "evidence" (g.runtime.codec.redact q.evidence) (
                        field "replacement_capability" (optional q.replacement_capability)
                          (field "active_profile" (optional q.active_profile) end))))))))))
        q.task_id ("capability-transition:" +s c.transition_id)

  unfoldable pub transition :
      TransitionRequest F → Now → String → String → Action (Self F D) CapabilityTransition
  unfolding transition_record project_transition transition_event
  transition q now transition_id event_id db =
      elim (select_one (λ (d : DefinitionRow). d.capability_id =s q.capability_id)
        db.tables.definitions) [
          | none ↦ raise (key_error ("undefined capability " +s q.capability_id)) db
          | some d ↦
              let c = transition_record db.tables q d transition_id event_id in
              bind (append g.runtime (transition_event q c) now (project_transition q c now))
                (λ _. pure c) db
        ]
