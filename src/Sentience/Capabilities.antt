-- ===== src/Sentience/Capabilities.antt =====
-- The reads of `CapabilityRegistry` (src/hal9000/sentience/capabilities/registry.py). Its writes stand
-- in `Registry` and `Requirements`, `TaskLedger` of capabilities/tasks.py in `Tasks`.
pub mod Events
pub mod Registry
pub mod Requirements
pub mod Tasks
pub mod Defaults
use bollywood_hal.Prelude.{
  ℕ, String, Bool, true, false, not, ◌&&◌, ◌||◌, ◌=s◌, text_leb, Option, none, some, List, [], ◌∷◌,
  map, if◌then◌else◌,
}
use bollywood_hal.Action.{Result, ok, raised, key_error, ◌>>=◌}
use bollywood_hal.Storage.Models.{CapabilityLifecycle}
use bollywood_hal.Storage.Table.{select_one, select_all}
use bollywood_hal.Sentience.Tables.{ImpactLevel, CurrentRow, RequirementRow, Tables}
use bollywood_hal.Sentience.Runtime.{Runtime}
use bollywood_hal.Sentience.Degradation.{is_ready, truthy}

-- `clean n text` is `redact_text(text)[:n]`; the patterns of the redaction are run by `re`.
pub record CapabilityRegistry (F D : Type 0) : Type 0 where
  pub runtime : Runtime F D
  pub clean : ℕ → String → String

pub record CapabilityState (F : Type 0) : Type 0 where
  pub capability_id : String
  pub state : CapabilityLifecycle
  pub health : Option F
  pub permission_scope : String
  pub trust_state : String
  pub confidence : F
  pub observed_at : ℕ
  pub freshness_deadline : Option String
  pub evidence_event_id : String
  pub replacement_capability : Option String
  pub task_impact : ImpactLevel

-- `_LOSS_STATES`
unfoldable pub is_loss : CapabilityLifecycle → Bool
is_loss CapabilityLifecycle.degraded = true
is_loss CapabilityLifecycle.unreliable = true
is_loss CapabilityLifecycle.denied = true
is_loss CapabilityLifecycle.unavailable = true
is_loss CapabilityLifecycle.disconnected = true
is_loss CapabilityLifecycle.failed = true
is_loss CapabilityLifecycle.stale = true
is_loss _ = false

unfoldable pub by_capability : RequirementRow → List RequirementRow → List RequirementRow
by_capability q [] = q ∷ []
by_capability q (r ∷ rs) =
    let rest = by_capability q rs in
    if text_leb q.capability_id r.capability_id then q ∷ r ∷ rs else r ∷ rest

-- ORDER BY capability_id
unfoldable pub ordered : List RequirementRow → List RequirementRow
unfolding by_capability
ordered [] = []
ordered (q ∷ qs) = by_capability q (ordered qs)

module _ {F : Type 0} where
  unfoldable pub state_of_row : CurrentRow F → CapabilityState F
  unfolding truthy
  state_of_row r = record {
    capability_id = r.capability_id;
    state = r.lifecycle_state;
    health = r.health;
    permission_scope = r.permission_scope;
    trust_state = r.trust_state;
    confidence = r.confidence;
    observed_at = r.observed_at;
    freshness_deadline = truthy r.freshness_deadline;
    evidence_event_id = r.evidence_event_id;
    replacement_capability = truthy r.replacement_capability;
    task_impact = r.current_task_impact;
  }

  unfoldable pub current_row : Tables F → String → Option (CurrentRow F)
  unfolding select_one
  current_row t capability_id =
      select_one (λ (c : CurrentRow F). c.capability_id =s capability_id) t.current

  unfoldable pub current : Tables F → String → Result (CapabilityState F)
  unfolding current_row state_of_row
  current t capability_id = elim (current_row t capability_id) [
    | none ↦ raised (key_error capability_id)
    | some r ↦ ok (state_of_row r)
  ]

  -- the LEFT JOIN of a requirement with the current state
  unfoldable pub is_unsatisfied : Tables F → String → Bool
  unfolding current_row
  is_unsatisfied t capability_id = elim (current_row t capability_id) [
    | none ↦ true
    | some r ↦ not (is_ready r.lifecycle_state)
  ]

  unfoldable pub task_requirements : Tables F → String → List RequirementRow
  unfolding ordered
  task_requirements t task_id =
      ordered
        (select_all (λ (q : RequirementRow). q.task_id =s task_id && q.required) t.requirements)

  unfoldable pub unsatisfied_requirements : Tables F → String → List String
  unfolding task_requirements is_unsatisfied
  unsatisfied_requirements t task_id =
      map (λ (q : RequirementRow). q.capability_id)
        (select_all (λ (q : RequirementRow). is_unsatisfied t q.capability_id)
          (task_requirements t task_id))
