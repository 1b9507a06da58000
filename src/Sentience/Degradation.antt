-- ===== src/Sentience/Degradation.antt =====
-- `DegradationEngine` of src/hal9000/sentience/degradation/engine.py: its settings and
-- the reads that its operations make. The operations stand in `Operations`, the updates of the tables
-- that they make in `Projections`.
pub mod Projections
pub mod Records
pub mod Steps
pub mod Operations
pub mod Selection
pub mod Change
pub mod Exclusive
pub mod Life
pub mod Timing
pub mod Losses
use bollywood_hal.Prelude.{
  ℕ, ◌-◌, ◌*◌, String, Bool, true, false, not, ◌&&◌, Option, none, some, List, [], ◌∷◌, map, ltb,
  ◌=s◌, sorted, add_text, add_texts, if◌then◌else◌,
}
use bollywood_hal.Storage.Models.{
  CapabilityLifecycle, DegradationState, nominal, DegradationSeverity,
}
use bollywood_hal.Storage.Rows.{Row}
use bollywood_hal.Storage.Json.{Json}
use bollywood_hal.Storage.Table.{select_one, select_all, select_latest}
use bollywood_hal.Sentience.Tables.{
  ImpactLevel, DefinitionRow, CurrentRow, RequirementRow, EpisodeRow, Tables,
}
use bollywood_hal.Sentience.Runtime.{Runtime, Self, Now}

-- `CapabilityTransition` of src/hal9000/sentience/capabilities/registry.py
pub record CapabilityTransition : Type 0 where
  pub transition_id : String
  pub capability_id : String
  pub previous : CapabilityLifecycle
  pub current : CapabilityLifecycle
  pub expected : Bool
  pub material : Bool
  pub task_impact : ImpactLevel
  pub event_id : String

pub record Settings : Type 0 where
  pub aggregation_window_seconds : ℕ
  pub recovery_stability_seconds : ℕ
  pub flap_suppression_seconds : ℕ
  pub phrase : String
  pub recovery_phrase : String

pub record Engine (F D : Type 0) : Type 0 where
  pub runtime : Runtime F D
  pub settings : Settings
  pub nominal_profile : String

-- `state!='NOMINAL'`
abbrev pub is_active : DegradationState → Bool
is_active nominal = false
is_active _ = true

abbrev pub is_ready : CapabilityLifecycle → Bool
is_ready CapabilityLifecycle.ready = true
is_ready _ = false

abbrev pub is_set {ℓ} : {A : Type ℓ} → Option A → Bool
is_set none = false
is_set (some a) = true

abbrev pub or_zero : Option ℕ → ℕ
or_zero none = 0
or_zero (some n) = n

-- `_active_row`
unfoldable pub active_row : {F : Type 0} → Tables F → Option EpisodeRow
active_row t =
    select_latest (λ (r : EpisodeRow). is_active r.state) (λ (r : EpisodeRow). r.started_at)
      t.episodes

same_boot : Option String → String → Bool
same_boot none boot = false
same_boot (some b) boot = b =s boot

wall_elapsed_ns : Option ℕ → Now → ℕ
wall_elapsed_ns none now = 0
wall_elapsed_ns (some ms) now = (now.wall_us - ms * 1000) * 1000

-- `_elapsed_seconds`, in nanoseconds. The difference of the clocks stops at 0 as `max(0.0, …)` does.
unfoldable pub elapsed_ns : String → Option String → Option ℕ → Option ℕ → Now → ℕ
unfolding same_boot wall_elapsed_ns
elapsed_ns boot timer_boot wall none now = wall_elapsed_ns wall now
elapsed_ns boot timer_boot wall (some started) now =
    if same_boot timer_boot boot then now.monotonic_ns - started else wall_elapsed_ns wall now

abbrev pub seconds : ℕ → ℕ
seconds n = n * 1000000000

-- the latest of the recovered episodes; `recovered_at IS NOT NULL`
unfoldable pub latest_recovered : {F : Type 0} → Tables F → Option EpisodeRow
latest_recovered t =
    select_latest (λ (r : EpisodeRow). not (is_active r.state) && is_set r.recovered_at)
      (λ (r : EpisodeRow). or_zero r.recovered_at) t.episodes

module _ {F D : Type 0} (e : Engine F D) where
  within_flap : Now → EpisodeRow → Option EpisodeRow
  within_flap now r =
      if ltb
        (elapsed_ns e.runtime.boot_id r.timer_boot_id r.recovered_at r.recovered_monotonic_ns now)
        (seconds e.settings.flap_suppression_seconds)
      then some r
      else none

  -- `_recent_recovered_for_flap`
  unfoldable pub recent_recovered_for_flap : Tables F → Now → Option EpisodeRow
  unfolding within_flap latest_recovered
  recent_recovered_for_flap t now = elim (latest_recovered t) [
    | none ↦ none
    | some r ↦ within_flap now r
  ]

-- `str(row["task_id"]) if row and row["task_id"] else None`
unfoldable pub truthy : Option String → Option String
truthy none = none
truthy (some s) = if s =s "" then none else some s

-- `_event_task`
unfoldable pub event_task : {F D : Type 0} → String → Self F D → Option String
unfolding truthy
event_task event_id db =
    elim (select_one (λ (r : Row Json _ _). r.event.event_id =s event_id) db.events) [
      | none ↦ none
      | some r ↦ truthy r.event.task_id
    ]

module _ {F : Type 0} where
  -- the lifecycle of a capability is one of `_RESTORED`
  unfoldable pub is_restored : Tables F → String → Bool
  is_restored t capability =
      elim (select_one (λ (c : CurrentRow F). c.capability_id =s capability) t.current) [
        | none ↦ false
        | some c ↦ is_ready c.lifecycle_state
      ]

  nominal_required : Tables F → List String
  nominal_required t =
      map (λ (d : DefinitionRow). d.capability_id)
        (select_all
          (λ (d : DefinitionRow).
            (d.configured && d.nominal_requirement =s "required") && is_restored t d.capability_id)
          t.definitions)

  task_required : Option String → Tables F → List String
  task_required none t = []
  task_required (some task_id) t =
      map (λ (q : RequirementRow). q.capability_id)
        (select_all (λ (q : RequirementRow). q.task_id =s task_id && q.required) t.requirements)

  -- `_required_snapshot`: the lost capability, what the nominal profile requires and is restored,
  -- and what the task requires, each once and in order
  unfoldable pub required_snapshot : String → Option String → Tables F → List String
  unfolding nominal_required task_required
  required_snapshot lost task_id t =
      sorted
        (add_text lost (add_texts (task_required task_id t) (add_texts (nominal_required t) [])))

  -- `_all_required_restored`
  unfoldable pub all_restored : Tables F → List String → Bool
  unfolding is_restored
  all_restored t [] = true
  all_restored t (c ∷ cs) = is_restored t c && all_restored t cs
