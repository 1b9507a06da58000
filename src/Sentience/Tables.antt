-- ===== src/Sentience/Tables.antt =====
-- The tables of src/hal9000/sentience/storage/migrations/0001_machine_self.sql (with the columns
-- that 0002 and 0003 add) that the modelled ledgers read and write. A timestamp column holds the
-- fixed-width UTC text of `utc_iso`; it is kept as the millisecond that the text names, so that the
-- order of the texts is the order of the numbers. A JSON column of texts is kept as the list.
use bollywood_hal.Prelude.{ℕ, String, Bool, Option, List, []}
use bollywood_hal.Storage.Models.{CapabilityLifecycle, DegradationState, DegradationSeverity}
use bollywood_hal.Storage.Json.{Json}

pub data ImpactLevel : Type 0 where
  none_impact cosmetic peripheral cognitive critical : ImpactLevel

-- `weight` is in hundredths.
pub record DefinitionRow : Type 0 where
  pub capability_id : String
  pub display_name : String
  pub category : String
  pub nominal_requirement : String
  pub weight : ℕ
  pub material_class : String
  pub configured : Bool

pub record CurrentRow (F : Type 0) : Type 0 where
  pub capability_id : String
  pub lifecycle_state : CapabilityLifecycle
  pub health : Option F
  pub permission_scope : String
  pub trust_state : String
  pub confidence : F
  pub observed_at : ℕ
  pub freshness_deadline : Option String
  pub evidence_event_id : String
  pub replacement_capability : Option String
  pub active_profile : Option String
  pub current_task_impact : ImpactLevel

pub record EdgeRow : Type 0 where
  pub parent_capability : String
  pub required_capability : String

pub record TransitionRow : Type 0 where
  pub transition_id : String
  pub capability_id : String
  pub from_state : CapabilityLifecycle
  pub to_state : CapabilityLifecycle
  pub expected : Bool
  pub material : Bool
  pub occurred_at : ℕ
  pub event_id : String
  pub reason : String
  pub task_impact : ImpactLevel

-- The texts that the ledgers write into `tasks.state`.
pub data TaskState : Type 0 where
  active checkpoint_required completed completed_unverified cancelled interrupted : TaskState

pub record TaskRow : Type 0 where
  pub task_id : String
  pub title : String
  pub state : TaskState
  pub created_at : ℕ
  pub updated_at : ℕ
  pub completed_at : Option ℕ
  pub interrupted_at : Option ℕ
  pub risk_level : String
  pub current_checkpoint_id : Option String
  pub exact_completion_event_id : Option String
  pub unresolved : Json

pub record RequirementRow : Type 0 where
  pub task_id : String
  pub capability_id : String
  pub minimum_state : CapabilityLifecycle
  pub required : Bool
  pub unsafe_if_lost : Bool
  pub reason : String

pub record CheckpointRow : Type 0 where
  pub checkpoint_id : String
  pub task_id : String
  pub sequence : ℕ
  pub created_at : ℕ
  pub state : Json
  pub unresolved : Json
  pub pending_actions : Json

pub record EpisodeRow : Type 0 where
  pub episode_id : String
  pub state : DegradationState
  pub started_at : ℕ
  pub aggregation_closed_at : Option ℕ
  pub nominal_profile : String
  pub active_profile : String
  pub severity : DegradationSeverity
  pub lost_capabilities : List String
  pub affected_tasks : List String
  pub fallback_model : Option String
  pub cause_event_ids : List String
  pub phrase_outbox_id : Option String
  pub phrase_emitted : Bool
  pub recovery_started_at : Option ℕ
  pub recovered_at : Option ℕ
  pub recovery_phrase_outbox_id : Option String
  pub recovery_phrase_emitted : Bool
  pub conclusions : List String
  pub last_transition_event_id : String
  pub required_capabilities : List String
  pub timer_boot_id : Option String
  pub started_monotonic_ns : Option ℕ
  pub recovery_started_monotonic_ns : Option ℕ
  pub recovered_monotonic_ns : Option ℕ

pub data PhraseKind : Type 0 where
  degradation_phrase recovery_phrase : PhraseKind

-- `idempotency_key` is "degradation-phrase:{episode}" or "degradation-recovery-phrase:{episode}":
-- the kind and the episode. The payload's other entry is the text.
pub record OutboxRow : Type 0 where
  pub outbox_id : String
  pub kind : PhraseKind
  pub episode_id : String
  pub phrase : String
  pub created_at : ℕ
  pub available_at : ℕ
  pub claimed_at : Option ℕ
  pub claim_owner : Option String
  pub emitted_at : Option ℕ
  pub delivery_channel : Option String
  pub attempts : ℕ
  pub last_error : Option String

pub record RevalidationRow : Type 0 where
  pub revalidation_id : String
  pub degradation_episode_id : String
  pub claim_reference : String
  pub reason : String
  pub state : String
  pub created_at : ℕ
  pub resolved_at : Option ℕ
  pub result_event_id : Option String

pub record Tables (F : Type 0) : Type 0 where
  pub definitions : List DefinitionRow
  pub current : List (CurrentRow F)
  pub edges : List EdgeRow
  pub transitions : List TransitionRow
  pub tasks : List TaskRow
  pub requirements : List RequirementRow
  pub checkpoints : List CheckpointRow
  pub episodes : List EpisodeRow
  pub outbox : List OutboxRow
  pub revalidation_items : List RevalidationRow

abbrev pub no_rows : {F : Type 0} → Tables F
no_rows = record {
  definitions = [];
  current = [];
  edges = [];
  transitions = [];
  tasks = [];
  requirements = [];
  checkpoints = [];
  episodes = [];
  outbox = [];
  revalidation_items = [];
}
