-- ===== src/Sentience/Actions.antt =====
-- `ExactActionLedger` of src/hal9000/sentience/capabilities/actions.py, on its three tables. Of the
-- table `tasks` only the identities matter, to the foreign keys. `clean` is `redact_text(text)[:4000]`,
-- `uuid5` is `uuid.uuid5` in the namespace of URLs.
pub mod Calls
pub mod Final
use bollywood_hal.Prelude.{
  ℕ, ◌+◌, String, Bool, true, false, not, ◌&&◌, ◌||◌, ◌=s◌, ◌+s◌, contains, Option, none, some,
  List, [], ◌∷◌, ◌++◌, ltb, if◌then◌else◌,
}
use bollywood_hal.Action.{
  Result, ok, raised, key_error, integrity_error, ◌>>=◌, ◌>>◌, require, Action, bind, pure,
}
use bollywood_hal.Storage.Models.{observation, Severity, info, notice, warning, error, StoredEvent}
use bollywood_hal.Storage.Json.{Json, bool, text, obj, field, end, optional}
use bollywood_hal.Storage.Rows.{Db}
use bollywood_hal.Storage.Table.{row_count, update_where, select_one, insert_or_ignore}
use bollywood_hal.Storage.Exact.{Projection, append_exact_event}
use bollywood_hal.Sentience.Runtime.{Runtime, Now, utc_ms, NewEvent, new_event}
use bollywood_hal.Sentience.Capabilities.Events.{ledger_event}

pub record ApprovalRow : Type 0 where
  pub approval_id : String
  pub hermes_request_id : String
  pub task_id : Option String
  pub requested_at : ℕ
  pub decided_at : Option ℕ
  pub choice : Option String
  pub scope : String
  pub description : String
  pub request_event_id : String
  pub decision_event_id : Option String

pub data ActionState : Type 0 where
  running pending uncertain completed_unverified failed verified verification_failed : ActionState

pub record ActionRow : Type 0 where
  pub action_id : String
  pub task_id : Option String
  pub tool_call_id : String
  pub action_type : String
  pub target : String
  pub state : ActionState
  pub started_at : ℕ
  pub completed_at : Option ℕ
  pub event_id : String
  pub approval_id : Option String
  pub result_summary : Option String
  pub payload_ref : Option String

pub record VerificationRow : Type 0 where
  pub verification_id : String
  pub action_id : String
  pub verified_at : ℕ
  pub outcome : String
  pub statement : String
  pub event_id : String
  pub payload_ref : Option String

pub record ActionTables : Type 0 where
  pub task_ids : List String
  pub approvals : List ApprovalRow
  pub actions : List ActionRow
  pub verifications : List VerificationRow

pub record ActionLedger (F D : Type 0) : Type 0 where
  pub runtime : Runtime F D
  pub clean : String → String
  pub uuid5 : String → String

abbrev pub ActionDb : Type 0 → Type 0 → Type 0
ActionDb F D = Db Json F D ActionTables

-- `state IN ('running','pending','uncertain')`
abbrev pub is_unfinished : ActionState → Bool
is_unfinished running = true
is_unfinished pending = true
is_unfinished uncertain = true
is_unfinished _ = false

-- `row["task_id"] if row["task_id"] else None`
abbrev pub known_task : Option String → Option String
known_task none = none
known_task (some t) = if t =s "" then none else some t

-- a foreign key that may be NULL
abbrev pub refers : Option String → List String → Bool
refers none ids = true
refers (some k) ids = contains k ids

abbrev pub approval_ids : List ApprovalRow → List String
approval_ids [] = []
approval_ids (a ∷ rest) = a.approval_id ∷ approval_ids rest

-- INSERT OR IGNORE INTO approvals: the ids clash, or the task must be there
unfoldable pub insert_approval : ApprovalRow → Projection ActionTables
unfolding row_count insert_or_ignore
insert_approval row _ t =
    let clash = λ (a : ApprovalRow).
      a.approval_id =s row.approval_id || a.hermes_request_id =s row.hermes_request_id in
    require (ltb 0 (row_count clash t.approvals) || refers row.task_id t.task_ids)
      (integrity_error "FOREIGN KEY")
    >> ok (record t { approvals = insert_or_ignore clash row t.approvals })

unfoldable pub set_decision : ℕ → String → String → ApprovalRow → ApprovalRow
set_decision stamp choice event_id a = record a {
  decided_at = some stamp;
  choice = some choice;
  decision_event_id = some event_id;
}

abbrev pub is_undecided : String → ApprovalRow → Bool
is_undecided request_id a = a.hermes_request_id =s request_id && undecided a.decided_at
  where
    undecided : Option ℕ → Bool
    undecided none = true
    undecided (some _) = false

unfoldable pub decide_approval : String → ℕ → String → String → Projection ActionTables
unfolding update_where set_decision
decide_approval request_id stamp choice event_id _ t = ok (record t {
  approvals =
      update_where (is_undecided request_id) (set_decision stamp choice event_id) t.approvals;
})

unfoldable pub insert_action : ActionRow → Projection ActionTables
unfolding row_count insert_or_ignore
insert_action row _ t =
    let clash =
      λ (a : ActionRow). a.action_id =s row.action_id || a.tool_call_id =s row.tool_call_id in
    require
      (ltb 0 (row_count clash t.actions)
        || (refers row.task_id t.task_ids && refers row.approval_id (approval_ids t.approvals)))
      (integrity_error "FOREIGN KEY")
    >> ok (record t { actions = insert_or_ignore clash row t.actions })

unfoldable pub finished_state : Bool → ActionState
finished_state succeeded = if succeeded then completed_unverified else failed

unfoldable pub set_result : Bool → ℕ → String → Option String → ActionRow → ActionRow
unfolding finished_state
set_result succeeded stamp summary payload_ref a = record a {
  state = finished_state succeeded;
  completed_at = some stamp;
  result_summary = some summary;
  payload_ref = payload_ref;
}

unfoldable pub record_result : String → Bool → ℕ → String → Option String → Projection ActionTables
unfolding update_where set_result
record_result tool_call_id succeeded stamp summary payload_ref _ t = ok (record t {
  actions =
      update_where (λ (a : ActionRow). a.tool_call_id =s tool_call_id && is_unfinished a.state)
        (set_result succeeded stamp summary payload_ref) t.actions;
})

unfoldable pub set_verified : String → ActionRow → ActionRow
set_verified outcome a = record a {
  state = if outcome =s "success" then verified else verification_failed;
}

abbrev pub has_action : VerificationRow → ActionTables → Bool
has_action row t = ltb 0 (row_count (λ (a : ActionRow). a.action_id =s row.action_id) t.actions)

abbrev pub is_new_verification : VerificationRow → ActionTables → Bool
is_new_verification row t = not (
    ltb 0 (
      row_count (λ (v : VerificationRow). v.verification_id =s row.verification_id)
        t.verifications))

-- the INSERT and the UPDATE of `verify_action`
unfoldable pub with_verification : VerificationRow → ActionTables → ActionTables
unfolding update_where set_verified
with_verification row t = record t {
  verifications = t.verifications ++ row ∷ [];
  actions =
      update_where (λ (a : ActionRow). a.action_id =s row.action_id) (set_verified row.outcome)
        t.actions;
}

unfoldable pub record_verification : VerificationRow → Projection ActionTables
unfolding row_count with_verification
record_verification row _ t = do
  require (has_action row t) (key_error row.action_id)
  require (is_new_verification row t) (integrity_error "UNIQUE")
  ok (with_verification row t)
