-- ===== src/Sentience/Actions/Calls.antt =====
-- The operations of `ExactActionLedger` (src/hal9000/sentience/capabilities/actions.py). `event_id` is
-- the fresh UUID of the event that an operation appends.
use bollywood_hal.Prelude.{
  String, Bool, true, false, ◌=s◌, ◌+s◌, contains, Option, none, some, [], ◌∷◌, if◌then◌else◌,
}
use bollywood_hal.Action.{Action, bind, pure}
use bollywood_hal.Storage.Models.{observation, Severity, info, notice, warning, error, StoredEvent}
use bollywood_hal.Storage.Json.{Json, bool, text, obj, field, end, optional}
use bollywood_hal.Storage.Table.{select_one}
use bollywood_hal.Storage.Exact.{Projection, append_exact_event}
use bollywood_hal.Sentience.Runtime.{Now, utc_ms, NewEvent, new_event}
use bollywood_hal.Sentience.Capabilities.Events.{ledger_event}
use bollywood_hal.Sentience.Actions.{
  ApprovalRow, ActionState, running, ActionRow, ActionTables, ActionLedger, ActionDb, known_task,
  insert_approval, decide_approval, insert_action, record_result, record_verification,
}

-- `ActionRecord`
pub record ActionRecord : Type 0 where
  pub action_id : String
  pub tool_call_id : String
  pub state : ActionState
  pub event_id : String

-- `_event`
unfoldable pub control_event :
    String → String → Json → Option String → String → Severity → String → NewEvent
control_event event_type subject payload task_id key severity event_id =
    ledger_event event_id "hal.control" event_type subject severity observation payload task_id key

-- a choice that is none of the four is a denial
unfoldable pub normalized : String → String
normalized choice =
    if contains choice ("once" ∷ "session" ∷ "always" ∷ "deny" ∷ []) then choice else "deny"

abbrev pub result_text : Bool → String
result_text succeeded = if succeeded then "completed_unverified" else "failed"

module _ {F D : Type 0} (l : ActionLedger F D) where
  unfoldable pub append_action :
      NewEvent → Now → Projection ActionTables → Action (ActionDb F D) StoredEvent
  unfolding new_event
  append_action n now project =
      append_exact_event l.runtime.platform l.runtime.codec (new_event l.runtime n now)
        (some project) none

  unfoldable pub approval_requested :
      String → String → Option String → String → Now → String → Action (ActionDb F D) String
  unfolding append_action control_event insert_approval
  approval_requested request_id description task_id scope now event_id =
      let approval_id = l.uuid5 ("hal-approval:" +s request_id) in
      let clean = l.clean description in
      bind
        (append_action
          (control_event "approval.requested" approval_id
            (obj (
              field "hermes_request_id" (text request_id)
                (field "description" (text clean) (field "scope" (text scope) end))))
            task_id ("approval-request:" +s request_id) notice event_id)
          now
          (insert_approval (record {
            approval_id = approval_id;
            hermes_request_id = request_id;
            task_id = task_id;
            requested_at = utc_ms now;
            decided_at = none;
            choice = none;
            scope = scope;
            description = clean;
            request_event_id = event_id;
            decision_event_id = none;
          })))
        (λ _. pure approval_id)

  -- the resolution of the approval that was read
  unfoldable pub resolve :
      Option ApprovalRow → String → String → Now → String → Action (ActionDb F D) Bool
  unfolding append_action control_event decide_approval normalized
  resolve none request_id choice now event_id = pure false
  resolve (some row) request_id choice now event_id =
      bind
        (append_action
          (control_event "approval.resolved" row.approval_id
            (obj (field "choice" (text (normalized choice)) end)) (known_task row.task_id)
            ("approval-resolution:" +s (request_id +s (":" +s normalized choice))) info event_id)
          now (decide_approval request_id (utc_ms now) (normalized choice) event_id))
        (λ _. pure true)

  unfoldable pub approval_resolved : String → String → Now → String → Action (ActionDb F D) Bool
  unfolding resolve select_one
  approval_resolved request_id choice now event_id db =
      resolve
        (select_one (λ (a : ApprovalRow). a.hermes_request_id =s request_id) db.tables.approvals)
        request_id choice now event_id db

  unfoldable pub start_action :
      String
      → String
      → String
      → Option String
      → Option String
      → Now
      → String
      → Action (ActionDb F D) ActionRecord
  unfolding append_action control_event insert_action
  start_action tool_call_id action_type target task_id approval_id now event_id =
      let action_id = l.uuid5 ("hal-action:" +s tool_call_id) in
      let clean_target = l.clean target in
      bind
        (append_action
          (control_event "action.started" action_id
            (obj (
              field "tool_call_id" (text tool_call_id)
                (field "action_type" (text action_type) (field "target" (text clean_target) end))))
            task_id ("action-start:" +s tool_call_id) notice event_id)
          now
          (insert_action (record {
            action_id = action_id;
            task_id = task_id;
            tool_call_id = tool_call_id;
            action_type = action_type;
            target = clean_target;
            state = running;
            started_at = utc_ms now;
            completed_at = none;
            event_id = event_id;
            approval_id = approval_id;
            result_summary = none;
            payload_ref = none;
          })))
        (λ _. pure (record {
          action_id = action_id;
          tool_call_id = tool_call_id;
          state = running;
          event_id = event_id;
        }))

  -- the result of the action that was read
  unfoldable pub finish_read :
      Option ActionRow
      → String
      → Bool
      → String
      → Option String
      → Now
      → String
      → Action (ActionDb F D) Bool
  unfolding append_action control_event record_result
  finish_read none tool_call_id succeeded summary payload_ref now event_id = pure false
  finish_read (some row) tool_call_id succeeded summary payload_ref now event_id =
      bind
        (append_action
          (control_event (if succeeded then "action.completed" else "action.failed") row.action_id
            (obj (
              field "succeeded" (bool succeeded) (
                field "summary" (text (l.clean summary))
                  (field "payload_ref" (optional payload_ref) end))))
            (known_task row.task_id)
            ("action-finish:" +s (tool_call_id +s (":" +s result_text succeeded)))
            (if succeeded then info else error) event_id)
          now (record_result tool_call_id succeeded (utc_ms now) (l.clean summary) payload_ref))
        (λ _. pure true)

  unfoldable pub finish_action :
      String → Bool → String → Option String → Now → String → Action (ActionDb F D) Bool
  unfolding finish_read select_one
  finish_action tool_call_id succeeded summary payload_ref now event_id db =
      finish_read (select_one (λ (a : ActionRow). a.tool_call_id =s tool_call_id) db.tables.actions)
        tool_call_id succeeded summary payload_ref now event_id db

  -- `verification_id` is a fresh UUID
  unfoldable pub verify_action :
      String
      → String
      → String
      → Option String
      → Now
      → String
      → String
      → Action (ActionDb F D) String
  unfolding append_action control_event record_verification
  verify_action action_id outcome statement payload_ref now verification_id event_id =
      bind
        (append_action
          (control_event "action.verified" action_id
            (obj (
              field "verification_id" (text verification_id) (
                field "outcome" (text outcome) (field "statement" (text (l.clean statement)) end))))
            none ("action-verification:" +s (action_id +s (":" +s verification_id)))
            (if outcome =s "success" then info else warning) event_id)
          now
          (record_verification (record {
            verification_id = verification_id;
            action_id = action_id;
            verified_at = utc_ms now;
            outcome = outcome;
            statement = l.clean statement;
            event_id = event_id;
            payload_ref = payload_ref;
          })))
        (λ _. pure verification_id)
