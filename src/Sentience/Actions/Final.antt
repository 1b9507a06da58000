-- ===== src/Sentience/Actions/Final.antt =====
-- A decision on an approval and the result of an action are final
-- (src/hal9000/sentience/capabilities/actions.py).
use mathlib.Core.Path.{subst}
use bollywood_hal.Prelude.{
  ℕ, ◌+◌, ◌≡◌, refl, ◌∙◌, String, Bool, true, false, ◌&&◌, ◌=s◌, Option, none, some, List, [], ◌∷◌,
  arith, if◌then◌else◌,
}
use bollywood_hal.Action.{
  ok, ok-injective, require_then, require, ◌>>◌, key_error, integrity_error, bind, pure,
}
use bollywood_hal.Storage.Table.Pairs.{
  Follows, Follows-refl, Follows-update, Follows-insert, Follows-trans,
}
use bollywood_hal.Storage.Exact.{Projection, run_projection}
use bollywood_hal.Storage.Exact.Append.{append_exact_event_rule}
use bollywood_hal.Storage.Exact.Known.{bind-pure}
use bollywood_hal.Sentience.Runtime.{Now, utc_ms, NewEvent, new_event}
use bollywood_hal.Sentience.Actions.{
  ApprovalRow, ActionState, ActionRow, VerificationRow, ActionTables, ActionLedger, ActionDb,
  is_unfinished, is_undecided, insert_approval, set_decision, decide_approval, insert_action,
  set_result, record_result, set_verified, has_action, is_new_verification, with_verification,
  record_verification,
}
use bollywood_hal.Sentience.Actions.Calls.{
  append_action, approval_requested, resolve, approval_resolved, start_action, finish_read,
  finish_action, verify_action, normalized,
}

-- The same request; a decision stays.
pub record Decided (x y : ApprovalRow) : Type 0 where
  pub same_request : y.hermes_request_id ≡ x.hermes_request_id
  pub kept :
      (n : ℕ)
      → x.decided_at ≡ some n
      → (y.decided_at ≡ some n)
        × (y.choice ≡ x.choice)
        × (y.decision_event_id ≡ x.decision_event_id)

Decided-refl : (x : ApprovalRow) → Decided x x
Decided-refl x = record { same_request = refl; kept = λ n e. (e, refl, refl) }

Decided-trans : (x y z : ApprovalRow) → Decided x y → Decided y z → Decided x z
Decided-trans x y z h k = record {
  same_request = k.same_request ∙ h.same_request;
  kept = λ n e.
      let (at, choice, event) = h.kept n e in
      let (at', choice', event') = k.kept n at in (at', choice' ∙ choice, event' ∙ event);
}

-- The same call; a finished action keeps its result, and is not unfinished again.
pub record Ended (x y : ActionRow) : Type 0 where
  pub same_call : y.tool_call_id ≡ x.tool_call_id
  pub kept :
      is_unfinished x.state ≡ false
      → (is_unfinished y.state ≡ false)
        × (y.completed_at ≡ x.completed_at)
        × (y.result_summary ≡ x.result_summary)
        × (y.payload_ref ≡ x.payload_ref)

Ended-refl : (x : ActionRow) → Ended x x
Ended-refl x = record { same_call = refl; kept = λ e. (e, refl, refl, refl) }

Ended-trans : (x y z : ActionRow) → Ended x y → Ended y z → Ended x z
Ended-trans x y z h k = record {
  same_call = k.same_call ∙ h.same_call;
  kept = λ e.
      let (over, at, summary, payload) = h.kept e in
      let (over', at', summary', payload') = k.kept over in
      (over', at' ∙ at, summary' ∙ summary, payload' ∙ payload);
}

-- No approval and no action is dropped, and what is decided or finished stays so.
pub record Final (t u : ActionTables) : Type 0 where
  pub approvals : Follows Decided t.approvals u.approvals
  pub actions : Follows Ended t.actions u.actions

Final-refl : (t : ActionTables) → Final t t
Final-refl t = record {
  approvals = Follows-refl Decided Decided-refl t.approvals;
  actions = Follows-refl Ended Ended-refl t.actions;
}

Final-trans : (t u v : ActionTables) → Final t u → Final u v → Final t v
Final-trans t u v h k = record {
  approvals =
      Follows-trans Decided Decided-trans t.approvals u.approvals v.approvals h.approvals
        k.approvals;
  actions = Follows-trans Ended Ended-trans t.actions u.actions v.actions h.actions k.actions;
}

set_decision-Decided :
    (request_id : String) (stamp : ℕ) (choice event_id : String) (x : ApprovalRow)
    → is_undecided request_id x ≡ true
    → Decided x (set_decision stamp choice event_id x)
unfolding set_decision
set_decision-Decided request_id stamp choice event_id x hit = record {
  same_request = refl;
  kept = λ n e. absurd (ground (arith, hit, e));
}

set_result-Ended :
    (b succeeded : Bool) (stamp : ℕ) (summary : String) (payload_ref : Option String)
    (x : ActionRow)
    → (b && is_unfinished x.state) ≡ true
    → Ended x (set_result succeeded stamp summary payload_ref x)
unfolding set_result
set_result-Ended b succeeded stamp summary payload_ref x hit = record {
  same_call = refl;
  kept = λ e. absurd (ground (arith, hit, e));
}

set_verified-Ended : (outcome : String) (x : ActionRow) → Ended x (set_verified outcome x)
unfolding set_verified
set_verified-Ended outcome x = record {
  same_call = refl;
  kept = λ e. (over (outcome =s "success"), refl, refl, refl);
}
  where
    over :
        (b : Bool)
        → is_unfinished (if b then ActionState.verified else ActionState.verification_failed)
          ≡ false
    over true = refl
    over false = refl

-- a projection keeps what is final
abbrev pub KeepsFinal : Projection ActionTables → Type 0
KeepsFinal project = (n : ℕ) (t u : ActionTables) → project n t ≡ ok u → Final t u

insert_approval-Final : (row : ApprovalRow) → KeepsFinal (insert_approval row)
unfolding insert_approval
insert_approval-Final row n t u made =
    subst (Final t) (ok-injective (require_then _ _ _ made).1) (record {
      approvals = Follows-insert Decided Decided-refl _ row t.approvals;
      actions = Follows-refl Ended Ended-refl t.actions;
    })

insert_action-Final : (row : ActionRow) → KeepsFinal (insert_action row)
unfolding insert_action
insert_action-Final row n t u made =
    subst (Final t) (ok-injective (require_then _ _ _ made).1) (record {
      approvals = Follows-refl Decided Decided-refl t.approvals;
      actions = Follows-insert Ended Ended-refl _ row t.actions;
    })

decide_approval-Final :
    (request_id : String) (stamp : ℕ) (choice event_id : String)
    → KeepsFinal (decide_approval request_id stamp choice event_id)
unfolding decide_approval
decide_approval-Final request_id stamp choice event_id n t u made =
    subst (Final t) (ok-injective made) (record {
      approvals =
          Follows-update Decided Decided-refl (is_undecided request_id)
            (set_decision stamp choice event_id) t.approvals
            (set_decision-Decided request_id stamp choice event_id);
      actions = Follows-refl Ended Ended-refl t.actions;
    })

record_result-Final :
    (tool_call_id : String) (succeeded : Bool) (stamp : ℕ) (summary : String)
    (payload_ref : Option String)
    → KeepsFinal (record_result tool_call_id succeeded stamp summary payload_ref)
unfolding record_result
record_result-Final tool_call_id succeeded stamp summary payload_ref n t u made =
    subst (Final t) (ok-injective made) (record {
      approvals = Follows-refl Decided Decided-refl t.approvals;
      actions =
          Follows-update Ended Ended-refl _ (set_result succeeded stamp summary payload_ref)
            t.actions
            (λ x hit.
              set_result-Ended (x.tool_call_id =s tool_call_id) succeeded stamp summary payload_ref
                x hit);
    })

with_verification-Final :
    (row : VerificationRow) (t : ActionTables) → Final t (with_verification row t)
unfolding with_verification
with_verification-Final row t = record {
  approvals = Follows-refl Decided Decided-refl t.approvals;
  actions =
      Follows-update Ended Ended-refl (λ (a : ActionRow). a.action_id =s row.action_id)
        (set_verified row.outcome) t.actions (λ x hit. set_verified-Ended row.outcome x);
}

record_verification-Final : (row : VerificationRow) → KeepsFinal (record_verification row)
unfolding record_verification
record_verification-Final row n t u made =
    let present =
      require_then (has_action row t) (key_error row.action_id)
        (require (is_new_verification row t) (integrity_error "UNIQUE")
          >> ok (with_verification row t))
        made in
    let new =
      require_then (is_new_verification row t) (integrity_error "UNIQUE")
        (ok (with_verification row t)) present.1 in
    subst (Final t) (ok-injective new.1) (with_verification-Final row t)

-- the calls of the ledger, each with its clock and its fresh identities
pub data ActionCall : Type 0 where
  requests : String → String → Option String → String → Now → String → ActionCall
  resolves : String → String → Now → String → ActionCall
  starts : String → String → String → Option String → Option String → Now → String → ActionCall
  finishes : String → Bool → String → Option String → Now → String → ActionCall
  verifies : String → String → String → Option String → Now → String → String → ActionCall

module _ {F D : Type 0} (l : ActionLedger F D) where
  append_action-Final :
      {B : Type 0} (n : NewEvent) (now : Now) (project : Projection ActionTables) (b : B)
      (db : ActionDb F D)
      → KeepsFinal project
      → Final db.tables (bind (append_action l n now project) (λ _. pure b) db).1.tables
  unfolding append_action run_projection
  append_action-Final n now project b db keeps =
      subst (λ (d : ActionDb F D). Final db.tables d.tables)
        (bind-pure (append_action l n now project) b db)
        (append_exact_event_rule l.runtime.platform l.runtime.codec
          (λ (d : ActionDb F D). Final db.tables d.tables) none (some project)
          (new_event l.runtime n now) db
          (λ r t fresh ran. keeps (db.last_sequence + 1) db.tables t ran) (Final-refl db.tables))

  -- what a call leaves, whether it returns or raises
  unfoldable pub act : ActionCall → ActionDb F D → ActionDb F D
  act (requests request_id description task_id scope now event_id) db =
      (approval_requested l request_id description task_id scope now event_id db).1
  act (resolves request_id choice now event_id) db =
      (approval_resolved l request_id choice now event_id db).1
  act (starts call action_type target task_id approval_id now event_id) db =
      (start_action l call action_type target task_id approval_id now event_id db).1
  act (finishes call succeeded summary payload_ref now event_id) db =
      (finish_action l call succeeded summary payload_ref now event_id db).1
  act (verifies action_id outcome statement payload_ref now verification_id event_id) db =
      (verify_action l action_id outcome statement payload_ref now verification_id event_id db).1

  unfoldable pub acts : List ActionCall → ActionDb F D → ActionDb F D
  acts [] db = db
  acts (k ∷ ks) db = acts ks (act k db)

  resolve-Final :
      (o : Option ApprovalRow) (request_id choice : String) (now : Now) (event_id : String)
      (db : ActionDb F D)
      → Final db.tables (resolve l o request_id choice now event_id db).1.tables
  unfolding resolve
  resolve-Final none request_id choice now event_id db = Final-refl db.tables
  resolve-Final (some row) request_id choice now event_id db =
      append_action-Final _ now _ true db
        (decide_approval-Final request_id (utc_ms now) (normalized choice) event_id)

  finish_read-Final :
      (o : Option ActionRow) (call : String) (succeeded : Bool) (summary : String)
      (payload_ref : Option String) (now : Now) (event_id : String) (db : ActionDb F D)
      → Final db.tables
          (finish_read l o call succeeded summary payload_ref now event_id db).1.tables
  unfolding finish_read
  finish_read-Final none call succeeded summary payload_ref now event_id db = Final-refl db.tables
  finish_read-Final (some row) call succeeded summary payload_ref now event_id db =
      append_action-Final _ now _ true db
        (record_result-Final call succeeded (utc_ms now) (l.clean summary) payload_ref)

  act-Final : (k : ActionCall) (db : ActionDb F D) → Final db.tables (act k db).tables
  unfolding act approval_requested approval_resolved start_action finish_action verify_action
  act-Final (requests request_id description task_id scope now event_id) db =
      append_action-Final _ now _ _ db (insert_approval-Final _)
  act-Final (resolves request_id choice now event_id) db =
      resolve-Final _ request_id choice now event_id db
  act-Final (starts call action_type target task_id approval_id now event_id) db =
      append_action-Final _ now _ _ db (insert_action-Final _)
  act-Final (finishes call succeeded summary payload_ref now event_id) db =
      finish_read-Final _ call succeeded summary payload_ref now event_id db
  act-Final (verifies action_id outcome statement payload_ref now verification_id event_id) db =
      append_action-Final _ now _ _ db (record_verification-Final _)

  -- Whatever calls follow, those that raise included: no approval and no action is dropped, a decided
  -- approval keeps its time, choice and event, and a finished action is not unfinished again and keeps
  -- its time of completion, its summary and its payload.
  pub acts-Final : (ks : List ActionCall) (db : ActionDb F D) → Final db.tables (acts ks db).tables
  unfolding acts
  acts-Final [] db = Final-refl db.tables
  acts-Final (k ∷ ks) db =
      Final-trans db.tables (act k db).tables (acts ks (act k db)).tables (act-Final k db)
        (acts-Final ks (act k db))
