-- ===== src/Examples/Actions.antt =====
-- The theorem of the action ledger at a concrete run.
use bollywood_hal.Prelude.{ℕ, ◌≡◌, refl, true, false, none, some, List, [], ◌∷◌, ◌+s◌, length}
use bollywood_hal.Storage.Rows.{empty, find_existing, same_key}
use bollywood_hal.Storage.Envelope.{validate, with_payload}
use bollywood_hal.Storage.Exact.{append_exact_event, redacted, insert, new_row}
use bollywood_hal.Sentience.Actions.Calls.{
  approval_requested, approval_resolved, start_action, finish_action,
}
use bollywood_hal.Sentience.Actions.{ActionTables, ActionLedger, ActionDb}
use bollywood_hal.Sentience.Actions.Final.{
  ActionCall, requests, resolves, starts, finishes, verifies, act, acts, Final, acts-Final,
}
use bollywood_hal.Examples.Chain.{Digest}
use bollywood_hal.Examples.World.{runtime, at_seconds}

abbrev actions : ActionLedger ℕ Digest
actions = record { runtime = runtime; clean = λ s. s; uuid5 = λ s. "5:" +s s }

abbrev one_task : ActionTables
one_task = record { task_ids = "task" ∷ []; approvals = []; actions = []; verifications = [] }

abbrev deployment : List ActionCall
deployment =
    requests "r1" "deploy" (some "task") "once" (at_seconds 1) "e1"
    ∷ resolves "r1" "once" (at_seconds 2) "e2"
    ∷ starts "c1" "deploy" "server" (some "task") none (at_seconds 3) "e3"
    ∷ finishes "c1" false "refused" none (at_seconds 4) "e4"
    ∷ []

abbrev deployed : ActionDb ℕ Digest
deployed = acts actions deployment (empty one_task)

-- a second decision, a second result and a verification
abbrev afterwards : List ActionCall
afterwards =
    resolves "r1" "deny" (at_seconds 5) "e5"
    ∷ finishes "c1" true "done" none (at_seconds 6) "e6"
    ∷ verifies "5:hal-action:c1" "success" "seen" none (at_seconds 7) "v1" "e7"
    ∷ []

acts-Final_example : Final deployed.tables (acts actions afterwards deployed).tables
acts-Final_example = acts-Final actions afterwards deployed

-- the run reaches the tables
deployed_rows : (length deployed.tables.approvals ≡ 1) × (length deployed.tables.actions ≡ 1)
unfolding acts act finish_action start_action append_exact_event redacted validate with_payload
    insert find_existing approval_resolved approval_requested empty new_row same_key
deployed_rows = (refl, refl)
