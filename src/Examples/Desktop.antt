-- ===== src/Examples/Desktop.antt =====
-- The desktop's theorems at concrete inputs.
use bollywood_hal.Prelude.{
  ◌+◌, ◌*◌, ◌≡◌, ◌≢◌, ◌↔◌, refl, true, false, none, List, [], ◌∷◌, arith, if◌then◌else◌,
}
use bollywood_hal.Desktop.HalState.{
  manual, standby, waiting_approval, Machine, boot, enter_manual, leave_manual, return_to_rest,
}
use bollywood_hal.Desktop.HalState.Manual.{
  enter_manual_total, leave_manual_total, return_to_rest-raises_iff, return_to_rest_lem,
}
use bollywood_hal.Desktop.HalState.Signals.{
  Op, to, open_drawer, close_drawer, rest, run, InSync, run-InSync,
}
use bollywood_hal.Desktop.Clicks.{
  Clicks, double_click, triple_click, idle, register_click, timeout, clicks, IsPending,
  events-IsPending, burst,
}

abbrev awaiting : Machine
awaiting = record { state = waiting_approval; manual_open = false; emitted = [] }

enter_manual_total_example :
    ((enter_manual awaiting).1 ≡ none)
    × ((enter_manual awaiting).0.state ≡ manual)
    × ((enter_manual awaiting).0.manual_open ≡ true)
enter_manual_total_example = enter_manual_total awaiting

abbrev drawer : Machine
drawer = record { state = manual; manual_open = true; emitted = [] }

leave_manual_total_example :
    ((leave_manual drawer).1 ≡ none)
    × ((leave_manual drawer).0.manual_open ≡ false)
    × (manual ≡ manual → (leave_manual drawer).0.state ≡ standby)
    × (manual ≢ manual → (leave_manual drawer).0.state ≡ manual)
leave_manual_total_example = leave_manual_total drawer

return_to_rest-raises_iff_example :
    ((return_to_rest "done" awaiting).1 ≢ none)
    ↔ ((waiting_approval ≡ waiting_approval) × (false ≡ false))
return_to_rest-raises_iff_example = return_to_rest-raises_iff "done" awaiting

return_to_rest_lem_example :
    ((return_to_rest "done" drawer).1 ≡ none
      → (return_to_rest "done" drawer).0.state ≡ (if true then manual else standby))
    × ((return_to_rest "done" drawer).1 ≢ none → (return_to_rest "done" drawer).0 ≡ drawer)
return_to_rest_lem_example = return_to_rest_lem "done" drawer

abbrev day : List Op
day =
    to standby "ready"
    ∷ to waiting_approval "refused"
    ∷ open_drawer
    ∷ rest "idle"
    ∷ close_drawer
    ∷ []

run-InSync_example : InSync (run day boot)
run-InSync_example = run-InSync day

burst_example :
    timeout (clicks (2 * 3 + 2) idle)
    ≡ record { count = 0; armed = false; emitted = triple_click ∷ triple_click ∷ double_click ∷ [] }
burst_example = burst 2 2 (omega arith)

abbrev one_pending : Clicks
one_pending = record { count = 1; armed = true; emitted = [] }

events-IsPending_example : IsPending (register_click one_pending) × IsPending (timeout one_pending)
events-IsPending_example =
    events-IsPending one_pending
      (record { below = omega arith; armed_iff = λ _. omega arith; pending = λ _. refl })
