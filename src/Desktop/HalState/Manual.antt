-- ===== src/Desktop/HalState/Manual.antt =====
-- The manual drawer and the return to rest.
use bollywood_hal.Prelude.{String, ◌≡◌, ◌≢◌, ◌↔◌, true, false, none, arith, if◌then◌else◌}
use bollywood_hal.Desktop.HalState.{
  manual, standby, waiting_approval, Machine, allowed, transition, enter_manual, leave_manual,
  return_to_rest,
}

-- Opening the drawer is accepted in every state, and leaves the drawer open in the manual state.
pub enter_manual_total :
    (m : Machine)
    → ((enter_manual m).1 ≡ none)
      × ((enter_manual m).0.state ≡ manual)
      × ((enter_manual m).0.manual_open ≡ true)
unfolding enter_manual transition allowed
enter_manual_total m = ground arith

-- Closing the drawer never raises; it leaves the drawer closed, the manual state left for standby
-- and any other state as it was.
pub leave_manual_total :
    (m : Machine)
    → ((leave_manual m).1 ≡ none)
      × ((leave_manual m).0.manual_open ≡ false)
      × (m.state ≡ manual → (leave_manual m).0.state ≡ standby)
      × (m.state ≢ manual → (leave_manual m).0.state ≡ m.state)
unfolding leave_manual transition allowed
leave_manual_total m = ground arith

-- `return_to_rest` raises exactly when an approval is awaited with the drawer closed: that is the
-- one state from which the table has no way to standby.
pub return_to_rest-raises_iff :
    (reason : String) (m : Machine)
    → ((return_to_rest reason m).1 ≢ none)
      ↔ ((m.state ≡ waiting_approval) × (m.manual_open ≡ false))
unfolding return_to_rest transition allowed
return_to_rest-raises_iff reason m = ground arith

-- Where `return_to_rest` does not raise, the machine rests: in the manual state if the drawer is
-- open and in standby if it is closed; where it raises, the machine is unchanged.
pub return_to_rest_lem :
    (reason : String) (m : Machine)
    → ((return_to_rest reason m).1 ≡ none
        → (return_to_rest reason m).0.state ≡ (if m.manual_open then manual else standby))
      × ((return_to_rest reason m).1 ≢ none → (return_to_rest reason m).0 ≡ m)
unfolding return_to_rest transition allowed
return_to_rest_lem reason m = ground arith
