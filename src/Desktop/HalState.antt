-- ===== src/Desktop/HalState.antt =====
-- `HalStateMachine` of src/hal9000/state.py. A method that mutates the object and may raise
-- `InvalidTransition` returns the object as the raise or the return leaves it, with the exception.
-- The Qt signals are kept in the order in which they are emitted, the latest last.
mod Enum
pub mod Manual
pub mod Signals
pub use Enum.*
unfoldable pub use Enum.{same_state}
use bollywood_hal.Prelude.{
  String, Bool, true, false, Option, none, some, List, [], ◌∷◌, ◌++◌, ◌||◌, not, if◌then◌else◌,
}

pub data Signal : Type 0 where
  state_changed : HalState → Signal
  transition_occurred : HalState → HalState → String → Signal
  manual_open_changed : Bool → Signal

pub record Machine : Type 0 where
  pub state : HalState
  pub manual_open : Bool
  pub emitted : List Signal

-- `raise InvalidTransition(f"{state} -> {target} is not allowed")`
pub data InvalidTransition : Type 0 where
  invalid_transition : HalState → HalState → InvalidTransition

abbrev pub Outcome : Type 0
Outcome = Machine × Option InvalidTransition

unfoldable pub boot : Machine
boot = record { state = booting; manual_open = false; emitted = [] }

contains_state : HalState → List HalState → Bool
unfolding same_state
contains_state s [] = false
contains_state s (t ∷ ts) = same_state s t || contains_state s ts

allowed_transitions : HalState → List HalState
allowed_transitions booting = standby ∷ manual ∷ error ∷ disabled ∷ []
allowed_transitions standby =
    wake_detected ∷ listening ∷ thinking ∷ tool_running ∷ speaking ∷ manual ∷ error ∷ disabled ∷ []
allowed_transitions wake_detected = listening ∷ manual ∷ error ∷ standby ∷ []
allowed_transitions listening = transcribing ∷ thinking ∷ manual ∷ error ∷ standby ∷ []
allowed_transitions transcribing = thinking ∷ listening ∷ manual ∷ error ∷ standby ∷ []
allowed_transitions thinking =
    tool_running ∷ waiting_approval ∷ speaking ∷ manual ∷ error ∷ standby ∷ []
allowed_transitions tool_running =
    thinking ∷ waiting_approval ∷ speaking ∷ manual ∷ error ∷ standby ∷ []
allowed_transitions waiting_approval = thinking ∷ tool_running ∷ speaking ∷ manual ∷ error ∷ []
allowed_transitions speaking = listening ∷ manual ∷ standby ∷ error ∷ []
allowed_transitions manual =
    wake_detected ∷ listening ∷ transcribing ∷ thinking ∷ tool_running ∷ waiting_approval ∷ speaking
    ∷ standby ∷ error ∷ disabled ∷ []
allowed_transitions error = booting ∷ standby ∷ manual ∷ disabled ∷ []
allowed_transitions disabled = booting ∷ standby ∷ manual ∷ []

unfoldable pub allowed : HalState → HalState → Bool
unfolding contains_state allowed_transitions
allowed s t = contains_state t (allowed_transitions s)

-- `active`: membership in `ACTIVE_STATES`
unfoldable pub active : Machine → Bool
unfolding contains_state
active m = contains_state m.state (
    wake_detected ∷ listening ∷ transcribing ∷ thinking ∷ tool_running ∷ waiting_approval ∷ speaking
    ∷ manual ∷ error ∷ [])

abbrev pub emit : Machine → List Signal → Machine
emit m s = record m { emitted = m.emitted ++ s }

unfoldable pub transition : HalState → String → Machine → Outcome
unfolding same_state
transition target reason m =
    if same_state target m.state
    then (m, none)
    else if not (allowed m.state target)
    then (m, some (invalid_transition m.state target))
    else (
      emit (record m { state = target })
          (state_changed target ∷ transition_occurred m.state target reason ∷ []),
      none,
    )

unfoldable pub set_manual_open : Bool → Machine → Machine
set_manual_open b m = emit (record m { manual_open = b }) (manual_open_changed b ∷ [])

unfoldable pub enter_manual : Machine → Outcome
unfolding set_manual_open same_state
enter_manual m =
    let m' = if not m.manual_open then set_manual_open true m else m in
    if not (same_state m'.state manual)
    then transition manual "manual drawer opened" m'
    else (m', none)

unfoldable pub leave_manual : Machine → Outcome
unfolding set_manual_open same_state
leave_manual m =
    let m' = if m.manual_open then set_manual_open false m else m in
    if same_state m'.state manual then transition standby "manual drawer closed" m' else (m', none)

unfoldable pub return_to_rest : String → Machine → Outcome
unfolding same_state
return_to_rest reason m =
    let target = if m.manual_open then manual else standby in
    if not (same_state target m.state) then transition target reason m else (m, none)
