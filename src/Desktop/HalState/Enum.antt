-- ===== src/Desktop/HalState/Enum.antt =====
-- `HalState` of src/hal9000/state.py, with the equality of its members.
use mathlib.Core.Logic.{ite}
use mathlib.Core.Bool.{Bool, true, false}

pub data HalState : Type 0 where
  booting standby wake_detected listening transcribing thinking tool_running waiting_approval
        speaking manual error disabled :
      HalState

pub HalState-discrete : Discrete HalState
HalState-discrete = hlevel

unfoldable pub same_state : HalState → HalState → Bool
same_state s t = ite (HalState-discrete s t) true false
