-- ===== src/Desktop/HalState/Signals.antt =====
-- What the emitted signals tell a listener of `HalStateMachine` (src/hal9000/state.py): the QML
-- shell has no other view of the machine.
use bollywood_hal.Prelude.{
  String, ◌≡◌, refl, Bool, true, false, List, [], ◌∷◌, ◌++◌, sym, ap, ◌∙◌, inl, inr, Bool-cases,
  if_both, not, if◌then◌else◌,
}
use mathlib.Core.Path.{subst}
use bollywood_hal.Desktop.HalState.{
  HalState, booting, Signal, state_changed, transition_occurred, manual_open_changed, Machine,
  Outcome, allowed, boot, same_state, set_manual_open, transition, enter_manual, leave_manual,
  return_to_rest,
}

pub data Op : Type 0 where
  to : HalState → String → Op
  open_drawer close_drawer : Op
  rest : String → Op

pub apply : Op → Machine → Outcome
apply (to target reason) = transition target reason
apply open_drawer = enter_manual
apply close_drawer = leave_manual
apply (rest reason) = return_to_rest reason

-- A caller that survives an `InvalidTransition` goes on with the machine as the raise left it.
unfoldable pub run : List Op → Machine → Machine
run [] m = m
run (o ∷ os) m = run os (apply o m).0

-- A listener that keeps the last state and the last drawer flag that it heard of.
pub record Mirror : Type 0 where
  pub state : HalState
  pub manual_open : Bool

unfoldable pub hear : Mirror → List Signal → Mirror
hear v [] = v
hear v (state_changed s ∷ ss) = hear (record v { state = s }) ss
hear v (transition_occurred s t r ∷ ss) = hear v ss
hear v (manual_open_changed b ∷ ss) = hear (record v { manual_open = b }) ss

abbrev pub view : Machine → Mirror
view m = record { state = m.state; manual_open = m.manual_open }

-- Each `transitionOccurred` starts where the one before it ended, along an allowed edge.
abbrev pub Walks : HalState → List Signal → HalState → Type 0
Walks s [] t = s ≡ t
Walks s (transition_occurred a b r ∷ ss) t = (s ≡ a) × (allowed a b ≡ true) × Walks b ss t
Walks s (_ ∷ ss) t = Walks s ss t

hear-append : (v : Mirror) (xs ys : List Signal) → hear v (xs ++ ys) ≡ hear (hear v xs) ys
unfolding hear
hear-append v [] ys = refl
hear-append v (state_changed s ∷ xs) ys = hear-append (record v { state = s }) xs ys
hear-append v (transition_occurred s t r ∷ xs) ys = hear-append v xs ys
hear-append v (manual_open_changed b ∷ xs) ys = hear-append (record v { manual_open = b }) xs ys

Walks-append :
    (s t u : HalState) (xs ys : List Signal) → Walks s xs t → Walks t ys u → Walks s (xs ++ ys) u
Walks-append s t u [] ys h k = subst (λ x. Walks x ys u) (sym h) k
Walks-append s t u (state_changed _ ∷ xs) ys h k = Walks-append s t u xs ys h k
Walks-append s t u (transition_occurred a b r ∷ xs) ys h k =
    (h.0, h.1, Walks-append b t u xs ys h.2 k)
Walks-append s t u (manual_open_changed _ ∷ xs) ys h k = Walks-append s t u xs ys h k

-- The listener's copy is the machine's state, and the transitions signalled so far are a walk.
pub record InSync (m : Machine) : Type 0 where
  pub heard : hear (view boot) m.emitted ≡ view m
  pub walked : Walks booting m.emitted m.state

emit-InSync :
    (m : Machine) (ss : List Signal) (s : HalState) (b : Bool)
    → InSync m
    → hear (view m) ss ≡ record { state = s; manual_open = b }
    → Walks m.state ss s
    → InSync (record { state = s; manual_open = b; emitted = m.emitted ++ ss })
emit-InSync m ss s b h heard walked = record {
  heard = hear-append (view boot) m.emitted ss ∙ ap (λ v. hear v ss) h.heard ∙ heard;
  walked = Walks-append booting m.state s m.emitted ss h.walked walked;
}

transition-InSync :
    (t : HalState) (r : String) (m : Machine) → InSync m → InSync (transition t r m).0
unfolding transition hear
transition-InSync t r m h = elim (Bool-cases (same_state t m.state)) [
  | inl e ↦ rw e h
  | inr e ↦ elim (Bool-cases (allowed m.state t)) [
    | inl a ↦
        rw (e, a)
          (emit-InSync m (state_changed t ∷ transition_occurred m.state t r ∷ []) t m.manual_open h
            refl (refl, a, refl))
    | inr a ↦ rw (e, a) h
  ]
]

set_manual_open-InSync : (b : Bool) (m : Machine) → InSync m → InSync (set_manual_open b m)
unfolding set_manual_open hear
set_manual_open-InSync b m h = emit-InSync m (manual_open_changed b ∷ []) m.state b h refl refl

enter_manual-InSync : (m : Machine) → InSync m → InSync (enter_manual m).0
unfolding enter_manual
enter_manual-InSync m h =
    if_both (λ (o : Outcome). InSync o.0) _ _ _ (transition-InSync _ _ _ opened) opened
  where
    opened : InSync (if not m.manual_open then set_manual_open true m else m)
    opened = if_both InSync (not m.manual_open) _ _ (set_manual_open-InSync true m h) h

leave_manual-InSync : (m : Machine) → InSync m → InSync (leave_manual m).0
unfolding leave_manual
leave_manual-InSync m h =
    if_both (λ (o : Outcome). InSync o.0) _ _ _ (transition-InSync _ _ _ closed) closed
  where
    closed : InSync (if m.manual_open then set_manual_open false m else m)
    closed = if_both InSync m.manual_open _ _ (set_manual_open-InSync false m h) h

return_to_rest-InSync : (r : String) (m : Machine) → InSync m → InSync (return_to_rest r m).0
unfolding return_to_rest
return_to_rest-InSync r m h =
    if_both (λ (o : Outcome). InSync o.0) _ _ _ (transition-InSync _ _ _ h) h

apply-InSync : (o : Op) (m : Machine) → InSync m → InSync (apply o m).0
unfolding apply
apply-InSync (to t r) m h = transition-InSync t r m h
apply-InSync open_drawer m h = enter_manual-InSync m h
apply-InSync close_drawer m h = leave_manual-InSync m h
apply-InSync (rest r) m h = return_to_rest-InSync r m h

run-keeps_InSync : (os : List Op) (m : Machine) → InSync m → InSync (run os m)
unfolding run
run-keeps_InSync [] m h = h
run-keeps_InSync (o ∷ os) m h = run-keeps_InSync os (apply o m).0 (apply-InSync o m h)

-- After any operations on a new machine, those that raise included, a listener that heard every
-- signal has the state and the drawer flag of the machine, and the transitions that were signalled
-- form one walk of allowed edges from BOOTING to the state.
pub run-InSync : (os : List Op) → InSync (run os boot)
unfolding boot
run-InSync os = run-keeps_InSync os boot (unfold hear in record { heard = refl; walked = refl })
