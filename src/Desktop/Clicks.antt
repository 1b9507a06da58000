-- ===== src/Desktop/Clicks.antt =====
-- `SpeakerClickAggregator` of src/hal9000/clicks.py. `armed` says whether the single-shot timer
-- runs; Qt calls `_flush` only at the timeout of an armed timer, which the timeout disarms.
use bollywood_hal.Prelude.{
  ℕ, zero, suc, ◌+◌, ◌*◌, ◌<◌, ◌≡◌, refl, ◌∙◌, ap, Bool, true, false, List, [], ◌∷◌, ◌++◌,
  replicate, arith, leb, ◌==◌, if◌then◌else◌,
}
use mathlib.Core.List.{append_assoc, append-nil}
use Prim.Native.Nat.mul
use native.Mathlib.Nat.{zero-add}

pub data Gesture : Type 0 where
  double_click triple_click : Gesture

pub record Clicks : Type 0 where
  pub count : ℕ
  pub armed : Bool
  pub emitted : List Gesture

unfoldable pub idle : Clicks
idle = record { count = 0; armed = false; emitted = [] }

unfoldable pub register_click : Clicks → Clicks
register_click c =
    let n = c.count + 1 in
    if leb 3 n
    then record { count = 0; armed = false; emitted = c.emitted ++ triple_click ∷ [] }
    else record c { count = n; armed = true }

unfoldable pub flush : Clicks → Clicks
flush c =
    let e = if c.count == 2 then c.emitted ++ double_click ∷ [] else c.emitted in
    record { count = 0; armed = c.armed; emitted = e }

-- the timer runs out
unfoldable pub timeout : Clicks → Clicks
unfolding flush
timeout c = if c.armed then flush (record c { armed = false }) else c

pub clicks : ℕ → Clicks → Clicks
clicks zero c = c
clicks (suc n) c = clicks n (register_click c)

-- The invariant between two events: the timer runs exactly while a click is pending.
pub record IsPending (c : Clicks) : Type 0 where
  pub below : c.count < 3
  pub armed_iff : (c.armed ≡ true) → 0 < c.count
  pub pending : 0 < c.count → c.armed ≡ true

-- Clicks and timeouts keep at most two clicks pending, and the timer armed exactly while there is one.
pub events-IsPending :
    (c : Clicks) → IsPending c → IsPending (register_click c) × IsPending (timeout c)
unfolding register_click timeout
events-IsPending c h = ground arith

-- what a burst of `q * 3 + r` clicks means
abbrev pub gestures : ℕ → ℕ → List Gesture
gestures q r = replicate q triple_click ++ (if r == 2 then double_click ∷ [] else [])

at_rest : List Gesture → Clicks
at_rest gs = record { count = 0; armed = false; emitted = gs }

three_clicks :
    (gs : List Gesture)
    → register_click (register_click (register_click (at_rest gs)))
      ≡ at_rest (gs ++ triple_click ∷ [])
unfolding register_click at_rest
three_clicks gs = refl

remainder :
    (gs : List Gesture) (r : ℕ)
    → r < 3
    → timeout (clicks r (at_rest gs)) ≡ at_rest (gs ++ (if r == 2 then double_click ∷ [] else []))
unfolding timeout clicks register_click at_rest
remainder gs zero h = rw append-nil
remainder gs (suc zero) h = rw append-nil
remainder gs (suc (suc zero)) h = refl
remainder gs (suc (suc (suc r))) h = absurd (omega arith)

burst_from :
    (gs : List Gesture) (q r : ℕ)
    → r < 3
    → timeout (clicks (q * 3 + r) (at_rest gs)) ≡ at_rest (gs ++ gestures q r)
unfolding clicks
burst_from gs zero r h = rw mul.zero (rw zero-add (remainder gs r h))
burst_from gs (suc q) r h =
    let e : suc q * 3 + r ≡ suc (suc (suc (q * 3 + r))) = omega arith in
    rw e (
      ap (λ c. timeout (clicks (q * 3 + r) c)) (three_clicks gs)
      ∙ burst_from (gs ++ triple_click ∷ []) q r h
      ∙ ap at_rest (append_assoc gs (triple_click ∷ []) (gestures q r)))

-- A burst of `q * 3 + r` clicks on an idle aggregator, `r` below 3, with the timeout after it, is
-- read as `q` triple clicks and, exactly if two clicks are left over, a double click at the end;
-- the aggregator is idle again.
pub burst :
    (q r : ℕ)
    → r < 3
    → timeout (clicks (q * 3 + r) idle)
      ≡ record { count = 0; armed = false; emitted = gestures q r }
unfolding idle at_rest
burst q r h = burst_from [] q r h
