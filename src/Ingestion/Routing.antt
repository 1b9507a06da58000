-- ===== src/Ingestion/Routing.antt =====
-- `route_event` of src/hal9000/sentience/events/routing.py.
use bollywood_hal.Prelude.{
  ◌≡◌, ◌↔◌, String, Bool, true, false, ◌&&◌, ◌||◌, List, [], ◌∷◌, contains, text_startswith,
  text_endswith, =s_iff, arith, ◌⊎◌, inl, inr, refl, sym, if◌then◌else◌,
}
use mathlib.Core.Path.{subst}
use bollywood_hal.Storage.Models.{Severity, debug, info, notice, warning, error, critical}

pub data EventRoute : Type 0 where
  exact event_run sketch_only drop : EventRoute

pub record RoutingDecision : Type 0 where
  pub route : EventRoute
  pub reason : String
  pub also_update_sketches : Bool

-- membership in {ERROR, CRITICAL}
abbrev pub is_high : Severity → Bool
is_high error = true
is_high critical = true
is_high _ = false

-- `event_type.startswith(prefixes)`
abbrev pub startswith_any : String → List String → Bool
startswith_any s [] = false
startswith_any s (p ∷ ps) = text_startswith s p || startswith_any s ps

abbrev pub exact_prefixes : List String
exact_prefixes =
    "identity." ∷ "continuity." ∷ "task." ∷ "approval." ∷ "capability." ∷ "action." ∷ "commitment."
    ∷ "contradiction." ∷ "memory.correction" ∷ "degradation." ∷ "recovery." ∷ "security."
    ∷ "integrity." ∷ "telemetry.dropped" ∷ "clock.jump" ∷ []

abbrev pub sketch_prefixes : List String
sketch_prefixes = "resource." ∷ "latency." ∷ "queue." ∷ "utilization." ∷ []

abbrev pub transient_types : List String
transient_types = "model.token.delta" ∷ "ui.animation.frame" ∷ "audio.level.frame" ∷ []

abbrev pub is_control : String → Bool → Bool → Bool
is_control event_type causal_boundary consequential =
    consequential || (causal_boundary || startswith_any event_type exact_prefixes)

unfoldable pub route_event : String → Severity → Bool → Bool → Bool → RoutingDecision
route_event event_type severity first_occurrence causal_boundary consequential =
    if is_control event_type causal_boundary consequential
    then record {
      route = exact;
      reason = "exact control or causal event";
      also_update_sketches = true;
    }
    else if first_occurrence && is_high severity
    then record {
      route = exact;
      reason = "first high-severity fingerprint";
      also_update_sketches = true;
    }
    else if contains event_type transient_types
    then record { route = drop; reason = "live-only transient"; also_update_sketches = false }
    else if startswith_any event_type sketch_prefixes || text_endswith event_type ".sample"
    then record { route = sketch_only; reason = "high-rate metric"; also_update_sketches = false }
    else record {
      route = event_run;
      reason = "repeatable observation";
      also_update_sketches = true;
    }

-- an event that is a control or causal event, or the first of a severity error or critical
abbrev pub IsExact : String → Severity → Bool → Bool → Bool → Type 0
IsExact t s first causal consequential =
    (consequential ≡ true)
    ⊎ (causal ≡ true)
    ⊎ (startswith_any t exact_prefixes ≡ true)
    ⊎ ((first ≡ true) × ((s ≡ error) ⊎ (s ≡ critical)))

abbrev pub IsTransient : String → Type 0
IsTransient t = (t ≡ "model.token.delta") ⊎ (t ≡ "ui.animation.frame") ⊎ (t ≡ "audio.level.frame")

is_high_iff : (s : Severity) → (is_high s ≡ true) ↔ ((s ≡ error) ⊎ (s ≡ critical))
is_high_iff debug = ground arith
is_high_iff info = ground arith
is_high_iff notice = ground arith
is_high_iff warning = ground arith
is_high_iff error = ground arith
is_high_iff critical = ground arith

IsTransient-iff : (t : String) → (contains t transient_types ≡ true) ↔ IsTransient t
IsTransient-iff t = ground (
  arith,
  =s_iff t "model.token.delta",
  =s_iff t "ui.animation.frame",
  =s_iff t "audio.level.frame",
)

transient-inexact : (t : String) → IsTransient t → startswith_any t exact_prefixes ≡ false
unfolding text_startswith
transient-inexact t (inl e) = subst (λ x. startswith_any x exact_prefixes ≡ false) (sym e) refl
transient-inexact t (inr (inl e)) =
    subst (λ x. startswith_any x exact_prefixes ≡ false) (sym e) refl
transient-inexact t (inr (inr e)) =
    subst (λ x. startswith_any x exact_prefixes ≡ false) (sym e) refl

IsExact-iff :
    (t : String) (s : Severity) (first causal consequential : Bool)
    → ((is_control t causal consequential || (first && is_high s)) ≡ true)
      ↔ IsExact t s first causal consequential
IsExact-iff t s first causal consequential = ground (arith, is_high_iff s)

-- An event is exact exactly if it is consequential, or at a causal boundary, or its type has one of
-- the prefixes of the control events, or it is the first of its kind with severity error or critical.
-- It is dropped exactly if its type is one of the three transient ones (a token of the model, a frame
-- of an animation, an audio level) and it is neither consequential nor at a causal boundary nor such
-- a first one. It only updates the sketches exactly if it is neither of these and its type has a
-- prefix of the metrics or ends in ".sample". The sketches are updated beside the route exactly for
-- the exact events and the event runs.
pub route_event_iff :
    (t : String) (s : Severity) (first causal consequential : Bool)
    → let d = route_event t s first causal consequential in
      ((d.route ≡ exact) ↔ IsExact t s first causal consequential)
      × ((d.route ≡ drop) ↔ (
          IsTransient t
          × (consequential ≡ false)
          × (causal ≡ false)
          × ((first ≡ true) × ((s ≡ error) ⊎ (s ≡ critical)) → ⊥)))
      × ((d.route ≡ sketch_only) ↔ (
          (IsExact t s first causal consequential → ⊥)
          × (IsTransient t → ⊥)
          × ((startswith_any t sketch_prefixes ≡ true) ⊎ (text_endswith t ".sample" ≡ true))))
      × ((d.also_update_sketches ≡ true) ↔ ((d.route ≡ exact) ⊎ (d.route ≡ event_run)))
unfolding route_event
route_event_iff t s first causal consequential = ground (
  arith,
  IsExact-iff t s first causal consequential,
  is_high_iff s,
  IsTransient-iff t,
  transient-inexact t,
)
