-- ===== src/Hermes/Router.antt =====
-- `TaskAwareModelRouter` of src/hal9000/hermes/router.py. The float comparisons of `_local_decision`
-- are parameters; a memory is a number of megabytes.
pub mod Local
use bollywood_hal.Prelude.{
  ℕ, zero, suc, ◌+◌, ◌*◌, ◌==◌, ◌=s◌, ◌+s◌, max, String, Bool, true, false, not, ◌&&◌, ◌||◌, Option,
  none, some, List, [], ◌∷◌, ltb, leb, if◌then◌else◌, text_startswith,
}

pub record ModelOption : Type 0 where
  pub provider : String
  pub model : String
  pub authenticated : Bool
  pub available : Bool
  pub local : Bool
  pub resident_memory_mb : Option ℕ

abbrev pub option_key : ModelOption → String
option_key o = o.provider +s ("/" +s o.model)

pub record ResourceSnapshot (C : Type 0) : Type 0 where
  pub free_ram_mb : ℕ
  pub free_vram_mb : ℕ
  pub observed_monotonic : C

pub record RouteDecision : Type 0 where
  pub decision_id : String
  pub policy_version : ℕ
  pub intent_class : String
  pub provider : String
  pub model : String
  pub reasoning : String
  pub available : Bool
  pub user_override : Bool
  pub reason : String
  pub rejected_candidates : List String

-- The settings, with the tests on floats that they take part in.
pub record RouterSettings (C : Type 0) : Type 0 where
  pub enabled : Bool
  pub policy : String
  pub resource_policy : String
  pub default_provider : String
  pub default_model : String
  pub default_reasoning : String
  pub complex_provider : String
  pub complex_model : String
  pub complex_reasoning : String
  -- `now - observed > resource_freshness_seconds`
  pub is_stale : C → C → Bool
  -- `estimate > free * (1.0 - local_memory_reserve_ratio)`
  pub exceeds : ℕ → ℕ → Bool
  -- `" " + " ".join(prompt.lower().split()) + " "`
  pub lowered : String → String

abbrev pub complex_markers : List String
complex_markers =
    "implement" ∷ "debug" ∷ "fix " ∷ "bug" ∷ "repository" ∷ "repo" ∷ "code" ∷ "test" ∷ "build"
    ∷ "commit" ∷ "push" ∷ "deploy" ∷ "install" ∷ "migration" ∷ "terminal" ∷ "filesystem"
    ∷ "consequential" ∷ []

-- `marker in text`
unfoldable pub text_contains : String → String → Bool
unfolding text_startswith
text_contains String.[] marker = marker =s ""
text_contains (String.◌∷◌ c s) marker =
    text_startswith (String.◌∷◌ c s) marker || text_contains s marker

unfoldable pub any_marker : String → List String → Bool
unfolding text_contains
any_marker text [] = false
any_marker text (m ∷ ms) = text_contains text m || any_marker text ms

-- `_decision`; `id` is the fresh UUID
abbrev pub decision :
    String → String → String → String → String → Bool → Bool → String → List String → RouteDecision
decision id intent provider model reasoning available user_override reason rejected = record {
  decision_id = id;
  policy_version = 1;
  intent_class = intent;
  provider = provider;
  model = model;
  reasoning = reasoning;
  available = available;
  user_override = user_override;
  reason = reason;
  rejected_candidates = rejected;
}

unfoldable pub find_option : String → String → List ModelOption → Option ModelOption
find_option provider model [] = none
find_option provider model (o ∷ os) =
    if o.provider =s provider && o.model =s model then some o else find_option provider model os

-- `int(item.resident_memory_mb or 2**31)`: an estimate of 0 counts as none does
abbrev pub memory_key : Option ℕ → ℕ
memory_key none = 2147483648
memory_key (some zero) = 2147483648
memory_key (some (suc n)) = suc n

unfoldable pub smaller : ModelOption → ModelOption → ModelOption
smaller q o =
    if ltb (memory_key q.resident_memory_mb) (memory_key o.resident_memory_mb) then q else o

-- `min` of a first option and the rest: the first of the smallest
unfoldable pub smallest : ModelOption → List ModelOption → ModelOption
unfolding smaller
smallest o [] = o
smallest o (q ∷ qs) = smallest (smaller q o) qs

module _ {C : Type 0} (s : RouterSettings C) where
  -- `_intent`
  unfoldable pub intent : String → String
  unfolding any_marker
  intent prompt =
      if any_marker (s.lowered prompt) complex_markers then "complex_or_coding" else "general"

  abbrev pub is_eligible : ModelOption → Bool
  is_eligible o = o.local && (o.available && o.authenticated)

  abbrev pub is_small_only : Bool
  is_small_only = s.resource_policy =s "offline_local" || s.resource_policy =s "constrained"

  -- why an option that is eligible is rejected, if it is
  unfoldable pub rejection : ℕ → ModelOption → Option String
  rejection free o = elim o.resident_memory_mb [
    | none ↦ some (option_key o +s ": missing resident-memory estimate")
    | some estimate ↦
        if s.exceeds estimate free
        then some (option_key o +s ": exceeds reserved memory headroom")
        else if is_small_only && ltb 10240 estimate
        then some (option_key o +s ": excluded by constrained local policy")
        else none
  ]

  -- the loop over the options: the accepted ones, and the texts of the rejected ones
  unfoldable pub sift : ℕ → List ModelOption → List ModelOption × List String
  unfolding rejection
  sift free [] = ([], [])
  sift free (o ∷ os) =
      let (accepted, rejected) = sift free os in
      if is_eligible o
      then elim (rejection free o) [
        | some text ↦ (accepted, text ∷ rejected)
        | none ↦ (o ∷ accepted, rejected)
      ]
      else (accepted, rejected)

  abbrev pub unavailable : String → String → String → List String → RouteDecision
  unavailable id intent_class reason rejected =
      decision id intent_class "" "" "medium" false false reason rejected

  unfoldable pub choose : String → String → List ModelOption × List String → RouteDecision
  unfolding smallest
  choose id intent_class ([], rejected) =
      unavailable id intent_class "no local model satisfies exact availability and resource guards"
        rejected
  choose id intent_class (o ∷ os, rejected) =
      let selected = smallest o os in
      decision id intent_class selected.provider selected.model "medium" true false
        "offline-local policy selected the smallest fitting configured model" rejected

  -- `_local_decision`
  unfoldable pub local_decision :
      String → String → List ModelOption → Option (ResourceSnapshot C) → C → RouteDecision
  unfolding sift choose
  local_decision id intent_class options none now =
      unavailable id intent_class "offline-local routing requires fresh resource evidence" []
  local_decision id intent_class options (some r) now =
      if s.is_stale now r.observed_monotonic
      then unavailable id intent_class "offline-local routing requires fresh resource evidence" []
      else choose id intent_class (sift (max r.free_ram_mb r.free_vram_mb) options)

  abbrev pub is_healthy : Option ModelOption → Bool
  is_healthy none = true
  is_healthy (some o) = o.available && o.authenticated

  -- the reason of a remote route
  abbrev pub remote_reason : Bool → Bool → String
  remote_reason use_complex healthy =
      if not healthy
      then "the desired remote route is unhealthy; Hermes retains authority for provider and model fallback"
      else if use_complex
      then "exact task policy selected the complex/coding route"
      else "exact task policy selected the normal remote route"

  unfoldable pub remote_decision : String → String → List ModelOption → RouteDecision
  unfolding find_option
  remote_decision id intent_class options =
      let use_complex =
        intent_class =s "complex_or_coding"
        && (s.policy =s "task_aware" && not (s.resource_policy =s "constrained")) in
      let provider = if use_complex then s.complex_provider else s.default_provider in
      let model = if use_complex then s.complex_model else s.default_model in
      decision id intent_class provider model
        (if use_complex then s.complex_reasoning else s.default_reasoning) true false
        (remote_reason use_complex (is_healthy (find_option provider model options))) []

  -- `decide`
  unfoldable pub decide :
      String
      → String
      → List ModelOption
      → String
      → String
      → Option (ResourceSnapshot C)
      → C
      → RouteDecision
  unfolding intent local_decision remote_decision
  decide id prompt options manual_provider manual_model resources now =
      if not s.enabled
      then decision id "manual" manual_provider manual_model s.default_reasoning
          (not (manual_model =s "")) true
          (if manual_model =s ""
            then "no manual model is selected"
            else "sticky user-selected route")
          []
      else if s.resource_policy =s "offline_local"
      then local_decision id (intent prompt) options resources now
      else remote_decision id (intent prompt) options
