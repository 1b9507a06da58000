-- ===== src/Sentience/Capabilities/Defaults.antt =====
-- `install_defaults` and `list_current` of `CapabilityRegistry`
-- (src/hal9000/sentience/capabilities/registry.py). `draw n` is the clock and the fresh UUID of the
-- n-th event.
pub mod Listed
use bollywood_hal.Prelude.{ℕ, ◌+◌, String, Bool, true, false, List, [], ◌∷◌, map, sorted}
use bollywood_hal.Action.{Result, ok, raised, ◌>>=◌, Action, bind, pure}
use bollywood_hal.Sentience.Tables.{DefinitionRow, CurrentRow, Tables}
use bollywood_hal.Sentience.Runtime.{Self, Now}
use bollywood_hal.Sentience.Capabilities.{CapabilityRegistry, CapabilityState, current}
use bollywood_hal.Sentience.Capabilities.Registry.{define, add_dependency}

abbrev capability : String → String → String → String → ℕ → String → Bool → DefinitionRow
capability id name category requirement weight material configured = record {
  capability_id = id;
  display_name = name;
  category = category;
  nominal_requirement = requirement;
  weight = weight;
  material_class = material;
  configured = configured;
}

-- `DEFAULT_CAPABILITIES`
abbrev pub default_capabilities : List DefinitionRow
default_capabilities =
    capability "primary_reasoning" "Primary reasoning model" "cognition" "required" 200 "cognitive"
      true
    ∷ capability "persistent_memory" "Persistent machine memory" "cognition" "required" 150
        "cognitive" true
    ∷ capability "memory_retrieval" "Memory retrieval" "cognition" "required" 125 "cognitive" true
    ∷ capability "session_context" "Required session context" "cognition" "required" 150 "cognitive"
        true
    ∷ capability "codex" "Coding specialist" "specialist" "optional" 140 "cognitive" true
    ∷ capability "terminal" "Terminal" "agency" "optional" 100 "operational" true
    ∷ capability "filesystem_read" "Filesystem read" "agency" "optional" 100 "operational" true
    ∷ capability "filesystem_write" "Filesystem write" "agency" "optional" 100 "operational" true
    ∷ capability "browser" "Browser" "agency" "optional" 80 "operational" true
    ∷ capability "network" "Network" "agency" "optional" 80 "operational" true
    ∷ capability "mcp_runtime" "MCP runtime" "agency" "optional" 100 "operational" true
    ∷ capability "approval_channel" "Approval channel" "safety" "required" 150 "operational" true
    ∷ capability "verification" "Verification path" "safety" "required" 150 "operational" true
    ∷ capability "microphone" "Microphone" "sensor" "optional" 50 "peripheral" true
    ∷ capability "display" "Display" "sensor" "required" 80 "peripheral" true
    ∷ capability "speech" "Speech output" "output" "optional" 30 "cosmetic" true
    ∷ capability "vision" "Visual observation" "sensor" "disabled" 70 "peripheral" false
    ∷ []

abbrev pub default_dependencies : List (String × String)
default_dependencies =
    ("codex", "terminal")
    ∷ ("codex", "filesystem_read")
    ∷ ("filesystem_write", "approval_channel")
    ∷ ("verification", "filesystem_read")
    ∷ []

module _ {F D : Type 0} (g : CapabilityRegistry F D) where
  -- the definitions in their order; the result is the number of the next event
  unfoldable pub define_all : (ℕ → Now × String) → ℕ → List DefinitionRow → Action (Self F D) ℕ
  unfolding define
  define_all draw n [] = pure n
  define_all draw n (d ∷ ds) =
      let (now, event_id) = draw n in
      bind (define g d now event_id) (λ _. define_all draw (n + 1) ds)

  unfoldable pub depend_all : (ℕ → Now × String) → ℕ → List (String × String) → Action (Self F D) ℕ
  unfolding add_dependency
  depend_all draw n [] = pure n
  depend_all draw n ((parent, required) ∷ es) =
      let (now, event_id) = draw n in
      bind (add_dependency g parent required now event_id) (λ _. depend_all draw (n + 1) es)

  unfoldable pub install_defaults : (ℕ → Now × String) → Action (Self F D) ℕ
  unfolding define_all depend_all
  install_defaults draw =
      bind (define_all draw 0 default_capabilities) (λ n. depend_all draw n default_dependencies)

module _ {F : Type 0} where
  -- `current` of each identity
  unfoldable pub current_all : Tables F → List String → Result (List (CapabilityState F))
  unfolding current
  current_all t [] = ok []
  current_all t (id ∷ ids) = do s ← current t id; rest ← current_all t ids; ok (s ∷ rest)

  unfoldable pub list_current : Tables F → Result (List (CapabilityState F))
  unfolding current_all
  list_current t = current_all t (sorted (map (λ (c : CurrentRow F). c.capability_id) t.current))
