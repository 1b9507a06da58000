-- ===== src/Sentience/Capabilities/Registry/Current.antt =====
-- `current` after `transition` (src/hal9000/sentience/capabilities/registry.py).
use bollywood_hal.Prelude.{◌≡◌, String, Bool, ◌=s◌, [], ◌∷◌, ◌++◌}
use bollywood_hal.Storage.Table.{upsert}
use bollywood_hal.Sentience.Tables.{CurrentRow, TransitionRow, Tables}
use bollywood_hal.Sentience.Runtime.{Now, utc_ms}
use bollywood_hal.Sentience.Degradation.{CapabilityTransition}
use bollywood_hal.Sentience.Capabilities.{CapabilityRegistry, current}
use bollywood_hal.Sentience.Capabilities.Registry.{TransitionRequest, new_current}

module _ {F D : Type 0} (g : CapabilityRegistry F D) where
  -- the row of capability_transitions that a transition inserts
  abbrev pub new_transition : TransitionRequest F → CapabilityTransition → Now → TransitionRow
  new_transition q c now = record {
    transition_id = c.transition_id;
    capability_id = q.capability_id;
    from_state = c.previous;
    to_state = q.state;
    expected = q.expected;
    material = c.material;
    occurred_at = utc_ms now;
    event_id = c.event_id;
    reason = g.clean 2000 q.reason;
    task_impact = c.task_impact;
  }

  -- the tables that a projected transition leaves
  abbrev after_transition : TransitionRequest F → CapabilityTransition → Now → Tables F → Tables F
  after_transition q c now t = record t {
    transitions = t.transitions ++ new_transition q c now ∷ [];
    current =
        upsert (λ (r : CurrentRow F). r.capability_id =s q.capability_id)
          (λ _. new_current g q c.task_impact now c.event_id)
          (new_current g q c.task_impact now c.event_id) t.current;
  }

  -- the tables that a transition does not write
  pub record SameBut (t u : Tables F) : Type 0 where
    pub definitions : u.definitions ≡ t.definitions
    pub edges : u.edges ≡ t.edges
    pub tasks : u.tasks ≡ t.tasks
    pub requirements : u.requirements ≡ t.requirements
    pub checkpoints : u.checkpoints ≡ t.checkpoints
    pub episodes : u.episodes ≡ t.episodes
    pub outbox : u.outbox ≡ t.outbox
    pub revalidation_items : u.revalidation_items ≡ t.revalidation_items

  abbrev under : String → CurrentRow F → Bool
  under k r = r.capability_id =s k
