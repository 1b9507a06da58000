-- ===== src/Sentience/Capabilities/Registry/Known.antt =====
-- The idempotency keys of the capability and task ledgers (src/hal9000/sentience/capabilities): what a
-- second call with the key of an earlier one does.
use bollywood_hal.Prelude.{◌≡◌, refl, sym, ◌∙◌, String, Bool, true, none, some}
use bollywood_hal.Action.{bind, pure}
use bollywood_hal.Storage.Exact.{Projection}
use bollywood_hal.Storage.Exact.Known.{has_key, append_exact_event_known, bind-pure}
use bollywood_hal.Sentience.Tables.{DefinitionRow, Tables}
use bollywood_hal.Sentience.Runtime.{Self, Now, NewEvent, append, new_event}
use bollywood_hal.Sentience.Capabilities.{CapabilityRegistry}
use bollywood_hal.Sentience.Capabilities.Registry.{definition_key, define}
use bollywood_hal.Sentience.Capabilities.Tasks.{finish_key, finish, task_event}
use bollywood_hal.Sentience.Capabilities.Requirements.{requirement_key, set_task_requirement}
use bollywood_hal.Storage.Models.{CapabilityLifecycle}

module _ {F D : Type 0} (g : CapabilityRegistry F D) where
  append_known :
      {B : Type 0} (n : NewEvent) (now : Now) (project : Projection (Tables F)) (b : B) (k : String)
      (db : Self F D)
      → n.idempotency_key ≡ some k
      → has_key k db.events ≡ true
      → (bind (append g.runtime n now project) (λ _. pure b) db).1 ≡ db
  unfolding append new_event
  append_known n now project b k db is_key known =
      sym (bind-pure (append g.runtime n now project) b db)
      ∙ append_exact_event_known g.runtime.platform g.runtime.codec none (some project)
          (new_event g.runtime n now) k db is_key known

  -- Once the definition event of a capability is in the store, `define` changes nothing, whatever
  -- definition it is given: the columns of the row keep the values of the first call.
  pub define_known :
      (d : DefinitionRow) (now : Now) (event_id : String) (db : Self F D)
      → has_key (definition_key d.capability_id) db.events ≡ true
      → (define g d now event_id db).1 ≡ db
  unfolding define append new_event
  define_known d now event_id db known =
      append_exact_event_known g.runtime.platform g.runtime.codec _ _ _
        (definition_key d.capability_id) db refl known

  -- Once a requirement of a task is in the store with one value of `unsafe_if_lost`, the call with
  -- that value changes nothing, whatever minimum state and reason it is given.
  pub set_task_requirement_known :
      (task_id capability_id : String) (minimum : CapabilityLifecycle) (unsafe : Bool)
      (reason : String) (now : Now) (event_id : String) (db : Self F D)
      → has_key (requirement_key task_id capability_id unsafe) db.events ≡ true
      → (set_task_requirement g task_id capability_id minimum unsafe reason now event_id db).1 ≡ db
  unfolding set_task_requirement append new_event
  set_task_requirement_known task_id capability_id minimum unsafe reason now event_id db known =
      append_exact_event_known g.runtime.platform g.runtime.codec _ _ _
        (requirement_key task_id capability_id unsafe) db refl known

  -- Once a task was finished with an outcome of one kind, finishing it so again changes nothing,
  -- whatever happened to the task since.
  pub finish_known :
      (task_id outcome : String) (verified : Bool) (now : Now) (event_id : String) (db : Self F D)
      → has_key (finish_key task_id verified) db.events ≡ true
      → (finish g task_id outcome verified now event_id db).1 ≡ db
  unfolding finish task_event
  finish_known task_id outcome verified now event_id db known =
      append_known _ now _ true (finish_key task_id verified) db refl known
