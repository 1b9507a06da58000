-- ===== src/Sentience/Capabilities/Tasks/Closed.antt =====
-- A completed or cancelled task stays so (src/hal9000/sentience/capabilities/tasks.py).
use bollywood_hal.Prelude.{
  ℕ, ◌+◌, ◌≡◌, refl, sym, ap, ◌∙◌, String, Bool, true, false, ◌&&◌, ◌=s◌, Option, List, [], ◌∷◌,
  ◌++◌, inl, inr, arith, Bool-cases,
}
use mathlib.Core.Path.{subst}
use bollywood_hal.Action.{ok, require_then, bind, pure}
use bollywood_hal.Storage.Table.{update_where}
use bollywood_hal.Storage.Json.{Json}
use bollywood_hal.Storage.Exact.{Projection}
use bollywood_hal.Storage.Exact.Known.{bind-pure}
use bollywood_hal.Sentience.Tables.{TaskRow, Tables}
use bollywood_hal.Sentience.Runtime.{Self, Now, utc_ms, NewEvent, append}
use bollywood_hal.Sentience.Degradation.Projections.{is_open}
use bollywood_hal.Sentience.Degradation.Change.Transactions.{append_rule}
use bollywood_hal.Sentience.Capabilities.{CapabilityRegistry}
use bollywood_hal.Sentience.Capabilities.Requirements.{
  TaskRequirement, add_requirement, create_task, insert_requirements,
}
use bollywood_hal.Sentience.Capabilities.Tasks.{
  set_checkpoint, close_task, set_finished, set_interrupted, project_checkpoint, checkpoint, finish,
  interrupt,
}

-- The same task; if it is closed, with the same state, end and completion event.
pub record Settled (x y : TaskRow) : Type 0 where
  pub same_task : y.task_id ≡ x.task_id
  pub same_end :
      is_open x.state ≡ false
      → (y.state ≡ x.state)
        × (y.completed_at ≡ x.completed_at)
        × (y.exact_completion_event_id ≡ x.exact_completion_event_id)

-- No task is dropped, and each closed one stays as it is.
pub Closed : List TaskRow → List TaskRow → Type 0
Closed [] ys = Unit
Closed (x ∷ xs) [] = ⊥
Closed (x ∷ xs) (y ∷ ys) = Settled x y × Closed xs ys

Settled-refl : (x : TaskRow) → Settled x x
Settled-refl x = record { same_task = refl; same_end = λ _. (refl, refl, refl) }

pub Closed-refl : (xs : List TaskRow) → Closed xs xs
unfolding Closed
Closed-refl [] = tt
Closed-refl (x ∷ xs) = (Settled-refl x, Closed-refl xs)

Settled-trans : (x y z : TaskRow) → Settled x y → Settled y z → Settled x z
Settled-trans x y z h k = record {
  same_task = k.same_task ∙ h.same_task;
  same_end = λ closed.
      let first = h.same_end closed in
      let second = k.same_end (ap is_open first.0 ∙ closed) in
      (second.0 ∙ first.0, second.1 ∙ first.1, second.2 ∙ first.2);
}

pub Closed-trans : (xs ys zs : List TaskRow) → Closed xs ys → Closed ys zs → Closed xs zs
unfolding Closed
Closed-trans [] ys zs h k = tt
Closed-trans (x ∷ xs) (y ∷ ys) (z ∷ zs) h k =
    (Settled-trans x y z h.0 k.0, Closed-trans xs ys zs h.1 k.1)
Closed-trans (x ∷ xs) (y ∷ ys) [] h k = absurd k
Closed-trans (x ∷ xs) [] zs h k = absurd h

Closed-insert : (xs ys : List TaskRow) → Closed xs (xs ++ ys)
unfolding Closed
Closed-insert [] ys = tt
Closed-insert (x ∷ xs) ys = (Settled-refl x, Closed-insert xs ys)

Closed-update :
    (test : TaskRow → Bool) (change : TaskRow → TaskRow) (xs : List TaskRow)
    → ((x : TaskRow) → test x ≡ true → Settled x (change x))
    → Closed xs (update_where test change xs)
unfolding Closed update_where
Closed-update test change [] h = tt
Closed-update test change (x ∷ xs) h = elim (Bool-cases (test x)) [
  | inl hit ↦ rw hit (h x hit, Closed-update test change xs h)
  | inr miss ↦ rw miss (Settled-refl x, Closed-update test change xs h)
]

-- an update of an open task settles nothing
Settled-open :
    (x y : TaskRow) (b : Bool) → y.task_id ≡ x.task_id → (b && is_open x.state) ≡ true → Settled x y
Settled-open x y b same open_task = record {
  same_task = same;
  same_end = λ closed. absurd (ground arith);
}

module _ {F : Type 0} where
  close_task-Closed :
      (task_id : String) (change : TaskRow → TaskRow) (n : ℕ) (t u : Tables F)
      → ((x : TaskRow) → (change x).task_id ≡ x.task_id)
      → close_task task_id change n t ≡ ok u
      → Closed t.tasks u.tasks
  unfolding close_task
  close_task-Closed task_id change n t u same h =
      let is_u : u.tasks
          ≡ update_where (λ (k : TaskRow). k.task_id =s task_id && is_open k.state) change t.tasks =
        ground arith in
      subst (Closed t.tasks) (sym is_u) (
        Closed-update _ change t.tasks
          (λ x hit. Settled-open x (change x) (x.task_id =s task_id) (same x) hit))

  tasks-insert_requirements :
      (task_id : String) (qs : List TaskRequirement) (t u : Tables F)
      → insert_requirements task_id qs t ≡ ok u
      → u.tasks ≡ t.tasks
  unfolding insert_requirements
  tasks-insert_requirements task_id [] t u h = ground arith
  tasks-insert_requirements task_id (q ∷ qs) t u h =
      ground (arith, tasks-insert_requirements task_id qs (add_requirement task_id q t) u)

Settled-checkpoint :
    (x y : TaskRow)
    → y.task_id ≡ x.task_id
    → y.state ≡ x.state
    → y.completed_at ≡ x.completed_at
    → y.exact_completion_event_id ≡ x.exact_completion_event_id
    → Settled x y
Settled-checkpoint x y a b c d = record { same_task = a; same_end = λ _. (b, c, d) }

project_checkpoint-Closed :
    {F D : Type 0} (g : CapabilityRegistry F D) (checkpoint_id task_id : String)
    (state unresolved pending : Json) (now : Now) (n : ℕ) (t u : Tables F)
    → project_checkpoint g checkpoint_id task_id state unresolved pending now n t ≡ ok u
    → Closed t.tasks u.tasks
unfolding project_checkpoint set_checkpoint
project_checkpoint-Closed g checkpoint_id task_id state unresolved pending now n t u h =
    let is_u : u.tasks
        ≡ update_where (λ (k : TaskRow). k.task_id =s task_id)
            (set_checkpoint checkpoint_id unresolved (utc_ms now)) t.tasks =
      ground arith in
    subst (Closed t.tasks) (sym is_u) (
      Closed-update (λ (k : TaskRow). k.task_id =s task_id)
        (set_checkpoint checkpoint_id unresolved (utc_ms now)) t.tasks
        (λ x hit.
          Settled-checkpoint x (set_checkpoint checkpoint_id unresolved (utc_ms now) x) refl refl
            refl refl))

-- The calls that change tasks.
pub data TaskCall : Type 0 where
  created :
      String → String → List TaskRequirement → Option String → Now → String → String → TaskCall
  checkpointed : String → Json → Json → Json → Option String → Now → String → String → TaskCall
  finished : String → String → Bool → Now → String → TaskCall
  stopped : String → String → Bool → Now → String → TaskCall

module _ {F D : Type 0} (g : CapabilityRegistry F D) where
  -- what a call leaves, whether it returns or raises
  unfoldable pub call : TaskCall → Self F D → Self F D
  call (created title risk requirements given now task_id event_id) db =
      (create_task g title risk requirements given now task_id event_id db).1
  call (checkpointed task_id state unresolved pending given now checkpoint_id event_id) db =
      (checkpoint g task_id state unresolved pending given now checkpoint_id event_id db).1
  call (finished task_id outcome verified now event_id) db =
      (finish g task_id outcome verified now event_id db).1
  call (stopped task_id reason is_cancelled now event_id) db =
      (interrupt g task_id reason is_cancelled now event_id db).1

  unfoldable pub calls : List TaskCall → Self F D → Self F D
  calls [] db = db
  calls (k ∷ ks) db = calls ks (call k db)

  -- a rule for the calls: an append, with a return after it
  pub call_rule :
      {B : Type 0} (Q : Tables F → Type 0) (n : NewEvent) (now : Now)
      (project : Projection (Tables F)) (b : B) (db : Self F D)
      → ((t : Tables F) → project (db.last_sequence + 1) db.tables ≡ ok t → Q t)
      → Q db.tables
      → Q (bind (append g.runtime n now project) (λ _. pure b) db).1.tables
  call_rule Q n now project b db made kept =
      subst (λ (d : Self F D). Q d.tables) (bind-pure (append g.runtime n now project) b db)
        (append_rule Q g.runtime n now project db made kept)

  call-Closed : (k : TaskCall) (db : Self F D) → Closed db.tables.tasks (call k db).tables.tasks
  unfolding call create_task checkpoint finish interrupt project_checkpoint set_finished
      set_interrupted
  call-Closed (created title risk requirements given now task_id event_id) db =
      call_rule (λ (t : Tables F). Closed db.tables.tasks t.tasks) _ now _ _ db
        (λ t made.
          subst (Closed db.tables.tasks)
            (sym (tasks-insert_requirements _ requirements _ t (require_then _ _ _ made).1))
            (Closed-insert db.tables.tasks _))
        (Closed-refl db.tables.tasks)
  call-Closed (checkpointed task_id state unresolved pending given now checkpoint_id event_id) db =
      call_rule (λ (t : Tables F). Closed db.tables.tasks t.tasks) _ now _ _ db
        (λ t made.
          project_checkpoint-Closed g _ task_id _ _ _ now (db.last_sequence + 1) db.tables t made)
        (Closed-refl db.tables.tasks)
  call-Closed (finished task_id outcome verified now event_id) db =
      call_rule (λ (t : Tables F). Closed db.tables.tasks t.tasks) _ now _ _ db
        (λ t made. close_task-Closed task_id _ (db.last_sequence + 1) db.tables t (λ x. refl) made)
        (Closed-refl db.tables.tasks)
  call-Closed (stopped task_id reason is_cancelled now event_id) db =
      call_rule (λ (t : Tables F). Closed db.tables.tasks t.tasks) _ now _ _ db
        (λ t made. close_task-Closed task_id _ (db.last_sequence + 1) db.tables t (λ x. refl) made)
        (Closed-refl db.tables.tasks)

  -- Whatever calls follow, those that raise included, no task is dropped, and a task that was
  -- completed or cancelled keeps its state, its time of completion and its completion event.
  pub calls-Closed :
      (ks : List TaskCall) (db : Self F D) → Closed db.tables.tasks (calls ks db).tables.tasks
  unfolding calls
  calls-Closed [] db = Closed-refl db.tables.tasks
  calls-Closed (k ∷ ks) db =
      Closed-trans db.tables.tasks (call k db).tables.tasks (calls ks (call k db)).tables.tasks
        (call-Closed k db) (calls-Closed ks (call k db))
