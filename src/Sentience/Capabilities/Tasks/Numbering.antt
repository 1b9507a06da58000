-- ===== src/Sentience/Capabilities/Tasks/Numbering.antt =====
-- The numbers of the checkpoints of a task (src/hal9000/sentience/capabilities/tasks.py).
use bollywood_hal.Prelude.{
  ℕ, ◌+◌, ◌≡◌, sym, String, Bool, true, false, ◌=s◌, if◌then◌else◌, ◌<◌, =s_iff, List, [], ◌∷◌,
  ◌++◌, inl, inr, arith, Bool-cases,
}
use mathlib.Core.Path.{subst}
use bollywood_hal.Action.{ok, require_then}
use bollywood_hal.Storage.Json.{Json}
use bollywood_hal.Storage.Table.{row_count}
use bollywood_hal.Sentience.Tables.{CheckpointRow, TaskRow, Tables}
use bollywood_hal.Sentience.Runtime.{Self, Now, utc_ms}
use bollywood_hal.Sentience.Capabilities.{CapabilityRegistry}
use bollywood_hal.Sentience.Capabilities.Tasks.{
  last_checkpoint, close_task, project_checkpoint, checkpoint, finish, interrupt,
}
use bollywood_hal.Sentience.Capabilities.Requirements.{
  TaskRequirement, add_requirement, insert_requirements, create_task,
}
use bollywood_hal.Sentience.Capabilities.Tasks.Closed.{
  TaskCall, created, checkpointed, finished, stopped, call, calls, call_rule,
}

abbrev pub of_task : String → CheckpointRow → Bool
of_task k c = c.task_id =s k

-- The checkpoints of the task are numbered `n + 1`, `n + 2`, … in the order of their insertion.
pub NumberedFrom : String → ℕ → List CheckpointRow → Type 0
NumberedFrom k n [] = Unit
NumberedFrom k n (c ∷ cs) =
    if of_task k c then (c.sequence ≡ n + 1) × NumberedFrom k (n + 1) cs else NumberedFrom k n cs

NumberedFrom-own :
    (k : String) (n : ℕ) (c : CheckpointRow) (cs : List CheckpointRow)
    → of_task k c ≡ true
    → NumberedFrom k n (c ∷ cs)
    → (c.sequence ≡ n + 1) × NumberedFrom k (n + 1) cs
unfolding NumberedFrom
NumberedFrom-own k n c cs own h =
    subst
      (λ (b : Bool).
        if b then (c.sequence ≡ n + 1) × NumberedFrom k (n + 1) cs else NumberedFrom k n cs)
      own h

NumberedFrom-other :
    (k : String) (n : ℕ) (c : CheckpointRow) (cs : List CheckpointRow)
    → of_task k c ≡ false
    → NumberedFrom k n (c ∷ cs)
    → NumberedFrom k n cs
unfolding NumberedFrom
NumberedFrom-other k n c cs other h =
    subst
      (λ (b : Bool).
        if b then (c.sequence ≡ n + 1) × NumberedFrom k (n + 1) cs else NumberedFrom k n cs)
      other h

NumberedFrom-append :
    (k : String) (n : ℕ) (cs : List CheckpointRow) (c : CheckpointRow)
    → NumberedFrom k n cs
    → (of_task k c ≡ true → c.sequence ≡ n + row_count (of_task k) cs + 1)
    → NumberedFrom k n (cs ++ c ∷ [])
unfolding NumberedFrom row_count
NumberedFrom-append k n [] c h next = elim (Bool-cases (of_task k c)) [
  | inl own ↦ rw own (ground (arith, next own), tt)
  | inr other ↦ rw other tt
]
NumberedFrom-append k n (x ∷ xs) c h next = elim (Bool-cases (of_task k x)) [
  | inl own ↦
      let (first, others) = NumberedFrom-own k n x xs own h in
      rw own (first, NumberedFrom-append k (n + 1) xs c others (λ e. ground (arith, next e, own)))
  | inr other ↦ rw other (
      NumberedFrom-append k n xs c (NumberedFrom-other k n x xs other h)
        (λ e. ground (arith, next e, other)))
]

last_checkpoint-le :
    (k : String) (n : ℕ) (cs : List CheckpointRow)
    → NumberedFrom k n cs
    → (row_count (of_task k) cs ≡ 0 → last_checkpoint k cs ≡ 0)
      × (0 < row_count (of_task k) cs → last_checkpoint k cs ≡ n + row_count (of_task k) cs)
unfolding NumberedFrom row_count last_checkpoint
last_checkpoint-le k n [] h = ground arith
last_checkpoint-le k n (c ∷ cs) h = elim (Bool-cases (of_task k c)) [
  | inl own ↦
      let (first, others) = NumberedFrom-own k n c cs own h in
      ground (arith, own, first, last_checkpoint-le k (n + 1) cs others)
  | inr other ↦
      ground (arith, other, last_checkpoint-le k n cs (NumberedFrom-other k n c cs other h))
]

pub numbered-none : (k : String) → NumberedFrom k 0 []
unfolding NumberedFrom
numbered-none k = tt

module _ {F : Type 0} where
  checkpoints-insert_requirements :
      (task_id : String) (qs : List TaskRequirement) (t u : Tables F)
      → insert_requirements task_id qs t ≡ ok u
      → u.checkpoints ≡ t.checkpoints
  unfolding insert_requirements
  checkpoints-insert_requirements task_id [] t u h = ground arith
  checkpoints-insert_requirements task_id (q ∷ qs) t u h =
      ground (arith, checkpoints-insert_requirements task_id qs (add_requirement task_id q t) u)

  checkpoints-close_task :
      (task_id : String) (change : TaskRow → TaskRow) (n : ℕ) (t u : Tables F)
      → close_task task_id change n t ≡ ok u
      → u.checkpoints ≡ t.checkpoints
  unfolding close_task
  checkpoints-close_task task_id change n t u h = ground arith

-- the checkpoints of every task are numbered in the order of their insertion
abbrev pub Numbered : {F : Type 0} → Tables F → Type 0
Numbered t = (k : String) → NumberedFrom k 0 t.checkpoints

module _ {F D : Type 0} (g : CapabilityRegistry F D) where
  -- the insertion of a checkpoint keeps the numbering
  project_checkpoint-NumberedFrom :
      (checkpoint_id task_id : String) (state unresolved pending : Json) (now : Now) (n : ℕ)
      (t u : Tables F)
      → project_checkpoint g checkpoint_id task_id state unresolved pending now n t ≡ ok u
      → ((k : String) → NumberedFrom k 0 t.checkpoints)
      → (k : String) → NumberedFrom k 0 u.checkpoints
  unfolding project_checkpoint
  project_checkpoint-NumberedFrom checkpoint_id task_id state unresolved pending now n t u h
        numbered k =
      let row : CheckpointRow = record {
        checkpoint_id = checkpoint_id;
        task_id = task_id;
        sequence = last_checkpoint task_id t.checkpoints + 1;
        created_at = utc_ms now;
        state = state;
        unresolved = unresolved;
        pending_actions = pending;
      } in
      let is_u : u.checkpoints ≡ t.checkpoints ++ row ∷ [] = ground arith in
      subst (NumberedFrom k 0) (sym is_u) (
        NumberedFrom-append k 0 t.checkpoints row (numbered k) (λ own.
          ground (
            arith,
            =s_iff task_id k,
            last_checkpoint-le task_id 0 t.checkpoints (numbered task_id),
          )))

  call-Numbered :
      (c : TaskCall) (db : Self F D) → Numbered db.tables → Numbered (call g c db).tables
  unfolding call create_task checkpoint finish interrupt
  call-Numbered (created title risk requirements given now task_id event_id) db h =
      call_rule g Numbered _ now _ _ db
        (λ t made k.
          subst (NumberedFrom k 0)
            (sym (checkpoints-insert_requirements _ requirements _ t (require_then _ _ _ made).1))
            (h k))
        h
  call-Numbered (checkpointed task_id state unresolved pending given now checkpoint_id event_id) db
        h =
      call_rule g Numbered _ now _ _ db
        (λ t made.
          project_checkpoint-NumberedFrom _ task_id _ _ _ now (db.last_sequence + 1) db.tables t
            made h)
        h
  call-Numbered (finished task_id outcome verified now event_id) db h =
      call_rule g Numbered _ now _ _ db
        (λ t made k.
          subst (NumberedFrom k 0)
            (sym (checkpoints-close_task task_id _ (db.last_sequence + 1) db.tables t made)) (h k))
        h
  call-Numbered (stopped task_id reason is_cancelled now event_id) db h =
      call_rule g Numbered _ now _ _ db
        (λ t made k.
          subst (NumberedFrom k 0)
            (sym (checkpoints-close_task task_id _ (db.last_sequence + 1) db.tables t made)) (h k))
        h

  -- Where the checkpoints of every task are numbered 1, 2, … in the order of their insertion, as in
  -- a store without checkpoints, they are so after any calls, those that raise included.
  pub calls-NumberedFrom :
      (ks : List TaskCall) (db : Self F D)
      → ((k : String) → NumberedFrom k 0 db.tables.checkpoints)
      → (k : String) → NumberedFrom k 0 (calls g ks db).tables.checkpoints
  unfolding calls
  calls-NumberedFrom [] db h = h
  calls-NumberedFrom (c ∷ ks) db h = calls-NumberedFrom ks (call g c db) (call-Numbered c db h)
