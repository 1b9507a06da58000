-- ===== src/Ingestion/Writer.antt =====
-- `ExactEventWriter` of src/hal9000/sentience/storage/writer.py. A future is the identity of its
-- request; `resolved` are the futures that have a result, the latest last. The worker thread takes one
-- request at a time.
pub mod Accounting
pub mod Known
use bollywood_hal.Prelude.{
  ℕ, ◌+◌, Bool, true, false, Option, none, some, List, [], ◌∷◌, ◌++◌, length, ltb, leb,
  if◌then◌else◌,
}
use bollywood_hal.Action.{Exception, Result, ok, raised, value_error, runtime_error}
use bollywood_hal.Storage.Models.{StoredEvent}
use bollywood_hal.Storage.Envelope.{Platform, Envelope}
use bollywood_hal.Storage.Rows.{Codec, Db}
use bollywood_hal.Storage.Exact.{Projection, append_exact_event}

-- The outcome of a future.
pub data Outcome : Type 0 where
  result : StoredEvent → Outcome
  failed : Exception → Outcome
  cancelled : Outcome

pub record WriteRequest (P F T : Type 0) : Type 0 where
  pub future : ℕ
  pub event : Envelope P F
  pub projection : Option (Projection T)

pub record Writer (P F D T : Type 0) : Type 0 where
  pub capacity : ℕ
  pub queue : List (WriteRequest P F T)
  pub resolved : List (ℕ × Outcome)
  pub synchronous_fallbacks : ℕ
  pub closed : Bool
  pub database : Db P F D T

unfoldable pub new_writer : {P F D T : Type 0} → ℕ → Db P F D T → Result (Writer P F D T)
new_writer capacity db =
    if leb capacity 0
    then raised (value_error "exact writer capacity must be positive")
    else ok (record {
      capacity = capacity;
      queue = [];
      resolved = [];
      synchronous_fallbacks = 0;
      closed = false;
      database = db;
    })

abbrev pub outcome : Result StoredEvent → Outcome
outcome (ok s) = result s
outcome (raised e) = failed e

module _ {P F D T : Type 0} (p : Platform P F) (c : Codec P F D) where
  -- the append of a request, with the result that its future gets
  unfoldable pub write : WriteRequest P F T → Writer P F D T → Writer P F D T
  write q w =
      let (r, db) = append_exact_event p c q.event q.projection none w.database in
      record w { resolved = w.resolved ++ (q.future, outcome r) ∷ []; database = db }

  -- `submit`: the queue, or a write by the caller where the queue is full
  unfoldable pub submit : WriteRequest P F T → Writer P F D T → Option Exception × Writer P F D T
  unfolding write
  submit q w =
      if w.closed
      then (some (runtime_error "exact event writer is closed"), w)
      else if ltb (length w.queue) w.capacity
      then (none, record w { queue = w.queue ++ q ∷ [] })
      else (none, write q (record w { synchronous_fallbacks = w.synchronous_fallbacks + 1 }))

  -- one turn of the worker; `is_cancelled` says that the caller cancelled the future meanwhile
  unfoldable pub work : Bool → Writer P F D T → Writer P F D T
  unfolding write
  work is_cancelled w = elim w.queue [
    | [] ↦ w
    | q ∷ rest ↦
        if is_cancelled
        then record w { queue = rest; resolved = w.resolved ++ (q.future, cancelled) ∷ [] }
        else write q (record w { queue = rest })
  ]

  -- the worker works until the queue is empty
  unfoldable pub drain : List (WriteRequest P F T) → Writer P F D T → Writer P F D T
  unfolding work
  drain [] w = w
  drain (q ∷ rest) w = drain rest (work false w)

  -- `flush`, the join of the queue: the worker is alive, and no future is cancelled while it waits
  unfoldable pub flush : Writer P F D T → Writer P F D T
  unfolding drain
  flush w = drain w.queue w

  unfoldable pub close : Writer P F D T → Writer P F D T
  unfolding flush
  close w = if w.closed then w else record (flush w) { closed = true }
