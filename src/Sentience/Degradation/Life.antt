-- ===== src/Sentience/Degradation/Life.antt =====
-- The life of a `DegradationEngine` (src/hal9000/sentience/degradation/engine.py): its operations in any
-- order, with the dispatcher of the outbox and other clients of the database between them.
pub mod Others
use bollywood_hal.Prelude.{◌≡◌, Bool, String, Option, arith}
use bollywood_hal.Action.{Result}
use bollywood_hal.Sentience.Outbox.{Dispatcher, dispatch_one}
use bollywood_hal.Sentience.Degradation.Life.Others.{
  Beside, Beside-Exclusive, Beside-SpokenOnce, Aligned-Evolves, dispatch_one-Beside,
}
use bollywood_hal.Storage.Table.{row_count}
use bollywood_hal.Storage.Rows.{empty}
use bollywood_hal.Sentience.Tables.{Tables, no_rows}
use bollywood_hal.Sentience.Runtime.{Self, Now}
use bollywood_hal.Sentience.Degradation.{CapabilityTransition, Engine}
use bollywood_hal.Sentience.Degradation.Records.{Fresh}
use bollywood_hal.Sentience.Degradation.Operations.{on_transition, tick}
use bollywood_hal.Sentience.Degradation.Exclusive.{Exclusive}
use bollywood_hal.Sentience.Degradation.Change.{Change}
use bollywood_hal.Sentience.Degradation.Change.Transactions.{Moves}
use bollywood_hal.Sentience.Degradation.Change.Refinement.{on_transition_refines, tick_refines}
use bollywood_hal.Sentience.Degradation.Change.Keeps.{Change-Exclusive}
use bollywood_hal.Sentience.Degradation.Change.Phrases.{
  SpokenOnce, SpokenOnce-empty, Change-SpokenOnce,
}
use bollywood_hal.Sentience.Degradation.Change.Edges.{Evolves, Change-Evolves}

module _ {F D : Type 0} (e : Engine F D) where
  -- What one step makes of the database; steps follow one another, each on what the last one left.
  -- Beside the engine there are the dispatcher of the outbox and clients that write neither the
  -- identity or state of an episode nor the kind or episode of a phrase, and add or drop neither.
  pub data Step (db : Self F D) : Self F D → Type 0 where
    told :
        (transition : CapabilityTransition) (profile : String) (fallback : Option String)
        (now : Now) (fresh : Fresh)
        → Step db (on_transition e transition profile fallback now fresh db).1
    ticked : (now : Now) (fresh : Fresh) → Step db (tick e now fresh db).1
    dispatched :
        (d : Dispatcher F D) (tts : Bool) (speak display : String → Result (Unit {0}))
        (claimed_now now : Now) (event_id : String)
        → Step db (dispatch_one d tts speak display claimed_now now event_id db).1
    elsewhere : (other : Self F D) → Beside db.tables other.tables → Step db other

  pub data Reachable : Self F D → Type 0 where
    opened : Reachable (empty no_rows)
    then_step : {db next : Self F D} → Reachable db → Step db next → Reachable next

  pub record Sound (t : Tables F) : Type 0 where
    pub exclusive : Exclusive t.episodes
    pub spoken_once : SpokenOnce t.outbox

  Change-Sound : (t t' : Tables F) → Change t t' → Sound t → Sound t'
  Change-Sound t t' c h = record {
    exclusive = Change-Exclusive t t' c h.exclusive;
    spoken_once = Change-SpokenOnce t t' c h.spoken_once;
  }

  Beside-Sound : (t u : Tables F) → Beside t u → Sound t → Sound u
  Beside-Sound t u b h = record {
    exclusive = Beside-Exclusive t u b h.exclusive;
    spoken_once = Beside-SpokenOnce t u b h.spoken_once;
  }

  Step-Sound : {db next : Self F D} → Step db next → Sound db.tables → Sound next.tables
  unfolding Moves
  Step-Sound {db} (told transition profile fallback now fresh) h =
      Change-Sound _ _ (on_transition_refines e now fresh db transition profile fallback) h
  Step-Sound {db} (ticked now fresh) h = Change-Sound _ _ (tick_refines e now fresh db) h
  Step-Sound {db} (dispatched d tts speak display claimed_now now event_id) h =
      Beside-Sound _ _ (dispatch_one-Beside d tts speak display claimed_now now event_id db) h
  Step-Sound (elsewhere other beside) h = Beside-Sound _ _ beside h

  -- However the calls of on_transition and tick, the dispatches of the outbox and the writes of other
  -- columns by other clients follow one another from the empty database, raises included: an episode
  -- has one row, at most one episode is active, and the outbox has at most one phrase of each kind
  -- for an episode.
  pub Reachable-Sound : {db : Self F D} → Reachable db → Sound db.tables
  unfolding empty row_count
  Reachable-Sound opened = record {
    exclusive = record { one_row = λ k. omega arith; one_active = omega arith };
    spoken_once = SpokenOnce-empty;
  }
  Reachable-Sound (then_step r s) = Step-Sound s (Reachable-Sound r)

  -- A step from a reachable database deletes and renames no episode, begins new ones in DEGRADING,
  -- and leaves each of the others in its state or moves it along one of the edges that the engine has:
  -- DEGRADING to DEGRADED or, for a loss that passed, to NOMINAL; DEGRADED to RECOVERING; RECOVERING
  -- to NOMINAL or back to DEGRADED; and NOMINAL to DEGRADED, for an episode that is opened again.
  pub Step-Evolves :
      {db next : Self F D}
      → Reachable db
      → Step db next
      → Evolves db.tables.episodes next.tables.episodes
  unfolding Moves
  Step-Evolves {db} r (told transition profile fallback now fresh) =
      Change-Evolves _ _ (Reachable-Sound r).exclusive
        (on_transition_refines e now fresh db transition profile fallback)
  Step-Evolves {db} r (ticked now fresh) =
      Change-Evolves _ _ (Reachable-Sound r).exclusive (tick_refines e now fresh db)
  Step-Evolves {db} r (dispatched d tts speak display claimed_now now event_id) =
      Aligned-Evolves _ _
        (dispatch_one-Beside d tts speak display claimed_now now event_id db).episodes
  Step-Evolves {db} r (elsewhere other beside) = Aligned-Evolves _ _ beside.episodes
