-- ===== src/Examples/Outbox.antt =====
-- The dispatch of a phrase at a concrete input: the speech fails and the display takes over.
use bollywood_hal.Prelude.{ℕ, String, true, none, some, [], ◌∷◌}
use bollywood_hal.Action.{Result, ok, raised, runtime_error}
use bollywood_hal.Storage.Rows.{empty}
use bollywood_hal.Sentience.Tables.{degradation_phrase, recovery_phrase, OutboxRow, no_rows}
use bollywood_hal.Sentience.Runtime.{Self}
use bollywood_hal.Sentience.Outbox.{Dispatcher, dispatch_one}
use bollywood_hal.Sentience.Outbox.Emitted.{Keeps, dispatch_one-Keeps}
use bollywood_hal.Examples.Chain.{Digest}
use bollywood_hal.Examples.World.{runtime, at_seconds}

abbrev dispatcher : Dispatcher ℕ Digest
dispatcher = record { runtime = runtime; owner = "dispatcher"; cut = λ _. "failed" }

abbrev new_phrase : OutboxRow
new_phrase = record {
  outbox_id = "o1";
  kind = degradation_phrase;
  episode_id = "episode";
  phrase = "degraded";
  created_at = 1000;
  available_at = 1000;
  claimed_at = none;
  claim_owner = none;
  emitted_at = none;
  delivery_channel = none;
  attempts = 0;
  last_error = none;
}

abbrev told_phrase : OutboxRow
told_phrase = record new_phrase {
  outbox_id = "o2";
  kind = recovery_phrase;
  emitted_at = some 2000;
  delivery_channel = some "speech";
}

abbrev phrases : Self ℕ Digest
phrases = empty (record no_rows { outbox = told_phrase ∷ new_phrase ∷ [] })

abbrev mute : String → Result (Unit {0})
mute _ = raised (runtime_error "no audio")

abbrev screen : String → Result (Unit {0})
screen _ = ok tt

dispatch_one-Keeps_example :
    Keeps phrases.tables.outbox
      (dispatch_one dispatcher true mute screen
        (at_seconds 3)
        (at_seconds 4)
        "e1"
        phrases).1.tables.outbox
dispatch_one-Keeps_example =
    dispatch_one-Keeps dispatcher true mute screen (at_seconds 3) (at_seconds 4) "e1" phrases
