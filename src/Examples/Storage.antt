-- ===== src/Examples/Storage.antt =====
-- The store's theorems at concrete inputs.
use bollywood_hal.Prelude.{ℕ, ◌-◌, ◌≡◌, ◌↔◌, refl, true, false, none, some, List, [], ◌∷◌}
use bollywood_hal.Action.{ok, raised, validation_error}
use bollywood_hal.Storage.Models.{forever, transient, StoredEvent}
use bollywood_hal.Storage.Envelope.{validate, with_payload}
use bollywood_hal.Storage.Json.{Json}
use bollywood_hal.Storage.Rows.{Db, empty, last_hash, latest, find_existing, should_chain, same_key}
use bollywood_hal.Storage.Exact.{
  append_exact_event, append_validated, redacted, transaction, restore, insert, finish,
  run_projection, new_row,
}
use bollywood_hal.Storage.Exact.Append.{append_exact_event_once, append_exact_event_atomic}
use bollywood_hal.Storage.Verify.{verify_control_chain, verify_sequence_continuity}
use bollywood_hal.Storage.Verify.Chain.{IsChained, hashed_rows, verify_control_chain_iff}
use bollywood_hal.Storage.Verify.Tamper.{covered, control_chain-IsTamperEvident}
use bollywood_hal.Storage.History.{Append, Distinct, replay, replay-verifies}
use bollywood_hal.Examples.Chain.{Digest, collision_free}
use bollywood_hal.Examples.World.{platform, codec, event_on, count_up}

abbrev kept : Append Json ℕ ℕ
kept = record { event = event_on "e1" forever; projection = some count_up; force_hash_chain = none }

abbrev passing : Append Json ℕ ℕ
passing = record { event = event_on "e2" transient; projection = none; force_hash_chain = none }

abbrev nameless : Append Json ℕ ℕ
nameless = record { event = event_on "" forever; projection = none; force_hash_chain = none }

abbrev history : List (Append Json ℕ ℕ)
history = kept ∷ passing ∷ nameless ∷ kept ∷ []

replay-verifies_example :
    let db = replay platform codec history (empty 0) in
    ((verify_control_chain codec db).valid ≡ true)
    × (verify_sequence_continuity 1 db ≡ record { valid = true; checked = db.last_sequence - 1 })
    × Distinct db.events
replay-verifies_example = replay-verifies platform codec history 0 1

abbrev replayed : Db Json ℕ Digest ℕ
replayed = replay platform codec history (empty 0)

verify_control_chain_iff_example :
    (((verify_control_chain codec replayed).valid ≡ true) ↔ IsChained codec replayed)
    × (IsChained codec replayed
        → (verify_control_chain codec replayed).checked ≡ hashed_rows codec replayed.events)
verify_control_chain_iff_example = verify_control_chain_iff codec replayed

abbrev first : Db Json ℕ Digest ℕ
first = (append_exact_event platform codec (event_on "e1" forever) (some count_up) none (empty 0)).1

abbrev answer : StoredEvent
answer = record { sequence = 1; event_id = "e1"; inserted = true }

first_append :
    append_exact_event platform codec (event_on "e1" forever) (some count_up) none (empty 0)
    ≡ (ok answer, first)
unfolding append_exact_event redacted validate with_payload append_validated transaction restore
    insert finish find_existing empty run_projection
first_append = refl

append_exact_event_once_example :
    append_exact_event platform codec (event_on "e1" forever) none (some false) first
    ≡ (ok (record { sequence = 1; event_id = "e1"; inserted = false }), first)
append_exact_event_once_example =
    append_exact_event_once platform codec none (some false) (some count_up) none
      (event_on "e1" forever) (empty 0) first answer first_append

refused :
    (append_exact_event platform codec (event_on "" forever) (some count_up) none first).0
    ≡ raised (validation_error "event_id must be a UUID")
unfolding append_exact_event redacted validate with_payload append_validated
refused = refl

append_exact_event_atomic_example :
    (append_exact_event platform codec (event_on "" forever) (some count_up) none first).1 ≡ first
append_exact_event_atomic_example =
    append_exact_event_atomic platform codec none (some count_up) (event_on "" forever) first
      (validation_error "event_id must be a UUID") refused

abbrev longer : Db Json ℕ Digest ℕ
longer = replay platform codec (kept ∷ passing ∷ []) (empty 0)

abbrev shorter : Db Json ℕ Digest ℕ
shorter = replay platform codec (kept ∷ []) (empty 0)

same_end : last_hash none shorter.events ≡ last_hash none longer.events
unfolding replay append_exact_event redacted validate with_payload append_validated transaction
    restore insert finish find_existing empty run_projection last_hash latest new_row should_chain
    same_key
same_end = refl

control_chain-IsTamperEvident_example :
    covered codec none [] shorter.events ≡ covered codec none [] longer.events
control_chain-IsTamperEvident_example =
    control_chain-IsTamperEvident codec collision_free shorter longer
      (replay-verifies platform codec (kept ∷ []) 0 0).0
      (replay-verifies platform codec (kept ∷ passing ∷ []) 0 0).0 same_end
