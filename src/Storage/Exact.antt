-- ===== src/Storage/Exact.antt =====
-- `SentienceDatabase.append_exact_event` of src/hal9000/sentience/storage/database.py, in one
-- transaction with the projection that changes the other tables.
pub mod Append
pub mod Known
use bollywood_hal.Prelude.{
  ℕ, suc, ◌+◌, String, Bool, true, false, Option, none, some, List, [], ◌∷◌, ◌++◌, if◌then◌else◌,
}
use bollywood_hal.Action.{Result, ok, raised, Action}
use bollywood_hal.Storage.Models.{StoredEvent}
use bollywood_hal.Storage.Envelope.{Platform, Envelope, validate, with_payload}
use bollywood_hal.Storage.Rows.{Codec, Row, Db, canonical, should_chain, find_existing, last_hash}

module _ {S A : Type 0} where
  unfoldable pub restore : Result A → S → S → Result A × S
  restore (ok a) before after = (ok a, after)
  restore (raised e) before after = (raised e, before)

  -- BEGIN IMMEDIATE; COMMIT, or ROLLBACK where the body raises
  unfoldable pub transaction : Action S A → Action S A
  unfolding restore
  transaction m s = let (r, s') = m s in restore r s s'

abbrev pub Projection : Type 0 → Type 0
Projection T = ℕ → T → Result T

-- `if projection is not None: projection(connection, sequence)`
unfoldable pub run_projection : {T : Type 0} → Option (Projection T) → Projection T
run_projection none sequence t = ok t
run_projection (some f) sequence t = f sequence t

module _ {P F D : Type 0} (c : Codec P F D) where
  unfoldable pub event_hash : ℕ → Option D → Envelope P F → String → D
  unfolding canonical
  event_hash sequence previous e payload_json =
      c.digest (canonical sequence previous e payload_json)

  -- the row after INSERT and the UPDATE of its hash
  unfoldable pub new_row : Option Bool → Envelope P F → List (Row P F D) → ℕ → Row P F D
  unfolding event_hash last_hash should_chain
  new_row force e rows sequence =
      let json = c.dumps e.payload in
      let previous = if should_chain force e then last_hash none rows else none in
      record {
        sequence = sequence;
        event = e;
        payload_json = json;
        previous_hash = previous;
        event_hash =
            if should_chain force e then some (event_hash sequence previous e json) else none;
      }

unfoldable pub redacted :
    {P F D : Type 0} → Platform P F → Codec P F D → Envelope P F → Result (Envelope P F)
redacted p c e =
    let checked = with_payload p e (c.redact e.payload) in
    elim (validate p e) [ ok _ ↦ checked | raised x ↦ raised x ]

module _ {P F D T : Type 0} where
  unfoldable pub finish : StoredEvent → Db P F D T → Result T → Result StoredEvent × Db P F D T
  finish stored db (ok t) = (ok stored, record db { tables = t })
  finish stored db (raised e) = (raised e, db)

  -- the body of the transaction
  unfoldable pub insert :
      Codec P F D
      → Option Bool
      → Option (Projection T)
      → Envelope P F
      → Action (Db P F D T) StoredEvent
  unfolding run_projection finish
  insert c force projection e db = elim (find_existing e db.events) [
    | some row ↦ (
      ok (record { sequence = row.sequence; event_id = row.event.event_id; inserted = false }),
      db,
    )
    | none ↦
        let sequence = db.last_sequence + 1 in
        let inserted = record db {
          events = db.events ++ new_row c force e db.events sequence ∷ [];
          last_sequence = sequence;
        } in
        finish (record { sequence = sequence; event_id = e.event_id; inserted = true }) inserted
          (run_projection projection sequence inserted.tables)
  ]

  unfoldable pub append_validated :
      Codec P F D
      → Option Bool
      → Option (Projection T)
      → Result (Envelope P F)
      → Action (Db P F D T) StoredEvent
  append_validated c force projection (raised x) db = (raised x, db)
  append_validated c force projection (ok redacted) db =
      transaction (insert c force projection redacted) db

  unfoldable pub append_exact_event :
      Platform P F
      → Codec P F D
      → Envelope P F
      → Option (Projection T)
      → Option Bool
      → Action (Db P F D T) StoredEvent
  unfolding append_validated transaction
  append_exact_event p c e projection force db =
      append_validated c force projection (redacted p c e) db
