-- ===== src/Storage/History.antt =====
-- Histories of the store: any calls of `append_exact_event`
-- (src/hal9000/sentience/storage/database.py) on an empty database, those that raise included.
use bollywood_hal.Prelude.{
  ℕ, ◌+◌, ◌-◌, ◌≡◌, refl, Bool, true, false, Option, none, List, [], ◌∷◌, ◌++◌, All, arith,
}
use bollywood_hal.Storage.Envelope.{Platform, Envelope}
use bollywood_hal.Storage.Rows.{Codec, Row, Db, empty, matches, find_existing}
use bollywood_hal.Storage.Exact.{Projection, new_row, append_exact_event}
use bollywood_hal.Storage.Exact.Append.{stored, append_exact_event_rule}
use bollywood_hal.Storage.Verify.{verify_control_chain, verify_sequence_continuity}
use bollywood_hal.Storage.Verify.Continuity.{Numbered-append, IsContiguous, verify-IsContiguous}
use bollywood_hal.Storage.Verify.Chain.{Chained-new_row, IsChained, verify_control_chain_iff}

module _ {P F D : Type 0} where
  -- No later row has the event id, or the idempotency key, of an earlier one.
  abbrev pub Distinct : List (Row P F D) → Type 0
  Distinct [] = Unit
  Distinct (r ∷ rs) = All (λ (x : Row P F D). matches x.event r ≡ false) rs × Distinct rs

  Distinct-append :
      (rs : List (Row P F D)) (r : Row P F D)
      → find_existing r.event rs ≡ none
      → Distinct rs
      → Distinct (rs ++ r ∷ [])
  unfolding find_existing
  Distinct-append [] r h d = (tt, tt)
  Distinct-append (x ∷ rs) r h d = (last_of rs d.0, Distinct-append rs r (ground arith) d.1)
    where
      last_of :
          (ys : List (Row P F D))
          → All (λ (y : Row P F D). matches y.event x ≡ false) ys
          → All (λ (y : Row P F D). matches y.event x ≡ false) (ys ++ r ∷ [])
      last_of [] a = (ground arith, tt)
      last_of (y ∷ ys) a = (a.0, last_of ys a.1)

module _ {P F D T : Type 0} (c : Codec P F D) where
  -- What the schema and the two verifications demand of the table of events.
  pub record Healthy (db : Db P F D T) : Type 0 where
    pub contiguous : IsContiguous db
    pub chained : IsChained c db
    pub distinct : Distinct db.events

  pub stored-Healthy :
      (f : Option Bool) (r : Envelope P F) (db : Db P F D T) (t : T)
      → find_existing r db.events ≡ none
      → Healthy db
      → Healthy (stored c f r db t)
  unfolding new_row
  stored-Healthy f r db t unknown h =
      let row = new_row c f r db.events (db.last_sequence + 1) in
      record {
        contiguous = Numbered-append 0 db.events row db.last_sequence h.contiguous refl;
        chained = Chained-new_row c f r db.events (db.last_sequence + 1) h.chained;
        distinct = Distinct-append db.events row unknown h.distinct;
      }

module _ {P F D T : Type 0} (p : Platform P F) (c : Codec P F D) where
  -- Every append keeps the store healthy, on every path.
  pub append_exact_event-Healthy :
      (f : Option Bool) (pr : Option (Projection T)) (e : Envelope P F) (db : Db P F D T)
      → Healthy c db
      → Healthy c (append_exact_event p c e pr f db).1
  append_exact_event-Healthy f pr e db h =
      append_exact_event_rule p c (Healthy c) f pr e db
        (λ r t unknown ran. stored-Healthy c f r db t unknown h) h

pub record Append (P F T : Type 0) : Type 0 where
  pub event : Envelope P F
  pub projection : Option (Projection T)
  pub force_hash_chain : Option Bool

module _ {P F D T : Type 0} (p : Platform P F) (c : Codec P F D) where
  unfoldable pub replay : List (Append P F T) → Db P F D T → Db P F D T
  replay [] db = db
  replay (a ∷ calls) db =
      replay calls (append_exact_event p c a.event a.projection a.force_hash_chain db).1

  pub replay-Healthy :
      (calls : List (Append P F T)) (db : Db P F D T) → Healthy c db → Healthy c (replay calls db)
  unfolding replay
  replay-Healthy [] db h = h
  replay-Healthy (a ∷ calls) db h =
      replay-Healthy calls (append_exact_event p c a.event a.projection a.force_hash_chain db).1
        (append_exact_event-Healthy p c a.force_hash_chain a.projection a.event db h)

  -- After any history of appends on an empty database, the control chain verifies, the verification
  -- of the sequence after any number finds no gap and counts all later events, and no event id or
  -- idempotency key stands in two rows.
  pub replay-verifies :
      (calls : List (Append P F T)) (t : T) (after : ℕ)
      → let db = replay calls (empty t) in
        ((verify_control_chain c db).valid ≡ true)
        × (verify_sequence_continuity after db
            ≡ record { valid = true; checked = db.last_sequence - after })
        × Distinct db.events
  unfolding empty
  replay-verifies calls t after =
      let db = replay calls (empty t) in
      let h =
        replay-Healthy calls (empty t)
          (record { contiguous = refl; chained = tt; distinct = tt }) in
      (
        (verify_control_chain_iff c db).0.1 h.chained,
        verify-IsContiguous after db h.contiguous,
        h.distinct,
      )
