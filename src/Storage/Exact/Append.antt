-- ===== src/Storage/Exact/Append.antt =====
-- What `append_exact_event` promises: a repeated event changes nothing, a raise changes nothing, and
-- an invariant of the tables that the projection keeps is kept.
use bollywood_hal.Prelude.{
  ◌+◌, ◌≡◌, refl, Bool, true, false, Option, none, some, List, [], ◌∷◌, ◌++◌, inl, inr, arith,
  Bool-cases, Option-cases, =s_refl,
}
use mathlib.Core.Path.{subst}
use bollywood_hal.Action.{ok, raised, Exception, Action, Result-cases}
use bollywood_hal.Storage.Models.{StoredEvent}
use bollywood_hal.Storage.Envelope.{Platform, Envelope}
use bollywood_hal.Storage.Rows.{Codec, Row, Db, matches, find_existing}
use bollywood_hal.Storage.Exact.{
  Projection, transaction, run_projection, new_row, insert, redacted, append_validated,
  append_exact_event,
}

module _ {P F D : Type 0} where
  find_existing-append :
      (e : Envelope P F) (rs : List (Row P F D)) (r : Row P F D)
      → find_existing e rs ≡ none
      → r.event ≡ e
      → find_existing e (rs ++ r ∷ []) ≡ some r
  unfolding find_existing
  find_existing-append e [] r h q = rw q (rw (=s_refl e.event_id))
  find_existing-append e (x ∷ rs) r h q = elim (Bool-cases (matches e x)) [
    | inl m ↦ absurd (ground arith)
    | inr m ↦ rw m (find_existing-append e rs r (ground arith) q)
  ]

module _ {P F D T : Type 0} (c : Codec P F D) where
  -- the database after the INSERT, before the projection
  inserted : Option Bool → Envelope P F → Db P F D T → Db P F D T
  inserted force e db = record db {
    events = db.events ++ new_row c force e db.events (db.last_sequence + 1) ∷ [];
    last_sequence = db.last_sequence + 1;
  }

  pub data Inserted (f : Option Bool) (pr : Option (Projection T)) (e : Envelope P F)
      (db : Db P F D T) (st : StoredEvent) (db' : Db P F D T) : Type 0 where
    old :
        (r : Row P F D)
        → find_existing e db.events ≡ some r
        → st ≡ record { sequence = r.sequence; event_id = r.event.event_id; inserted = false }
        → db' ≡ db
        → Inserted f pr e db st db'
    fresh :
        (t : T)
        → find_existing e db.events ≡ none
        → run_projection pr (db.last_sequence + 1) db.tables ≡ ok t
        → st ≡ record { sequence = db.last_sequence + 1; event_id = e.event_id; inserted = true }
        → db' ≡ record {
          events = db.events ++ new_row c f e db.events (db.last_sequence + 1) ∷ [];
          last_sequence = db.last_sequence + 1;
          tables = t;
        }
        → Inserted f pr e db st db'

  -- the two ways in which an insertion returns
  pub insert_inv :
      (f : Option Bool) (pr : Option (Projection T)) (e : Envelope P F) (db db' : Db P F D T)
      (st : StoredEvent)
      → insert c f pr e db ≡ (ok st, db')
      → Inserted f pr e db st db'
  unfolding insert
  insert_inv f pr e db db' st h = elim (Option-cases (find_existing e db.events)) [
    | inl none_yet ↦ elim (Result-cases (run_projection pr (db.last_sequence + 1) db.tables)) [
      | inl (t, ran) ↦ fresh t none_yet ran (ground arith) (ground arith)
      | inr (x, failed) ↦ absurd (ground arith)
    ]
    | inr (r, found) ↦ old r found (ground arith) (ground arith)
  ]

  insert_again :
      (f g : Option Bool) (pr qr : Option (Projection T)) (e : Envelope P F) (db db' : Db P F D T)
      (st : StoredEvent)
      → insert c f pr e db ≡ (ok st, db')
      → insert c g qr e db' ≡ (ok (record st { inserted = false }), db')
  unfolding insert new_row
  insert_again f g pr qr e db db' st h = elim (insert_inv f pr e db db' st h) [
    | old r found is_st is_db ↦ ground arith
    | fresh t none_yet ran is_st is_db ↦ ground (
      arith,
      find_existing-append e db.events (new_row c f e db.events (db.last_sequence + 1)) none_yet
          refl,
    )
  ]

module _ {S A : Type 0} where
  pub transaction_of_ok :
      (m : Action S A) (s : S) {a : A} {s' : S} → m s ≡ (ok a, s') → transaction m s ≡ (ok a, s')
  unfolding transaction
  transaction_of_ok m s h = ground arith

  pub ok_of_transaction :
      (m : Action S A) (s : S) {a : A} {s' : S} → transaction m s ≡ (ok a, s') → m s ≡ (ok a, s')
  unfolding transaction
  ok_of_transaction m s h = ground arith

  pub transaction_atomic :
      (m : Action S A) (s : S) (x : Exception)
      → (transaction m s).0 ≡ raised x
      → (transaction m s).1 ≡ s
  unfolding transaction
  transaction_atomic m s x h = ground arith

module _ {P F D T : Type 0} (c : Codec P F D) where
  -- what the database is after a fresh event
  abbrev pub stored : Option Bool → Envelope P F → Db P F D T → T → Db P F D T
  stored f r db t = record {
    events = db.events ++ new_row c f r db.events (db.last_sequence + 1) ∷ [];
    last_sequence = db.last_sequence + 1;
    tables = t;
  }

  transaction_rule :
      (I : Db P F D T → Type 0) (f : Option Bool) (pr : Option (Projection T)) (r : Envelope P F)
      (db : Db P F D T)
      → ((t : T)
          → find_existing r db.events ≡ none
          → run_projection pr (db.last_sequence + 1) db.tables ≡ ok t
          → I (stored f r db t))
      → I db
      → I (transaction (insert c f pr r) db).1
  unfolding transaction insert
  transaction_rule I f pr r db step h = elim (Option-cases (find_existing r db.events)) [
    | inr (row, found) ↦ subst I (ground (arith, found)) h
    | inl unknown ↦ elim (Result-cases (run_projection pr (db.last_sequence + 1) db.tables)) [
      | inl (t, ran) ↦ subst I (ground (arith, unknown, ran)) (step t unknown ran)
      | inr (x, failed) ↦ subst I (ground (arith, unknown, failed)) h
    ]
  ]

module _ {P F D T : Type 0} (p : Platform P F) (c : Codec P F D) where
  -- An event that was stored is stored once: appending it again, with any projection and any choice
  -- of chaining, changes nothing and answers with the same row, as not inserted.
  pub append_exact_event_once :
      (f g : Option Bool) (pr qr : Option (Projection T)) (e : Envelope P F) (db db' : Db P F D T)
      (st : StoredEvent)
      → append_exact_event p c e pr f db ≡ (ok st, db')
      → append_exact_event p c e qr g db' ≡ (ok (record st { inserted = false }), db')
  unfolding append_exact_event
  append_exact_event_once f g pr qr e db db' st h = elim (Result-cases (redacted p c e)) [
    | inl (r, valid) ↦
        rw (valid, append_validated)
          (transaction_of_ok (insert c g qr r) db' (
            insert_again c f g pr qr r db db' st
              (ok_of_transaction (insert c f pr r) db (ground (arith, valid)))))
    | inr (x, invalid) ↦ absurd (ground arith)
  ]

  -- Where the append raises, by the validation or by the projection, the database is as before.
  pub append_exact_event_atomic :
      (f : Option Bool) (pr : Option (Projection T)) (e : Envelope P F) (db : Db P F D T)
      (x : Exception)
      → (append_exact_event p c e pr f db).0 ≡ raised x
      → (append_exact_event p c e pr f db).1 ≡ db
  unfolding append_exact_event
  append_exact_event_atomic f pr e db x h = elim (Result-cases (redacted p c e)) [
    | inl (r, valid) ↦
        rw (valid, append_validated)
          (transaction_atomic (insert c f pr r) db x (ground (arith, valid)))
    | inr (y, invalid) ↦ rw (invalid, append_validated)
  ]

  -- The rule for invariants: either nothing changes, or a fresh event is stored and the projection
  -- has run on the tables.
  pub append_exact_event_rule :
      (I : Db P F D T → Type 0) (f : Option Bool) (pr : Option (Projection T)) (e : Envelope P F)
      (db : Db P F D T)
      → ((r : Envelope P F) (t : T)
          → find_existing r db.events ≡ none
          → run_projection pr (db.last_sequence + 1) db.tables ≡ ok t
          → I (stored c f r db t))
      → I db
      → I (append_exact_event p c e pr f db).1
  unfolding append_exact_event
  append_exact_event_rule I f pr e db step h = elim (Result-cases (redacted p c e)) [
    | inr (y, invalid) ↦ rw (invalid, append_validated) h
    | inl (r, valid) ↦ rw (valid, append_validated) (transaction_rule c I f pr r db (step r) h)
  ]
