-- ===== src/Sentience/Outbox/Emitted.antt =====
-- A phrase that was emitted stays emitted (src/hal9000/sentience/degradation/outbox.py).
use bollywood_hal.Prelude.{
  ℕ, ◌+◌, ◌≡◌, refl, ap, ◌∙◌, String, Bool, true, false, ◌&&◌, ◌=s◌, Option, none, some, List, [],
  ◌∷◌, inl, inr, arith, Bool-cases,
}
use mathlib.Core.Path.{subst}
use bollywood_hal.Action.{Result, ok, raised, ok-injective}
use bollywood_hal.Storage.Models.{StoredEvent}
use bollywood_hal.Storage.Table.{update_where}
use bollywood_hal.Sentience.Tables.{OutboxRow, Tables}
use bollywood_hal.Sentience.Runtime.{Self, Now, utc_ms}
use bollywood_hal.Sentience.Degradation.Projections.{set_episode}
use bollywood_hal.Sentience.Degradation.Change.Transactions.{append_rule}
use bollywood_hal.Sentience.Outbox.{
  Dispatcher, is_none, set_claimed, set_released, set_emitted, claim, claim_row, next_waiting,
  release_claim, project_emitted, mark_emitted, give_back, settle, delivered, dispatch_claimed,
  dispatch_one, deliver,
}

-- The same phrase; if it was emitted, the row is as it was.
pub record Lasting (x y : OutboxRow) : Type 0 where
  pub same_id : y.outbox_id ≡ x.outbox_id
  pub once_emitted : is_none x.emitted_at ≡ false → y ≡ x

-- No row is dropped, none is added, and the emitted ones do not change.
pub Keeps : List OutboxRow → List OutboxRow → Type 0
Keeps [] [] = Unit
Keeps [] (y ∷ ys) = ⊥
Keeps (x ∷ xs) [] = ⊥
Keeps (x ∷ xs) (y ∷ ys) = Lasting x y × Keeps xs ys

Lasting-refl : (x : OutboxRow) → Lasting x x
Lasting-refl x = record { same_id = refl; once_emitted = λ _. refl }

Keeps-refl : (xs : List OutboxRow) → Keeps xs xs
unfolding Keeps
Keeps-refl [] = tt
Keeps-refl (x ∷ xs) = (Lasting-refl x, Keeps-refl xs)

Lasting-trans : (x y z : OutboxRow) → Lasting x y → Lasting y z → Lasting x z
Lasting-trans x y z h k = record {
  same_id = k.same_id ∙ h.same_id;
  once_emitted = λ emitted.
      let first = h.once_emitted emitted in
      k.once_emitted (ap (λ (r : OutboxRow). is_none r.emitted_at) first ∙ emitted) ∙ first;
}

Keeps-trans : (xs ys zs : List OutboxRow) → Keeps xs ys → Keeps ys zs → Keeps xs zs
unfolding Keeps
Keeps-trans [] [] [] h k = tt
Keeps-trans [] [] (z ∷ zs) h k = absurd k
Keeps-trans [] (y ∷ ys) zs h k = absurd h
Keeps-trans (x ∷ xs) [] zs h k = absurd h
Keeps-trans (x ∷ xs) (y ∷ ys) [] h k = absurd k
Keeps-trans (x ∷ xs) (y ∷ ys) (z ∷ zs) h k =
    (Lasting-trans x y z h.0 k.0, Keeps-trans xs ys zs h.1 k.1)

Keeps-update :
    (test : OutboxRow → Bool) (change : OutboxRow → OutboxRow) (xs : List OutboxRow)
    → ((x : OutboxRow) → (change x).outbox_id ≡ x.outbox_id)
    → ((x : OutboxRow) → test x ≡ true → is_none x.emitted_at ≡ true)
    → Keeps xs (update_where test change xs)
unfolding Keeps update_where
Keeps-update test change [] same open_only = tt
Keeps-update test change (x ∷ xs) same open_only = elim (Bool-cases (test x)) [
  | inl hit ↦ rw hit (
    record { same_id = same x; once_emitted = λ emitted. absurd (ground (arith, open_only x hit)) },
    Keeps-update test change xs same open_only,
  )
  | inr miss ↦ rw miss (Lasting-refl x, Keeps-update test change xs same open_only)
]

module _ {F : Type 0} where
  claim_row-Keeps :
      (o : Option OutboxRow) (owner : String) (stamp : ℕ) (t : Tables F)
      → Keeps t.outbox (claim_row o owner stamp t).1.outbox
  unfolding claim_row set_claimed
  claim_row-Keeps none owner stamp t = Keeps-refl t.outbox
  claim_row-Keeps (some row) owner stamp t =
      Keeps-update _ (set_claimed stamp owner) t.outbox (λ x. refl) (λ x hit. ground arith)

  release_claim-Keeps :
      (outbox_id error : String) (t : Tables F)
      → Keeps t.outbox (release_claim outbox_id error t).outbox
  unfolding release_claim set_released
  release_claim-Keeps outbox_id error t =
      Keeps-update _ (set_released error) t.outbox (λ x. refl) (λ x hit. ground arith)

  project_emitted-Keeps :
      (row : OutboxRow) (channel : String) (stamp n : ℕ) (t u : Tables F)
      → project_emitted row channel stamp n t ≡ ok u
      → Keeps t.outbox u.outbox
  unfolding project_emitted set_emitted set_episode
  project_emitted-Keeps row channel stamp n t u h =
      subst (λ (v : Tables F). Keeps t.outbox v.outbox) (ok-injective h)
        (Keeps-update (λ (r : OutboxRow). r.outbox_id =s row.outbox_id && is_none r.emitted_at)
          (set_emitted stamp channel) t.outbox (λ x. refl) (λ x hit. ground arith))

module _ {F D : Type 0} (d : Dispatcher F D) where
  mark_emitted-Keeps :
      (row : OutboxRow) (channel : String) (now : Now) (event_id : String) (db : Self F D)
      → Keeps db.tables.outbox (mark_emitted d row channel now event_id db).1.tables.outbox
  unfolding mark_emitted
  mark_emitted-Keeps row channel now event_id db =
      append_rule (λ (t : Tables F). Keeps db.tables.outbox t.outbox) d.runtime _ now _ db
        (λ t made.
          project_emitted-Keeps row channel (utc_ms now) (db.last_sequence + 1) db.tables t made)
        (Keeps-refl db.tables.outbox)

  settle-Keeps :
      (row : OutboxRow) (channel : String) (r : Result StoredEvent) (db : Self F D)
      → Keeps db.tables.outbox (settle d row channel r db).1.tables.outbox
  unfolding settle give_back
  settle-Keeps row channel (ok _) db = Keeps-refl db.tables.outbox
  settle-Keeps row channel (raised e) db = release_claim-Keeps row.outbox_id (d.cut e) db.tables

  delivered-Keeps :
      (row : OutboxRow) (r : Result String) (now : Now) (event_id : String) (db : Self F D)
      → Keeps db.tables.outbox (delivered d row r now event_id db).1.tables.outbox
  unfolding delivered give_back
  delivered-Keeps row (raised e) now event_id db =
      release_claim-Keeps row.outbox_id (d.cut e) db.tables
  delivered-Keeps row (ok channel) now event_id db =
      let (r, after) = mark_emitted d row channel now event_id db in
      Keeps-trans db.tables.outbox after.tables.outbox _
        (mark_emitted-Keeps row channel now event_id db) (settle-Keeps row channel r after)

  dispatch_claimed-Keeps :
      (o : Option OutboxRow) (tts : Bool) (speak display : String → Result (Unit {0})) (now : Now)
      (event_id : String) (db : Self F D)
      → Keeps db.tables.outbox
          (dispatch_claimed d o tts speak display now event_id db).1.tables.outbox
  unfolding dispatch_claimed
  dispatch_claimed-Keeps none tts speak display now event_id db = Keeps-refl db.tables.outbox
  dispatch_claimed-Keeps (some row) tts speak display now event_id db =
      delivered-Keeps row (deliver tts speak display row.phrase) now event_id db

  -- Whatever `speak` and `display` do, and whether `dispatch_one` returns or raises, no row of the
  -- outbox is dropped or added, and a row whose phrase was emitted does not change: it is not
  -- claimed, released or emitted again.
  pub dispatch_one-Keeps :
      (tts : Bool) (speak display : String → Result (Unit {0})) (claimed_now now : Now)
      (event_id : String) (db : Self F D)
      → Keeps db.tables.outbox
          (dispatch_one d tts speak display claimed_now now event_id db).1.tables.outbox
  unfolding dispatch_one claim
  dispatch_one-Keeps tts speak display claimed_now now event_id db =
      let o = next_waiting db.tables.outbox in
      let (row, tables) = claim_row o d.owner (utc_ms claimed_now) db.tables in
      Keeps-trans db.tables.outbox tables.outbox _
        (claim_row-Keeps o d.owner (utc_ms claimed_now) db.tables)
        (dispatch_claimed-Keeps row tts speak display now event_id (record db { tables = tables }))
