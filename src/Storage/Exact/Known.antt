-- ===== src/Storage/Exact/Known.antt =====
-- Idempotency keys: what `append_exact_event` (src/hal9000/sentience/storage/database.py) does with an
-- event whose key is in the table already.
use bollywood_hal.Prelude.{
  ◌≡◌, refl, ap, ◌∙◌, String, Bool, true, false, ◌||◌, Option, some, List, [], ◌∷◌, inl, inr, arith,
  Bool-cases,
}
use bollywood_hal.Action.{Result, ok, raised, Result-cases, map-eq-ok, Action, bind, pure, continue}
use bollywood_hal.Storage.Envelope.{Platform, Envelope, validate, with_payload}
use bollywood_hal.Storage.Rows.{Codec, Row, Db, same_key, matches, find_existing}
use bollywood_hal.Storage.Exact.{
  Projection, redacted, insert, transaction, append_validated, append_exact_event,
}

-- a row of the table has the idempotency key
unfoldable pub has_key : {P F D : Type 0} → String → List (Row P F D) → Bool
unfolding same_key
has_key k [] = false
has_key k (r ∷ rs) = same_key (some k) r.event.idempotency_key || has_key k rs

find_existing_known :
    {P F D : Type 0} (k : String) (e : Envelope P F) (rs : List (Row P F D))
    → e.idempotency_key ≡ some k
    → has_key k rs ≡ true
    → (r : Row P F D) × (find_existing e rs ≡ some r)
unfolding find_existing has_key
find_existing_known k e [] h known = absurd (ground arith)
find_existing_known k e (r ∷ rs) h known = elim (Bool-cases (matches e r)) [
  | inl here ↦ (r, ground (arith, here))
  | inr elsewhere ↦
      let (x, found) = find_existing_known k e rs h (ground (arith, elsewhere, h)) in
      (x, ground (arith, elsewhere, found))
]

redacted-key :
    {P F D : Type 0} (p : Platform P F) (c : Codec P F D) (e r : Envelope P F)
    → redacted p c e ≡ ok r
    → r.idempotency_key ≡ e.idempotency_key
unfolding redacted with_payload
redacted-key {P} {F} p c e r h = elim (Result-cases (validate p e)) [
  | inr (x, invalid) ↦ absurd (ground arith)
  | inl (u, valid) ↦
      let returned : with_payload p e (c.redact e.payload) ≡ ok r = ground arith in
      let (v, ran, is_r) =
        map-eq-ok (validate p (record e { payload = c.redact e.payload }))
          (λ _. record e { payload = c.redact e.payload }) returned in
      ap (λ (z : Envelope P F). z.idempotency_key) is_r
]

module _ {P F D T : Type 0} (p : Platform P F) (c : Codec P F D) where
  known_unchanged :
      (f : Option Bool) (pr : Option (Projection T)) (r : Envelope P F) (row : Row P F D)
      (db : Db P F D T)
      → find_existing r db.events ≡ some row
      → (transaction (insert c f pr r) db).1 ≡ db
  unfolding transaction insert
  known_unchanged f pr r row db found = ground arith

  -- An event whose idempotency key is in the table changes nothing.
  pub append_exact_event_known :
      (f : Option Bool) (pr : Option (Projection T)) (e : Envelope P F) (k : String)
      (db : Db P F D T)
      → e.idempotency_key ≡ some k
      → has_key k db.events ≡ true
      → (append_exact_event p c e pr f db).1 ≡ db
  unfolding append_exact_event
  append_exact_event_known f pr e k db h known = elim (Result-cases (redacted p c e)) [
    | inr (x, invalid) ↦ rw (invalid, append_validated) refl
    | inl (r, valid) ↦
        let (row, found) =
          find_existing_known k r db.events (redacted-key p c e r valid ∙ h) known in
        rw (valid, append_validated) (known_unchanged f pr r row db found)
  ]

module _ {S A B : Type 0} where
  after_continue : (r : Result A) (b : B) (s : S) → s ≡ (continue r (λ _. pure b) s).1
  after_continue (ok a) b s = refl
  after_continue (raised x) b s = refl

  -- a return after a call leaves what the call left
  pub bind-pure : (m : Action S A) (b : B) (s : S) → (m s).1 ≡ (bind m (λ _. pure b) s).1
  bind-pure m b s = after_continue (m s).0 b (m s).1

  pub bind-pure_inv :
      (m : Action S A) (b : B) (s : S) {b' : B} {s' : S}
      → bind m (λ _. pure b) s ≡ (ok b', s')
      → (b ≡ b') × ((m s).1 ≡ s')
  bind-pure_inv m b s h = elim (Result-cases (m s).0) [
    | inl (a, e) ↦ ground (arith, e)
    | inr (x, e) ↦ absurd (ground (arith, e))
  ]
