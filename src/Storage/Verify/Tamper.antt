-- ===== src/Storage/Verify/Tamper.antt =====
-- What the hash chain protects: where two databases both verify and end in the same hash, they hold
-- the same chained events.
use bollywood_hal.Prelude.{◌≡◌, refl, sym, ap, true, Option, none, some, List, [], ◌∷◌, arith}
use mathlib.Core.Path.{subst}
use bollywood_hal.Storage.Rows.{Canonical, Codec, Row, Db, canonical, latest, last_hash}
use bollywood_hal.Storage.Exact.{event_hash}
use bollywood_hal.Storage.Verify.{verify_control_chain}
use bollywood_hal.Storage.Verify.Chain.{Links, Chained, verify_control_chain_iff}

module _ {P F D : Type 0} (c : Codec P F D) where
  record_row : Option D → Row P F D → Option D → List (Canonical F D) → List (Canonical F D)
  record_row previous r none past = past
  record_row previous r (some h) past = canonical r.sequence previous r.event r.payload_json ∷ past

  -- what the hashes cover: the fields of each row that has a hash, the latest first
  unfoldable pub covered : Option D → List (Canonical F D) → List (Row P F D) → List (Canonical F D)
  unfolding record_row
  covered previous past [] = past
  covered previous past (r ∷ rs) =
      covered (latest r.event_hash previous) (record_row previous r r.event_hash past) rs

  -- the latest hash is that of the latest entry, and so on down
  Linked : List (Canonical F D) → Option D → Type 0
  Linked [] last = last ≡ none
  Linked (k ∷ ks) last = (last ≡ some (c.digest k)) × Linked ks k.previous_hash

  Linked-row :
      (previous : Option D) (r : Row P F D) (o : Option D) (past : List (Canonical F D))
      → Linked past previous
      → Links c previous r o
      → Linked (record_row previous r o past) (latest o previous)
  unfolding Linked record_row latest event_hash canonical
  Linked-row previous r none past h link = h
  Linked-row previous r (some x) past h link = (ap some (sym link.1), h)

  Linked-covered :
      (previous : Option D) (past : List (Canonical F D)) (rs : List (Row P F D))
      → Linked past previous
      → Chained c previous rs
      → Linked (covered previous past rs) (last_hash previous rs)
  unfolding covered last_hash
  Linked-covered previous past [] h chain = h
  Linked-covered previous past (r ∷ rs) h chain =
      Linked-covered (latest r.event_hash previous) (record_row previous r r.event_hash past) rs
        (Linked-row previous r r.event_hash past h chain.0) chain.1

  module _ (collision_free : (a b : Canonical F D) → c.digest a ≡ c.digest b → a ≡ b) where
    Linked-injective :
        (xs ys : List (Canonical F D)) (last : Option D) → Linked xs last → Linked ys last → xs ≡ ys
    unfolding Linked
    Linked-injective [] [] last h k = refl
    Linked-injective [] (y ∷ ys) last h k = absurd (ground arith)
    Linked-injective (x ∷ xs) [] last h k = absurd (ground arith)
    Linked-injective (x ∷ xs) (y ∷ ys) last h k =
        let same : x ≡ y = collision_free x y (ground (arith, h.0, k.0)) in
        cc (
          same,
          Linked-injective xs ys x.previous_hash h.1
              (subst (λ (z : Canonical F D). Linked ys z.previous_hash) (sym same) k.1),
        )

module _ {P F D T : Type 0} (c : Codec P F D) where
  -- If the digest has no collision, two databases that both pass the verification of the control
  -- chain and end in the same hash agree on all that the hashes cover: the number, the order and
  -- each hashed field of every chained event.
  pub control_chain-IsTamperEvident :
      ((a b : Canonical F D) → c.digest a ≡ c.digest b → a ≡ b)
      → (db db' : Db P F D T) → (verify_control_chain c db).valid ≡ true
      → (verify_control_chain c db').valid ≡ true
      → last_hash none db.events ≡ last_hash none db'.events
      → covered c none [] db.events ≡ covered c none [] db'.events
  unfolding Linked
  control_chain-IsTamperEvident collision_free db db' v v' same =
      Linked-injective c collision_free (covered c none [] db.events) (covered c none [] db'.events)
        (last_hash none db.events)
        (Linked-covered c none [] db.events refl ((verify_control_chain_iff c db).0.0 v))
        (subst (Linked c (covered c none [] db'.events)) (sym same)
          (Linked-covered c none [] db'.events refl ((verify_control_chain_iff c db').0.0 v')))
