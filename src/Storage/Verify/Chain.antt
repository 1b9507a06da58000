-- ===== src/Storage/Verify/Chain.antt =====
-- The hash chain: `verify_control_chain` accepts exactly the chained rows.
use bollywood_hal.Prelude.{
  ℕ, ◌+◌, ◌≡◌, ◌↔◌, refl, sym, ap, ◌∙◌, Bool, true, Option, none, some, List, [], ◌∷◌, ◌++◌, arith,
  inl, inr, Bool-cases, Option-cases,
}
use bollywood_hal.Storage.Models.{IntegrityResult}
use bollywood_hal.Storage.Envelope.{Envelope}
use bollywood_hal.Storage.Rows.{Codec, Row, Db, latest, last_hash, should_chain}
use bollywood_hal.Storage.Exact.{event_hash, new_row}
use bollywood_hal.Storage.Verify.{same_hash, verify_from, verify_control_chain}
use mathlib.Core.Path.{subst}

module _ {P F D : Type 0} (c : Codec P F D) where
  -- a row that has a hash names its predecessor's, and has the hash of its own content
  abbrev pub Links : Option D → Row P F D → Option D → Type 0
  Links previous r none = Unit
  Links previous r (some h) =
      (r.previous_hash ≡ previous) × (event_hash c r.sequence previous r.event r.payload_json ≡ h)

  abbrev pub Chained : Option D → List (Row P F D) → Type 0
  Chained previous [] = Unit
  Chained previous (r ∷ rs) =
      Links previous r r.event_hash × Chained (latest r.event_hash previous) rs

  same_hash_iff : (a b : Option D) → (same_hash c a b ≡ true) ↔ (a ≡ b)
  unfolding same_hash
  same_hash_iff none none = ground arith
  same_hash_iff none (some b) = ground arith
  same_hash_iff (some a) none = ground arith
  same_hash_iff (some a) (some b) = ground (arith, c.same_iff a b)

  latest-some : (o previous : Option D) (x : D) → o ≡ some x → latest o previous ≡ o
  unfolding latest
  latest-some none previous x h = cc
  latest-some (some y) previous x h = refl

  -- how many rows have a hash
  abbrev pub hashed_rows : List (Row P F D) → ℕ
  hashed_rows [] = 0
  hashed_rows (r ∷ rs) = elim r.event_hash [ none ↦ hashed_rows rs | some h ↦ hashed_rows rs + 1 ]

  verify_from-Chained :
      (previous : Option D) (n : ℕ) (rs : List (Row P F D))
      → Chained previous rs
      → verify_from c previous n rs ≡ record { valid = true; checked = n + hashed_rows rs }
  unfolding verify_from latest
  verify_from-Chained previous n [] h = ground arith
  verify_from-Chained previous n (r ∷ rs) h = elim (Option-cases r.event_hash) [
    | inl none_yet ↦
        let rest = subst (λ o. Chained (latest o previous) rs) none_yet h.1 in
        ground (arith, verify_from-Chained previous n rs rest)
    | inr (x, hash) ↦
        let link = subst (λ o. Links previous r o) hash h.0 in
        ground (
          arith,
          verify_from-Chained r.event_hash (n + 1) rs
              (subst (λ o. Chained o rs) (latest-some r.event_hash previous x hash) h.1),
          (same_hash_iff r.previous_hash previous).1 link.0,
          (c.same_iff (event_hash c r.sequence previous r.event r.payload_json) x).1 link.1,
        )
  ]

  Chained-of_valid :
      (previous : Option D) (n : ℕ) (rs : List (Row P F D))
      → (verify_from c previous n rs).valid ≡ true
      → Chained previous rs
  unfolding verify_from latest
  Chained-of_valid previous n [] h = tt
  Chained-of_valid previous n (r ∷ rs) h = elim (Option-cases r.event_hash) [
    | inl none_yet ↦ (
      subst (λ o. Links previous r o) (sym none_yet) tt,
      subst (λ o. Chained (latest o previous) rs) (sym none_yet)
          (Chained-of_valid previous n rs (ground arith)),
    )
    | inr (x, hash) ↦
        let before = same_hash_iff r.previous_hash previous in
        let content = c.same_iff (event_hash c r.sequence previous r.event r.payload_json) x in
        (
          subst (λ o. Links previous r o) (sym hash)
              (before.0 (ground arith), content.0 (ground arith)),
          subst (λ o. Chained o rs) (sym (latest-some r.event_hash previous x hash))
              (Chained-of_valid r.event_hash (n + 1) rs (ground arith)),
        )
  ]

  Chained-append :
      (previous : Option D) (rs : List (Row P F D)) (r : Row P F D)
      → Chained previous rs
      → Links (last_hash previous rs) r r.event_hash
      → Chained previous (rs ++ r ∷ [])
  unfolding last_hash
  Chained-append previous [] r h link = (link, tt)
  Chained-append previous (x ∷ rs) r h link =
      (h.0, Chained-append (latest x.event_hash previous) rs r h.1 link)

  Links-new_row :
      (force : Option Bool) (e : Envelope P F) (rs : List (Row P F D)) (sequence : ℕ)
      → Links
          (last_hash none rs)
          (new_row c force e rs sequence)
          (new_row c force e rs sequence).event_hash
  unfolding new_row
  Links-new_row force e rs sequence = elim (Bool-cases (should_chain force e)) [
    | inl chained ↦ rw chained (refl, refl)
    | inr plain ↦ rw plain tt
  ]

  pub Chained-new_row :
      (force : Option Bool) (e : Envelope P F) (rs : List (Row P F D)) (sequence : ℕ)
      → Chained none rs
      → Chained none (rs ++ new_row c force e rs sequence ∷ [])
  Chained-new_row force e rs sequence h =
      Chained-append none rs (new_row c force e rs sequence) h (Links-new_row force e rs sequence)

module _ {P F D T : Type 0} (c : Codec P F D) where
  abbrev pub IsChained : Db P F D T → Type 0
  IsChained db = Chained c none db.events

  -- The verification of the control chain accepts a database exactly if each row that has a hash
  -- names the hash before it and has the hash of its own content; it then counts these rows.
  pub verify_control_chain_iff :
      (db : Db P F D T)
      → (((verify_control_chain c db).valid ≡ true) ↔ IsChained db)
        × (IsChained db → (verify_control_chain c db).checked ≡ hashed_rows c db.events)
  unfolding verify_control_chain
  verify_control_chain_iff db = (
    (
      λ v. Chained-of_valid c none 0 db.events v,
      λ h. ap (λ (r : IntegrityResult). r.valid) (verify_from-Chained c none 0 db.events h),
    ),
    λ h.
        ap (λ (r : IntegrityResult). r.checked) (verify_from-Chained c none 0 db.events h)
        ∙ omega arith,
  )
