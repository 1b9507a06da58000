-- ===== src/Storage/Verify/Continuity.antt =====
-- The sequence numbers have no gap.
use bollywood_hal.Prelude.{
  ℕ, ◌+◌, ◌-◌, ◌≤◌, ◌≡◌, refl, true, List, [], ◌∷◌, ◌++◌, ltb, arith, inl, inr, Bool-cases, ◌∙◌, ap,
}
use bollywood_hal.Storage.Rows.{Row, Db}
use bollywood_hal.Storage.Verify.{verify_sequence_from, rows_after, verify_sequence_continuity}

-- The rows carry the numbers `n + 1` to `last`, in order.
abbrev pub Numbered : {P F D : Type 0} → ℕ → List (Row P F D) → ℕ → Type 0
Numbered n [] last = n ≡ last
Numbered n (r ∷ rs) last = (r.sequence ≡ n + 1) × Numbered (n + 1) rs last

module _ {P F D : Type 0} where
  pub Numbered-append :
      (n : ℕ) (rs : List (Row P F D)) (r : Row P F D) (last : ℕ)
      → Numbered n rs last
      → r.sequence ≡ last + 1
      → Numbered n (rs ++ r ∷ []) (last + 1)
  Numbered-append n [] r last h q = (q ∙ ap (λ k. k + 1) (omega arith), omega arith)
  Numbered-append n (x ∷ rs) r last h q = (h.0, Numbered-append (n + 1) rs r last h.1 q)

  Numbered-le : (n : ℕ) (rs : List (Row P F D)) (last : ℕ) → Numbered n rs last → n ≤ last
  Numbered-le n [] last h = omega arith
  Numbered-le n (r ∷ rs) last h = omega (arith, Numbered-le (n + 1) rs last h.1)

  verify-Numbered :
      (n k : ℕ) (rs : List (Row P F D)) (last : ℕ)
      → Numbered n rs last
      → verify_sequence_from (n + 1) k rs ≡ record { valid = true; checked = k + (last - n) }
  unfolding verify_sequence_from
  verify-Numbered n k [] last h = ground arith
  verify-Numbered n k (r ∷ rs) last h =
      ground (arith, verify-Numbered (n + 1) (k + 1) rs last h.1, Numbered-le (n + 1) rs last h.1)

  rows_after_all :
      (n after : ℕ) (rs : List (Row P F D)) (last : ℕ)
      → after ≤ n
      → Numbered n rs last
      → rows_after after rs ≡ rs
  unfolding rows_after
  rows_after_all n after [] last le h = refl
  rows_after_all n after (r ∷ rs) last le h =
      ground (arith, rows_after_all (n + 1) after rs last (omega arith) h.1)

  verify-rows_after :
      (n after : ℕ) (rs : List (Row P F D)) (last : ℕ)
      → n ≤ after
      → Numbered n rs last
      → verify_sequence_from (after + 1) 0 (rows_after after rs)
        ≡ record { valid = true; checked = last - after }
  unfolding rows_after verify_sequence_from
  verify-rows_after n after [] last le h = ground arith
  verify-rows_after n after (r ∷ rs) last le h = elim (Bool-cases (ltb after r.sequence)) [
    | inl past ↦
        let e : after ≡ n = ground arith in
        ground (
          arith,
          rows_after_all (n + 1) after rs last (omega arith) h.1,
          verify-Numbered (n + 1) 1 rs last h.1,
          Numbered-le (n + 1) rs last h.1,
        )
    | inr before ↦ rw before (verify-rows_after (n + 1) after rs last (ground arith) h.1)
  ]

module _ {P F D T : Type 0} where
  -- no gap, from the first event to the AUTOINCREMENT counter
  abbrev pub IsContiguous : Db P F D T → Type 0
  IsContiguous db = Numbered 0 db.events db.last_sequence

  pub verify-IsContiguous :
      (after : ℕ) (db : Db P F D T)
      → IsContiguous db
      → verify_sequence_continuity after db
        ≡ record { valid = true; checked = db.last_sequence - after }
  unfolding verify_sequence_continuity
  verify-IsContiguous after db h =
      verify-rows_after 0 after db.events db.last_sequence (omega arith) h
