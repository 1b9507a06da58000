-- ===== src/Storage/Table/Reads.antt =====
-- What a SELECT of one row answers after a write.
use bollywood_hal.Prelude.{
  ◌<◌, ◌≡◌, refl, Bool, true, false, some, List, [], ◌∷◌, ◌++◌, arith, inl, inr, Bool-cases, ltb,
}
use bollywood_hal.Storage.Table.{select_one, upsert, update_where, delete_where, row_count}

module _ {A : Type 0} where
  -- what is written under a key is read under the key
  select_one-update :
      (test : A → Bool) (row : A) (xs : List A)
      → test row ≡ true
      → 0 < row_count test xs
      → select_one test (update_where test (λ _. row) xs) ≡ some row
  unfolding select_one update_where row_count
  select_one-update test row [] h some_row = absurd (omega arith)
  select_one-update test row (x ∷ xs) h some_row = ground (arith, select_one-update test row xs h)

  select_one-append :
      (test : A → Bool) (row : A) (xs : List A)
      → test row ≡ true
      → row_count test xs ≡ 0
      → select_one test (xs ++ row ∷ []) ≡ some row
  unfolding select_one row_count
  select_one-append test row [] h no_row = rw h refl
  select_one-append test row (x ∷ xs) h no_row = ground (arith, select_one-append test row xs h)

  pub select_one-upsert :
      (test : A → Bool) (row : A) (xs : List A)
      → test row ≡ true
      → select_one test (upsert test (λ _. row) row xs) ≡ some row
  unfolding upsert
  select_one-upsert test row xs h = elim (Bool-cases (ltb 0 (row_count test xs))) [
    | inl present ↦ rw present (select_one-update test row xs h (ground (arith, present)))
    | inr absent ↦ rw absent (select_one-append test row xs h (ground (arith, absent)))
  ]

  select_one-update_other :
      (test other : A → Bool) (row : A) (xs : List A)
      → other row ≡ false
      → ((x : A) → test x ≡ true → other x ≡ false)
      → select_one other (update_where test (λ _. row) xs) ≡ select_one other xs
  unfolding select_one update_where
  select_one-update_other test other row [] h apart = refl
  select_one-update_other test other row (x ∷ xs) h apart =
      ground (arith, apart x, select_one-update_other test other row xs h apart)

  select_one-append_other :
      (other : A → Bool) (row : A) (xs : List A)
      → other row ≡ false
      → select_one other (xs ++ row ∷ []) ≡ select_one other xs
  unfolding select_one
  select_one-append_other other row [] h = rw h refl
  select_one-append_other other row (x ∷ xs) h =
      ground (arith, select_one-append_other other row xs h)

  -- what is written under one key is not read under another
  pub select_one-upsert_other :
      (test other : A → Bool) (row : A) (xs : List A)
      → other row ≡ false
      → ((x : A) → test x ≡ true → other x ≡ false)
      → select_one other (upsert test (λ _. row) row xs) ≡ select_one other xs
  unfolding upsert
  select_one-upsert_other test other row xs h apart =
      elim (Bool-cases (ltb 0 (row_count test xs))) [
        | inl present ↦ rw present (select_one-update_other test other row xs h apart)
        | inr absent ↦ rw absent (select_one-append_other other row xs h)
      ]

  -- a row that an update does not touch is still the one that is read
  pub select_one-update_kept :
      (test other : A → Bool) (change : A → A) (xs : List A) (r : A)
      → ((x : A) → other (change x) ≡ other x)
      → select_one other xs ≡ some r
      → test r ≡ false
      → select_one other (update_where test change xs) ≡ some r
  unfolding select_one update_where
  select_one-update_kept test other change [] r keep h miss = h
  select_one-update_kept test other change (x ∷ xs) r keep h miss = elim (Bool-cases (other x)) [
    | inl found ↦ ground (arith, found)
    | inr passed ↦ ground (
      arith,
      passed,
      keep x,
      select_one-update_kept test other change xs r keep (ground (arith, passed)) miss,
    )
  ]

  pub select_one-delete_kept :
      (test other : A → Bool) (xs : List A) (r : A)
      → select_one other xs ≡ some r
      → test r ≡ false
      → select_one other (delete_where test xs) ≡ some r
  unfolding select_one delete_where
  select_one-delete_kept test other [] r h miss = h
  select_one-delete_kept test other (x ∷ xs) r h miss = elim (Bool-cases (other x)) [
    | inl found ↦ ground (arith, found)
    | inr passed ↦
        ground (arith, passed, select_one-delete_kept test other xs r (ground (arith, passed)) miss)
  ]
