-- ===== src/Storage/Table.antt =====
-- The SQL statements that the modelled clients run, over a table as a list of rows in the order of
-- insertion.
pub mod Reads
pub mod Pairs
use bollywood_hal.Prelude.{
  ℕ, ◌+◌, ◌≡◌, ◌≤◌, Bool, true, Option, none, some, List, [], ◌∷◌, ◌++◌, All, arith, ltb, inl, inr,
  Bool-cases, if◌then◌else◌,
}

module _ {A : Type 0} where
  -- UPDATE … SET … WHERE
  unfoldable pub update_where : (A → Bool) → (A → A) → List A → List A
  update_where test change [] = []
  update_where test change (x ∷ xs) = (if test x then change x else x) ∷ update_where test change xs

  -- the cursor's `rowcount` of that UPDATE
  unfoldable pub row_count : (A → Bool) → List A → ℕ
  row_count test [] = 0
  row_count test (x ∷ xs) = let n = row_count test xs in if test x then n + 1 else n

  -- SELECT … WHERE, fetchone
  unfoldable pub select_one : (A → Bool) → List A → Option A
  select_one test [] = none
  select_one test (x ∷ xs) = if test x then some x else select_one test xs

  -- SELECT … WHERE, fetchall
  unfoldable pub select_all : (A → Bool) → List A → List A
  select_all test [] = []
  select_all test (x ∷ xs) = let rest = select_all test xs in if test x then x ∷ rest else rest

  unfoldable pub later : (A → ℕ) → A → Option A → Option A
  later key x none = some x
  later key x (some y) = if ltb (key x) (key y) then some y else some x

  -- SELECT … WHERE … ORDER BY key DESC LIMIT 1; of rows with one key, the first inserted
  unfoldable pub select_latest : (A → Bool) → (A → ℕ) → List A → Option A
  unfolding later
  select_latest test key [] = none
  select_latest test key (x ∷ xs) =
      let rest = select_latest test key xs in if test x then later key x rest else rest

  -- INSERT OR IGNORE: `clash` says that a row breaks a UNIQUE constraint with the new one
  unfoldable pub insert_or_ignore : (A → Bool) → A → List A → List A
  unfolding row_count
  insert_or_ignore clash row xs = if ltb 0 (row_count clash xs) then xs else xs ++ row ∷ []

  -- INSERT … ON CONFLICT DO UPDATE: `clash` says that a row has the key of the new one
  unfoldable pub upsert : (A → Bool) → (A → A) → A → List A → List A
  unfolding row_count update_where
  upsert clash change row xs =
      if ltb 0 (row_count clash xs) then update_where clash change xs else xs ++ row ∷ []

  -- DELETE FROM … WHERE
  unfoldable pub delete_where : (A → Bool) → List A → List A
  delete_where test [] = []
  delete_where test (x ∷ xs) = let rest = delete_where test xs in if test x then rest else x ∷ rest

module _ {A : Type 0} where
  pub row_count-append :
      (test : A → Bool) (xs ys : List A)
      → row_count test (xs ++ ys) ≡ row_count test xs + row_count test ys
  unfolding row_count
  row_count-append test [] ys = omega arith
  row_count-append test (x ∷ xs) ys = ground (arith, row_count-append test xs ys)

  pub row_count-update_where-le :
      (test where_test : A → Bool) (change : A → A) (xs : List A)
      → ((x : A) → test (change x) ≡ true → test x ≡ true)
      → row_count test (update_where where_test change xs) ≤ row_count test xs
  unfolding row_count update_where
  row_count-update_where-le test where_test change [] keep = omega arith
  row_count-update_where-le test where_test change (x ∷ xs) keep =
      ground (arith, keep x, row_count-update_where-le test where_test change xs keep)

  pub All-update_where {κ} :
      (Q : A → Type κ) (test : A → Bool) (change : A → A) (xs : List A)
      → ((x : A) → Q x → Q (change x))
      → All Q xs
      → All Q (update_where test change xs)
  unfolding update_where
  All-update_where Q test change [] keep h = h
  All-update_where Q test change (x ∷ xs) keep h = elim (Bool-cases (test x)) [
    | inl hit ↦ (rw hit (keep x h.0), All-update_where Q test change xs keep h.1)
    | inr miss ↦ (rw miss h.0, All-update_where Q test change xs keep h.1)
  ]

  row_count_mono :
      (p q : A → Bool) (xs : List A)
      → ((x : A) → p x ≡ true → q x ≡ true)
      → row_count p xs ≤ row_count q xs
  unfolding row_count
  row_count_mono p q [] h = omega arith
  row_count_mono p q (x ∷ xs) h = ground (arith, h x, row_count_mono p q xs h)

  -- Where all that passes a test with the new row clashes with it, at most one row passes it.
  pub insert_or_ignore_unique :
      (test clash : A → Bool) (row : A) (xs : List A)
      → (test row ≡ true → (x : A) → test x ≡ true → clash x ≡ true)
      → row_count test xs ≤ 1
      → row_count test (insert_or_ignore clash row xs) ≤ 1
  unfolding insert_or_ignore row_count
  insert_or_ignore_unique test clash row xs clashes one =
      elim (Bool-cases (ltb 0 (row_count clash xs))) [
        | inl present ↦ rw present one
        | inr absent ↦ rw absent (elim (Bool-cases (test row)) [
          | inl new ↦ ground (
            arith,
            row_count-append test xs (row ∷ []),
            row_count_mono test clash xs (clashes new),
          )
          | inr old ↦ ground (arith, row_count-append test xs (row ∷ []))
        ])
      ]
