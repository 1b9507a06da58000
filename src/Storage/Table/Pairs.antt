-- ===== src/Storage/Table/Pairs.antt =====
-- A table and a later state of it: rows are appended and changed, and none is dropped.
use bollywood_hal.Prelude.{
  refl, arith, ◌≡◌, Bool, true, List, [], ◌∷◌, ◌++◌, inl, inr, Bool-cases, if_both, ltb,
}
use bollywood_hal.Storage.Table.{update_where, insert_or_ignore, row_count}

module _ {A : Type 0} where
  -- each row of the first table is related to the row at its place in the second
  unfoldable pub Follows : (A → A → Type 0) → List A → List A → Type 0
  Follows R [] ys = Unit
  Follows R (x ∷ xs) [] = ⊥
  Follows R (x ∷ xs) (y ∷ ys) = R x y × Follows R xs ys

module _ {A : Type 0} (R : A → A → Type 0) (same : (x : A) → R x x) where
  pub Follows-refl : (xs : List A) → Follows R xs xs
  unfolding Follows
  Follows-refl [] = tt
  Follows-refl (x ∷ xs) = (same x, Follows-refl xs)

  pub Follows-append : (xs ys : List A) → Follows R xs (xs ++ ys)
  unfolding Follows
  Follows-append [] ys = tt
  Follows-append (x ∷ xs) ys = (same x, Follows-append xs ys)

  pub Follows-update :
      (test : A → Bool) (change : A → A) (xs : List A)
      → ((x : A) → test x ≡ true → R x (change x))
      → Follows R xs (update_where test change xs)
  unfolding Follows update_where
  Follows-update test change [] h = tt
  Follows-update test change (x ∷ xs) h = elim (Bool-cases (test x)) [
    | inl hit ↦ rw hit (h x hit, Follows-update test change xs h)
    | inr miss ↦ rw miss (same x, Follows-update test change xs h)
  ]

  pub Follows-insert :
      (clash : A → Bool) (row : A) (xs : List A) → Follows R xs (insert_or_ignore clash row xs)
  unfolding insert_or_ignore
  Follows-insert clash row xs =
      if_both (Follows R xs) (ltb 0 (row_count clash xs)) xs (xs ++ row ∷ []) (Follows-refl xs)
        (Follows-append xs (row ∷ []))

module _ {A : Type 0} (R : A → A → Type 0) (both : (x y z : A) → R x y → R y z → R x z) where
  pub Follows-trans : (xs ys zs : List A) → Follows R xs ys → Follows R ys zs → Follows R xs zs
  unfolding Follows
  Follows-trans [] ys zs h k = tt
  Follows-trans (x ∷ xs) (y ∷ ys) (z ∷ zs) h k =
      (both x y z h.0 k.0, Follows-trans xs ys zs h.1 k.1)
  Follows-trans (x ∷ xs) (y ∷ ys) [] h k = absurd k
  Follows-trans (x ∷ xs) [] zs h k = absurd h

-- Two tables of one length, the rows related place by place: none is added and none dropped.
module _ {A : Type 0} where
  unfoldable pub Aligned : (A → A → Type 0) → List A → List A → Type 0
  Aligned R [] [] = Unit
  Aligned R [] (y ∷ ys) = ⊥
  Aligned R (x ∷ xs) [] = ⊥
  Aligned R (x ∷ xs) (y ∷ ys) = R x y × Aligned R xs ys

module _ {A : Type 0} (R : A → A → Type 0) where
  pub Aligned-refl : ((x : A) → R x x) → (xs : List A) → Aligned R xs xs
  unfolding Aligned
  Aligned-refl same [] = tt
  Aligned-refl same (x ∷ xs) = (same x, Aligned-refl same xs)

  pub Aligned-trans :
      ((x y z : A) → R x y → R y z → R x z)
      → (xs ys zs : List A) → Aligned R xs ys
      → Aligned R ys zs
      → Aligned R xs zs
  unfolding Aligned
  Aligned-trans both [] [] zs h k = k
  Aligned-trans both [] (y ∷ ys) zs h k = absurd h
  Aligned-trans both (x ∷ xs) [] zs h k = absurd h
  Aligned-trans both (x ∷ xs) (y ∷ ys) [] h k = absurd k
  Aligned-trans both (x ∷ xs) (y ∷ ys) (z ∷ zs) h k =
      (both x y z h.0 k.0, Aligned-trans both xs ys zs h.1 k.1)

  pub Aligned-update :
      ((x : A) → R x x)
      → (test : A → Bool) (change : A → A) (xs : List A) → ((x : A) → R x (change x))
      → Aligned R xs (update_where test change xs)
  unfolding Aligned update_where
  Aligned-update same test change [] h = tt
  Aligned-update same test change (x ∷ xs) h =
      (if_both (R x) (test x) (change x) x (h x) (same x), Aligned-update same test change xs h)

  pub row_count-Aligned :
      (test : A → Bool)
      → ((x y : A) → R x y → test y ≡ test x)
      → (xs ys : List A) → Aligned R xs ys
      → row_count test ys ≡ row_count test xs
  unfolding Aligned row_count
  row_count-Aligned test same [] [] h = refl
  row_count-Aligned test same [] (y ∷ ys) h = absurd h
  row_count-Aligned test same (x ∷ xs) [] h = absurd h
  row_count-Aligned test same (x ∷ xs) (y ∷ ys) h =
      ground (arith, same x y h.0, row_count-Aligned test same xs ys h.1)
