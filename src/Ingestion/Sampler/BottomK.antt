-- ===== src/Ingestion/Sampler/BottomK.antt =====
-- The uniform samples are the bottom k of all that was observed.
use bollywood_hal.Prelude.{
  ℕ, zero, suc, ◌+◌, ◌≡◌, ◌≤◌, ◌==◌, refl, sym, ap, ◌∙◌, String, true, List, [], ◌∷◌, ◌++◌, All,
  take, length, length-take-le, ltb, inl, inr, Bool-cases, arith,
}
use mathlib.Core.Path.{subst}
use mathlib.Core.List.{append-nil, append_assoc}
use bollywood_hal.Ingestion.Sampler.{
  SampleKind, Scored, Sampler, Observation, new_sampler, insert_scored, sort_onto, sort_scored,
  sample, update, updates,
}

-- the scores do not fall, and none is below `n`
abbrev pub Ordered : ℕ → List Scored → Type 0
Ordered n [] = Unit
Ordered n (x ∷ xs) = (n ≤ x.0) × Ordered x.0 xs

pub insert_scored-Ordered :
    (n : ℕ) (x : Scored) (xs : List Scored)
    → n ≤ x.0
    → Ordered n xs
    → Ordered n (insert_scored x xs)
unfolding insert_scored
insert_scored-Ordered n x [] h o = (h, tt)
insert_scored-Ordered n x (y ∷ ys) h o = elim (Bool-cases (ltb x.0 y.0)) [
  | inl below ↦ rw below (h, (ground arith, o.1))
  | inr above ↦ rw above (o.0, insert_scored-Ordered y.0 x ys (ground arith) o.1)
]

pub take-Ordered : (n k : ℕ) (xs : List Scored) → Ordered n xs → Ordered n (take k xs)
take-Ordered n zero xs o = tt
take-Ordered n (suc k) [] o = tt
take-Ordered n (suc k) (x ∷ xs) o = (o.0, take-Ordered x.0 k xs o.1)

-- an item that is above all is inserted last
insert_scored_last :
    (x : Scored) (xs : List Scored)
    → All (λ (y : Scored). y.0 ≤ x.0) xs
    → insert_scored x xs ≡ xs ++ x ∷ []
unfolding insert_scored
insert_scored_last x [] h = refl
insert_scored_last x (y ∷ ys) h = ground (arith, insert_scored_last x ys h.1)

below-All :
    (n : ℕ) (xs : List Scored) (x : Scored)
    → All (λ (y : Scored). y.0 ≤ n) xs
    → n ≤ x.0
    → All (λ (y : Scored). y.0 ≤ x.0) (xs ++ x ∷ [])
below-All n [] x h le = (omega arith, tt)
below-All n (y ∷ ys) x h le = (omega (arith, h.0), below-All n ys x h.1 le)

at_most :
    (n : ℕ) (xs : List Scored) (m : ℕ)
    → n ≤ m
    → All (λ (y : Scored). y.0 ≤ n) xs
    → All (λ (y : Scored). y.0 ≤ m) xs
at_most n [] m le h = tt
at_most n (y ∷ ys) m le h = (omega (arith, h.0), at_most n ys m le h.1)

sort_onto_sorted :
    (n : ℕ) (xs done : List Scored)
    → Ordered n xs
    → All (λ (y : Scored). y.0 ≤ n) done
    → sort_onto xs done ≡ done ++ xs
unfolding sort_onto
sort_onto_sorted n [] done o h = sym (append-nil done)
sort_onto_sorted n (x ∷ xs) done o h =
    ap (sort_onto xs) (insert_scored_last x done (at_most n done x.0 o.0 h))
    ∙ sort_onto_sorted x.0 xs (done ++ x ∷ []) o.1 (below-All n done x h o.0)
    ∙ append_assoc done (x ∷ []) xs

pub sort_onto-append :
    (xs : List Scored) (x : Scored) (done : List Scored)
    → sort_onto (xs ++ x ∷ []) done ≡ insert_scored x (sort_onto xs done)
unfolding sort_onto
sort_onto-append [] x done = refl
sort_onto-append (y ∷ ys) x done = sort_onto-append ys x (insert_scored y done)

-- a list that is in order stays as it is
pub sort_scored_sorted : (xs : List Scored) → Ordered 0 xs → sort_scored xs ≡ xs
unfolding sort_scored
sort_scored_sorted xs o = sort_onto_sorted 0 xs [] o tt

take-insert :
    (k : ℕ) (x : Scored) (xs : List Scored)
    → take k (insert_scored x (take k xs)) ≡ take k (insert_scored x xs)
unfolding insert_scored
take-insert zero x xs = refl
take-insert (suc k) x [] = refl
take-insert (suc k) x (y ∷ ys) = ground (arith, take-insert k x ys, take_again k y ys)
  where
    take_again : (m : ℕ) (z : Scored) (zs : List Scored) → take m (z ∷ take m zs) ≡ take m (z ∷ zs)
    take_again zero z zs = refl
    take_again (suc m) z [] = refl
    take_again (suc m) z (w ∷ ws) = ap (λ t. z ∷ t) (take_again m w ws)

take_nil : (k : ℕ) → take {A = Scored} k [] ≡ []
take_nil zero = refl
take_nil (suc k) = refl

take_zero : (k : ℕ) (xs : List Scored) → (k == 0) ≡ true → take k xs ≡ []
take_zero zero xs h = refl
take_zero (suc k) xs h = absurd (ground arith)

module _ (score : String → ℕ → ℕ) where
  -- all that was observed, with its scores, from the ordinal `n` on
  unfoldable pub observed : String → ℕ → List Observation → List Scored
  observed namespace n [] = []
  observed namespace n (o ∷ os) =
      (score namespace n, sample SampleKind.uniform n o) ∷ observed namespace (n + 1) os

  update-uniform :
      (o : Observation) (s : Sampler) (all : List Scored)
      → Ordered 0 all
      → s.uniform ≡ take s.capacity all
      → (update score o s).uniform
        ≡ take s.capacity
            (insert_scored (score s.namespace s.count, sample SampleKind.uniform s.count o) all)
  unfolding update sort_scored
  update-uniform o s all ordered is_take = elim (Bool-cases (s.capacity == 0)) [
    | inl empty ↦ rw empty (
        is_take
        ∙ take_zero s.capacity all empty
        ∙ sym (take_zero s.capacity (insert_scored new all) empty))
    | inr bounded ↦ rw bounded (
        ap (take s.capacity) (
          sort_onto-append s.uniform new []
          ∙ ap (insert_scored new) (sort_scored_sorted s.uniform kept ∙ is_take))
        ∙ take-insert s.capacity new all)
  ]
    where
      new : Scored
      new = (score s.namespace s.count, sample SampleKind.uniform s.count o)

      kept : Ordered 0 s.uniform
      kept = subst (Ordered 0) (sym is_take) (take-Ordered 0 s.capacity all ordered)

  updates-uniform :
      (os : List Observation) (s : Sampler) (all : List Scored)
      → Ordered 0 all
      → s.uniform ≡ take s.capacity all
      → ((updates score os s).uniform
          ≡ take s.capacity (sort_onto (observed s.namespace s.count os) all))
        × ((updates score os s).count ≡ s.count + length os)
  unfolding updates observed sort_onto update
  updates-uniform [] s all ordered is_take = (is_take, omega arith)
  updates-uniform (o ∷ os) s all ordered is_take =
      let new : Scored = (score s.namespace s.count, sample SampleKind.uniform s.count o) in
      let (uniform, count) =
        updates-uniform os (update score o s) (insert_scored new all)
          (insert_scored-Ordered 0 new all (omega arith) ordered)
          (update-uniform o s all ordered is_take) in
      (uniform, omega (arith, count))

  -- After any observations, in whatever order of their scores, the sampler holds what sorting all of
  -- them by their scores and taking the first `capacity` gives; it has counted them all, and holds no
  -- more than `capacity` uniform samples.
  pub updates-bottom_k :
      (os : List Observation) (capacity : ℕ) (namespace : String)
      → let s = updates score os (new_sampler capacity namespace) in
        (s.uniform ≡ take capacity (sort_scored (observed namespace 0 os)))
        × (s.count ≡ length os)
        × (length s.uniform ≤ capacity)
  unfolding new_sampler sort_scored
  updates-bottom_k os capacity namespace =
      let (uniform, count) =
        updates-uniform os (new_sampler capacity namespace) [] tt (sym (take_nil capacity)) in
      (
        uniform,
        omega (arith, count),
        subst (λ (xs : List Scored). length xs ≤ capacity) (sym uniform)
            (length-take-le capacity (sort_onto (observed namespace 0 os) [])),
      )
