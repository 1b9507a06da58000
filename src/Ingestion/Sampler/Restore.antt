-- ===== src/Ingestion/Sampler/Restore.antt =====
-- A sampler is what `restore` makes of the rows that `samples` gives.
use bollywood_hal.Prelude.{
  ℕ, zero, suc, ◌≡◌, ◌≤◌, ◌==◌, refl, sym, ap, ap₂, ◌∙◌, String, true, false, Option, none, some,
  List, [], ◌∷◌, ◌++◌, map, All, take, length, length-take-le, ltb, inl, inr, Bool-cases, arith,
}
use bollywood_hal.Ingestion.Sampler.{
  SampleKind, RepresentativeSample, Scored, Sampler, Observation, new_sampler, insert_scored,
  sort_scored, sample, keep_first, keep_highest, update, updates, present, samples, is_kind,
  find_kind, uniform_of, scored, restore,
}
use bollywood_hal.Ingestion.Sampler.BottomK.{
  Ordered, take-Ordered, insert_scored-Ordered, sort_scored_sorted, sort_onto-append,
}

abbrev OfKind : SampleKind → Option RepresentativeSample → Type 0
OfKind k none = Unit
OfKind k (some s) = s.kind ≡ k

module _ (score : String → ℕ → ℕ) where
  -- a uniform sample with the score of its ordinal
  abbrev IsScored : String → Scored → Type 0
  IsScored namespace x = (x.1.kind ≡ SampleKind.uniform) × (x.0 ≡ score namespace x.1.ordinal)

  record Faithful (s : Sampler) : Type 0 where
    first_kind : OfKind SampleKind.first s.first
    latest_kind : OfKind SampleKind.latest s.latest
    highest_kind : OfKind SampleKind.highest s.highest
    all_scored : All (IsScored s.namespace) s.uniform
    ordered : Ordered 0 s.uniform
    bounded : length s.uniform ≤ s.capacity

  insert-IsScored :
      (ns : String) (x : Scored) (xs : List Scored)
      → IsScored ns x
      → All (IsScored ns) xs
      → All (IsScored ns) (insert_scored x xs)
  unfolding insert_scored
  insert-IsScored ns x [] h k = (h, tt)
  insert-IsScored ns x (y ∷ ys) h k = elim (Bool-cases (ltb x.0 y.0)) [
    | inl below ↦ rw below (h, k)
    | inr above ↦ rw above (k.0, insert-IsScored ns x ys h k.1)
  ]

  take-IsScored :
      (ns : String) (k : ℕ) (xs : List Scored)
      → All (IsScored ns) xs
      → All (IsScored ns) (take k xs)
  take-IsScored ns zero xs h = tt
  take-IsScored ns (suc k) [] h = tt
  take-IsScored ns (suc k) (x ∷ xs) h = (h.0, take-IsScored ns k xs h.1)

  keep_first-OfKind :
      (n : ℕ) (o : Observation) (r : Option RepresentativeSample)
      → OfKind SampleKind.first r
      → OfKind SampleKind.first (keep_first n o r)
  unfolding keep_first sample
  keep_first-OfKind n o none h = refl
  keep_first-OfKind n o (some r) h = h

  keep_highest-OfKind :
      (n : ℕ) (o : Observation) (r : Option RepresentativeSample)
      → OfKind SampleKind.highest r
      → OfKind SampleKind.highest (keep_highest n o r)
  unfolding keep_highest sample
  keep_highest-OfKind n o none h = refl
  keep_highest-OfKind n o (some r) h = ground arith

  resorted :
      (s : Sampler) (x : Scored)
      → Faithful s
      → sort_scored (s.uniform ++ x ∷ []) ≡ insert_scored x s.uniform
  unfolding sort_scored
  resorted s x f =
      sort_onto-append s.uniform x []
      ∙ ap (insert_scored x) (sort_scored_sorted s.uniform f.ordered)

  update-Faithful : (o : Observation) (s : Sampler) → Faithful s → Faithful (update score o s)
  unfolding update sample
  update-Faithful o s f = elim (Bool-cases (s.capacity == 0)) [
    | inl empty ↦ rw empty (record {
      first_kind = keep_first-OfKind s.count o s.first f.first_kind;
      latest_kind = refl;
      highest_kind = keep_highest-OfKind s.count o s.highest f.highest_kind;
      all_scored = f.all_scored;
      ordered = f.ordered;
      bounded = f.bounded;
    })
    | inr some_room ↦
        rw (some_room, resorted s new f)
          (record {
            first_kind = keep_first-OfKind s.count o s.first f.first_kind;
            latest_kind = refl;
            highest_kind = keep_highest-OfKind s.count o s.highest f.highest_kind;
            all_scored =
                take-IsScored s.namespace s.capacity (insert_scored new s.uniform)
                  (insert-IsScored s.namespace new s.uniform (refl, refl) f.all_scored);
            ordered =
                take-Ordered 0 s.capacity (insert_scored new s.uniform)
                  (insert_scored-Ordered 0 new s.uniform (omega arith) f.ordered);
            bounded = length-take-le s.capacity (insert_scored new s.uniform);
          })
  ]
    where
      new : Scored
      new = (score s.namespace s.count, sample SampleKind.uniform s.count o)

  updates-Faithful :
      (os : List Observation) (s : Sampler) → Faithful s → Faithful (updates score os s)
  unfolding updates
  updates-Faithful [] s f = f
  updates-Faithful (o ∷ os) s f = updates-Faithful os (update score o s) (update-Faithful o s f)

  find_uniform :
      (k : SampleKind) (ns : String) (xs : List Scored)
      → is_kind SampleKind.uniform k ≡ false
      → All (IsScored ns) xs
      → find_kind k (map (λ (x : Scored). x.1) xs) ≡ none
  unfolding find_kind
  find_uniform k ns [] other h = refl
  find_uniform k ns (x ∷ xs) other h = rw (h.0.0, other) (find_uniform k ns xs other h.1)

  uniform_of_uniform :
      (ns : String) (xs : List Scored)
      → All (IsScored ns) xs
      → uniform_of (map (λ (x : Scored). x.1) xs) ≡ map (λ (x : Scored). x.1) xs
  unfolding uniform_of
  uniform_of_uniform ns [] h = refl
  uniform_of_uniform ns (x ∷ xs) h = rw (h.0.0, uniform_of_uniform ns xs h.1) refl

  rescored :
      (ns : String) (xs : List Scored)
      → All (IsScored ns) xs
      → scored score ns (map (λ (x : Scored). x.1) xs) ≡ xs
  unfolding scored
  rescored ns [] h = refl
  rescored ns (x ∷ xs) h = ap₂ ◌∷◌ (ap (λ n. (n, x.1)) (sym h.0.1)) (rescored ns xs h.1)

find_kind-skip :
    (j k : SampleKind) (o : Option RepresentativeSample) (rest : List RepresentativeSample)
    → OfKind j o
    → is_kind j k ≡ false
    → find_kind k (present o ++ rest) ≡ find_kind k rest
unfolding find_kind
find_kind-skip j k none rest h other = refl
find_kind-skip j k (some s) rest h other = rw (h, other) refl

find_kind-hit :
    (k : SampleKind) (o : Option RepresentativeSample) (rest : List RepresentativeSample)
    → OfKind k o
    → is_kind k k ≡ true
    → find_kind k rest ≡ none
    → find_kind k (present o ++ rest) ≡ o
unfolding find_kind
find_kind-hit k none rest h same missing = missing
find_kind-hit k (some s) rest h same missing = rw (h, same) refl

uniform_of-skip :
    (j : SampleKind) (o : Option RepresentativeSample) (rest : List RepresentativeSample)
    → OfKind j o
    → is_kind j SampleKind.uniform ≡ false
    → uniform_of (present o ++ rest) ≡ uniform_of rest
unfolding uniform_of
uniform_of-skip j none rest h other = refl
uniform_of-skip j (some s) rest h other = rw (h, other) refl

take_all :
    (k : ℕ) (xs : List Scored)
    → length xs ≤ k
    → take k (map (λ (x : Scored). x.1) xs) ≡ map (λ (x : Scored). x.1) xs
take_all zero [] h = refl
take_all zero (x ∷ xs) h = absurd (omega arith)
take_all (suc k) [] h = refl
take_all (suc k) (x ∷ xs) h = ap (λ t. x.1 ∷ t) (take_all k xs (omega arith))

module _ (score : String → ℕ → ℕ) where
  restored-uniform :
      (s : Sampler)
      → Faithful score s
      → sort_scored (scored score s.namespace (take s.capacity (uniform_of (samples s))))
        ≡ s.uniform
  unfolding samples
  restored-uniform s f =
      ap (λ xs. sort_scored (scored score s.namespace (take s.capacity xs)))
        (uniform_of-skip SampleKind.first s.first _ f.first_kind refl
          ∙ uniform_of-skip SampleKind.latest s.latest _ f.latest_kind refl
          ∙ uniform_of-skip SampleKind.highest s.highest _ f.highest_kind refl
          ∙ uniform_of_uniform score s.namespace s.uniform f.all_scored)
      ∙ ap (λ xs. sort_scored (scored score s.namespace xs))
          (take_all s.capacity s.uniform f.bounded)
      ∙ ap sort_scored (rescored score s.namespace s.uniform f.all_scored)
      ∙ sort_scored_sorted s.uniform f.ordered

  no_uniform :
      (s : Sampler) (k : SampleKind)
      → Faithful score s
      → is_kind SampleKind.uniform k ≡ false
      → find_kind k (map (λ (x : Scored). x.1) s.uniform) ≡ none
  no_uniform s k f other = find_uniform score k s.namespace s.uniform other f.all_scored

  restored-first :
      (s : Sampler) → Faithful score s → find_kind SampleKind.first (samples s) ≡ s.first
  unfolding samples
  restored-first s f = find_kind-hit SampleKind.first s.first _ f.first_kind refl (
      find_kind-skip SampleKind.latest SampleKind.first s.latest _ f.latest_kind refl
      ∙ find_kind-skip SampleKind.highest SampleKind.first s.highest _ f.highest_kind refl
      ∙ no_uniform s SampleKind.first f refl)

  restored-latest :
      (s : Sampler) → Faithful score s → find_kind SampleKind.latest (samples s) ≡ s.latest
  unfolding samples
  restored-latest s f =
      find_kind-skip SampleKind.first SampleKind.latest s.first _ f.first_kind refl
      ∙ find_kind-hit SampleKind.latest s.latest _ f.latest_kind refl (
          find_kind-skip SampleKind.highest SampleKind.latest s.highest _ f.highest_kind refl
          ∙ no_uniform s SampleKind.latest f refl)

  restored-highest :
      (s : Sampler) → Faithful score s → find_kind SampleKind.highest (samples s) ≡ s.highest
  unfolding samples
  restored-highest s f =
      find_kind-skip SampleKind.first SampleKind.highest s.first _ f.first_kind refl
      ∙ find_kind-skip SampleKind.latest SampleKind.highest s.latest _ f.latest_kind refl
      ∙ find_kind-hit SampleKind.highest s.highest _ f.highest_kind refl
          (no_uniform s SampleKind.highest f refl)

  restored :
      (s : Sampler)
      → Faithful score s
      → restore score s.count (samples s) (new_sampler s.capacity s.namespace) ≡ s
  unfolding restore new_sampler
  restored s f =
      rw (restored-first s f, restored-latest s f, restored-highest s f, restored-uniform s f) refl

  updates-settings :
      (os : List Observation) (s : Sampler)
      → ((updates score os s).capacity ≡ s.capacity)
        × ((updates score os s).namespace ≡ s.namespace)
  unfolding updates update
  updates-settings [] s = (refl, refl)
  updates-settings (o ∷ os) s = updates-settings os (update score o s)

  -- Restoring, into a new sampler of the capacity and the namespace, the count and the samples of a
  -- sampler that made any observations gives the sampler back.
  pub restore-samples :
      (os : List Observation) (capacity : ℕ) (namespace : String)
      → let s = updates score os (new_sampler capacity namespace) in
        restore score s.count (samples s) (new_sampler capacity namespace) ≡ s
  unfolding new_sampler
  restore-samples os capacity namespace =
      let s = updates score os (new_sampler capacity namespace) in
      let (same_capacity, same_namespace) = updates-settings os (new_sampler capacity namespace) in
      ap₂ (λ k ns. restore score s.count (samples s) (new_sampler k ns)) (sym same_capacity)
        (sym same_namespace)
      ∙ restored s (
          updates-Faithful score os (new_sampler capacity namespace) (record {
            first_kind = tt;
            latest_kind = tt;
            highest_kind = tt;
            all_scored = tt;
            ordered = tt;
            bounded = omega arith;
          }))
