-- ===== src/Hermes/Router/Local.antt =====
-- What the offline-local policy chooses (`_local_decision`, src/hal9000/hermes/router.py).
use bollywood_hal.Prelude.{
  ℕ, ◌≡◌, ◌≤◌, refl, max, String, Bool, true, false, ◌&&◌, ◌⊎◌, inl, inr, some, List, [], ◌∷◌, All,
  In, ◌=s◌, zero, suc, ltb, arith, Bool-cases, Option-cases, is_some, not, sym,
}
use mathlib.Core.Path.{subst}
use bollywood_hal.Hermes.Router.{
  ModelOption, ResourceSnapshot, RouteDecision, RouterSettings, memory_key, smaller, smallest,
  is_eligible, rejection, sift, choose, local_decision,
}

abbrev pub memory : ModelOption → ℕ
memory o = memory_key o.resident_memory_mb

-- an estimate of 0 counts as none
least_key :
    (m n : ℕ) → memory_key (some m) ≤ memory_key (some n) → 1 ≤ n → n ≤ 10240 → (1 ≤ m) × (m ≤ n)
least_key m zero less positive small = absurd (omega (arith, positive))
least_key zero (suc n) less positive small = absurd (omega (arith, less, small))
least_key (suc m) (suc n) less positive small = (omega arith, omega (arith, less))

smaller-cases :
    (q o : ModelOption)
    → ((smaller q o ≡ q) × (memory q ≤ memory o)) ⊎ ((smaller q o ≡ o) × (memory o ≤ memory q))
unfolding smaller
smaller-cases q o = elim (Bool-cases (ltb (memory q) (memory o))) [
  | inl less ↦ inl (rw less refl, ground (arith, less))
  | inr more ↦ inr (rw more refl, ground (arith, more))
]

smallest-In : (o : ModelOption) (os : List ModelOption) → In (smallest o os) (o ∷ os)
unfolding smallest
smallest-In o [] = inl refl
smallest-In o (q ∷ qs) = elim (smaller-cases q o) [
  | inl (e, _) ↦ subst (λ x. In (smallest x qs) (o ∷ q ∷ qs)) (sym e) (inr (smallest-In q qs))
  | inr (e, _) ↦
      subst (λ x. In (smallest x qs) (o ∷ q ∷ qs)) (sym e)
        (elim (smallest-In o qs) [ inl same ↦ inl same | inr i ↦ inr (inr i) ])
]

-- no member of the list has less memory
abbrev Least : List ModelOption → ModelOption → Type 0
Least os x = All (λ r. memory x ≤ memory r) os

smallest-Least : (o : ModelOption) (os : List ModelOption) → Least (o ∷ os) (smallest o os)
unfolding smallest
smallest-Least o [] = (omega arith, tt)
smallest-Least o (q ∷ qs) = elim (smaller-cases q o) [
  | inl (e, le) ↦
      let (first, rest) = smallest-Least q qs in
      subst (λ x. Least (o ∷ q ∷ qs) (smallest x qs)) (sym e)
        (omega (arith, first, le), (first, rest))
  | inr (e, le) ↦
      let (first, rest) = smallest-Least o qs in
      subst (λ x. Least (o ∷ q ∷ qs) (smallest x qs)) (sym e)
        (first, (omega (arith, first, le), rest))
]

-- what holds of all holds of one
All-In : {A : Type 0} (P : A → Type 0) (x : A) (xs : List A) → In x xs → All P xs → P x
All-In P x [] i h = absurd i
All-In P x (y ∷ ys) (inl e) h = subst P (sym e) h.0
All-In P x (y ∷ ys) (inr i) h = All-In P x ys i h.1

All-map :
    {A : Type 0} {P Q : A → Type 0} → ((x : A) → P x → Q x) → (xs : List A) → All P xs → All Q xs
All-map f [] h = tt
All-map f (x ∷ xs) h = (f x h.0, All-map f xs h.1)

module _ {C : Type 0} (s : RouterSettings C) where
  -- the guards of the loop let the option pass
  unfoldable pub accepts : ℕ → ModelOption → Bool
  unfolding rejection
  accepts free o = is_eligible s o && not (is_some (rejection s free o))

  sift-In :
      (free : ℕ) (o : ModelOption) (os : List ModelOption)
      → In o (sift s free os).0
      → In o os × (accepts free o ≡ true)
  unfolding sift accepts
  sift-In free o [] i = absurd i
  sift-In free o (q ∷ qs) i = elim (Bool-cases (is_eligible s q)) [
    | inl able ↦ elim (Option-cases (rejection s free q)) [
      | inl kept ↦ elim (rw (able, kept) at i) [
        | inl e ↦ (
          inl e,
          subst (λ x. (is_eligible s x && not (is_some (rejection s free x))) ≡ true) (sym e)
              (rw (able, kept) refl),
        )
        | inr j ↦ let (there, passes) = sift-In free o qs j in (inr there, passes)
      ]
      | inr (text, out) ↦
          let (there, passes) = sift-In free o qs (rw (able, out) at i) in (inr there, passes)
    ]
    | inr unable ↦ let (there, passes) = sift-In free o qs (rw unable at i) in (inr there, passes)
  ]

  sift-All :
      (P : ModelOption → Type 0) (free : ℕ) (os : List ModelOption)
      → All P (sift s free os).0
      → All (λ q. accepts free q ≡ true → P q) os
  unfolding sift accepts
  sift-All P free [] h = tt
  sift-All P free (q ∷ qs) h = elim (Bool-cases (is_eligible s q)) [
    | inl able ↦ elim (Option-cases (rejection s free q)) [
      | inl kept ↦ let (here, there) = rw (able, kept) at h in (λ _. here, sift-All P free qs there)
      | inr (text, out) ↦
          (λ passes. absurd (ground (arith, passes, out)), sift-All P free qs (rw (able, out) at h))
    ]
    | inr unable ↦
        (λ passes. absurd (ground (arith, passes, unable)), sift-All P free qs (rw unable at h))
  ]

  -- an option that fits: local, available, authenticated, and its estimate is within the headroom
  -- and at most 10 GiB
  abbrev pub Fits : ℕ → ModelOption → ℕ → Type 0
  Fits free o m =
      (o.local ≡ true)
      × (o.available ≡ true)
      × (o.authenticated ≡ true)
      × (o.resident_memory_mb ≡ some m)
      × (s.exceeds m free ≡ false)
      × (m ≤ 10240)

  -- No other option that fits has an estimate of at least 1 that is less, and this one has such an
  -- estimate if any has.
  abbrev pub IsLeast : ℕ → List ModelOption → ℕ → Type 0
  IsLeast free options m = All (λ q. (n : ℕ) → 1 ≤ n → Fits free q n → (1 ≤ m) × (m ≤ n)) options

  -- what the local policy answers on fresh resources: nothing fits, or the least that fits
  unfoldable pub Answer : ℕ → List ModelOption → RouteDecision → Type 0
  Answer free options d =
      ((d.available ≡ false) × All (λ q. (n : ℕ) → Fits free q n → ⊥) options)
      ⊎ ((o : ModelOption) × (m : ℕ) × In o options
          × Fits free o m
          × (d.available ≡ true)
          × (d.provider ≡ o.provider)
          × (d.model ≡ o.model)
          × IsLeast free options m)

  module _ (offline : (s.resource_policy =s "offline_local") ≡ true) (free : ℕ) where
    accepts-Fits : (o : ModelOption) → accepts free o ≡ true → (m : ℕ) × Fits free o m
    unfolding accepts rejection
    accepts-Fits o h = elim (Option-cases o.resident_memory_mb) [
      | inl missing ↦ absurd (ground (arith, missing))
      | inr (m, known) ↦ (m, ground (arith, offline, known, h))
    ]

    Fits-accepts : (o : ModelOption) (m : ℕ) → Fits free o m → accepts free o ≡ true
    unfolding accepts rejection
    Fits-accepts o m (l, a, u, known, room, small) = ground (arith, offline, known, room)

    least_of_both :
        (o q : ModelOption) (m n : ℕ)
        → memory o ≤ memory q
        → Fits free o m
        → 1 ≤ n
        → Fits free q n
        → (1 ≤ m) × (m ≤ n)
    least_of_both o q m n less fits some_memory others =
        let (_, _, _, om, _, _) = fits in
        let (_, _, _, qn, _, small) = others in
        least_key m n (rw (om, qn) at less) some_memory small

    choose-Answer :
        (id intent_class : String) (options accepted : List ModelOption) (rejected : List String)
        → accepted ≡ (sift s free options).0
        → Answer free options (choose s id intent_class (accepted, rejected))
    unfolding choose Answer
    choose-Answer id intent_class options [] rejected e = inl (
      refl,
      All-map (λ q none_passes n fits. none_passes (Fits-accepts q n fits)) options
          (sift-All (λ _. ⊥) free options (subst (All (λ _. ⊥)) e tt)),
    )
    choose-Answer id intent_class options (o ∷ os) rejected e =
        let (there, passes) =
          sift-In free (smallest o os) options (subst (In (smallest o os)) e (smallest-In o os)) in
        let (m, fits) = accepts-Fits (smallest o os) passes in
        inr (
          smallest o os,
          m,
          there,
          fits,
          refl,
          refl,
          refl,
          All-map
              (λ q least n some_memory qn.
                least_of_both (smallest o os) q m n (least (Fits-accepts q n qn)) fits some_memory
                  qn)
              options
              (sift-All (λ q. memory (smallest o os) ≤ memory q) free options
                (subst (All (λ q. memory (smallest o os) ≤ memory q)) e (smallest-Least o os))),
        )

  -- On resources that are fresh, the offline-local policy is unavailable exactly where no option fits
  -- (local, available, authenticated, with an estimate of its memory that is within the headroom of
  -- the free RAM or VRAM and at most 10240 MB), and otherwise it answers with an option of the
  -- inventory that fits; if an option that fits has an estimate of 1 or more, the answer has the least
  -- of those estimates.
  pub local_decision-Answer :
      (id intent_class : String) (options : List ModelOption) (r : ResourceSnapshot C) (now : C)
      → (s.resource_policy =s "offline_local") ≡ true
      → s.is_stale now r.observed_monotonic ≡ false
      → Answer
          (max r.free_ram_mb r.free_vram_mb)
          options
          (local_decision s id intent_class options (some r) now)
  unfolding local_decision
  local_decision-Answer id intent_class options r now offline fresh =
      let free = max r.free_ram_mb r.free_vram_mb in
      rw fresh (
        choose-Answer offline free id intent_class options (sift s free options).0
          (sift s free options).1 refl)
