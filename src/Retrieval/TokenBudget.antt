-- ===== src/Retrieval/TokenBudget.antt =====
-- `TokenBudget` of src/hal9000/sentience/retrieval/token_budget.py. What Python's `str` decides about
-- UTF-8 is a parameter.
use bollywood_hal.Prelude.{
  ℕ, ◌+◌, ◌-◌, ◌*◌, ◌/◌, ◌≡◌, ◌≤◌, refl, max, Bool, true, false, leb, ◌==◌, arith, inl, inr,
  Bool-cases, if◌then◌else◌, List, [], ◌∷◌,
}
use bollywood_hal.Action.{Result, ok, raised, value_error, ok-injective}

-- `A` is the type of the texts.
pub record Utf8 (A : Type 0) : Type 0 where
  -- `""`
  pub empty : A
  -- `len(text.encode("utf-8"))`
  pub bytes : A → ℕ
  -- `text.encode("utf-8")[:limit].decode("utf-8", errors="ignore").rstrip()`
  pub clip : ℕ → A → A
  -- `text + "…"`, three bytes more
  pub ellipsis : A → A
  pub bytes_clip : (n : ℕ) (s : A) → bytes (clip n s) ≤ n
  pub bytes_ellipsis : (s : A) → bytes (ellipsis s) ≡ bytes s + 3

pub record TokenBudget : Type 0 where
  pub requested : ℕ
  pub used : ℕ

unfoldable pub new_budget : ℕ → Result TokenBudget
new_budget requested =
    if requested == 0
    then raised (value_error "token budget must be positive")
    else ok (record { requested = requested; used = 0 })

abbrev pub remaining : TokenBudget → ℕ
remaining b = b.requested - b.used

module _ {A : Type 0} (u : Utf8 A) where
  -- `max(1, ceil(bytes / 4))`, and 0 for the empty text
  unfoldable pub estimate_tokens : A → ℕ
  estimate_tokens s = if u.bytes s == 0 then 0 else max 1 ((u.bytes s + 3) / 4)

  -- the text that is cut to a number of tokens
  unfoldable pub clipped : ℕ → A → A
  clipped available s =
      let c = u.clip (available * 4) s in if u.bytes c == 0 then c else u.ellipsis c

  -- `take`; the available tokens are `remaining - fixed_overhead`, where that is positive
  unfoldable pub take_text : ℕ → A → TokenBudget → (A × Bool) × TokenBudget
  unfolding estimate_tokens clipped
  take_text overhead s b =
      if leb (remaining b) overhead
      then ((u.empty, true), b)
      else let available = remaining b - overhead in
        if leb (estimate_tokens s) available
        then ((s, false), record b { used = b.used + (estimate_tokens s + overhead) })
        else let c = clipped available s in
          ((c, true), record b { used = b.used + (estimate_tokens c + overhead) })

  -- any texts, each with its overhead
  unfoldable pub take_texts : List (ℕ × A) → TokenBudget → TokenBudget
  take_texts [] b = b
  take_texts ((n, s) ∷ ss) b = take_texts ss (take_text n s b).1

  -- the cut text with its ellipsis costs one token more than there is at most
  estimate-clipped : (n : ℕ) (s : A) → 1 ≤ n → estimate_tokens (clipped n s) ≤ n + 1
  unfolding estimate_tokens clipped
  estimate-clipped n s h =
      ground (arith, u.bytes_clip (n * 4) s, u.bytes_ellipsis (u.clip (n * 4) s))

  take_text-used :
      (n : ℕ) (s : A) (b : TokenBudget)
      → b.used ≤ b.requested + 1
      → ((take_text n s b).1.used ≤ b.requested + 1) × ((take_text n s b).1.requested ≡ b.requested)
  unfolding take_text
  take_text-used n s b h = elim (Bool-cases (leb (remaining b) n)) [
    | inl spent ↦ rw spent (h, refl)
    | inr left ↦ elim (Bool-cases (leb (estimate_tokens s) (remaining b - n))) [
      | inl fits ↦ rw (left, fits) (ground (arith, left, fits), refl)
      | inr long ↦
          let positive : 1 ≤ remaining b - n = ground (arith, left) in
          rw (left, long)
            (ground (arith, left, positive, estimate-clipped (remaining b - n) s positive), refl)
    ]
  ]

  -- Whatever texts are taken from a new budget, their tokens and overheads are at most one token more
  -- than was requested: the one that the ellipsis of a cut text may add.
  pub take_texts-used :
      (requested : ℕ) (b : TokenBudget)
      → new_budget requested ≡ ok b
      → (ss : List (ℕ × A)) → (take_texts ss b).used ≤ requested + 1
  unfolding new_budget take_texts
  take_texts-used requested b made ss = elim (Bool-cases (requested == 0)) [
    | inl zero_tokens ↦ absurd (cc (rw zero_tokens at made))
    | inr positive ↦
        rw⁻¹ (ok-injective (rw positive at made))
          (along ss (record { requested = requested; used = 0 }) (omega arith))
  ]
    where
      along :
          (ss : List (ℕ × A)) (b : TokenBudget)
          → b.used ≤ b.requested + 1
          → (take_texts ss b).used ≤ b.requested + 1
      along [] b h = h
      along ((n, s) ∷ ss) b h =
          let (used, same) = take_text-used n s b h in
          omega (arith, along ss (take_text n s b).1 (omega (arith, used, same)), same)
