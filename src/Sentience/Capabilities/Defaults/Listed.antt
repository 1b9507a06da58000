-- ===== src/Sentience/Capabilities/Defaults/Listed.antt =====
-- `list_current` finds every capability that it lists
-- (src/hal9000/sentience/capabilities/registry.py).
use bollywood_hal.Prelude.{
  ◌+◌, ◌≡◌, refl, ◌∙◌, String, true, ◌=s◌, =s_refl, =s_iff, In, Bool, Bool-cases, sym, ap₂,
  text_leb, insert_text, sorted, some, is_some, List, [], ◌∷◌, map, length, All, inl, inr, arith,
  Option-cases, if_both,
}
use mathlib.Core.Path.{subst}
use bollywood_hal.Action.{ok}
use bollywood_hal.Storage.Table.{select_one}
use bollywood_hal.Sentience.Tables.{CurrentRow, Tables}
use bollywood_hal.Sentience.Capabilities.{CapabilityState, current, current_row, state_of_row}
use bollywood_hal.Sentience.Capabilities.Defaults.{current_all, list_current}

length-insert_text : (x : String) (ys : List String) → length (insert_text x ys) ≡ length ys + 1
unfolding insert_text
length-insert_text x [] = omega arith
length-insert_text x (y ∷ ys) = ground (arith, length-insert_text x ys)

length-sorted : (xs : List String) → length (sorted xs) ≡ length xs
unfolding sorted
length-sorted [] = refl
length-sorted (x ∷ xs) = omega (arith, length-insert_text x (sorted xs), length-sorted xs)

All-insert_text :
    (P : String → Type 0) (x : String) (ys : List String)
    → P x
    → All P ys
    → All P (insert_text x ys)
unfolding insert_text
All-insert_text P x [] h k = (h, tt)
All-insert_text P x (y ∷ ys) h k =
    if_both (All P) (text_leb x y) (x ∷ y ∷ ys) (y ∷ insert_text x ys) (h, k)
      (k.0, All-insert_text P x ys h k.1)

All-sorted : (P : String → Type 0) (xs : List String) → All P xs → All P (sorted xs)
unfolding sorted
All-sorted P [] h = tt
All-sorted P (x ∷ xs) h = All-insert_text P x (sorted xs) h.0 (All-sorted P xs h.1)

module _ {F : Type 0} where
  abbrev ids : List (CurrentRow F) → List String
  ids cs = map (λ (c : CurrentRow F). c.capability_id) cs

  -- the identity has a row
  abbrev Found : List (CurrentRow F) → String → Type 0
  Found cs id = is_some (select_one (λ (c : CurrentRow F). c.capability_id =s id) cs) ≡ true

  Found-more :
      (c : CurrentRow F) (cs : List (CurrentRow F)) (is : List String)
      → All (Found cs) is
      → All (Found (c ∷ cs)) is
  unfolding select_one
  Found-more c cs [] h = tt
  Found-more c cs (i ∷ is) h = (
    if_both (λ o. is_some o ≡ true) (c.capability_id =s i) (some c) _ refl h.0,
    Found-more c cs is h.1,
  )

  ids-Found : (cs : List (CurrentRow F)) → All (Found cs) (ids cs)
  unfolding select_one
  ids-Found [] = tt
  ids-Found (c ∷ cs) = (rw (=s_refl c.capability_id) refl, Found-more c cs (ids cs) (ids-Found cs))

  length-ids : (cs : List (CurrentRow F)) → length (ids cs) ≡ length cs
  length-ids [] = refl
  length-ids (c ∷ cs) = omega (arith, length-ids cs)

  row_state :
      (t : Tables F) (id : String) (r : CurrentRow F)
      → current_row t id ≡ some r
      → current t id ≡ ok (state_of_row r)
  unfolding current
  row_state t id r found = ground (arith, found)

  select_one-In :
      (test : CurrentRow F → Bool) (cs : List (CurrentRow F)) (r : CurrentRow F)
      → select_one test cs ≡ some r
      → In r cs × (test r ≡ true)
  unfolding select_one
  select_one-In test [] r h = absurd (cc)
  select_one-In test (c ∷ cs) r h = elim (Bool-cases (test c)) [
    | inl hit ↦
        let here : c ≡ r = ground (arith, h, hit) in
        (inl (sym here), subst (λ x. test x ≡ true) here hit)
    | inr miss ↦ let (there, passes) = select_one-In test cs r (rw miss at h) in (inr there, passes)
  ]

  -- the state shows a row of the table
  abbrev pub FromRow : List (CurrentRow F) → CapabilityState F → Type 0
  FromRow cs s = (r : CurrentRow F) × In r cs × (s ≡ state_of_row r)

  state_id : (r : CurrentRow F) → (state_of_row r).capability_id ≡ r.capability_id
  unfolding state_of_row
  state_id r = refl

  current-ok :
      (t : Tables F) (id : String)
      → Found t.current id
      → (s : CapabilityState F) × (current t id ≡ ok s)
        × (s.capability_id ≡ id)
        × FromRow t.current s
  unfolding current current_row
  current-ok t id h = elim (Option-cases (current_row t id)) [
    | inl missing ↦ absurd (cc (rw missing at h))
    | inr (r, found) ↦
        let (there, passes) =
          select_one-In (λ (c : CurrentRow F). c.capability_id =s id) t.current r found in
        (
          state_of_row r,
          row_state t id r found,
          state_id r ∙ (=s_iff r.capability_id id).0 passes,
          (r, there, refl),
        )
  ]

  abbrev state_ids : List (CapabilityState F) → List String
  state_ids ss = map (λ (s : CapabilityState F). s.capability_id) ss

  current_all-ok :
      (t : Tables F) (is : List String)
      → All (Found t.current) is
      → (ss : List (CapabilityState F)) × (current_all t is ≡ ok ss)
        × (state_ids ss ≡ is)
        × (length ss ≡ length is)
        × All (FromRow t.current) ss
  unfolding current_all
  current_all-ok t [] h = ([], refl, refl, refl, tt)
  current_all-ok t (i ∷ is) h =
      let (s, first, its_id, shown) = current-ok t i h.0 in
      let (ss, rest, ids_are, size, all_shown) = current_all-ok t is h.1 in
      (
        s ∷ ss,
        rw (first, rest) refl,
        ap₂ (λ x xs. x ∷ xs) its_id ids_are,
        omega (arith, size),
        (shown, all_shown),
      )

  -- On one reading of the tables, the list of the current capabilities is never cut short by a missing
  -- row: it returns, the identities of its states are those of the rows of `capability_current` in
  -- their sorted order, one for each row, and each state shows a row of the table.
  pub list_current-ok :
      (t : Tables F)
      → (ss : List (CapabilityState F)) × (list_current t ≡ ok ss)
        × (map (λ (s : CapabilityState F). s.capability_id) ss
            ≡ sorted (map (λ (c : CurrentRow F). c.capability_id) t.current))
        × (length ss ≡ length t.current)
        × All (FromRow t.current) ss
  unfolding list_current
  list_current-ok t =
      let (ss, listed, ids_are, size, shown) =
        current_all-ok t (sorted (ids t.current))
          (All-sorted (Found t.current) (ids t.current) (ids-Found t.current)) in
      (ss, listed, ids_are, size ∙ length-sorted (ids t.current) ∙ length-ids t.current, shown)
