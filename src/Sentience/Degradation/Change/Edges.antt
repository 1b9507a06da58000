-- ===== src/Sentience/Degradation/Change/Edges.antt =====
-- The moves that the engine (src/hal9000/sentience/degradation/engine.py) makes between the states of
-- an episode. docs/degradation_behavior.md draws the cycle `confirm`, `restore`, `recover`; a loss that
-- passes (`pass_over`), one during the recovery (`flap`) and one soon after it (`reopen`) are edges of
-- the code beside that drawing.
use bollywood_hal.Prelude.{
  ◌⊎◌, ℕ, ◌≡◌, ◌≤◌, ◌<◌, refl, sym, ap, ◌∙◌, ◌=s◌, =s_refl, Bool, some, List, [], ◌∷◌, ◌++◌, ◌&&◌,
  All, arith, inl, inr, Bool-cases,
}
use mathlib.Core.Path.{subst}
use bollywood_hal.Storage.Models.{DegradationState, nominal, degrading, degraded, recovering}
use bollywood_hal.Storage.Table.{update_where, row_count, select_latest, later}
use bollywood_hal.Sentience.Tables.{EpisodeRow, Tables}
use bollywood_hal.Sentience.Degradation.{active_row, latest_recovered, is_active}
use bollywood_hal.Sentience.Degradation.Projections.{
  set_episode, enqueue_phrase, after_loss, set_loss, set_degraded, set_cancelled, set_recovering,
  set_flapped, set_recovered,
}
use bollywood_hal.Sentience.Degradation.Selection.{
  has_id, ReadState, ReadState-absent, select_latest_counted,
}
use bollywood_hal.Sentience.Degradation.Exclusive.{Exclusive, insert_episode_inv}
use bollywood_hal.Sentience.Degradation.Change.{
  Reopens, aggregates, flaps, Change, unchanged, started, lost, confirmed, cancelled, restoring,
  flapped, recovered,
}
use bollywood_hal.Sentience.Degradation.Change.Keeps.{episodes-stop_task}

pub data Edge : DegradationState → DegradationState → Type 0 where
  stay : {s : DegradationState} → Edge s s
  confirm : Edge degrading degraded
  pass_over : Edge degrading nominal
  restore : Edge degraded recovering
  flap : Edge recovering degraded
  recover : Edge recovering nominal
  reopen : Edge nominal degraded

-- No row is deleted or renamed, each moves along an edge, and new rows begin in DEGRADING.
unfoldable pub Evolves : List EpisodeRow → List EpisodeRow → Type 0
Evolves [] ys = All (λ (y : EpisodeRow). y.state ≡ degrading) ys
Evolves (x ∷ xs) [] = ⊥
Evolves (x ∷ xs) (y ∷ ys) = (y.episode_id ≡ x.episode_id) × Edge x.state y.state × Evolves xs ys

pub Evolves-refl : (xs : List EpisodeRow) → Evolves xs xs
unfolding Evolves
Evolves-refl [] = tt
Evolves-refl (x ∷ xs) = (refl, stay, Evolves-refl xs)

Evolves-insert :
    (xs : List EpisodeRow) (row : EpisodeRow) → row.state ≡ degrading → Evolves xs (xs ++ row ∷ [])
unfolding Evolves
Evolves-insert [] row h = (h, tt)
Evolves-insert (x ∷ xs) row h = (refl, stay, Evolves-insert xs row h)

Evolves-update :
    (row : EpisodeRow) (change : EpisodeRow → EpisodeRow) (xs : List EpisodeRow)
    → ((x : EpisodeRow) → (change x).episode_id ≡ x.episode_id)
    → ((x : EpisodeRow) → Edge row.state (change x).state)
    → ReadState row xs
    → Evolves xs (update_where (has_id row.episode_id) change xs)
unfolding Evolves update_where ReadState
Evolves-update row change [] keep edge read = tt
Evolves-update row change (x ∷ xs) keep edge read = elim (Bool-cases (has_id row.episode_id x)) [
  | inl hit ↦ rw hit (
    keep x,
    subst (λ s. Edge s (change x).state) (sym (read.0 hit)) (edge x),
    Evolves-update row change xs keep edge read.1,
  )
  | inr miss ↦ rw miss (refl, stay, Evolves-update row change xs keep edge read.1)
]

row_count-and-le :
    (p q : EpisodeRow → Bool) (xs : List EpisodeRow)
    → row_count (λ x. p x && q x) xs ≤ row_count q xs
unfolding row_count
row_count-and-le p q [] = omega arith
row_count-and-le p q (x ∷ xs) = ground (arith, row_count-and-le p q xs)

select_latest_cons :
    (test : EpisodeRow → Bool) (key : EpisodeRow → ℕ) (x : EpisodeRow) (xs : List EpisodeRow)
    (row : EpisodeRow)
    → select_latest test key (x ∷ xs) ≡ some row
    → (x ≡ row) ⊎ (select_latest test key xs ≡ some row)
unfolding select_latest later
select_latest_cons test key x xs row h = ground arith

selected-counted :
    (test : EpisodeRow → Bool) (key : EpisodeRow → ℕ) (xs : List EpisodeRow) (row : EpisodeRow)
    → select_latest test key xs ≡ some row
    → 0 < row_count (has_id row.episode_id) xs
selected-counted test key xs row h = omega (
  arith,
  (select_latest_counted test key xs row h).1,
  row_count-and-le test (has_id row.episode_id) xs,
)

-- what was read is what stands in the table, as an episode has one row
ReadState-select :
    (test : EpisodeRow → Bool) (key : EpisodeRow → ℕ) (xs : List EpisodeRow) (row : EpisodeRow)
    → select_latest test key xs ≡ some row
    → row_count (has_id row.episode_id) xs ≤ 1
    → ReadState row xs
unfolding row_count ReadState
ReadState-select test key [] row h one = tt
ReadState-select test key (x ∷ xs) row h one = elim (select_latest_cons test key x xs row h) [
  | inl here ↦ (
    λ _. ap (λ (r : EpisodeRow). r.state) here,
    ReadState-absent row xs (
        ground (
          arith,
          ap (λ (r : EpisodeRow). r.episode_id =s row.episode_id) here,
          =s_refl row.episode_id,
        )),
  )
  | inr later_on ↦ (
    λ same. absurd (ground (arith, selected-counted test key xs row later_on)),
    ReadState-select test key xs row later_on (ground arith),
  )
]

module _ {F : Type 0} (t : Tables F) (h : Exclusive t.episodes) where
  read_active : (row : EpisodeRow) → active_row t ≡ some row → ReadState row t.episodes
  unfolding active_row
  read_active row read =
      ReadState-select (λ (r : EpisodeRow). is_active r.state) (λ (r : EpisodeRow). r.started_at)
        t.episodes row read (h.one_row row.episode_id)

  read_reopened : (row : EpisodeRow) → Reopens t row → ReadState row t.episodes
  unfolding latest_recovered
  read_reopened row (aggregates read) = read_active row read
  read_reopened row (flaps idle recent) =
      ReadState-select _ _ t.episodes row recent (h.one_row row.episode_id)

  moved :
      (row : EpisodeRow) (change : EpisodeRow → EpisodeRow)
      → ((x : EpisodeRow) → (change x).episode_id ≡ x.episode_id)
      → ((x : EpisodeRow) → Edge row.state (change x).state)
      → ReadState row t.episodes
      → Evolves t.episodes (set_episode row.episode_id change t).episodes
  unfolding set_episode
  moved row change keep edge read = Evolves-update row change t.episodes keep edge read

edge_of_loss : (s : DegradationState) → Edge s (after_loss s)
edge_of_loss nominal = reopen
edge_of_loss degrading = stay
edge_of_loss degraded = stay
edge_of_loss recovering = flap

from_state : {s s' : DegradationState} {r : DegradationState} → r ≡ s → Edge s s' → Edge r s'
from_state {s' = s'} e edge = subst (λ q. Edge q s') (sym e) edge

module _ {F : Type 0} where
  -- A move of the machine moves each episode along an edge.
  pub Change-Evolves :
      (t t' : Tables F) → Exclusive t.episodes → Change t t' → Evolves t.episodes t'.episodes
  unfolding set_loss set_degraded set_cancelled set_recovering set_flapped set_recovered
      enqueue_phrase
  Change-Evolves t t' h (unchanged e) =
      subst (λ (u : Tables F). Evolves t.episodes u.episodes) (sym e) (Evolves-refl t.episodes)
  Change-Evolves t t' h (started row u s task stamp idle st inserted e) =
      subst (Evolves t.episodes)
        (sym (
          ap (λ (v : Tables F). v.episodes) e
          ∙ episodes-stop_task s task stamp u
          ∙ ap (λ (v : Tables F). v.episodes) (insert_episode_inv row t u inserted).0))
        (Evolves-insert t.episodes row st)
  Change-Evolves t t' h (lost row loss event task stamp read e) =
      subst (Evolves t.episodes)
        (sym (ap (λ (v : Tables F). v.episodes) e ∙ episodes-stop_task loss.severity task stamp _))
        (moved t h row _ (λ x. refl) (λ x. edge_of_loss row.state) (read_reopened t h row read))
  Change-Evolves t t' h (confirmed row stamp outbox phrase event read st missing e) =
      subst (λ (u : Tables F). Evolves t.episodes u.episodes) (sym e)
        (moved t h row (set_degraded stamp outbox event) (λ x. refl) (λ x. from_state st confirm)
          (read_active t h row read))
  Change-Evolves t t' h (cancelled row stamp monotonic event read st back e) =
      subst (λ (u : Tables F). Evolves t.episodes u.episodes) (sym e)
        (moved t h row (set_cancelled stamp monotonic event) (λ x. refl)
          (λ x. from_state st pass_over) (read_active t h row read))
  Change-Evolves t t' h (restoring row profile boot stamp monotonic event read st back e) =
      subst (λ (u : Tables F). Evolves t.episodes u.episodes) (sym e)
        (moved t h row (set_recovering profile boot stamp monotonic event) (λ x. refl)
          (λ x. from_state st restore) (read_active t h row read))
  Change-Evolves t t' h (flapped row profile event read st missing e) =
      subst (λ (u : Tables F). Evolves t.episodes u.episodes) (sym e)
        (moved t h row (set_flapped profile event) (λ x. refl) (λ x. from_state st flap)
          (read_active t h row read))
  Change-Evolves t t' h (recovered row profile stamp monotonic outbox phrase event read st back e) =
      subst (λ (u : Tables F). Evolves t.episodes u.episodes) (sym e)
        (moved t h row (set_recovered profile stamp outbox monotonic event) (λ x. refl)
          (λ x. from_state st recover) (read_active t h row read))
