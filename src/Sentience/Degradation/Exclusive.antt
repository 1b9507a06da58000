-- ===== src/Sentience/Degradation/Exclusive.antt =====
-- At most one degradation episode is active, whatever the engine is told.
use bollywood_hal.Prelude.{
  ◌+◌, ◌≡◌, ◌≤◌, String, List, [], ◌∷◌, ◌++◌, arith, sym, ◌=s◌, =s_iff, inl, inr, Bool-cases,
}
use mathlib.Core.Path.{subst}
use bollywood_hal.Action.{ok}
use bollywood_hal.Storage.Table.{row_count, row_count-append}
use bollywood_hal.Sentience.Tables.{EpisodeRow, Tables}
use bollywood_hal.Sentience.Degradation.Projections.{set_episode, insert_episode}
use bollywood_hal.Sentience.Degradation.Selection.{
  has_id, active, other_active, row_count-update_episode-le, row_count-update_ids,
}

-- An episode has one row, and at most one row is active.
pub record Exclusive (rows : List EpisodeRow) : Type 0 where
  pub one_row : (k : String) → row_count (has_id k) rows ≤ 1
  pub one_active : row_count active rows ≤ 1

count-one-le :
    (row : EpisodeRow) (k : String) (xs : List EpisodeRow)
    → row_count (has_id row.episode_id) xs ≡ 0
    → row_count (has_id k) xs ≤ 1
    → row_count (has_id k) xs + row_count (has_id k) (row ∷ []) ≤ 1
unfolding row_count
count-one-le row k xs absent one = elim (Bool-cases (row.episode_id =s k)) [
  | inl same ↦
      let e : row.episode_id ≡ k = (=s_iff row.episode_id k).0 same in
      let none_yet = subst (λ (j : String). row_count (has_id j) xs ≡ 0) e absent in
      ground (arith, none_yet)
  | inr other ↦ ground arith
]

count-active-one : (row : EpisodeRow) → row_count active (row ∷ []) ≤ 1
unfolding row_count
count-active-one row = ground arith

module _ {F : Type 0} where
  pub set_episode-Exclusive :
      (k : String) (change : EpisodeRow → EpisodeRow) (t : Tables F)
      → ((x : EpisodeRow) → (change x).episode_id ≡ x.episode_id)
      → row_count (other_active k) t.episodes ≡ 0
      → Exclusive t.episodes
      → Exclusive (set_episode k change t).episodes
  unfolding set_episode
  set_episode-Exclusive k change t keep others h = record {
    one_row = λ j. omega (arith, row_count-update_ids j k change t.episodes keep, h.one_row j);
    one_active = omega (arith, row_count-update_episode-le k change t.episodes, h.one_row k);
  }

  -- an INSERT that succeeds adds a row whose id no other row has
  pub insert_episode_inv :
      (row : EpisodeRow) (t t' : Tables F)
      → insert_episode row t ≡ ok t'
      → (t' ≡ record t { episodes = t.episodes ++ row ∷ [] })
        × (row_count (has_id row.episode_id) t.episodes ≡ 0)
  unfolding insert_episode
  insert_episode_inv row t t' inserted = (ground arith, ground arith)

  pub insert_episode-Exclusive :
      (row : EpisodeRow) (t t' : Tables F)
      → row_count active t.episodes ≡ 0
      → Exclusive t.episodes
      → insert_episode row t ≡ ok t'
      → Exclusive t'.episodes
  insert_episode-Exclusive row t t' none_active h inserted =
      let (is_new, absent) = insert_episode_inv row t t' inserted in
      subst (λ (u : Tables F). Exclusive u.episodes) (sym is_new)
        (record {
          one_row = λ k. omega (
            arith,
            row_count-append (has_id k) t.episodes (row ∷ []),
            count-one-le row k t.episodes absent (h.one_row k),
          );
          one_active =
              omega (arith, row_count-append active t.episodes (row ∷ []), count-active-one row);
        })
