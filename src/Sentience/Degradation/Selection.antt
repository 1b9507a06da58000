-- ===== src/Sentience/Degradation/Selection.antt =====
-- The row that an operation of `DegradationEngine` reads, among the rows of the table.
use bollywood_hal.Prelude.{
  ℕ, ◌+◌, ◌≡◌, ◌≤◌, ◌<◌, refl, String, Bool, true, not, ◌&&◌, ◌=s◌, =s_refl, none, some, List, [],
  ◌∷◌, All, arith, inl, inr, Bool-cases,
}
use bollywood_hal.Storage.Table.{update_where, row_count, select_latest, later}
use bollywood_hal.Sentience.Tables.{EpisodeRow}
use bollywood_hal.Sentience.Degradation.{is_active}

abbrev pub has_id : String → EpisodeRow → Bool
has_id k r = r.episode_id =s k

abbrev pub active : EpisodeRow → Bool
active r = is_active r.state

-- an active row of another episode than `k`
abbrev pub other_active : String → EpisodeRow → Bool
other_active k r = is_active r.state && not (r.episode_id =s k)

-- the selected row passes the test and stands in the table
pub select_latest_counted :
    (test : EpisodeRow → Bool) (key : EpisodeRow → ℕ) (xs : List EpisodeRow) (r : EpisodeRow)
    → select_latest test key xs ≡ some r
    → (test r ≡ true) × (0 < row_count (λ x. test x && has_id r.episode_id x) xs)
unfolding select_latest row_count later
select_latest_counted test key [] r h = cc
select_latest_counted test key (x ∷ xs) r h =
    ground (arith, select_latest_counted test key xs r, =s_refl r.episode_id)

pub select_latest-none :
    (test : EpisodeRow → Bool) (key : EpisodeRow → ℕ) (xs : List EpisodeRow)
    → select_latest test key xs ≡ none
    → row_count test xs ≡ 0
unfolding select_latest row_count later
select_latest-none test key [] h = refl
select_latest-none test key (x ∷ xs) h = ground (arith, select_latest-none test key xs)

pub split_active :
    (k : String) (ys : List EpisodeRow)
    → row_count active ys
      ≡ row_count (λ x. active x && has_id k x) ys + row_count (other_active k) ys
unfolding row_count
split_active k [] = refl
split_active k (y ∷ ys) = ground (arith, split_active k ys)

-- with one active row at most, the rows of other episodes are not active
pub others_inactive :
    (key : EpisodeRow → ℕ) (xs : List EpisodeRow) (r : EpisodeRow)
    → select_latest active key xs ≡ some r
    → row_count active xs ≤ 1
    → row_count (other_active r.episode_id) xs ≡ 0
others_inactive key xs r h one =
    omega (arith, split_active r.episode_id xs, (select_latest_counted active key xs r h).1)

-- after an update of one episode, the active rows are among that episode's and the other active ones
pub row_count-update_episode-le :
    (k : String) (change : EpisodeRow → EpisodeRow) (xs : List EpisodeRow)
    → row_count active (update_where (has_id k) change xs)
      ≤ row_count (has_id k) xs + row_count (other_active k) xs
unfolding row_count update_where
row_count-update_episode-le k change [] = omega arith
row_count-update_episode-le k change (x ∷ xs) =
    ground (arith, row_count-update_episode-le k change xs)

-- an update that leaves the ids alone keeps the number of rows of each episode
pub row_count-update_ids :
    (j k : String) (change : EpisodeRow → EpisodeRow) (xs : List EpisodeRow)
    → ((x : EpisodeRow) → (change x).episode_id ≡ x.episode_id)
    → row_count (has_id j) (update_where (has_id k) change xs) ≡ row_count (has_id j) xs
unfolding row_count update_where
row_count-update_ids j k change [] keep = refl
row_count-update_ids j k change (x ∷ xs) keep = elim (Bool-cases (has_id k x)) [
  | inl hit ↦ rw (hit, keep x, row_count-update_ids j k change xs keep)
  | inr miss ↦ rw (miss, row_count-update_ids j k change xs keep)
]

-- The row that was read stands for its episode: where an id names one row, each row with the id of
-- the selected one has the state that was read.
unfoldable pub ReadState : EpisodeRow → List EpisodeRow → Type 0
ReadState r = All (λ (x : EpisodeRow). (x.episode_id =s r.episode_id) ≡ true → x.state ≡ r.state)

pub ReadState-absent :
    (r : EpisodeRow) (xs : List EpisodeRow)
    → row_count (has_id r.episode_id) xs ≡ 0
    → ReadState r xs
unfolding row_count ReadState
ReadState-absent r [] h = tt
ReadState-absent r (x ∷ xs) h =
    (λ same. absurd (ground arith), ReadState-absent r xs (ground arith))
