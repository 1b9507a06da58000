-- ===== src/Sentience/Degradation/Change/Keeps.antt =====
-- Invariants of the degradation state machine (src/hal9000/sentience/degradation/engine.py).
use bollywood_hal.Prelude.{ℕ, ◌≡◌, refl, sym, ap, String, Option, none, some, arith, ◌∙◌}
use mathlib.Core.Path.{subst}
use bollywood_hal.Storage.Models.{DegradationSeverity}
use bollywood_hal.Storage.Table.{row_count}
use bollywood_hal.Sentience.Tables.{EpisodeRow, Tables}
use bollywood_hal.Sentience.Degradation.{active_row}
use bollywood_hal.Sentience.Degradation.Projections.{
  stop_task, enqueue_phrase, set_loss, set_degraded, set_cancelled, set_recovering, set_flapped,
  set_recovered,
}
use bollywood_hal.Sentience.Degradation.Selection.{
  active, other_active, select_latest-none, others_inactive, split_active,
}
use bollywood_hal.Sentience.Degradation.Exclusive.{
  Exclusive, set_episode-Exclusive, insert_episode-Exclusive,
}
use bollywood_hal.Sentience.Degradation.Change.{
  Reopens, aggregates, flaps, Change, unchanged, started, lost, confirmed, cancelled, restoring,
  flapped, recovered,
}

module _ {F : Type 0} where
  pub episodes-stop_task :
      (s : DegradationSeverity) (task : Option String) (stamp : ℕ) (t : Tables F)
      → (stop_task s task stamp t).episodes ≡ t.episodes
  unfolding stop_task
  episodes-stop_task s none stamp t = refl
  episodes-stop_task s (some k) stamp t = ground arith

  pub active-others :
      (t : Tables F) (row : EpisodeRow)
      → active_row t ≡ some row
      → Exclusive t.episodes
      → row_count (other_active row.episode_id) t.episodes ≡ 0
  unfolding active_row
  active-others t row read h =
      others_inactive (λ (r : EpisodeRow). r.started_at) t.episodes row read h.one_active

  idle_count : (t : Tables F) → active_row t ≡ none → row_count active t.episodes ≡ 0
  unfolding active_row
  idle_count t read = select_latest-none active (λ (r : EpisodeRow). r.started_at) t.episodes read

  reopened-others :
      (t : Tables F) (row : EpisodeRow)
      → Reopens t row
      → Exclusive t.episodes
      → row_count (other_active row.episode_id) t.episodes ≡ 0
  reopened-others t row (aggregates read) h = active-others t row read h
  reopened-others t row (flaps idle recent) h =
      omega (arith, idle_count t idle, split_active row.episode_id t.episodes)

  -- Every move of the machine keeps one row for an episode, and at most one active episode.
  pub Change-Exclusive :
      (t t' : Tables F) → Change t t' → Exclusive t.episodes → Exclusive t'.episodes
  unfolding set_loss set_degraded set_cancelled set_recovering set_flapped set_recovered
      enqueue_phrase
  Change-Exclusive t t' (unchanged e) h = subst (λ (u : Tables F). Exclusive u.episodes) (sym e) h
  Change-Exclusive t t' (started row u s task stamp idle st inserted e) h =
      subst Exclusive
        (sym (ap (λ (v : Tables F). v.episodes) e ∙ episodes-stop_task s task stamp u))
        (insert_episode-Exclusive row t u (idle_count t idle) h inserted)
  Change-Exclusive t t' (lost row loss event task stamp read e) h =
      subst Exclusive
        (sym (ap (λ (v : Tables F). v.episodes) e ∙ episodes-stop_task loss.severity task stamp _))
        (set_episode-Exclusive row.episode_id _ t (λ x. refl) (reopened-others t row read h) h)
  Change-Exclusive t t' (confirmed row stamp outbox phrase event read st missing e) h =
      subst (λ (u : Tables F). Exclusive u.episodes) (sym e)
        (set_episode-Exclusive row.episode_id (set_degraded stamp outbox event) t (λ x. refl)
          (active-others t row read h) h)
  Change-Exclusive t t' (cancelled row stamp monotonic event read st back e) h =
      subst (λ (u : Tables F). Exclusive u.episodes) (sym e)
        (set_episode-Exclusive row.episode_id (set_cancelled stamp monotonic event) t (λ x. refl)
          (active-others t row read h) h)
  Change-Exclusive t t' (restoring row profile boot stamp monotonic event read st back e) h =
      subst (λ (u : Tables F). Exclusive u.episodes) (sym e)
        (set_episode-Exclusive row.episode_id (set_recovering profile boot stamp monotonic event) t
          (λ x. refl) (active-others t row read h) h)
  Change-Exclusive t t' (flapped row profile event read st missing e) h =
      subst (λ (u : Tables F). Exclusive u.episodes) (sym e)
        (set_episode-Exclusive row.episode_id (set_flapped profile event) t (λ x. refl)
          (active-others t row read h) h)
  Change-Exclusive t t' (recovered row profile stamp monotonic outbox phrase event read st back e)
        h =
      subst (λ (u : Tables F). Exclusive u.episodes) (sym e)
        (set_episode-Exclusive row.episode_id (set_recovered profile stamp outbox monotonic event) t
          (λ x. refl) (active-others t row read h) h)
