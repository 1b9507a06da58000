-- ===== src/Sentience/Degradation/Losses.antt =====
-- What `on_transition` of `DegradationEngine` (src/hal9000/sentience/degradation/engine.py) does with a
-- transition of a capability: what is a loss, and what a loss and other news do to the episodes.
use bollywood_hal.Prelude.{
  ◌+◌, ◌≡◌, refl, ap, sym, ◌∙◌, String, Bool, true, false, not, ◌||◌, Option, none, some, [], ◌∷◌,
  ◌++◌, arith, inl, inr, Bool-cases, ◌⊎◌, if◌then◌else◌,
}
use bollywood_hal.Action.{ok, map-eq-ok}
use bollywood_hal.Storage.Models.{DegradationState, nominal, degrading, degraded, recovering}
use bollywood_hal.Sentience.Tables.{EpisodeRow, Tables}
use bollywood_hal.Sentience.Runtime.{Self, Now}
use bollywood_hal.Sentience.Impact.{is_material}
use bollywood_hal.Sentience.Episodes.{DegradationStatus}
use bollywood_hal.Sentience.Degradation.{
  CapabilityTransition, Engine, active_row, all_restored, recent_recovered_for_flap, is_ready,
}
use bollywood_hal.Sentience.Degradation.Records.{Fresh, engine_event, new_row}
use bollywood_hal.Sentience.Degradation.Projections.{Loss, set_episode, set_loss, set_recovering}
use bollywood_hal.Sentience.Degradation.Exclusive.{insert_episode_inv}
use bollywood_hal.Sentience.Degradation.Change.Keeps.{episodes-stop_task}
use bollywood_hal.Sentience.Degradation.Steps.{start_episode, aggregate_loss, start_recovery}
use bollywood_hal.Sentience.Degradation.Operations.{
  report, reporting, reconcile, reconcile_recovery, reconcile_lost, reconcile_restored, loss_on,
  or_flap, on_transition,
}
use bollywood_hal.Sentience.Degradation.Timing.{
  Unused, Reaches, append_new, reporting_inv, moved, cancel_transient-Reaches,
  return_to_degraded-Reaches, report-Reaches,
}

-- Where news that is no loss moves the active episode, by whether all that it requires is restored.
unfoldable pub settled : DegradationState → Bool → Option DegradationState
settled degrading true = some nominal
settled degraded true = some recovering
settled recovering false = some degraded
settled _ _ = none

-- Where a loss moves an episode.
unfoldable pub worsened : DegradationState → DegradationState
worsened degrading = degrading
worsened _ = degraded

-- One event more, and a new episode in DEGRADING that names the lost capability.
pub record Begins {F D : Type 0} (capability : String) (db next : Self F D) : Type 0 where
  pub advanced : next.last_sequence ≡ db.last_sequence + 1
  pub begun : EpisodeRow
  pub added : next.tables.episodes ≡ db.tables.episodes ++ begun ∷ []
  pub state : begun.state ≡ degrading
  pub lost : begun.lost_capabilities ≡ capability ∷ []

module _ {F D : Type 0} (db next : Self F D) where
  -- what is left where the news is no loss
  abbrev pub Settles : Option EpisodeRow → Type 0
  Settles none = next ≡ db
  Settles (some row) =
      Reaches (settled row.state (all_restored db.tables row.required_capabilities)) row.episode_id
        db next

  -- what a loss leaves: the active episode, or else one that recovered within the flap interval, is
  -- worse; or else a new one begins
  abbrev pub Worsens : String → Option EpisodeRow → Option EpisodeRow → Type 0
  Worsens capability (some row) recent = Reaches (some (worsened row.state)) row.episode_id db next
  Worsens capability none (some row) = Reaches (some (worsened row.state)) row.episode_id db next
  Worsens capability none none = Begins capability db next

module _ {A : Type 0} (a b c : Bool) (x y z : A) where
  first_branch :
      (a ≡ true) ⊎ (b ≡ true) → (if a then x else if b then x else if c then y else z) ≡ x
  first_branch h = ground arith

  second_branch :
      a ≡ false → b ≡ false → c ≡ true → (if a then x else if b then x else if c then y else z) ≡ y
  second_branch h k l = ground arith

  third_branch :
      a ≡ false → b ≡ false → c ≡ false → (if a then x else if b then x else if c then y else z) ≡ z
  third_branch h k l = ground arith

module _ {F D : Type 0} (e : Engine F D) (now : Now) (ids : Fresh) (db next : Self F D)
    (unused : Unused ids.event_id db.events) (profile : String) (r : DegradationStatus) where
  start_recovery-Reaches :
      (row : EpisodeRow)
      → reporting e (start_recovery e row profile now ids) db ≡ (ok r, next)
      → Reaches (some recovering) row.episode_id db next
  unfolding start_recovery engine_event set_episode set_recovering
  start_recovery-Reaches row h =
      let (st, ran) = reporting_inv e now ids db next (start_recovery e row profile now ids) r h in
      moved e now ids db next row.episode_id _ recovering _ _ st refl refl (λ x. refl) refl unused
        ran

  worse :
      (s : DegradationState) (loss : Loss) (event : String) (x : EpisodeRow)
      → (set_loss s loss event x).state ≡ worsened s
  unfolding set_loss worsened
  worse nominal loss event x = refl
  worse degrading loss event x = refl
  worse degraded loss event x = refl
  worse recovering loss event x = refl

  aggregate_loss-Reaches :
      (row : EpisodeRow) (q : CapabilityTransition) (fallback : Option String)
      → reporting e (aggregate_loss e row q profile fallback now ids) db ≡ (ok r, next)
      → Reaches (some (worsened row.state)) row.episode_id db next
  unfolding aggregate_loss engine_event set_episode
  aggregate_loss-Reaches row q fallback h =
      let (st, ran) =
        reporting_inv e now ids db next (aggregate_loss e row q profile fallback now ids) r h in
      moved e now ids db next row.episode_id _ (worsened row.state) _ _ st refl refl
        (λ x. worse row.state _ _ x) (episodes-stop_task _ _ _ _) unused ran

  start_episode-Begins :
      (q : CapabilityTransition) (fallback : Option String)
      → reporting e (start_episode e q profile fallback now ids) db ≡ (ok r, next)
      → Begins q.capability_id db next
  unfolding start_episode engine_event new_row
  start_episode-Begins q fallback h =
      let (st, ran) =
        reporting_inv e now ids db next (start_episode e q profile fallback now ids) r h in
      let (advanced, made) = append_new e.runtime _ now _ db next st refl unused ran in
      let (u, inserted, result) = map-eq-ok _ _ made in
      record {
        advanced = advanced;
        begun = _;
        added =
            ap (λ (t : Tables F). t.episodes) result
            ∙ episodes-stop_task _ _ _ u
            ∙ ap (λ (t : Tables F). t.episodes) (insert_episode_inv _ db.tables u inserted).0;
        state = refl;
        lost = refl;
      }

  reconcile_lost-Reaches :
      (row : EpisodeRow) (s : DegradationState)
      → reconcile_lost e s row profile now ids db ≡ (ok r, next)
      → Reaches (settled s false) row.episode_id db next
  unfolding reconcile_lost settled
  reconcile_lost-Reaches row nominal h = report-Reaches e now ids db next unused row r h
  reconcile_lost-Reaches row degrading h = report-Reaches e now ids db next unused row r h
  reconcile_lost-Reaches row degraded h = report-Reaches e now ids db next unused row r h
  reconcile_lost-Reaches row recovering h =
      return_to_degraded-Reaches e now ids db next unused row r profile h

  reconcile_restored-Reaches :
      (row : EpisodeRow) (s : DegradationState)
      → reconcile_restored e s row profile now ids db ≡ (ok r, next)
      → Reaches (settled s true) row.episode_id db next
  unfolding reconcile_restored settled
  reconcile_restored-Reaches row nominal h = report-Reaches e now ids db next unused row r h
  reconcile_restored-Reaches row degrading h =
      cancel_transient-Reaches e now ids db next unused row r h
  reconcile_restored-Reaches row degraded h = start_recovery-Reaches row h
  reconcile_restored-Reaches row recovering h = report-Reaches e now ids db next unused row r h

  reconcile_recovery-Settles :
      (row : EpisodeRow)
      → reconcile_recovery e row profile now ids db ≡ (ok r, next)
      → Settles db next (some row)
  unfolding reconcile_recovery
  reconcile_recovery-Settles row h =
      elim (Bool-cases (all_restored db.tables row.required_capabilities)) [
        | inl back ↦ rw back (reconcile_restored-Reaches row row.state (rw back at h))
        | inr missing ↦ rw missing (reconcile_lost-Reaches row row.state (rw missing at h))
      ]

  reconcile-Settles :
      (o : Option EpisodeRow) → reconcile e o profile now ids db ≡ (ok r, next) → Settles db next o
  unfolding reconcile
  reconcile-Settles none h = sym (ap (λ p. p.1) h)
  reconcile-Settles (some row) h = reconcile_recovery-Settles row h

  loss_on-Worsens :
      (o p : Option EpisodeRow) (q : CapabilityTransition) (fallback : Option String)
      → recent_recovered_for_flap e db.tables now ≡ p
      → reporting e (loss_on e (or_flap e o db.tables now) q profile fallback now ids) db
        ≡ (ok r, next)
      → Worsens db next q.capability_id o p
  unfolding loss_on or_flap
  loss_on-Worsens (some row) p q fallback read h = aggregate_loss-Reaches row q fallback h
  loss_on-Worsens none (some row) q fallback read h =
      aggregate_loss-Reaches row q fallback (rw read at h)
  loss_on-Worsens none none q fallback read h = start_episode-Begins q fallback (rw read at h)

  -- A call of on_transition that returns, under a fresh identity for its event. Of a capability that
  -- is READY, or a transition that is expected or not material, the news is no loss: the active episode
  -- moves to NOMINAL from DEGRADING and to RECOVERING from DEGRADED if all that it requires is
  -- restored, and back to DEGRADED from RECOVERING if not, and otherwise nothing changes. A loss
  -- whose impact is not material changes nothing. Any other loss leaves the active episode in
  -- DEGRADING if it was so and in DEGRADED if not, or, where none is active, does so with the one
  -- that recovered last if that is within the flap interval, or else begins an episode in DEGRADING
  -- that names the lost capability.
  pub on_transition-Told :
      (q : CapabilityTransition) (fallback : Option String)
      → on_transition e q profile fallback now ids db ≡ (ok r, next)
      → ((is_ready q.current ≡ true) ⊎ (q.material ≡ false) ⊎ (q.expected ≡ true)
          → Settles db next (active_row db.tables))
        × (is_ready q.current ≡ false
            → q.material ≡ true
            → q.expected ≡ false
            → (is_material q.task_impact ≡ false → next ≡ db)
              × (is_material q.task_impact ≡ true
                  → Worsens db next q.capability_id
                      (active_row db.tables)
                      (recent_recovered_for_flap e db.tables now)))
  unfolding on_transition
  on_transition-Told q fallback h =
      let ready = is_ready q.current in
      let quiet = not q.material || q.expected in
      let slight = not (is_material q.task_impact) in
      let settle = reconcile e (active_row db.tables) profile now ids db in
      let worsen =
        reporting e
          (loss_on e (or_flap e (active_row db.tables) db.tables now) q profile fallback now ids)
          db in
      let same = report e db in
      (
        λ no_loss. reconcile-Settles (active_row db.tables) (
            sym (first_branch ready quiet slight settle same worsen (ground (arith, no_loss))) ∙ h),
        λ lost material unexpected. (
          λ little. sym (
              ap (λ p. p.1)
                (sym (
                    second_branch ready quiet slight settle same worsen lost
                      (ground (arith, material, unexpected)) (ground (arith, little)))
                  ∙ h)),
          λ much.
              loss_on-Worsens (active_row db.tables) (recent_recovered_for_flap e db.tables now) q
                fallback refl
                (sym (
                    third_branch ready quiet slight settle same worsen lost
                      (ground (arith, material, unexpected)) (ground (arith, much)))
                  ∙ h),
        ),
      )
