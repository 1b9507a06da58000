-- ===== src/Sentience/Degradation/Timing.antt =====
-- What `tick` of `DegradationEngine` (src/hal9000/sentience/degradation/engine.py) does and when: the
-- windows that it waits for, and the state that it moves the active episode to.
use bollywood_hal.Prelude.{
  ℕ, ◌+◌, ◌≡◌, refl, ap, sym, ◌∙◌, String, Bool, true, false, ◌=s◌, Option, none, some, List, [],
  ◌∷◌, All, leb, arith, inl, inr, Bool-cases,
}
use mathlib.Core.Path.{subst}
use bollywood_hal.Action.{ok, Action, Result-cases, map-eq-ok, ok-injective}
use bollywood_hal.Storage.Models.{
  DegradationState, nominal, degrading, degraded, recovering, StoredEvent,
}
use bollywood_hal.Storage.Envelope.{Platform, Envelope, validate, with_payload}
use bollywood_hal.Storage.Rows.{Row, Codec, find_existing, same_key}
use bollywood_hal.Storage.Table.{update_where}
use bollywood_hal.Storage.Exact.{
  Projection, redacted, insert, append_validated, append_exact_event, run_projection,
}
use bollywood_hal.Storage.Exact.Append.{old, fresh, insert_inv, ok_of_transaction}
use bollywood_hal.Sentience.Tables.{EpisodeRow, Tables}
use bollywood_hal.Sentience.Runtime.{Runtime, Self, Now, NewEvent, append, new_event}
use bollywood_hal.Sentience.Episodes.{DegradationStatus}
use bollywood_hal.Sentience.Degradation.{Engine, active_row, all_restored, elapsed_ns, seconds}
use bollywood_hal.Sentience.Degradation.Records.{Fresh, engine_event}
use bollywood_hal.Sentience.Degradation.Projections.{
  set_episode, enqueue_phrase, set_degraded, set_cancelled, set_flapped, set_recovered,
}
use bollywood_hal.Sentience.Degradation.Steps.{
  enter_degraded, cancel_transient, return_to_degraded, finish_recovery,
}
use bollywood_hal.Sentience.Degradation.Operations.{
  report, reporting, once, tick_state, tick_row, tick_active, tick,
}

-- no event has the identity
abbrev pub Unused : {P F D : Type 0} → String → List (Row P F D) → Type 0
Unused id rows = All (λ (r : Row _ _ _). (r.event.event_id =s id) ≡ false) rows

module _ {P F D : Type 0} where
  find_existing-Unused :
      (e : Envelope P F) (rows : List (Row P F D))
      → e.idempotency_key ≡ none
      → Unused e.event_id rows
      → find_existing e rows ≡ none
  unfolding find_existing same_key
  find_existing-Unused e [] no_key h = refl
  find_existing-Unused e (r ∷ rows) no_key h =
      rw (h.0, no_key) (find_existing-Unused e rows no_key h.1)

  redacted-fields :
      (p : Platform P F) (c : Codec P F D) (e r : Envelope P F)
      → redacted p c e ≡ ok r
      → (r.event_id ≡ e.event_id) × (r.idempotency_key ≡ e.idempotency_key)
  unfolding redacted with_payload
  redacted-fields p c e r h = elim (Result-cases (validate p e)) [
    | inr (x, invalid) ↦ absurd (ground (arith))
    | inl (u, valid) ↦
        let returned : with_payload p e (c.redact e.payload) ≡ ok r = ground arith in
        let (v, ran, is_r) =
          map-eq-ok (validate p (record e { payload = c.redact e.payload }))
            (λ _. record e { payload = c.redact e.payload }) returned in
        (
          ap (λ (z : Envelope P F). z.event_id) is_r,
          ap (λ (z : Envelope P F). z.idempotency_key) is_r,
        )
  ]

module _ {F D : Type 0} (rt : Runtime F D) where
  -- an append that returns, of an event with a new identity and no key, has run its projection
  pub append_new :
      (n : NewEvent) (now : Now) (project : Projection (Tables F)) (db next : Self F D)
      (st : StoredEvent)
      → n.idempotency_key ≡ none
      → Unused n.event_id db.events
      → append rt n now project db ≡ (ok st, next)
      → (next.last_sequence ≡ db.last_sequence + 1)
        × (project (db.last_sequence + 1) db.tables ≡ ok next.tables)
  unfolding append append_exact_event append_validated new_event run_projection
  append_new n now project db next st no_key unused h =
      elim (Result-cases (redacted rt.platform rt.codec (new_event rt n now))) [
        | inr (x, invalid) ↦ absurd (ground (arith, invalid))
        | inl (r, valid) ↦
            let (same_id, same) =
              redacted-fields rt.platform rt.codec (new_event rt n now) r valid in
            let unknown =
              find_existing-Unused r db.events (same ∙ no_key)
                (subst (λ i. Unused i db.events) (sym same_id) unused) in
            elim (insert_inv rt.codec none (some project) r db next st (
              ok_of_transaction (insert rt.codec none (some project) r) db
                (ground (arith, valid)))) [
                  | old row found is_st is_db ↦ absurd (ground (arith, unknown, found))
                  | fresh t none_yet ran is_st is_db ↦ (
                    ap (λ (d : Self F D). d.last_sequence) is_db,
                    ran ∙ ap ok (sym (ap (λ (d : Self F D). d.tables) is_db)),
                  )
                ]
      ]

-- each row of the episode is in the state
pub InState : String → DegradationState → List EpisodeRow → Type 0
InState k s rows = All (λ (r : EpisodeRow). (r.episode_id =s k) ≡ true → r.state ≡ s) rows

InState-update :
    (k : String) (s : DegradationState) (change : EpisodeRow → EpisodeRow) (xs : List EpisodeRow)
    → ((x : EpisodeRow) → (change x).state ≡ s)
    → InState k s (update_where (λ (r : EpisodeRow). r.episode_id =s k) change xs)
unfolding InState update_where
InState-update k s change [] sets = tt
InState-update k s change (x ∷ xs) sets = elim (Bool-cases (x.episode_id =s k)) [
  | inl hit ↦ rw hit (λ _. sets x, InState-update k s change xs sets)
  | inr miss ↦
      rw miss (λ hit. absurd (ground (arith, hit, miss)), InState-update k s change xs sets)
]

-- Where an active episode is to go: by its state, whether all that it requires is restored, whether
-- the aggregation window is over, and whether the recovery was stable long enough.
unfoldable pub target : DegradationState → Bool → Bool → Bool → Option DegradationState
target degrading true true stable = some nominal
target degrading false true stable = some degraded
target recovering false closed stable = some degraded
target recovering true closed true = some nominal
target _ _ _ _ = none

-- What a tick that returns leaves: all as it was, or one event more and the episode in the state.
unfoldable pub Reaches :
    {F D : Type 0} → Option DegradationState → String → Self F D → Self F D → Type 0
Reaches none k db next = next ≡ db
Reaches (some s) k db next =
    (next.last_sequence ≡ db.last_sequence + 1) × InState k s next.tables.episodes

module _ {F D : Type 0} (e : Engine F D) (now : Now) (ids : Fresh) (db next : Self F D) where
  pub reporting_inv :
      (m : Action (Self F D) StoredEvent) (r : DegradationStatus)
      → reporting e m db ≡ (ok r, next)
      → (st : StoredEvent) × (m db ≡ (ok st, next))
  reporting_inv m r h = elim (Result-cases (m db).0) [
    | inl (st, ran) ↦ (st, ground (arith, h, ran))
    | inr (x, failed) ↦ absurd (ground (arith, h, failed))
  ]

  -- the window after which an episode is confirmed or cancelled is over
  abbrev pub is_closed : EpisodeRow → Bool
  is_closed row = leb (seconds e.settings.aggregation_window_seconds) (
      elapsed_ns e.runtime.boot_id row.timer_boot_id (some row.started_at) row.started_monotonic_ns
        now)

  -- the recovery was stable for as long as is asked
  abbrev pub is_stable : EpisodeRow → Bool
  is_stable row = leb (seconds e.settings.recovery_stability_seconds) (
      elapsed_ns e.runtime.boot_id row.timer_boot_id row.recovery_started_at
        row.recovery_started_monotonic_ns now)

  -- an append whose projection sets the state of an episode
  pub moved :
      (k : String) (n : NewEvent) (s : DegradationState) (change : EpisodeRow → EpisodeRow)
      (to : ℕ → Tables F → Tables F) (st : StoredEvent)
      → n.idempotency_key ≡ none
      → n.event_id ≡ ids.event_id
      → ((x : EpisodeRow) → (change x).state ≡ s)
      → (to (db.last_sequence + 1) db.tables).episodes
        ≡ update_where (λ (x : EpisodeRow). x.episode_id =s k) change db.tables.episodes
      → Unused ids.event_id db.events
      → append e.runtime n now (λ i t. ok (to i t)) db ≡ (ok st, next)
      → Reaches (some s) k db next
  unfolding Reaches
  moved k n s change to st no_key its_id sets changed unused ran =
      let (advanced, made) =
        append_new e.runtime n now _ db next st no_key
          (subst (λ i. Unused i db.events) (sym its_id) unused) ran in
      (
        advanced,
        subst (λ (t : Tables F). InState k s t.episodes) (ok-injective made)
            (subst (InState k s) (sym changed) (InState-update k s change db.tables.episodes sets)),
      )

  module _ (unused : Unused ids.event_id db.events) (row : EpisodeRow) (r : DegradationStatus) where
    pub cancel_transient-Reaches :
        reporting e (cancel_transient e row now ids) db ≡ (ok r, next)
        → Reaches (some nominal) row.episode_id db next
    unfolding cancel_transient engine_event Reaches set_episode set_cancelled
    cancel_transient-Reaches h =
        let (st, ran) = reporting_inv (cancel_transient e row now ids) r h in
        moved row.episode_id _ nominal _ _ st refl refl (λ x. refl) refl unused ran

    enter_degraded-Reaches :
        reporting e (enter_degraded e row now ids) db ≡ (ok r, next)
        → Reaches (some degraded) row.episode_id db next
    unfolding enter_degraded engine_event Reaches set_episode set_degraded enqueue_phrase
    enter_degraded-Reaches h =
        let (st, ran) = reporting_inv (enter_degraded e row now ids) r h in
        moved row.episode_id _ degraded _ _ st refl refl (λ x. refl) refl unused ran

    pub return_to_degraded-Reaches :
        (profile : String)
        → reporting e (return_to_degraded e row profile now ids) db ≡ (ok r, next)
        → Reaches (some degraded) row.episode_id db next
    unfolding return_to_degraded engine_event Reaches set_episode set_flapped
    return_to_degraded-Reaches profile h =
        let (st, ran) = reporting_inv (return_to_degraded e row profile now ids) r h in
        moved row.episode_id _ degraded _ _ st refl refl (λ x. refl) refl unused ran

    finish_recovery-Reaches :
        reporting e (finish_recovery e row now ids) db ≡ (ok r, next)
        → Reaches (some nominal) row.episode_id db next
    unfolding finish_recovery engine_event Reaches set_episode set_recovered enqueue_phrase
    finish_recovery-Reaches h =
        let (st, ran) = reporting_inv (finish_recovery e row now ids) r h in
        moved row.episode_id _ nominal _ _ st refl refl (λ x. refl) refl unused ran

    pub report-Reaches : report e db ≡ (ok r, next) → Reaches none row.episode_id db next
    unfolding Reaches
    report-Reaches h = sym (ap (λ p. p.1) h)

    tick_state-Reaches :
        (s : DegradationState) (restored : Bool)
        → tick_state e s restored row now ids db ≡ (ok r, next)
        → Reaches (target s restored (is_closed row) (is_stable row)) row.episode_id db next
    unfolding tick_state once target
    tick_state-Reaches degrading true h = elim (Bool-cases (is_closed row)) [
      | inl over ↦ rw over (cancel_transient-Reaches (rw over at h))
      | inr open_yet ↦ rw open_yet (report-Reaches (rw open_yet at h))
    ]
    tick_state-Reaches degrading false h = elim (Bool-cases (is_closed row)) [
      | inl over ↦ rw over (enter_degraded-Reaches (rw over at h))
      | inr open_yet ↦ rw open_yet (report-Reaches (rw open_yet at h))
    ]
    tick_state-Reaches recovering true h = elim (Bool-cases (is_stable row)) [
      | inl long ↦ rw long (finish_recovery-Reaches (rw long at h))
      | inr short ↦ rw short (report-Reaches (rw short at h))
    ]
    tick_state-Reaches recovering false h = return_to_degraded-Reaches row.active_profile h
    tick_state-Reaches nominal restored h = report-Reaches h
    tick_state-Reaches degraded true h = report-Reaches h
    tick_state-Reaches degraded false h = report-Reaches h

  -- A tick that returns, under a fresh identity for its event, does what the state of the active
  -- episode and the clocks ask for, and only then. A DEGRADING episode moves when the aggregation
  -- window is over, to NOMINAL if all that it requires is restored and to DEGRADED if not; a RECOVERING
  -- one moves back to DEGRADED at once if something that it requires is lost, and to NOMINAL when all
  -- was restored for as long as the stability asks. A move adds one event and leaves the episode in the new state;
  -- otherwise nothing at all changes.
  pub tick-Reaches :
      Unused ids.event_id db.events
      → (row : EpisodeRow) (r : DegradationStatus) → active_row db.tables ≡ some row
      → tick e now ids db ≡ (ok r, next)
      → Reaches
          (target row.state
            (all_restored db.tables row.required_capabilities)
            (is_closed row)
            (is_stable row))
          row.episode_id
          db
          next
  unfolding tick tick_active tick_row
  tick-Reaches unused row r read h =
      tick_state-Reaches unused row r row.state (all_restored db.tables row.required_capabilities)
        (rw read at h)
