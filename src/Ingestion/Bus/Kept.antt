-- ===== src/Ingestion/Bus/Kept.antt =====
-- What a publish does to the sizes that a bus keeps (BoundedEventBus, src/hal9000/sentience/event_bus.py).
use bollywood_hal.Prelude.{
  ℕ, ◌+◌, ◌≡◌, ◌≤◌, refl, ◌∙◌, String, Bool, true, false, not, ◌&&◌, Option, none, List, [], ◌∷◌,
  ◌++◌, length, length-append, ltb, arith, inl, inr, Option-cases, if_both, if_cases, contains,
  text_startswith, ◌+s◌,
}
use bollywood_hal.Action.{Exception, Result, ok, raised, bind, Action, Result-cases}
use bollywood_hal.Storage.Json.{Json}
use bollywood_hal.Storage.Envelope.{Envelope, validate}
use bollywood_hal.Storage.Exact.{Projection}
use bollywood_hal.Sentience.Runtime.{Runtime, Now}
use bollywood_hal.Ingestion.Observations.{EventRunInput, Normalizer}
use bollywood_hal.Storage.Exact.Known.{has_key}
use bollywood_hal.Ingestion.Bus.Events.{first_high_severity}
use bollywood_hal.Ingestion.Bus.Drops.{DropReason, total}
use bollywood_hal.Ingestion.Bus.Drops.Bounds.{Counters, record_drop-Counters, record_drop-total}
use bollywood_hal.Ingestion.Bus.{
  SampleRate, Bus, high_fingerprint_capacity, remove_text, drop_oldest, remember, is_severe,
  sample_internal_event, drop_observation, enqueue, publish_exact, publish_new,
  persist_first_high_severity, accept, accept_internal, publish_observation,
}

abbrev pub counted : {A : Type 0} → Result A → ℕ
counted (ok a) = 1
counted (raised e) = 0

length-remove_text : (x : String) (xs : List String) → length (remove_text x xs) ≤ length xs
unfolding remove_text
length-remove_text x [] = omega arith
length-remove_text x (y ∷ ys) = ground (arith, length-remove_text x ys)

length-drop_oldest : (xs : List String) (n : ℕ) → length xs ≤ n + 1 → length (drop_oldest xs) ≤ n
length-drop_oldest [] n h = omega arith
length-drop_oldest (x ∷ xs) n h = omega (arith, h)

length-remember :
    (x : String) (xs : List String)
    → length xs ≤ high_fingerprint_capacity
    → length (remember x xs) ≤ high_fingerprint_capacity
unfolding remember
length-remember x xs h =
    if_cases (λ (z : List String). length z ≤ high_fingerprint_capacity)
      (ltb high_fingerprint_capacity (length (remove_text x xs ++ x ∷ []))) _
      (remove_text x xs ++ x ∷ []) (λ over. length-drop_oldest _ high_fingerprint_capacity within)
      (λ under. ground (arith, under))
  where
    within : length (remove_text x xs ++ x ∷ []) ≤ high_fingerprint_capacity + 1
    within = omega (arith, length-append (remove_text x xs) (x ∷ []), length-remove_text x xs, h)

module _ {F D T : Type 0} where
  pub record Sound (b : Bus F D T) : Type 0 where
    pub is_open : b.closed ≡ false
    pub counters : Counters b.drops
    pub waiting : length b.telemetry ≤ b.telemetry_capacity
    pub known : length b.high_fingerprints ≤ high_fingerprint_capacity

  -- the observations that wait or are counted as dropped
  abbrev pub weight : Bus F D T → ℕ
  weight b = length b.telemetry + total b.drops

  -- what an operation does that answers one observation
  pub record Answers (b : Bus F D T) (r : Result Bool) (b' : Bus F D T) : Type 0 where
    pub sound : Sound b'
    pub weighs : weight b' ≡ weight b + counted r
    pub size : b'.telemetry_capacity ≡ b.telemetry_capacity

  drop_observation-Answers :
      (item : EventRunInput) (reason : DropReason) (b : Bus F D T)
      → Sound b
      → Answers b (drop_observation item reason b).0 (drop_observation item reason b).1
  unfolding drop_observation
  drop_observation-Answers item reason b s = elim (Option-cases item.observed_at) [
    | inl naive ↦ rw naive (record { sound = s; weighs = omega arith; size = refl })
    | inr (stamp, aware) ↦ rw aware (record {
      sound = record {
        is_open = s.is_open;
        counters = record_drop-Counters item.source item.type reason stamp b.drops s.counters;
        waiting = s.waiting;
        known = s.known;
      };
      weighs =
          omega (arith, record_drop-total item.source item.type reason stamp b.drops s.counters);
      size = refl;
    })
  ]

  enqueue-Answers :
      (item : EventRunInput) (b : Bus F D T)
      → Sound b
      → Answers b (enqueue item b).0 (enqueue item b).1
  unfolding enqueue
  enqueue-Answers item b s =
      if_cases (λ (o : Result Bool × Bus F D T). Answers b o.0 o.1)
        (ltb (length b.telemetry) b.telemetry_capacity)
        (ok true, record b { telemetry = b.telemetry ++ item ∷ [] }) _
        (λ room. record {
          sound = record {
            is_open = s.is_open;
            counters = s.counters;
            waiting = ground (arith, room, length-append b.telemetry (item ∷ []));
            known = s.known;
          };
          weighs = omega (arith, length-append b.telemetry (item ∷ []));
          size = refl;
        })
        (λ full. drop_observation-Answers item DropReason.queue_full b s)

  -- what an operation does that answers none
  pub record Keeps (b b' : Bus F D T) : Type 0 where
    pub sound : Sound b'
    pub weighs : weight b' ≡ weight b
    pub size : b'.telemetry_capacity ≡ b.telemetry_capacity

  Keeps-refl : (b : Bus F D T) → Sound b → Keeps b b
  Keeps-refl b s = record { sound = s; weighs = refl; size = refl }

  sample-Keeps :
      (rate : SampleRate) (b : Bus F D T) → Sound b → Keeps b (sample_internal_event rate b).1
  unfolding sample_internal_event
  sample-Keeps rate b s =
      if_both (λ (o : Bool × Bus F D T). Keeps b o.1) rate.is_zero (false, b) _ (Keeps-refl b s)
        (if_both (λ (o : Bool × Bus F D T). Keeps b o.1) rate.is_one (true, b) _ (Keeps-refl b s)
          (record {
            sound = record {
              is_open = s.is_open;
              counters = s.counters;
              waiting = s.waiting;
              known = s.known;
            };
            weighs = refl;
            size = refl;
          }))

  both : {a b c : Bus F D T} → Keeps a b → Keeps b c → Keeps a c
  both k l = record { sound = l.sound; weighs = l.weighs ∙ k.weighs; size = l.size ∙ k.size }

  after :
      {b b' : Bus F D T} {r : Result Bool} {c : Bus F D T}
      → Keeps b b'
      → Answers b' r c
      → Answers b r c
  after k a = record {
    sound = a.sound;
    weighs = omega (arith, k.weighs, a.weighs);
    size = a.size ∙ k.size;
  }

module _ {F D T : Type 0} (rt : Runtime F D) (nz : Normalizer) (rate : SampleRate) where
  publish_exact-Keeps :
      (future : ℕ) (event : Envelope Json F) (projection : Option (Projection T)) (b : Bus F D T)
      → Sound b
      → Keeps b (publish_exact rt nz rate future event projection b).1
  unfolding publish_exact
  publish_exact-Keeps future event projection b s = record {
    sound = record {
      is_open = s.is_open;
      counters = s.counters;
      waiting = s.waiting;
      known = s.known;
    };
    weighs = refl;
    size = refl;
  }

  pub publish_new-valid :
      (future : ℕ) (event : Envelope Json F) (b : Bus F D T)
      → validate rt.platform event ≡ ok tt
      → publish_new rt nz rate future event b ≡ publish_exact rt nz rate future event none b
  unfolding publish_new
  publish_new-valid future event b valid = ground (arith, valid)

  pub publish_new-invalid :
      (future : ℕ) (event : Envelope Json F) (b : Bus F D T) {e : Exception}
      → validate rt.platform event ≡ raised e
      → publish_new rt nz rate future event b ≡ (raised e, b)
  unfolding publish_new
  publish_new-invalid future event b invalid = ground (arith, invalid)

  pub publish_new-Keeps :
      (future : ℕ) (event : Envelope Json F) (b : Bus F D T)
      → Sound b
      → Keeps b (publish_new rt nz rate future event b).1
  publish_new-Keeps future event b s = elim (Result-cases (validate rt.platform event)) [
    | inl (tt, valid) ↦
        rw (publish_new-valid future event b valid) (publish_exact-Keeps future event none b s)
    | inr (_, invalid) ↦ rw (publish_new-invalid future event b invalid) (Keeps-refl b s)
  ]

  persist-Keeps :
      (future : ℕ) (event_id : String) (now : Now) (item : EventRunInput) (b : Bus F D T)
      → Sound b
      → Keeps b (persist_first_high_severity rt nz rate future event_id now item b).1
  unfolding persist_first_high_severity
  persist-Keeps future event_id now item b s =
      if_both (λ (o : Result (Unit {0}) × Bus F D T). Keeps b o.1)
        (contains fingerprint b.high_fingerprints) (ok tt, seen) _ unchanged
        (if_both (λ (o : Result (Unit {0}) × Bus F D T). Keeps b o.1)
          (has_key ("first-high-severity:" +s fingerprint) b.writer.database.events) (ok tt, seen) _
          unchanged
          (both unchanged (
            publish_new-Keeps future (first_high_severity rt event_id item fingerprint now) seen
              unchanged.sound)))
    where
      fingerprint : String
      fingerprint = nz.fingerprint item.source item.type item.subject item.redacted_payload

      seen : Bus F D T
      seen = record b { high_fingerprints = remember fingerprint b.high_fingerprints }

      unchanged : Keeps b seen
      unchanged = record {
        sound = record {
          is_open = s.is_open;
          counters = s.counters;
          waiting = s.waiting;
          known = length-remember fingerprint b.high_fingerprints s.known;
        };
        weighs = refl;
        size = refl;
      }

  bind-Answers :
      (m : Action (Bus F D T) (Unit {0})) (item : EventRunInput) (b : Bus F D T)
      → Keeps b (m b).1
      → Answers b (bind m (λ _. enqueue item) b).0 (bind m (λ _. enqueue item) b).1
  bind-Answers m item b k = elim (Result-cases (m b).0) [
    | inl (u, e) ↦ rw e (after k (enqueue-Answers item (m b).1 k.sound))
    | inr (x, e) ↦
        rw e (record { sound = k.sound; weighs = omega (arith, k.weighs); size = k.size })
  ]

  accept-Answers :
      (future : ℕ) (event_id : String) (now : Now) (item : EventRunInput) (b : Bus F D T)
      → Sound b
      → Answers b
          (accept rt nz rate future event_id now item b).0
          (accept rt nz rate future event_id now item b).1
  unfolding accept
  accept-Answers future event_id now item b s =
      if_both (λ (m : Action (Bus F D T) Bool). Answers b (m b).0 (m b).1) (is_severe item.severity)
        (bind (persist_first_high_severity rt nz rate future event_id now item) (λ _. enqueue item))
        (enqueue item)
        (bind-Answers (persist_first_high_severity rt nz rate future event_id now item) item b
          (persist-Keeps future event_id now item b s))
        (enqueue-Answers item b s)

  accept_internal-Answers :
      (future : ℕ) (event_id : String) (now : Now) (item : EventRunInput) (b : Bus F D T)
      → Sound b
      → Answers b
          (accept_internal rt nz rate future event_id now item b).0
          (accept_internal rt nz rate future event_id now item b).1
  unfolding accept_internal
  accept_internal-Answers future event_id now item b s =
      let k = sample-Keeps rate b s in
      let b' = (sample_internal_event rate b).1 in
      if_both (λ (o : Result Bool × Bus F D T). Answers b o.0 o.1) (sample_internal_event rate b).0
        (accept rt nz rate future event_id now item b') _
        (after k (accept-Answers future event_id now item b' k.sound))
        (after k (drop_observation-Answers item DropReason.sampled_out b' k.sound))

  pub publish_observation-Answers :
      (allowed : Bool) (future : ℕ) (event_id : String) (now : Now) (item : EventRunInput)
      (b : Bus F D T)
      → Sound b
      → Answers b
          (publish_observation rt nz rate allowed future event_id now item b).0
          (publish_observation rt nz rate allowed future event_id now item b).1
  unfolding publish_observation
  publish_observation-Answers allowed future event_id now item b s =
      if_cases (λ (o : Result Bool × Bus F D T). Answers b o.0 o.1) b.closed (ok false, b) _
        (λ closed. absurd (cc (closed, s.is_open)))
        (λ opened.
          if_both (λ (o : Result Bool × Bus F D T). Answers b o.0 o.1) (not allowed)
            (drop_observation item DropReason.allocation_exhausted b) _
            (drop_observation-Answers item DropReason.allocation_exhausted b s)
            (if_both (λ (o : Result Bool × Bus F D T). Answers b o.0 o.1)
              (text_startswith item.source "hal.sentience" && not (is_severe item.severity))
              (accept_internal rt nz rate future event_id now item b) _
              (accept_internal-Answers future event_id now item b s)
              (accept-Answers future event_id now item b s)))
