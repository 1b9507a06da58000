-- ===== src/Ingestion/Bus/Accounting.antt =====
-- Every observation that the bus answered is waiting, taken, counted as dropped, in a summary or cleared,
-- and what the bus keeps is bounded (src/hal9000/sentience/event_bus.py).
use bollywood_hal.Prelude.{
  ℕ, ◌+◌, ◌-◌, ◌≡◌, ◌≤◌, refl, ap, ◌∙◌, String, Bool, Option, none, some, List, [], ◌∷◌, length,
  leb, arith, inl, inr, Bool-cases, List-cases, ◌=s◌, if◌then◌else◌,
}
use bollywood_hal.Action.{Result, ok, raised, ok-injective, Result-cases}
use bollywood_hal.Storage.Json.{Json, num, obj, Fields, field, end}
use bollywood_hal.Storage.Envelope.{Envelope}
use bollywood_hal.Sentience.Runtime.{Runtime, Now, new_event}
use bollywood_hal.Ingestion.Observations.{EventRunInput, Normalizer}
use bollywood_hal.Ingestion.Writer.{Writer}
use bollywood_hal.Ingestion.Bus.Drops.{DropCounter, total}
use bollywood_hal.Ingestion.Bus.Events.{drop_summary}
use bollywood_hal.Ingestion.Bus.Drops.Bounds.{Counters-empty, Counters-length}
use bollywood_hal.Ingestion.Bus.Kept.{
  counted, Sound, weight, publish_new-Keeps, publish_observation-Answers,
}
use bollywood_hal.Ingestion.Bus.Summary.{take-none, take-some, emit-none, emit-some}
use bollywood_hal.Ingestion.Bus.{
  SampleRate, Bus, new_bus, publish_exact, publish_new, publish_observation, take_observation,
  emit_drop_summary,
}

-- What the callers and the telemetry thread do; a publish and a summary with their new identities.
pub data BusStep : Type 0 where
  publishes : Bool → ℕ → String → Now → EventRunInput → BusStep
  takes : BusStep
  summarises : ℕ → String → Now → BusStep

-- How many observations were answered, taken by the thread, counted by the summaries that the writer
-- was handed, and cleared by a summary that raised.
pub record Tally : Type 0 where
  pub published : ℕ
  pub taken : ℕ
  pub reported : ℕ
  pub cleared : ℕ

-- the field "count" of a payload
unfoldable pub count_field : Fields → ℕ
count_field (field k (num n) rest) = if k =s "count" then n else count_field rest
count_field (field k _ rest) = count_field rest
count_field end = 0

abbrev pub count_of : Json → ℕ
count_of (obj fields) = count_field fields
count_of _ = 0

-- what the summary says that was handed to the writer
abbrev pub announced : {F : Type 0} → Result (Option (Envelope Json F)) → ℕ
announced (ok (some event)) = count_of event.payload
announced (ok none) = 0
announced (raised e) = 0

-- the counters that a summary which raised had already cleared
abbrev pub forgotten : {A : Type 0} → List DropCounter → Result A → ℕ
forgotten ds (ok a) = 0
forgotten ds (raised e) = total ds

abbrev pub got : {A : Type 0} → Result (Option A) → ℕ
got (ok (some a)) = 1
got (ok none) = 0
got (raised e) = 0

abbrev pub untouched : Tally
untouched = record { published = 0; taken = 0; reported = 0; cleared = 0 }

none_left : total [] ≡ 0
unfolding total
none_left = refl

-- the summary of the counters says how many drops they count
announced-drops :
    {F D : Type 0} (rt : Runtime F D) (event_id : String) (now : Now) (d : DropCounter)
    (ds : List DropCounter) (nonce : String)
    → count_of (drop_summary rt event_id now d ds nonce).payload ≡ total (d ∷ ds)
unfolding drop_summary new_event count_field
announced-drops rt event_id now d ds nonce = refl

module _ {F D T : Type 0} (rt : Runtime F D) (nz : Normalizer) (rate : SampleRate) where
  unfoldable pub bus_step : BusStep → Tally × Bus F D T → Tally × Bus F D T
  bus_step (publishes allowed future event_id now item) (t, b) =
      let (r, b') = publish_observation rt nz rate allowed future event_id now item b in
      (record t { published = t.published + counted r }, b')
  bus_step takes (t, b) =
      let (r, b') = take_observation rt nz rate b in (record t { taken = t.taken + got r }, b')
  bus_step (summarises future event_id now) (t, b) =
      let (r, b') = emit_drop_summary rt nz rate future event_id now b in
      (
        record t { reported = t.reported + announced r; cleared = t.cleared + forgotten b.drops r },
        b',
      )

  unfoldable pub bus_steps : List BusStep → Tally × Bus F D T → Tally × Bus F D T
  bus_steps [] o = o
  bus_steps (x ∷ xs) o = bus_steps xs (bus_step x o)

  record Accounted (n : ℕ) (o : Tally × Bus F D T) : Type 0 where
    sound : Sound o.1
    balance : o.0.published ≡ o.0.taken + weight o.1 + o.0.reported + o.0.cleared
    size : o.1.telemetry_capacity ≡ n

  step-Accounted :
      {n : ℕ} (x : BusStep) (o : Tally × Bus F D T) → Accounted n o → Accounted n (bus_step x o)
  unfolding bus_step publish_exact
  step-Accounted (publishes allowed future event_id now item) (t, b) k =
      let a = publish_observation-Answers rt nz rate allowed future event_id now item b k.sound in
      record {
        sound = a.sound;
        balance = omega (arith, a.weighs, k.balance);
        size = a.size ∙ k.size;
      }
  step-Accounted takes (t, b) k = elim (List-cases b.telemetry) [
    | inl empty ↦
        rw (take-none rt nz rate b empty)
          (record { sound = k.sound; balance = omega (arith, k.balance); size = k.size })
    | inr (item, rest, more) ↦ rw (take-some rt nz rate b item rest more) (record {
      sound = record {
        is_open = k.sound.is_open;
        counters = k.sound.counters;
        waiting = ground (arith, ap length more, k.sound.waiting);
        known = k.sound.known;
      };
      balance = ground (arith, ap length more, k.balance);
      size = k.size;
    })
  ]
  step-Accounted (summarises future event_id now) (t, b) k = elim (List-cases b.drops) [
    | inl nothing ↦ rw (emit-none rt nz rate future event_id now b nothing) (record {
      sound = k.sound;
      balance = ground (arith, k.balance, ap total nothing, none_left);
      size = k.size;
    })
    | inr (d, ds, some_drops) ↦
        let event = drop_summary rt event_id now d ds b.summary_nonce in
        let clear = record b { drops = [] } in
        let kept = publish_new-Keeps rt nz rate future event clear (record {
          is_open = k.sound.is_open;
          counters = Counters-empty;
          waiting = k.sound.waiting;
          known = k.sound.known;
        }) in
        elim (Result-cases (publish_new rt nz rate future event clear).0) [
          | inl (_, sent) ↦
              rw (emit-some rt nz rate future event_id now b d ds some_drops, sent)
                (record {
                  sound = kept.sound;
                  balance = omega (
                    arith,
                    k.balance,
                    kept.weighs,
                    none_left,
                    announced-drops rt event_id now d ds b.summary_nonce,
                    ap total some_drops,
                  );
                  size = kept.size ∙ k.size;
                })
          | inr (_, refused) ↦
              rw (emit-some rt nz rate future event_id now b d ds some_drops, refused)
                (record {
                  sound = kept.sound;
                  balance = omega (arith, k.balance, kept.weighs, none_left, ap total some_drops);
                  size = kept.size ∙ k.size;
                })
        ]
  ]

  steps-Accounted :
      {n : ℕ} (xs : List BusStep) (o : Tally × Bus F D T)
      → Accounted n o
      → Accounted n (bus_steps xs o)
  unfolding bus_steps
  steps-Accounted [] o k = k
  steps-Accounted (x ∷ xs) o k = steps-Accounted xs (bus_step x o) (step-Accounted x o k)

  new_bus-Accounted :
      (queue_capacity exact_reserve : ℕ) (nonce : String) (w : Writer Json F D T) (b : Bus F D T)
      → new_bus queue_capacity exact_reserve nonce w ≡ ok b
      → (exact_reserve ≤ queue_capacity) × Accounted (queue_capacity - exact_reserve) (untouched, b)
  unfolding new_bus
  new_bus-Accounted queue_capacity exact_reserve nonce w b made =
      elim (Bool-cases (leb queue_capacity exact_reserve)) [
        | inl small ↦ absurd (cc (rw small at made))
        | inr enough ↦
            let is_fresh = ok-injective (rw enough at made) in
            (
              ground (arith, enough),
              rw⁻¹ is_fresh (record {
                sound = record {
                  is_open = refl;
                  counters = Counters-empty;
                  waiting = omega arith;
                  known = omega arith;
                };
                balance = omega (arith, none_left);
                size = refl;
              }),
            )
      ]

  -- The bus starts empty. Whatever is published, taken by the telemetry thread and summarised, in any
  -- order: the observations answered are those taken, those that wait, the drops still counted, those
  -- that the field "count" of the summaries handed to the writer adds up to, and those whose counters
  -- were cleared by a summary that raised; the queue leaves the exact reserve free, and there are at
  -- most 131 drop counters and 1024 remembered fingerprints. It says nothing of what the writer makes
  -- of a summary.
  pub bus_steps-accounts :
      (queue_capacity exact_reserve : ℕ) (nonce : String) (w : Writer Json F D T) (b : Bus F D T)
      → new_bus queue_capacity exact_reserve nonce w ≡ ok b
      → (xs : List BusStep)
      → let (t, b') = bus_steps xs (untouched, b) in
        (t.published ≡ t.taken + (length b'.telemetry + total b'.drops) + t.reported + t.cleared)
        × (length b'.telemetry + exact_reserve ≤ queue_capacity)
        × (length b'.drops ≤ 131)
        × (length b'.high_fingerprints ≤ 1024)
  bus_steps-accounts queue_capacity exact_reserve nonce w b made xs =
      let (fits, start) = new_bus-Accounted queue_capacity exact_reserve nonce w b made in
      let k = steps-Accounted xs (untouched, b) start in
      (
        k.balance,
        omega (arith, k.sound.waiting, k.size, fits),
        Counters-length (bus_steps xs (untouched, b)).1.drops k.sound.counters,
        k.sound.known,
      )
