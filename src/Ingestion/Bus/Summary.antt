-- ===== src/Ingestion/Bus/Summary.antt =====
-- The summaries of dropped observations (`_emit_drop_summary` of src/hal9000/sentience/event_bus.py).
use bollywood_hal.Prelude.{
  ℕ, ◌≡◌, refl, sym, String, true, false, some, none, List, [], ◌∷◌, inl, inr, List-cases,
}
use bollywood_hal.Action.{ok, bind, pure, Result-cases}
use bollywood_hal.Storage.Exact.Known.{has_key, bind-pure}
use bollywood_hal.Sentience.Runtime.{Runtime, Now, new_event}
use bollywood_hal.Ingestion.Observations.{EventRunInput, Normalizer}
use bollywood_hal.Ingestion.Writer.{work}
use bollywood_hal.Ingestion.Writer.Accounting.{work-idle}
use bollywood_hal.Ingestion.Writer.Known.{submit-known}
use bollywood_hal.Storage.Json.{Json}
use bollywood_hal.Storage.Envelope.{Envelope, validate}
use bollywood_hal.Ingestion.Bus.Events.{summary_key, drop_summary}
use bollywood_hal.Ingestion.Bus.Kept.{publish_new-valid, publish_new-invalid}
use bollywood_hal.Ingestion.Bus.Drops.{DropCounter}
use bollywood_hal.Ingestion.Bus.{
  SampleRate, Bus, publish_exact, publish_new, take_observation, emit_drop_summary,
}

module _ {F D T : Type 0} (rt : Runtime F D) (nz : Normalizer) (rate : SampleRate) where
  pub take-none : (b : Bus F D T) → b.telemetry ≡ [] → take_observation rt nz rate b ≡ (ok none, b)
  unfolding take_observation
  take-none b e = rw e refl

  pub take-some :
      (b : Bus F D T) (item : EventRunInput) (rest : List EventRunInput)
      → b.telemetry ≡ item ∷ rest
      → take_observation rt nz rate b ≡ (ok (some item), record b { telemetry = rest })
  unfolding take_observation
  take-some b item rest e = rw e refl

  pub emit-none :
      (future : ℕ) (event_id : String) (now : Now) (b : Bus F D T)
      → b.drops ≡ []
      → emit_drop_summary rt nz rate future event_id now b ≡ (ok none, b)
  unfolding emit_drop_summary
  emit-none future event_id now b e = rw e refl

  -- a summary: the counters are cleared, and its event is made and handed to the writer
  pub emit-some :
      (future : ℕ) (event_id : String) (now : Now) (b : Bus F D T) (d : DropCounter)
      (ds : List DropCounter)
      → b.drops ≡ d ∷ ds
      → emit_drop_summary rt nz rate future event_id now b
        ≡ bind
            (publish_new rt nz rate future (drop_summary rt event_id now d ds b.summary_nonce))
            (λ _. pure (some (drop_summary rt event_id now d ds b.summary_nonce)))
            (record b { drops = [] })
  unfolding emit_drop_summary
  emit-some future event_id now b d ds e = rw e refl

  sent :
      (future : ℕ) (event : Envelope Json F) (b : Bus F D T)
      → b.writer.closed ≡ false
      → b.writer.queue ≡ []
      → (k : String) → event.idempotency_key ≡ some k
      → has_key k b.writer.database.events ≡ true
      → let b' = (publish_new rt nz rate future event b).1 in
        (b'.drops ≡ b.drops)
        × ((work rt.platform rt.codec false b'.writer).database ≡ b.writer.database)
  unfolding publish_exact
  sent future event b opened idle k key known = elim (Result-cases (validate rt.platform event)) [
    | inl (tt, valid) ↦ rw (publish_new-valid rt nz rate future event b valid) (
      refl,
      submit-known rt.platform rt.codec k
          (record { future = future; event = event; projection = none }) b.writer opened idle key
          known,
    )
    | inr (_, invalid) ↦
        rw
          (
            publish_new-invalid rt nz rate future event b invalid,
            work-idle rt.platform rt.codec false b.writer idle,
          )
          (refl, refl)
  ]

  -- A bus whose first summary is in the table loses every later one: the counters are cleared, the
  -- request is made under the same idempotency key, and the worker's write of it changes nothing.
  pub emit_drop_summary_repeated :
      (future : ℕ) (event_id : String) (now : Now) (b : Bus F D T)
      → b.writer.closed ≡ false
      → b.writer.queue ≡ []
      → has_key (summary_key rt b.summary_nonce) b.writer.database.events ≡ true
      → let b' = (emit_drop_summary rt nz rate future event_id now b).1 in
        (b'.drops ≡ []) × ((work rt.platform rt.codec false b'.writer).database ≡ b.writer.database)
  unfolding drop_summary new_event
  emit_drop_summary_repeated future event_id now b opened idle known = elim (List-cases b.drops) [
    | inl nothing ↦ (
      rw (emit-none future event_id now b nothing) nothing,
      rw
          (
            emit-none future event_id now b nothing,
            work-idle rt.platform rt.codec false b.writer idle,
          )
          refl,
    )
    | inr (d, ds, more) ↦
        let event = drop_summary rt event_id now d ds b.summary_nonce in
        let cleared = record b { drops = [] } in
        rw
          (
            emit-some future event_id now b d ds more,
            sym (bind-pure (publish_new rt nz rate future event) (some event) cleared),
          )
          (sent future event cleared opened idle (summary_key rt b.summary_nonce) refl known)
  ]
