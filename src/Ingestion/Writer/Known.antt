-- ===== src/Ingestion/Writer/Known.antt =====
-- A request whose idempotency key is in the table already (src/hal9000/sentience/storage/writer.py).
use bollywood_hal.Prelude.{
  ◌≡◌, refl, ap, ◌∙◌, String, true, false, none, some, [], ◌∷◌, ◌++◌, ◌+◌, length, ltb, inl, inr,
  Bool-cases,
}
use bollywood_hal.Storage.Envelope.{Platform}
use bollywood_hal.Storage.Rows.{Codec}
use bollywood_hal.Storage.Exact.Known.{has_key, append_exact_event_known}
use bollywood_hal.Ingestion.Writer.{WriteRequest, Writer, write, submit, work}
use bollywood_hal.Ingestion.Writer.Accounting.{work-taken, work-idle}

module _ {P F D T : Type 0} (p : Platform P F) (c : Codec P F D) where
  write-known :
      (k : String) (q : WriteRequest P F T) (w : Writer P F D T)
      → q.event.idempotency_key ≡ some k
      → has_key k w.database.events ≡ true
      → (write p c q w).database ≡ w.database
  unfolding write
  write-known k q w key known =
      append_exact_event_known p c none q.projection q.event k w.database key known

  submit-queued :
      (q : WriteRequest P F T) (w : Writer P F D T)
      → w.closed ≡ false
      → ltb (length w.queue) w.capacity ≡ true
      → (submit p c q w).1 ≡ record w { queue = w.queue ++ q ∷ [] }
  unfolding submit
  submit-queued q w opened room = rw (opened, room) refl

  submit-written :
      (q : WriteRequest P F T) (w : Writer P F D T)
      → w.closed ≡ false
      → ltb (length w.queue) w.capacity ≡ false
      → (submit p c q w).1
        ≡ write p c q (record w { synchronous_fallbacks = w.synchronous_fallbacks + 1 })
  unfolding submit
  submit-written q w opened full = rw (opened, full) refl

  write-idle :
      (q : WriteRequest P F T) (w : Writer P F D T)
      → w.queue ≡ []
      → work p c false (write p c q w) ≡ write p c q w
  unfolding write
  write-idle q w idle = work-idle p c false (write p c q w) idle

  -- Once the worker has written such a request, the database is as before.
  pub submit-known :
      (k : String) (q : WriteRequest P F T) (w : Writer P F D T)
      → w.closed ≡ false
      → w.queue ≡ []
      → q.event.idempotency_key ≡ some k
      → has_key k w.database.events ≡ true
      → (work p c false (submit p c q w).1).database ≡ w.database
  submit-known k q w opened idle key known = elim (Bool-cases (ltb (length w.queue) w.capacity)) [
    | inl room ↦ rw (submit-queued q w opened room) (
        ap (λ (z : Writer P F D T). z.database)
          (work-taken p c false (record w { queue = w.queue ++ q ∷ [] }) q []
            (ap (λ z. z ++ q ∷ []) idle))
        ∙ write-known k q (record w { queue = [] }) key known)
    | inr full ↦
        let w' = record w { synchronous_fallbacks = w.synchronous_fallbacks + 1 } in
        rw (submit-written q w opened full, write-idle q w' idle) (write-known k q w' key known)
  ]
