-- ===== src/Ingestion/Writer/Accounting.antt =====
-- No request is lost or answered twice.
use bollywood_hal.Prelude.{
  ℕ, ◌+◌, ◌≡◌, ◌≤◌, refl, sym, ap, ◌∙◌, Bool, true, false, ◌==◌, none, List, [], ◌∷◌, ◌++◌, length,
  length-append, List-cases, inl, inr, Bool-cases, arith, ltb, leb, if◌then◌else◌,
}
use bollywood_hal.Action.{ok, ok-injective}
use bollywood_hal.Storage.Envelope.{Platform}
use bollywood_hal.Storage.Rows.{Codec, Db}
use bollywood_hal.Storage.Table.{row_count, row_count-append}
use bollywood_hal.Storage.Exact.{append_exact_event}
use bollywood_hal.Ingestion.Writer.{
  WriteRequest, Outcome, cancelled, outcome, Writer, new_writer, write, submit, work, drain, flush,
}

-- What the callers and the worker do.
pub data WriterStep (P F T : Type 0) : Type 0 where
  submits : WriteRequest P F T → WriterStep P F T
  works : Bool → WriterStep P F T

abbrev pub answers : ℕ → ℕ × Outcome → Bool
answers n r = r.0 == n

answered :
    (n k : ℕ) (o : Outcome) (xs : List (ℕ × Outcome))
    → row_count (answers n) (xs ++ (k, o) ∷ [])
      ≡ (if k == n then row_count (answers n) xs + 1 else row_count (answers n) xs)
unfolding row_count
answered n k o xs = ground (arith, row_count-append (answers n) xs ((k, o) ∷ []))

zero-plus : (k : ℕ) → 0 + k ≡ k
zero-plus k = omega arith

module _ {P F T : Type 0} where
  abbrev pub asks : ℕ → WriteRequest P F T → Bool
  asks n q = q.future == n

  -- how often the future was submitted
  unfoldable pub submitted : ℕ → List (WriterStep P F T) → ℕ
  submitted n [] = 0
  submitted n (submits q ∷ ss) =
      let rest = submitted n ss in if q.future == n then rest + 1 else rest
  submitted n (works b ∷ ss) = submitted n ss

module _ {P F D T : Type 0} (p : Platform P F) (c : Codec P F D) where
  unfoldable pub steps : List (WriterStep P F T) → Writer P F D T → Writer P F D T
  steps [] w = w
  steps (submits q ∷ ss) w = steps ss (submit p c q w).1
  steps (works b ∷ ss) w = steps ss (work p c b w)

  -- the requests of a future that wait or are answered
  abbrev held : ℕ → Writer P F D T → ℕ
  held n w = row_count (asks n) w.queue + row_count (answers n) w.resolved

  -- the sizes that the proofs follow
  record Fits (w : Writer P F D T) : Type 0 where
    is_open : w.closed ≡ false
    room : length w.queue ≤ w.capacity

  write-held :
      (n : ℕ) (q : WriteRequest P F T) (w : Writer P F D T)
      → held n (write p c q w) ≡ (if q.future == n then held n w + 1 else held n w)
  unfolding write
  write-held n q w = ground (
    arith,
    answered n q.future (outcome (append_exact_event p c q.event q.projection none w.database).0)
        w.resolved,
  )

  write-Fits : (q : WriteRequest P F T) (w : Writer P F D T) → Fits w → Fits (write p c q w)
  unfolding write
  write-Fits q w f = record { is_open = f.is_open; room = f.room }

  submit-held :
      (n : ℕ) (q : WriteRequest P F T) (w : Writer P F D T)
      → Fits w
      → held n (submit p c q w).1 ≡ (if q.future == n then held n w + 1 else held n w)
  unfolding submit row_count
  submit-held n q w f = elim (Bool-cases (ltb (length w.queue) w.capacity)) [
    | inl room ↦ rw (f.is_open, room) (ground (arith, row_count-append (asks n) w.queue (q ∷ [])))
    | inr full ↦
        rw (f.is_open, full)
          (write-held n q (record w { synchronous_fallbacks = w.synchronous_fallbacks + 1 }))
  ]

  submit-Fits : (q : WriteRequest P F T) (w : Writer P F D T) → Fits w → Fits (submit p c q w).1
  unfolding submit
  submit-Fits q w f = elim (Bool-cases (ltb (length w.queue) w.capacity)) [
    | inl room ↦
        rw (f.is_open, room)
          (record { is_open = refl; room = ground (arith, length-append w.queue (q ∷ [])) })
    | inr full ↦ rw (f.is_open, full) (record { is_open = refl; room = f.room })
  ]

  -- what one turn does to a queue that is not empty
  abbrev pub taken :
      Bool → WriteRequest P F T → List (WriteRequest P F T) → Writer P F D T → Writer P F D T
  taken b q rest w =
      if b
      then record w { queue = rest; resolved = w.resolved ++ (q.future, cancelled) ∷ [] }
      else write p c q (record w { queue = rest })

  pub work-taken :
      (b : Bool) (w : Writer P F D T) (q : WriteRequest P F T) (rest : List (WriteRequest P F T))
      → w.queue ≡ q ∷ rest
      → work p c b w ≡ taken b q rest w
  unfolding work
  work-taken b w q rest more = rw more refl

  pub work-idle : (b : Bool) (w : Writer P F D T) → w.queue ≡ [] → work p c b w ≡ w
  unfolding work
  work-idle b w empty = rw empty refl

  taken-held :
      (n : ℕ) (b : Bool) (w : Writer P F D T) (q : WriteRequest P F T)
      (rest : List (WriteRequest P F T))
      → held n (taken b q rest w) ≡ row_count (asks n) (q ∷ rest) + row_count (answers n) w.resolved
  unfolding row_count
  taken-held n true w q rest = ground (arith, answered n q.future cancelled w.resolved)
  taken-held n false w q rest = ground (arith, write-held n q (record w { queue = rest }))

  work-held : (n : ℕ) (b : Bool) (w : Writer P F D T) → held n (work p c b w) ≡ held n w
  work-held n b w = elim (List-cases w.queue) [
    | inl empty ↦ rw (work-idle b w empty) refl
    | inr (q, rest, more) ↦ rw (work-taken b w q rest more, more) (taken-held n b w q rest)
  ]

  taken-Fits :
      (b : Bool) (w : Writer P F D T) (q : WriteRequest P F T) (rest : List (WriteRequest P F T))
      → w.queue ≡ q ∷ rest
      → Fits w
      → Fits (taken b q rest w)
  unfolding write
  taken-Fits true w q rest e f = record {
    is_open = f.is_open;
    room = ground (arith, ap length e, f.room);
  }
  taken-Fits false w q rest e f = record {
    is_open = f.is_open;
    room = ground (arith, ap length e, f.room);
  }

  work-Fits : (b : Bool) (w : Writer P F D T) → Fits w → Fits (work p c b w)
  work-Fits b w f = elim (List-cases w.queue) [
    | inl empty ↦ rw (work-idle b w empty) f
    | inr (q, rest, more) ↦ rw (work-taken b w q rest more) (taken-Fits b w q rest more f)
  ]

  drain-held :
      (n : ℕ) (rest : List (WriteRequest P F T)) (w : Writer P F D T)
      → held n (drain p c rest w) ≡ held n w
  unfolding drain
  drain-held n [] w = refl
  drain-held n (q ∷ rest) w = drain-held n rest (work p c false w) ∙ work-held n false w

  drain-empty :
      (rest : List (WriteRequest P F T)) (w : Writer P F D T)
      → w.queue ≡ rest
      → (drain p c rest w).queue ≡ []
  unfolding drain write
  drain-empty [] w e = e
  drain-empty (q ∷ rest) w e =
      drain-empty rest (work p c false w) (rw (work-taken false w q rest e) refl)

  steps-Fits : (ss : List (WriterStep P F T)) (w : Writer P F D T) → Fits w → Fits (steps ss w)
  unfolding steps
  steps-Fits [] w f = f
  steps-Fits (submits q ∷ ss) w f = steps-Fits ss _ (submit-Fits q w f)
  steps-Fits (works b ∷ ss) w f = steps-Fits ss _ (work-Fits b w f)

  steps-held :
      (n : ℕ) (ss : List (WriterStep P F T)) (w : Writer P F D T)
      → Fits w
      → held n (steps ss w) ≡ held n w + submitted n ss
  unfolding steps submitted
  steps-held n [] w f = omega arith
  steps-held n (submits q ∷ ss) w f =
      ground (arith, steps-held n ss (submit p c q w).1 (submit-Fits q w f), submit-held n q w f)
  steps-held n (works b ∷ ss) w f =
      steps-held n ss _ (work-Fits b w f) ∙ ap (λ k. k + submitted n ss) (work-held n b w)

  new_writer-empty :
      (capacity : ℕ) (db : Db P F D T) (w : Writer P F D T)
      → new_writer capacity db ≡ ok w
      → Fits w × ((n : ℕ) → held n w ≡ 0)
  unfolding new_writer row_count
  new_writer-empty capacity db w e = elim (Bool-cases (leb capacity 0)) [
    | inl empty ↦ absurd (cc (rw empty at e))
    | inr positive ↦
        let is_fresh = ok-injective (rw positive at e) in
        rw⁻¹ is_fresh (record { is_open = refl; room = omega arith }, λ n. refl)
  ]

  settled :
      (n k : ℕ) (w : Writer P F D T)
      → w.queue ≡ []
      → held n w ≡ k
      → row_count (answers n) w.resolved ≡ k
  unfolding row_count
  settled n k w empty e = sym (zero-plus _) ∙ rw empty at e

  -- A writer of positive capacity starts empty. Whatever the callers submit and whatever turns the
  -- worker takes, cancelled requests included, the flush that follows leaves an empty queue and gives
  -- each future exactly as many outcomes as it was submitted: none is lost, and none is answered twice.
  pub flush-answers :
      (capacity : ℕ) (db : Db P F D T) (w : Writer P F D T)
      → new_writer capacity db ≡ ok w
      → (ss : List (WriterStep P F T)) (n : ℕ)
      → ((flush p c (steps ss w)).queue ≡ [])
        × (row_count (answers n) (flush p c (steps ss w)).resolved ≡ submitted n ss)
  unfolding flush
  flush-answers capacity db w e ss n =
      let (fits, nothing) = new_writer-empty capacity db w e in
      let is_drained = drain-empty (steps ss w).queue (steps ss w) refl in
      let conserved =
        drain-held n (steps ss w).queue (steps ss w)
        ∙ steps-held n ss w fits
        ∙ ap (λ k. k + submitted n ss) (nothing n)
        ∙ zero-plus (submitted n ss) in
      (
        is_drained,
        settled n (submitted n ss) (drain p c (steps ss w).queue (steps ss w)) is_drained conserved,
      )
