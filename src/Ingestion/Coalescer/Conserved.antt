-- ===== src/Ingestion/Coalescer/Conserved.antt =====
-- What a flush adds to the counts of `event_runs`
-- (src/hal9000/sentience/events/coalescer.py).
use bollywood_hal.Prelude.{
  ℕ, ◌+◌, ◌≡◌, ◌≤◌, refl, ap, String, true, Option, none, some, is_some, List, [], ◌∷◌, ◌++◌, ltb,
  ◌==◌, arith, inl, inr, Bool-cases,
}
use bollywood_hal.Action.{Result, ok}
use bollywood_hal.Storage.Table.{select_one, upsert, update_where, row_count}
use bollywood_hal.Ingestion.Observations.{Normalizer}
use bollywood_hal.Ingestion.Coalescer.{
  EventRunRow, RunTables, RunColumns, OpenRun, in_columns, is_run, merge_run, run_row,
  write_samples, write_run, flush_one,
}

-- the observations that the rows count
unfoldable pub stored : List EventRunRow → ℕ
stored [] = 0
stored (r ∷ rs) = r.count + stored rs

stored-absent :
    (id : String) (x : EventRunRow) (rs : List EventRunRow)
    → row_count (is_run id) rs ≡ 0
    → stored (update_where (is_run id) (merge_run x) rs) ≡ stored rs
unfolding stored update_where row_count
stored-absent id x [] h = refl
stored-absent id x (r ∷ rs) h = elim (Bool-cases (is_run id r)) [
  | inl here ↦ absurd (ground (arith, here, h))
  | inr there ↦ ground (arith, there, stored-absent id x rs (rw there at h))
]

stored-once :
    (id : String) (x : EventRunRow) (rs : List EventRunRow)
    → row_count (is_run id) rs ≡ 1
    → stored (update_where (is_run id) (merge_run x) rs) ≡ stored rs + x.count
unfolding stored update_where row_count merge_run
stored-once id x [] h = absurd (omega (arith, h))
stored-once id x (r ∷ rs) h = elim (Bool-cases (is_run id r)) [
  | inl here ↦
      let none_more : row_count (is_run id) rs ≡ 0 = ground (arith, here, h) in
      ground (arith, here, stored-absent id x rs none_more)
  | inr there ↦ ground (arith, there, stored-once id x rs (rw there at h))
]

stored-append : (rs qs : List EventRunRow) → stored (rs ++ qs) ≡ stored rs + stored qs
unfolding stored
stored-append [] qs = omega arith
stored-append (r ∷ rs) qs = omega (arith, stored-append rs qs)

stored-upsert :
    (id : String) (x : EventRunRow) (rs : List EventRunRow)
    → row_count (is_run id) rs ≤ 1
    → stored (upsert (is_run id) (merge_run x) x rs) ≡ stored rs + x.count
unfolding upsert stored
stored-upsert id x rs once = elim (Bool-cases (ltb 0 (row_count (is_run id) rs))) [
  | inl known ↦ rw known (stored-once id x rs (ground (arith, known, once)))
  | inr new ↦ ground (arith, new, stored-append rs (x ∷ []))
]

-- a row keeps the columns of its run
merge-columns : (c : RunColumns) (x r : EventRunRow) → in_columns c (merge_run x r) ≡ in_columns c r
unfolding in_columns merge_run
merge-columns c x r = refl

-- every row with the id has the columns
abbrev pub Agree : String → RunColumns → List EventRunRow → Type 0
Agree id c [] = Unit
Agree id c (r ∷ rs) = (is_run id r ≡ true → in_columns c r ≡ true) × Agree id c rs

found_updated :
    (id : String) (c : RunColumns) (x : EventRunRow) (rs : List EventRunRow)
    → Agree id c rs
    → 1 ≤ row_count (is_run id) rs
    → is_some (select_one (in_columns c) (update_where (is_run id) (merge_run x) rs)) ≡ true
unfolding select_one update_where row_count
found_updated id c x [] a h = absurd (omega (arith, h))
found_updated id c x (r ∷ rs) a h = elim (Bool-cases (is_run id r)) [
  | inl here ↦ ground (arith, here, a.0 here, merge-columns c x r)
  | inr there ↦ elim (Bool-cases (in_columns c r)) [
    | inl found ↦ rw (there, found) refl
    | inr other ↦ rw (there, other) (found_updated id c x rs a.1 (rw there at h))
  ]
]

found_appended :
    (c : RunColumns) (x : EventRunRow) (rs : List EventRunRow)
    → in_columns c x ≡ true
    → is_some (select_one (in_columns c) (rs ++ x ∷ [])) ≡ true
unfolding select_one
found_appended c x [] h = rw h refl
found_appended c x (r ∷ rs) h = elim (Bool-cases (in_columns c r)) [
  | inl found ↦ rw found refl
  | inr other ↦ rw other (found_appended c x rs h)
]

found_upserted :
    (id : String) (c : RunColumns) (x : EventRunRow) (rs : List EventRunRow)
    → Agree id c rs
    → in_columns c x ≡ true
    → is_some (select_one (in_columns c) (upsert (is_run id) (merge_run x) x rs)) ≡ true
unfolding upsert
found_upserted id c x rs a h = elim (Bool-cases (ltb 0 (row_count (is_run id) rs))) [
  | inl known ↦ rw known (found_updated id c x rs a (ground (arith, known)))
  | inr new ↦ rw new (found_appended c x rs h)
]

module _ (nz : Normalizer) where
  -- `run_id` is the primary key, and its row and the run have the run's columns
  pub record Consistent (r : OpenRun) (t : RunTables) : Type 0 where
    pub once : row_count (is_run r.run_id) t.event_runs ≤ 1
    pub agree : Agree r.run_id r.columns t.event_runs
    pub own : in_columns r.columns (run_row nz r) ≡ true

  -- what a write leaves: no raise, and the observations in the counts
  abbrev Wrote : OpenRun → RunTables → Result (Unit {0}) × RunTables → Type 0
  Wrote r t o = (o.0 ≡ ok tt) × (stored o.1.event_runs ≡ stored t.event_runs + r.pending_count)

  write_samples-Wrote :
      (r : OpenRun) (runs : List EventRunRow) (o : Option EventRunRow) (t : RunTables)
      → is_some o ≡ true
      → stored runs ≡ stored t.event_runs + r.pending_count
      → Wrote r t (write_samples r runs o t)
  unfolding write_samples
  write_samples-Wrote r runs none t found counts = absurd (cc)
  write_samples-Wrote r runs (some actual) t found counts = (refl, counts)

  write_run-Wrote : (r : OpenRun) (t : RunTables) → Consistent r t → Wrote r t (write_run nz r t)
  unfolding write_run run_row
  write_run-Wrote r t k =
      let runs = upsert (is_run r.run_id) (merge_run (run_row nz r)) (run_row nz r) t.event_runs in
      write_samples-Wrote r runs (select_one (in_columns r.columns) runs) t
        (found_upserted r.run_id r.columns (run_row nz r) t.event_runs k.agree k.own)
        (stored-upsert r.run_id (run_row nz r) t.event_runs k.once)

  -- A flush of a run that agrees with the table does not raise, leaves nothing pending, and adds exactly
  -- the pending observations to the counts of `event_runs`.
  pub flush_one-conserves :
      (r : OpenRun) (t : RunTables)
      → Consistent r t
      → ((flush_one nz r t).0 ≡ ok (record r { pending_count = 0 }))
        × (stored (flush_one nz r t).1.event_runs ≡ stored t.event_runs + r.pending_count)
  unfolding flush_one
  flush_one-conserves r t k = elim (Bool-cases (r.pending_count == 0)) [
    | inl idle ↦
        let nothing : r.pending_count ≡ 0 = ground (arith, idle) in
        rw idle (ap (λ n. ok (record r { pending_count = n })) nothing, omega (arith, nothing))
    | inr some_pending ↦
        let (wrote, counts) = write_run-Wrote r t k in rw (some_pending, wrote) (refl, counts)
  ]
