-- ===== src/Ingestion/Coalescer/Runs.antt =====
-- `add`, `flush` and `close` of `EventRunCoalescer` (src/hal9000/sentience/events/coalescer.py).
use bollywood_hal.Prelude.{
  ℕ, ◌+◌, ◌-◌, ◌/◌, ◌%◌, String, true, Option, none, some, List, [], ◌∷◌, ◌++◌, length, ltb, ◌==◌,
  if◌then◌else◌,
}
use bollywood_hal.Action.{Result, ok, raised, value_error, runtime_error, key_error, Action, bind}
use bollywood_hal.Storage.Models.{Severity}
use bollywood_hal.Storage.Table.{select_one, select_all}
use bollywood_hal.Ingestion.Observations.{EventRunInput, Normalizer}
use bollywood_hal.Ingestion.Sampler.{rank, new_sampler, update, restore}
use bollywood_hal.Ingestion.Coalescer.{
  RunTables, RunColumns, OpenRun, Coalescer, task_text, in_columns, same_run, order_samples,
  is_unpinned, flush_one,
}

-- the start of the epoch that holds a millisecond, in seconds
unfoldable pub epoch_start : ℕ → ℕ → ℕ
epoch_start epoch_seconds stamp = let seconds = stamp / 1000 in seconds - seconds % epoch_seconds

-- `max((a, b), key=_SEVERITY_VALUE)`: of two equals, the first
abbrev pub higher : Severity → Severity → Severity
higher a b = if ltb (rank a) (rank b) then b else a

unfoldable pub remove_run : RunColumns → List OpenRun → List OpenRun
unfolding same_run
remove_run c [] = []
remove_run c (r ∷ rs) = let rest = remove_run c rs in if same_run c r then rest else r ∷ rest

module _ (score : String → ℕ → ℕ) (nz : Normalizer) where
  unfoldable pub columns_of : ℕ → EventRunInput → ℕ → RunColumns
  unfolding epoch_start
  columns_of epoch_seconds item stamp = record {
    source = item.source;
    type = item.type;
    subject = item.subject;
    fingerprint =
        nz.fingerprint item.source item.type item.subject (nz.redact_data item.redacted_payload);
    task_id = item.task_id;
    epoch = nz.iso_second (epoch_start epoch_seconds stamp);
  }

  abbrev pub key_texts : RunColumns → List String
  key_texts c = c.source ∷ c.type ∷ c.subject ∷ c.fingerprint ∷ task_text c.task_id ∷ c.epoch ∷ []

  -- a run that is not open yet, from its row where it has one
  unfoldable pub open_run : Coalescer → RunColumns → EventRunInput → ℕ → OpenRun
  unfolding select_one in_columns select_all order_samples new_sampler restore
  open_run k c item stamp = elim (select_one (in_columns c) k.tables.event_runs) [
    | none ↦ record {
      run_id = nz.run_id (key_texts c);
      columns = c;
      item = item;
      first_seen = stamp;
      last_seen = stamp;
      pending_count = 0;
      severity_max = item.severity;
      sampler = new_sampler k.sample_count_per_run (nz.run_id (key_texts c));
    }
    | some row ↦ record {
      run_id = row.run_id;
      columns = c;
      item = item;
      first_seen = row.first_seen;
      last_seen = row.last_seen;
      pending_count = 0;
      severity_max = higher row.severity_max item.severity;
      sampler =
          restore score row.count
            (order_samples (select_all (is_unpinned row.run_id) k.tables.event_run_samples))
            (new_sampler k.sample_count_per_run row.run_id);
    }
  ]

  -- one observation more of a run
  unfoldable pub observe : EventRunInput → ℕ → OpenRun → OpenRun
  unfolding update
  observe item stamp r = record r {
    pending_count = r.pending_count + 1;
    last_seen = stamp;
    severity_max = higher r.severity_max item.severity;
    sampler =
        update score
          (record {
            value = nz.dumps (nz.redact_data item.redacted_payload);
            observed_at = stamp;
            severity = item.severity;
          })
          r.sampler;
  }

  -- room for a run: where there is none, the least recently used run is written and closed
  unfoldable pub make_room : Action Coalescer (Unit {0})
  unfolding flush_one
  make_room k = if ltb (length k.runs) k.max_open_runs then (ok tt, k) else elim k.runs [
    | [] ↦ (raised (key_error "dictionary is empty"), k)
    | old ∷ rest ↦
        let (r, t) = flush_one nz old k.tables in
        (elim r [ ok _ ↦ ok tt | raised e ↦ raised e ], record k { runs = rest; tables = t })
  ]

  -- the observation goes to the open run that was found, or to a new one
  unfoldable pub place :
      RunColumns → EventRunInput → ℕ → Option OpenRun → Action Coalescer (Unit {0})
  unfolding remove_run open_run observe make_room
  place c item stamp (some r) k =
      (ok tt, record k { runs = remove_run c k.runs ++ observe item stamp r ∷ [] })
  place c item stamp none k =
      bind make_room
        (λ _ k'. (
          ok tt,
          record k' { runs = k'.runs ++ observe item stamp (open_run k' c item stamp) ∷ [] },
        ))
        k

  unfoldable pub add_aware : EventRunInput → ℕ → Action Coalescer (Unit {0})
  unfolding columns_of select_one same_run place
  add_aware item stamp k =
      let c = columns_of k.epoch_seconds item stamp in
      place c item stamp (select_one (same_run c) k.runs) k

  unfoldable pub add_timed : Option ℕ → EventRunInput → Action Coalescer (Unit {0})
  unfolding add_aware
  add_timed none item k = (raised (value_error "event-run timestamps must be timezone-aware"), k)
  add_timed (some stamp) item k = add_aware item stamp k

  unfoldable pub add : EventRunInput → Action Coalescer (Unit {0})
  unfolding add_timed
  add item k =
      if k.closed
      then (raised (runtime_error "event-run coalescer is closed"), k)
      else add_timed item.observed_at item k

  abbrev pub count_flushed : OpenRun → Result ℕ → Result ℕ
  count_flushed r (ok m) = ok (if r.pending_count == 0 then m else m + 1)
  count_flushed r (raised e) = raised e

  -- the runs after each was written; a raise leaves the rest as they are
  unfoldable pub flush_runs : List OpenRun → RunTables → Result ℕ × (List OpenRun × RunTables)
  unfolding flush_one
  flush_runs [] t = (ok 0, ([], t))
  flush_runs (r ∷ rs) t =
      let (flushed, t') = flush_one nz r t in
      let (n, (rs', t'')) = flush_runs rs t' in
      elim flushed [
        | raised e ↦ (raised e, (r ∷ rs, t'))
        | ok r' ↦ (count_flushed r n, (r' ∷ rs', t''))
      ]

  unfoldable pub flush : Action Coalescer ℕ
  unfolding flush_runs
  flush k = let (n, (rs, t)) = flush_runs k.runs k.tables in (n, record k { runs = rs; tables = t })

  unfoldable pub close : Action Coalescer (Unit {0})
  unfolding flush
  close k =
      if k.closed
      then (ok tt, k)
      else bind flush (λ _ k'. (ok tt, record k' { runs = []; closed = true })) k
