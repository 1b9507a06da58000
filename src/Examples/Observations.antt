-- ===== src/Examples/Observations.antt =====
-- The theorems of routing, sampling and coalescing at concrete inputs.
use bollywood_hal.Prelude.{
  ℕ, ◌+◌, ◌*◌, ◌≡◌, ◌≤◌, ◌<◌, ◌↔◌, refl, String, true, false, none, List, [], ◌∷◌, length, take,
  arith, ◌⊎◌, text_endswith,
}
use bollywood_hal.Action.{ok}
use bollywood_hal.Storage.Models.{Severity, critical, debug, notice, info, error}
use bollywood_hal.Storage.Table.{row_count}
use bollywood_hal.Ingestion.Observations.{EventRunInput}
use bollywood_hal.Ingestion.Routing.{
  exact, drop, sketch_only, event_run, IsExact, IsTransient, startswith_any, sketch_prefixes,
  route_event, route_event_iff,
}
use bollywood_hal.Ingestion.Sampler.{
  rank, Observation, updates, new_sampler, sort_scored, samples, restore,
}
use bollywood_hal.Ingestion.Sampler.BottomK.{observed, updates-bottom_k}
use bollywood_hal.Ingestion.Sampler.Restore.{restore-samples}
use bollywood_hal.Ingestion.Coalescer.{
  RunTables, OpenRun, Coalescer, raise_severity, flush_one, in_columns, run_row,
}
use bollywood_hal.Ingestion.Coalescer.Runs.{higher}
use bollywood_hal.Ingestion.Coalescer.Severities.{raise_severity-higher}
use bollywood_hal.Ingestion.Coalescer.Conserved.{stored, Consistent, flush_one-conserves}
use bollywood_hal.Examples.Ingestion.{normalizer, seen}

abbrev hash : String → ℕ → ℕ
hash _ n = n * 7

abbrev readings : List Observation
readings =
    record { value = "a"; observed_at = 1; severity = info }
    ∷ record { value = "b"; observed_at = 2; severity = error }
    ∷ record { value = "c"; observed_at = 3; severity = notice }
    ∷ []

updates-bottom_k_example :
    let s = updates hash readings (new_sampler 2 "run") in
    (s.uniform ≡ take 2 (sort_scored (observed hash "run" 0 readings)))
    × (s.count ≡ 3)
    × (length s.uniform ≤ 2)
updates-bottom_k_example = updates-bottom_k hash readings 2 "run"

restore-samples_example :
    let s = updates hash readings (new_sampler 2 "run") in
    restore hash s.count (samples s) (new_sampler 2 "run") ≡ s
restore-samples_example = restore-samples hash readings 2 "run"

route_event_iff_example :
    let s : Severity = critical in
    let d = route_event "audio.level.frame" s false false false in
    ((d.route ≡ exact) ↔ IsExact "audio.level.frame" critical false false false)
    × ((d.route ≡ drop) ↔ (
        IsTransient "audio.level.frame"
        × (false ≡ false)
        × (false ≡ false)
        × ((false ≡ true) × ((s ≡ error) ⊎ (s ≡ critical)) → ⊥)))
    × ((d.route ≡ sketch_only) ↔ (
        (IsExact "audio.level.frame" critical false false false → ⊥)
        × (IsTransient "audio.level.frame" → ⊥)
        × ((startswith_any "audio.level.frame" sketch_prefixes ≡ true)
            ⊎ (text_endswith "audio.level.frame" ".sample" ≡ true))))
    × ((d.also_update_sketches ≡ true) ↔ ((d.route ≡ exact) ⊎ (d.route ≡ event_run)))
route_event_iff_example = route_event_iff "audio.level.frame" critical false false false

abbrev no_runs : RunTables
no_runs = record { event_runs = []; event_run_samples = [] }

abbrev narrow : Coalescer
narrow = record {
  max_open_runs = 1;
  sample_count_per_run = 2;
  epoch_seconds = 300;
  runs = [];
  closed = false;
  tables = no_runs;
}

abbrev seen_twice : List EventRunInput
seen_twice = seen "disk" info ∷ seen "fan" error ∷ seen "disk" error ∷ []

raise_severity-higher_example :
    (rank debug ≤ rank (raise_severity debug notice))
    × ((raise_severity debug notice ≡ higher debug notice)
        ↔ (rank debug < rank notice → 3 ≤ rank notice))
raise_severity-higher_example = raise_severity-higher debug notice

abbrev open_once : OpenRun
open_once = record {
  run_id = "run";
  columns = record {
    source = "disk";
    type = "disk.full";
    subject = "disk";
    fingerprint = "disk.full";
    task_id = none;
    epoch = "1970-01-01T00:00:00Z";
  };
  item = seen "disk" info;
  first_seen = 1000;
  last_seen = 2000;
  pending_count = 3;
  severity_max = info;
  sampler = new_sampler 2 "run";
}

open_once-Consistent : Consistent normalizer open_once no_runs
unfolding row_count in_columns run_row
open_once-Consistent = record { once = omega arith; agree = tt; own = refl }

flush_one-conserves_example :
    ((flush_one normalizer open_once no_runs).0 ≡ ok (record open_once { pending_count = 0 }))
    × (stored (flush_one normalizer open_once no_runs).1.event_runs
        ≡ stored no_runs.event_runs + open_once.pending_count)
flush_one-conserves_example = flush_one-conserves normalizer open_once no_runs open_once-Consistent
