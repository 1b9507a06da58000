-- ===== src/Ingestion/Coalescer.antt =====
-- `EventRunCoalescer` of src/hal9000/sentience/events/coalescer.py. `_runs` is the list of the open
-- runs with their keys, the least recently used first; a stamp is the millisecond that `utc_iso`
-- writes. `score` is the hash of the sampler.
pub mod Runs
pub mod Bounds
pub mod Severities
pub mod Conserved
use bollywood_hal.Prelude.{
  ℕ, zero, suc, ◌+◌, ◌-◌, ◌/◌, ◌%◌, max, ◌==◌, String, Bool, true, false, not, ◌&&◌, ◌||◌, ◌=s◌,
  text_leb, Option, none, some, List, [], ◌∷◌, ◌++◌, length, ltb, leb, if◌then◌else◌, map,
}
use bollywood_hal.Action.{
  Exception, Result, ok, raised, value_error, runtime_error, key_error, type_error, Action, bind,
}
use bollywood_hal.Storage.Models.{RetentionClass, Sensitivity, Severity, error, critical, warning}
use bollywood_hal.Storage.Json.{Json}
use bollywood_hal.Storage.Table.{select_one, select_all, upsert, delete_where, row_count}
use bollywood_hal.Ingestion.Observations.{EventRunInput, Normalizer}
use bollywood_hal.Ingestion.Sampler.{
  rank, SampleKind, RepresentativeSample, Sampler, new_sampler, update, samples, restore, is_kind,
}

-- a row of `event_runs`
pub record EventRunRow : Type 0 where
  pub run_id : String
  pub fingerprint : String
  pub source : String
  pub type : String
  pub subject : String
  pub first_seen : ℕ
  pub last_seen : ℕ
  pub count : ℕ
  pub severity_max : Severity
  pub task_id : Option String
  pub coalescing_epoch : String
  pub normalized_template : String
  pub retention_class : RetentionClass
  pub sensitivity : Sensitivity

-- a row of `event_run_samples`
pub record SampleRow : Type 0 where
  pub run_id : String
  pub sample : RepresentativeSample
  pub pinned : Bool

pub record RunTables : Type 0 where
  pub event_runs : List EventRunRow
  pub event_run_samples : List SampleRow

-- the columns that a run is found by
pub record RunColumns : Type 0 where
  pub source : String
  pub type : String
  pub subject : String
  pub fingerprint : String
  pub task_id : Option String
  pub epoch : String

-- `_OpenRun`, with the columns of its key
pub record OpenRun : Type 0 where
  pub run_id : String
  pub columns : RunColumns
  pub item : EventRunInput
  pub first_seen : ℕ
  pub last_seen : ℕ
  pub pending_count : ℕ
  pub severity_max : Severity
  pub sampler : Sampler

pub record Coalescer : Type 0 where
  pub max_open_runs : ℕ
  pub sample_count_per_run : ℕ
  pub epoch_seconds : ℕ
  pub runs : List OpenRun
  pub closed : Bool
  pub tables : RunTables

unfoldable pub new_coalescer : ℕ → ℕ → ℕ → RunTables → Result Coalescer
new_coalescer max_open_runs sample_count_per_run epoch_seconds tables =
    if epoch_seconds == 0
    then raised (value_error "coalescing epoch must be positive")
    else ok (record {
      max_open_runs = max_open_runs;
      sample_count_per_run = sample_count_per_run;
      epoch_seconds = epoch_seconds;
      runs = [];
      closed = false;
      tables = tables;
    })

abbrev pub same_optional : Option String → Option String → Bool
same_optional none none = true
same_optional (some a) (some b) = a =s b
same_optional _ _ = false

-- `item.task_id or ""`
abbrev pub task_text : Option String → String
task_text none = ""
task_text (some t) = t

-- WHERE source=? AND type=? AND subject=? AND fingerprint=? AND task_id IS ? AND coalescing_epoch=?
unfoldable pub in_columns : RunColumns → EventRunRow → Bool
in_columns c r =
    r.source =s c.source
    && (r.type =s c.type
        && (r.subject =s c.subject
            && (r.fingerprint =s c.fingerprint
                && (same_optional r.task_id c.task_id && r.coalescing_epoch =s c.epoch))))

-- the keys of two runs are equal
unfoldable pub same_run : RunColumns → OpenRun → Bool
same_run c o =
    o.columns.source =s c.source
    && (o.columns.type =s c.type
        && (o.columns.subject =s c.subject
            && (o.columns.fingerprint =s c.fingerprint
                && (task_text o.columns.task_id =s task_text c.task_id
                    && o.columns.epoch =s c.epoch))))

abbrev pub is_critical : Severity → Bool
is_critical critical = true
is_critical _ = false

abbrev pub is_error : Severity → Bool
is_error error = true
is_error _ = false

abbrev pub is_warning : Severity → Bool
is_warning warning = true
is_warning _ = false

-- the CASE of the upsert
unfoldable pub raise_severity : Severity → Severity → Severity
raise_severity old excluded =
    if is_critical excluded
    then critical
    else if is_error excluded && not (is_critical old)
    then error
    else if is_warning excluded && not (is_critical old || is_error old)
    then warning
    else old

abbrev pub is_run : String → EventRunRow → Bool
is_run run_id r = r.run_id =s run_id

unfoldable pub merge_run : EventRunRow → EventRunRow → EventRunRow
unfolding raise_severity
merge_run excluded r = record r {
  last_seen = max r.last_seen excluded.last_seen;
  count = r.count + excluded.count;
  severity_max = raise_severity r.severity_max excluded.severity_max;
  normalized_template = excluded.normalized_template;
}

unfoldable pub run_row : Normalizer → OpenRun → EventRunRow
run_row nz r = record {
  run_id = r.run_id;
  fingerprint = r.columns.fingerprint;
  source = r.item.source;
  type = r.item.type;
  subject = r.item.subject;
  first_seen = r.first_seen;
  last_seen = r.last_seen;
  count = r.pending_count;
  severity_max = r.severity_max;
  task_id = r.item.task_id;
  coalescing_epoch = r.columns.epoch;
  normalized_template = nz.redact_template r.item.normalized_template;
  retention_class = r.item.retention_class;
  sensitivity = r.item.sensitivity;
}

-- the order of the texts of the kinds
abbrev pub kind_rank : SampleKind → ℕ
kind_rank SampleKind.first = 0
kind_rank SampleKind.highest = 1
kind_rank SampleKind.latest = 2
kind_rank SampleKind.uniform = 3

abbrev pub sample_before : RepresentativeSample → RepresentativeSample → Bool
sample_before a b =
    ltb (kind_rank a.kind) (kind_rank b.kind)
    || (kind_rank a.kind == kind_rank b.kind && ltb a.ordinal b.ordinal)

unfoldable pub insert_sample :
    RepresentativeSample → List RepresentativeSample → List RepresentativeSample
insert_sample x [] = x ∷ []
insert_sample x (y ∷ ys) =
    let rest = insert_sample x ys in if sample_before x y then x ∷ y ∷ ys else y ∷ rest

-- ORDER BY sample_kind, ordinal
unfoldable pub order_samples : List SampleRow → List RepresentativeSample
unfolding insert_sample
order_samples [] = []
order_samples (r ∷ rs) = insert_sample r.sample (order_samples rs)

abbrev pub is_unpinned : String → SampleRow → Bool
is_unpinned run_id r = r.run_id =s run_id && not r.pinned

abbrev pub same_slot : String → RepresentativeSample → SampleRow → Bool
same_slot run_id s r =
    r.run_id =s run_id && (is_kind r.sample.kind s.kind && r.sample.ordinal == s.ordinal)

unfoldable pub put_samples : String → List RepresentativeSample → List SampleRow → List SampleRow
unfolding upsert
put_samples run_id [] rows = rows
put_samples run_id (s ∷ ss) rows = put_samples run_id ss (
    upsert (same_slot run_id s) (λ (r : SampleRow). record r { sample = s })
      (record { run_id = run_id; sample = s; pinned = false }) rows)

-- the samples of a run, beside its row
unfoldable pub write_samples :
    OpenRun → List EventRunRow → Option EventRunRow → Action RunTables (Unit {0})
unfolding delete_where put_samples samples
write_samples r runs none t = (raised (type_error "'NoneType' object is not subscriptable"), t)
write_samples r runs (some actual) t = (
  ok tt,
  record {
    event_runs = runs;
    event_run_samples =
        put_samples actual.run_id (samples r.sampler)
          (delete_where (is_unpinned actual.run_id) t.event_run_samples);
  },
)

-- the transaction of `_flush_one`
unfoldable pub write_run : Normalizer → OpenRun → Action RunTables (Unit {0})
unfolding upsert merge_run run_row select_one in_columns write_samples
write_run nz r t =
    let runs = upsert (is_run r.run_id) (merge_run (run_row nz r)) (run_row nz r) t.event_runs in
    write_samples r runs (select_one (in_columns r.columns) runs) t

-- `_flush_one`; the result is the run afterwards
unfoldable pub flush_one : Normalizer → OpenRun → Action RunTables OpenRun
unfolding write_run
flush_one nz r t =
    if r.pending_count == 0
    then (ok r, t)
    else bind (write_run nz r) (λ _ t'. (ok (record r { pending_count = 0 }), t')) t
