-- ===== src/Ingestion/Bus/Drops.antt =====
-- `_DropCounter` and `_record_drop` of src/hal9000/sentience/event_bus.py. `reason` is one of the
-- three texts that `publish_observation` gives.
pub mod Bounds
use bollywood_hal.Prelude.{
  ℕ, ◌+◌, min, max, ◌≡◌, ◌≤◌, String, Bool, true, false, ◌&&◌, ◌=s◌, =s_refl, Option, some, none,
  List, [], ◌∷◌, ◌++◌, length, length-append, ltb, if◌then◌else◌, arith, refl, inl, inr, Bool-cases,
}
use bollywood_hal.Storage.Table.{row_count, update_where}

pub data DropReason : Type 0 where
  allocation_exhausted sampled_out queue_full : DropReason

abbrev pub reason_text : DropReason → String
reason_text allocation_exhausted = "state-database telemetry allocation exhausted"
reason_text sampled_out = "routine internal event sampled out"
reason_text queue_full = "bounded telemetry queue full"

abbrev pub same_reason : DropReason → DropReason → Bool
same_reason allocation_exhausted allocation_exhausted = true
same_reason sampled_out sampled_out = true
same_reason queue_full queue_full = true
same_reason _ _ = false

-- the stamps are milliseconds, as `utc_iso` writes them
pub record DropCounter : Type 0 where
  pub source : String
  pub event_type : String
  pub count : ℕ
  pub first_at : ℕ
  pub last_at : ℕ
  pub reason : DropReason

-- the counter has the key
unfoldable pub has_drop_key : String → String → DropReason → DropCounter → Bool
has_drop_key source type reason d =
    d.source =s source && (d.event_type =s type && same_reason d.reason reason)

unfoldable pub is_counted : String → String → DropReason → List DropCounter → Bool
unfolding row_count has_drop_key
is_counted source type reason ds = ltb 0 (row_count (has_drop_key source type reason) ds)

abbrev pub count_again : ℕ → DropCounter → DropCounter
count_again stamp d = record d { count = d.count + 1; last_at = stamp }

abbrev pub first_drop : String → String → DropReason → ℕ → DropCounter
first_drop source type reason stamp = record {
  source = source;
  event_type = type;
  count = 1;
  first_at = stamp;
  last_at = stamp;
  reason = reason;
}

-- the counter of a key, made or counted up
unfoldable pub count_drop : String → String → DropReason → ℕ → List DropCounter → List DropCounter
unfolding is_counted update_where has_drop_key
count_drop source type reason stamp ds =
    if is_counted source type reason ds
    then update_where (has_drop_key source type reason) (count_again stamp) ds
    else ds ++ first_drop source type reason stamp ∷ []

abbrev pub max_counters : ℕ
max_counters = 128

unfoldable pub record_drop : String → String → DropReason → ℕ → List DropCounter → List DropCounter
unfolding is_counted count_drop
record_drop source type reason stamp ds =
    if is_counted source type reason ds
    then count_drop source type reason stamp ds
    else if ltb (length ds) max_counters
    then count_drop source type reason stamp ds
    else count_drop "multiple" "multiple" reason stamp ds

-- `sum(item.count for item in counters)`
unfoldable pub total : List DropCounter → ℕ
total [] = 0
total (d ∷ ds) = d.count + total ds

-- `min(item.first_at for item in counters)`
unfoldable pub earliest : ℕ → List DropCounter → ℕ
earliest n [] = n
earliest n (d ∷ ds) = earliest (min n d.first_at) ds

-- `max(item.last_at for item in counters)`
unfoldable pub latest : ℕ → List DropCounter → ℕ
latest n [] = n
latest n (d ∷ ds) = latest (max n d.last_at) ds
