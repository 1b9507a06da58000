-- ===== src/Ingestion/Bus/Events.antt =====
-- The events that `BoundedEventBus` of src/hal9000/sentience/event_bus.py makes itself.
use bollywood_hal.Prelude.{String, ◌+s◌, true, none, List, [], ◌∷◌}
use bollywood_hal.Storage.Models.{observation, warning}
use bollywood_hal.Storage.Envelope.{Envelope}
use bollywood_hal.Storage.Json.{Json, num, text, arr, obj, field, end, nil, cons, Items}
use bollywood_hal.Sentience.Runtime.{Runtime, Now, new_event}
use bollywood_hal.Sentience.Capabilities.Events.{ledger_event}
use bollywood_hal.Ingestion.Observations.{EventRunInput}
use bollywood_hal.Ingestion.Bus.Drops.{DropCounter, reason_text, total, earliest, latest}

abbrev pub group : DropCounter → Json
group d = obj (
    field "source" (text d.source) (
      field "type" (text d.event_type)
        (field "count" (num d.count) (field "reason" (text (reason_text d.reason)) end))))

abbrev pub groups : List DropCounter → Items
groups [] = nil
groups (d ∷ ds) = cons (group d) (groups ds)

module _ {F D : Type 0} (rt : Runtime F D) where
  -- the event of the first observation of a high severity with a fingerprint
  unfoldable pub first_high_severity : String → EventRunInput → String → Now → Envelope Json F
  unfolding new_event
  first_high_severity event_id item fingerprint now =
      record (new_event rt
        (ledger_event event_id "hal.sentience.ingestion" "telemetry.high_severity.first"
          "fingerprint" item.severity observation
          (obj (
            field "fingerprint" (text fingerprint) (
              field "source" (text item.source)
                (field "type" (text item.type) (field "subject" (text item.subject) end)))))
          item.task_id ("first-high-severity:" +s fingerprint))
        now) { internal = true }

  -- the idempotency key of a summary
  abbrev pub summary_key : String → String
  summary_key nonce = "telemetry-dropped:" +s (rt.boot_id +s (":" +s nonce))

  unfoldable pub drop_summary :
      String → Now → DropCounter → List DropCounter → String → Envelope Json F
  unfolding new_event total earliest latest
  drop_summary event_id now d ds nonce =
      record (new_event rt
        (ledger_event event_id "hal.sentience.ingestion" "telemetry.dropped" "telemetry" warning
          observation
          (obj (
            field "count" (num (total (d ∷ ds))) (
              field "first_at" (text (rt.iso (earliest d.first_at ds))) (
                field "last_at" (text (rt.iso (latest d.last_at ds)))
                  (field "groups" (arr (groups (d ∷ ds))) end)))))
          none (summary_key nonce))
        now) { internal = true }
