-- ===== src/Sentience/Outbox.antt =====
-- `OutboxDispatcher` of src/hal9000/sentience/degradation/outbox.py. The rows of the outbox are the
-- phrases of the degradation engine, which `_claim` takes whatever their `available_at`. `speak` and
-- `display` are the callables that the caller gives, `cut` is `str(exc)[:2000]`.
pub mod Emitted
use bollywood_hal.Prelude.{
  ℕ, ◌+◌, ◌==◌, String, Bool, true, false, ◌&&◌, ◌||◌, ◌=s◌, ◌+s◌, text_leb, Option, none, some,
  List, [], ◌∷◌, ltb, if◌then◌else◌,
}
use bollywood_hal.Action.{Exception, Result, ok, raised, Action, continue}
use bollywood_hal.Storage.Models.{observation, info, StoredEvent}
use bollywood_hal.Storage.Json.{Json, text, obj, field, end}
use bollywood_hal.Storage.Table.{row_count, update_where}
use bollywood_hal.Storage.Exact.{Projection}
use bollywood_hal.Sentience.Tables.{
  EpisodeRow, PhraseKind, degradation_phrase, recovery_phrase, OutboxRow, Tables,
}
use bollywood_hal.Sentience.Runtime.{Runtime, Self, Now, utc_ms, append}
use bollywood_hal.Sentience.Degradation.Projections.{set_episode}
use bollywood_hal.Sentience.Capabilities.Events.{ledger_event}

pub record Dispatcher (F D : Type 0) : Type 0 where
  pub runtime : Runtime F D
  pub owner : String
  pub cut : Exception → String

pub record OutboxDelivery : Type 0 where
  pub outbox_id : String
  pub kind : PhraseKind
  pub channel : String
  pub phrase : String

abbrev pub is_none : {A : Type 0} → Option A → Bool
is_none none = true
is_none (some _) = false

abbrev pub waiting : OutboxRow → Bool
waiting r = is_none r.emitted_at && is_none r.claimed_at

unfoldable pub before : OutboxRow → OutboxRow → Bool
before r s =
    ltb r.created_at s.created_at
    || (r.created_at == s.created_at && text_leb r.outbox_id s.outbox_id)

unfoldable pub earlier : OutboxRow → Option OutboxRow → Option OutboxRow
earlier r none = some r
earlier r (some s) = if before r s then some r else some s

-- SELECT … ORDER BY created_at, outbox_id LIMIT 1
unfoldable pub next_waiting : List OutboxRow → Option OutboxRow
unfolding earlier
next_waiting [] = none
next_waiting (r ∷ rs) = let rest = next_waiting rs in if waiting r then earlier r rest else rest

unfoldable pub set_claimed : ℕ → String → OutboxRow → OutboxRow
set_claimed stamp owner r = record r {
  claimed_at = some stamp;
  claim_owner = some owner;
  attempts = r.attempts + 1;
}

unfoldable pub set_released : String → OutboxRow → OutboxRow
set_released error r = record r { claimed_at = none; claim_owner = none; last_error = some error }

unfoldable pub set_emitted : ℕ → String → OutboxRow → OutboxRow
set_emitted stamp channel r = record r {
  emitted_at = some stamp;
  delivery_channel = some channel;
  last_error = none;
}

unfoldable pub set_spoken : PhraseKind → EpisodeRow → EpisodeRow
set_spoken degradation_phrase r = record r { phrase_emitted = true }
set_spoken recovery_phrase r = record r { recovery_phrase_emitted = true }

abbrev pub kind_text : PhraseKind → String
kind_text degradation_phrase = "degradation_phrase"
kind_text recovery_phrase = "recovery_phrase"

module _ {F : Type 0} where
  abbrev pub set_outbox : (OutboxRow → Bool) → (OutboxRow → OutboxRow) → Tables F → Tables F
  set_outbox test change t = record t { outbox = update_where test change t.outbox }

  unfoldable pub claim_row : Option OutboxRow → String → ℕ → Tables F → Option OutboxRow × Tables F
  unfolding row_count set_claimed
  claim_row none owner stamp t = (none, t)
  claim_row (some row) owner stamp t =
      let test = λ (r : OutboxRow). r.outbox_id =s row.outbox_id && waiting r in
      (
        if row_count test t.outbox == 1 then some row else none,
        set_outbox test (set_claimed stamp owner) t,
      )

  -- `_claim`
  unfoldable pub claim : String → ℕ → Tables F → Option OutboxRow × Tables F
  unfolding claim_row next_waiting
  claim owner stamp t = claim_row (next_waiting t.outbox) owner stamp t

  -- the UPDATE of the handler of exceptions
  unfoldable pub release_claim : String → String → Tables F → Tables F
  unfolding set_released
  release_claim outbox_id error t =
      set_outbox (λ (r : OutboxRow). r.outbox_id =s outbox_id && is_none r.emitted_at)
        (set_released error) t

  unfoldable pub project_emitted : OutboxRow → String → ℕ → Projection (Tables F)
  unfolding set_emitted set_spoken set_episode
  project_emitted row channel stamp _ t = ok (
      set_episode row.episode_id (set_spoken row.kind) (
        set_outbox (λ (r : OutboxRow). r.outbox_id =s row.outbox_id && is_none r.emitted_at)
          (set_emitted stamp channel) t))

-- the attempt to deliver: the channel, or what `display` raised
unfoldable pub deliver :
    Bool → (String → Result (Unit {0})) → (String → Result (Unit {0})) → String → Result String
deliver tts_available speak display phrase =
    let shown : Result String = elim (display phrase) [
      | ok _ ↦ ok "transcript"
      | raised e ↦ raised e
    ] in
    if tts_available then (elim (speak phrase) [ ok _ ↦ ok "speech" | raised _ ↦ shown ]) else shown

module _ {F D : Type 0} (d : Dispatcher F D) where
  -- `_mark_emitted`
  unfoldable pub mark_emitted : OutboxRow → String → Now → String → Action (Self F D) StoredEvent
  unfolding project_emitted
  mark_emitted row channel now event_id =
      append d.runtime
        (ledger_event event_id "hal.degradation.outbox" "degradation.phrase.emitted" row.episode_id
          info observation
          (obj (
            field "outbox_id" (text row.outbox_id)
              (field "kind" (text (kind_text row.kind)) (field "channel" (text channel) end))))
          none ("outbox-emitted:" +s row.outbox_id))
        now (project_emitted row channel (utc_ms now))

  -- `except BaseException`: the claim is given back and the exception goes on
  unfoldable pub give_back : OutboxRow → Exception → Action (Self F D) (Option OutboxDelivery)
  unfolding release_claim
  give_back row e db =
      (raised e, record db { tables = release_claim row.outbox_id (d.cut e) db.tables })

  unfoldable pub settle :
      OutboxRow → String → Result StoredEvent → Action (Self F D) (Option OutboxDelivery)
  unfolding give_back
  settle row channel (raised e) db = give_back row e db
  settle row channel (ok _) db = (
    ok (
        some (record {
          outbox_id = row.outbox_id;
          kind = row.kind;
          channel = channel;
          phrase = row.phrase;
        })),
    db,
  )

  unfoldable pub delivered :
      OutboxRow → Result String → Now → String → Action (Self F D) (Option OutboxDelivery)
  unfolding give_back settle mark_emitted
  delivered row (raised e) now event_id db = give_back row e db
  delivered row (ok channel) now event_id db =
      let (r, db') = mark_emitted row channel now event_id db in settle row channel r db'

  unfoldable pub dispatch_claimed :
      Option OutboxRow
      → Bool
      → (String → Result (Unit {0}))
      → (String → Result (Unit {0}))
      → Now
      → String
      → Action (Self F D) (Option OutboxDelivery)
  unfolding deliver delivered
  dispatch_claimed none tts speak display now event_id db = (ok none, db)
  dispatch_claimed (some row) tts speak display now event_id db =
      delivered row (deliver tts speak display row.phrase) now event_id db

  -- `dispatch_one`; the clock is read for the claim and for the event
  unfoldable pub dispatch_one :
      Bool
      → (String → Result (Unit {0}))
      → (String → Result (Unit {0}))
      → Now
      → Now
      → String
      → Action (Self F D) (Option OutboxDelivery)
  unfolding claim dispatch_claimed
  dispatch_one tts speak display claimed_now now event_id db =
      let (row, tables) = claim d.owner (utc_ms claimed_now) db.tables in
      dispatch_claimed row tts speak display now event_id (record db { tables = tables })

unfoldable pub pending_count : {F : Type 0} → Tables F → ℕ
unfolding row_count
pending_count t = row_count (λ (r : OutboxRow). is_none r.emitted_at) t.outbox
