-- ===== src/Sentience/Degradation/Life/Others.antt =====
-- The clients that write the tables of the degradation engine beside it: the dispatcher of the outbox
-- (src/hal9000/sentience/degradation/outbox.py), which marks the phrases and the episodes that it
-- speaks, and the revalidation queue (src/hal9000/sentience/degradation/revalidation.py), which notes
-- conclusions in an episode.
use bollywood_hal.Prelude.{
  ℕ, ◌+◌, ◌≡◌, refl, ap, sym, ◌∙◌, String, Bool, Option, none, some, List, [], ◌∷◌, ◌=s◌, arith,
}
use mathlib.Core.Path.{subst}
use bollywood_hal.Action.{Result, ok, raised, ok-injective}
use bollywood_hal.Storage.Models.{StoredEvent}
use bollywood_hal.Storage.Table.{update_where}
use bollywood_hal.Storage.Table.Pairs.{
  Aligned, Aligned-refl, Aligned-trans, Aligned-update, row_count-Aligned,
}
use bollywood_hal.Sentience.Tables.{
  EpisodeRow, OutboxRow, PhraseKind, degradation_phrase, recovery_phrase, Tables,
}
use bollywood_hal.Sentience.Runtime.{Self, Now, utc_ms}
use bollywood_hal.Sentience.Degradation.{is_active}
use bollywood_hal.Sentience.Degradation.Selection.{has_id, active}
use bollywood_hal.Sentience.Degradation.Projections.{set_episode}
use bollywood_hal.Sentience.Degradation.Exclusive.{Exclusive}
use bollywood_hal.Sentience.Degradation.Change.Phrases.{SpokenOnce, phrase_of}
use bollywood_hal.Sentience.Degradation.Change.Edges.{Evolves, Edge, stay}
use bollywood_hal.Sentience.Degradation.Change.Transactions.{append_rule}
use bollywood_hal.Sentience.Outbox.{
  Dispatcher, set_claimed, set_released, set_emitted, set_spoken, claim, claim_row, next_waiting,
  release_claim, project_emitted, mark_emitted, give_back, settle, delivered, dispatch_claimed,
  dispatch_one, deliver,
}

pub record SameEpisode (x y : EpisodeRow) : Type 0 where
  pub same_id : y.episode_id ≡ x.episode_id
  pub same_state : y.state ≡ x.state

pub record SamePhrase (x y : OutboxRow) : Type 0 where
  pub kept_kind : y.kind ≡ x.kind
  pub kept_episode : y.episode_id ≡ x.episode_id

-- What a client may write beside the engine: columns other than the identity and the state of an
-- episode, and other than the kind and the episode of a phrase. It adds and drops no row of the two.
pub record Beside {F : Type 0} (t u : Tables F) : Type 0 where
  pub episodes : Aligned SameEpisode t.episodes u.episodes
  pub phrases : Aligned SamePhrase t.outbox u.outbox

SameEpisode-refl : (x : EpisodeRow) → SameEpisode x x
SameEpisode-refl x = record { same_id = refl; same_state = refl }

SamePhrase-refl : (x : OutboxRow) → SamePhrase x x
SamePhrase-refl x = record { kept_kind = refl; kept_episode = refl }

spoken-SameEpisode : (kind : PhraseKind) (x : EpisodeRow) → SameEpisode x (set_spoken kind x)
unfolding set_spoken
spoken-SameEpisode degradation_phrase x = record { same_id = refl; same_state = refl }
spoken-SameEpisode recovery_phrase x = record { same_id = refl; same_state = refl }

pub Aligned-Evolves : (xs ys : List EpisodeRow) → Aligned SameEpisode xs ys → Evolves xs ys
unfolding Aligned Evolves
Aligned-Evolves [] [] h = tt
Aligned-Evolves [] (y ∷ ys) h = absurd h
Aligned-Evolves (x ∷ xs) [] h = absurd h
Aligned-Evolves (x ∷ xs) (y ∷ ys) h =
    (h.0.same_id, subst (Edge x.state) (sym h.0.same_state) stay, Aligned-Evolves xs ys h.1)

module _ {F : Type 0} where
  Beside-refl : (t : Tables F) → Beside t t
  Beside-refl t = record {
    episodes = Aligned-refl SameEpisode SameEpisode-refl t.episodes;
    phrases = Aligned-refl SamePhrase SamePhrase-refl t.outbox;
  }

  Beside-trans : (t u v : Tables F) → Beside t u → Beside u v → Beside t v
  Beside-trans t u v h k = record {
    episodes =
        Aligned-trans SameEpisode
          (λ x y z a b. record {
            same_id = b.same_id ∙ a.same_id;
            same_state = b.same_state ∙ a.same_state;
          })
          t.episodes u.episodes v.episodes h.episodes k.episodes;
    phrases =
        Aligned-trans SamePhrase
          (λ x y z a b. record {
            kept_kind = b.kept_kind ∙ a.kept_kind;
            kept_episode = b.kept_episode ∙ a.kept_episode;
          })
          t.outbox u.outbox v.outbox h.phrases k.phrases;
  }

  phrases-updated :
      (test : OutboxRow → Bool) (change : OutboxRow → OutboxRow) (t : Tables F)
      → ((x : OutboxRow) → SamePhrase x (change x))
      → Beside t (record t { outbox = update_where test change t.outbox })
  phrases-updated test change t keep = record {
    episodes = Aligned-refl SameEpisode SameEpisode-refl t.episodes;
    phrases = Aligned-update SamePhrase SamePhrase-refl test change t.outbox keep;
  }

  claim_row-Beside :
      (o : Option OutboxRow) (owner : String) (stamp : ℕ) (t : Tables F)
      → Beside t (claim_row o owner stamp t).1
  unfolding claim_row set_claimed
  claim_row-Beside none owner stamp t = Beside-refl t
  claim_row-Beside (some row) owner stamp t =
      phrases-updated _ (set_claimed stamp owner) t
        (λ x. record { kept_kind = refl; kept_episode = refl })

  release_claim-Beside :
      (outbox_id error : String) (t : Tables F) → Beside t (release_claim outbox_id error t)
  unfolding release_claim set_released
  release_claim-Beside outbox_id error t =
      phrases-updated _ (set_released error) t
        (λ x. record { kept_kind = refl; kept_episode = refl })

  project_emitted-Beside :
      (row : OutboxRow) (channel : String) (stamp n : ℕ) (t u : Tables F)
      → project_emitted row channel stamp n t ≡ ok u
      → Beside t u
  unfolding project_emitted set_emitted set_episode
  project_emitted-Beside row channel stamp n t u h = subst (Beside t) (ok-injective h) (record {
    episodes =
        Aligned-update SameEpisode SameEpisode-refl _ (set_spoken row.kind) t.episodes
          (spoken-SameEpisode row.kind);
    phrases =
        Aligned-update SamePhrase SamePhrase-refl _ (set_emitted stamp channel) t.outbox
          (λ x. record { kept_kind = refl; kept_episode = refl });
  })

  pub Beside-Exclusive : (t u : Tables F) → Beside t u → Exclusive t.episodes → Exclusive u.episodes
  Beside-Exclusive t u b h = record {
    one_row = λ k. omega (
      arith,
      row_count-Aligned SameEpisode (has_id k) (λ x y s. ap (λ i. i =s k) s.same_id) t.episodes
          u.episodes b.episodes,
      h.one_row k,
    );
    one_active = omega (
      arith,
      row_count-Aligned SameEpisode active (λ x y s. ap is_active s.same_state) t.episodes
          u.episodes b.episodes,
      h.one_active,
    );
  }

  pub Beside-SpokenOnce : (t u : Tables F) → Beside t u → SpokenOnce t.outbox → SpokenOnce u.outbox
  unfolding SpokenOnce
  Beside-SpokenOnce t u b h kind k = omega (
    arith,
    row_count-Aligned SamePhrase (phrase_of kind k) (λ x y s. rw (s.kept_kind, s.kept_episode) refl)
        t.outbox u.outbox b.phrases,
    h kind k,
  )

module _ {F D : Type 0} (d : Dispatcher F D) where
  mark_emitted-Beside :
      (row : OutboxRow) (channel : String) (now : Now) (event_id : String) (db : Self F D)
      → Beside db.tables (mark_emitted d row channel now event_id db).1.tables
  unfolding mark_emitted
  mark_emitted-Beside row channel now event_id db =
      append_rule (Beside db.tables) d.runtime _ now _ db
        (λ t made.
          project_emitted-Beside row channel (utc_ms now) (db.last_sequence + 1) db.tables t made)
        (Beside-refl db.tables)

  settle-Beside :
      (row : OutboxRow) (channel : String) (r : Result StoredEvent) (db : Self F D)
      → Beside db.tables (settle d row channel r db).1.tables
  unfolding settle give_back
  settle-Beside row channel (ok _) db = Beside-refl db.tables
  settle-Beside row channel (raised e) db = release_claim-Beside row.outbox_id (d.cut e) db.tables

  delivered-Beside :
      (row : OutboxRow) (r : Result String) (now : Now) (event_id : String) (db : Self F D)
      → Beside db.tables (delivered d row r now event_id db).1.tables
  unfolding delivered give_back
  delivered-Beside row (raised e) now event_id db =
      release_claim-Beside row.outbox_id (d.cut e) db.tables
  delivered-Beside row (ok channel) now event_id db =
      let (r, after) = mark_emitted d row channel now event_id db in
      Beside-trans db.tables after.tables _ (mark_emitted-Beside row channel now event_id db)
        (settle-Beside row channel r after)

  dispatch_claimed-Beside :
      (o : Option OutboxRow) (tts : Bool) (speak display : String → Result (Unit {0})) (now : Now)
      (event_id : String) (db : Self F D)
      → Beside db.tables (dispatch_claimed d o tts speak display now event_id db).1.tables
  unfolding dispatch_claimed
  dispatch_claimed-Beside none tts speak display now event_id db = Beside-refl db.tables
  dispatch_claimed-Beside (some row) tts speak display now event_id db =
      delivered-Beside row (deliver tts speak display row.phrase) now event_id db

  -- A dispatch adds and drops no phrase and no episode, and moves no episode to another state.
  pub dispatch_one-Beside :
      (tts : Bool) (speak display : String → Result (Unit {0})) (claimed_now now : Now)
      (event_id : String) (db : Self F D)
      → Beside db.tables (dispatch_one d tts speak display claimed_now now event_id db).1.tables
  unfolding dispatch_one claim
  dispatch_one-Beside tts speak display claimed_now now event_id db =
      let o = next_waiting db.tables.outbox in
      let (row, tables) = claim_row o d.owner (utc_ms claimed_now) db.tables in
      Beside-trans db.tables tables _ (claim_row-Beside o d.owner (utc_ms claimed_now) db.tables)
        (dispatch_claimed-Beside row tts speak display now event_id (record db { tables = tables }))
