-- ===== src/Sentience/Degradation/Change/Phrases.antt =====
-- The phrases that the degradation machine puts into the outbox
-- (src/hal9000/sentience/degradation/engine.py, the INSERT OR IGNORE of `_enter_degraded` and `_finish_recovery`).
use bollywood_hal.Prelude.{
  ℕ, ◌≡◌, ◌≤◌, refl, sym, ap, ◌∙◌, String, Bool, true, ◌&&◌, ◌||◌, ◌=s◌, =s_refl, =s_iff, Option,
  none, some, List, [], arith,
}
use mathlib.Core.Path.{subst}
use bollywood_hal.Storage.Models.{DegradationSeverity}
use bollywood_hal.Action.{ok}
use bollywood_hal.Storage.Table.{row_count, insert_or_ignore_unique}
use bollywood_hal.Sentience.Tables.{
  PhraseKind, degradation_phrase, recovery_phrase, OutboxRow, EpisodeRow, Tables,
}
use bollywood_hal.Sentience.Degradation.Projections.{
  set_episode, stop_task, insert_episode, enqueue_phrase, same_kind,
}
use bollywood_hal.Sentience.Degradation.Exclusive.{insert_episode_inv}
use bollywood_hal.Sentience.Degradation.Change.{
  Change, unchanged, started, lost, confirmed, cancelled, restoring, flapped, recovered,
}

abbrev pub phrase_of : PhraseKind → String → OutboxRow → Bool
phrase_of kind episode_id o = same_kind o.kind kind && o.episode_id =s episode_id

-- An episode has at most one phrase of each kind.
unfoldable pub SpokenOnce : List OutboxRow → Type 0
SpokenOnce rows =
    (kind : PhraseKind) (episode_id : String) → row_count (phrase_of kind episode_id) rows ≤ 1

pub SpokenOnce-empty : SpokenOnce []
unfolding SpokenOnce row_count
SpokenOnce-empty kind k = omega arith

same_kind_trans : (a b c : PhraseKind) → same_kind a b ≡ true → same_kind a c ≡ same_kind b c
same_kind_trans degradation_phrase degradation_phrase c h = refl
same_kind_trans recovery_phrase recovery_phrase c h = refl
same_kind_trans degradation_phrase recovery_phrase c h = cc
same_kind_trans recovery_phrase degradation_phrase c h = cc

same_kind_sym : (a b : PhraseKind) → same_kind a b ≡ same_kind b a
same_kind_sym degradation_phrase degradation_phrase = refl
same_kind_sym degradation_phrase recovery_phrase = refl
same_kind_sym recovery_phrase degradation_phrase = refl
same_kind_sym recovery_phrase recovery_phrase = refl

-- a phrase of the kind and the episode of the new row is a clash with it
clashes :
    (a b kind : PhraseKind) (x y k : String)
    → (same_kind a kind && x =s k) ≡ true
    → (same_kind b kind && y =s k) ≡ true
    → (same_kind b a && y =s x) ≡ true
clashes a b kind x y k new old = ground (
  arith,
  same_kind_trans a kind b,
  same_kind_sym a b,
  same_kind_sym kind b,
  same_kind_sym b a,
  =s_iff x k,
  =s_iff y k,
  =s_refl k,
)

or_right : (a : Bool) {b : Bool} → b ≡ true → (a || b) ≡ true
or_right a h = ground arith

module _ {F : Type 0} where
  enqueue_phrase-SpokenOnce :
      (kind : PhraseKind) (k outbox phrase : String) (stamp : ℕ) (t : Tables F)
      → SpokenOnce t.outbox
      → SpokenOnce (enqueue_phrase kind k outbox phrase stamp t).outbox
  unfolding enqueue_phrase SpokenOnce
  enqueue_phrase-SpokenOnce kind k outbox phrase stamp t h kind2 k2 =
      insert_or_ignore_unique (phrase_of kind2 k2) _ _ t.outbox
        (λ new x old.
          or_right (x.outbox_id =s outbox) (clashes kind x.kind kind2 k x.episode_id k2 new old))
        (h kind2 k2)

  outbox-stop_task :
      (s : DegradationSeverity) (task : Option String) (stamp : ℕ) (t : Tables F)
      → (stop_task s task stamp t).outbox ≡ t.outbox
  unfolding stop_task
  outbox-stop_task s none stamp t = refl
  outbox-stop_task s (some k) stamp t = ground arith

  outbox-insert_episode :
      (row : EpisodeRow) (t u : Tables F) → insert_episode row t ≡ ok u → u.outbox ≡ t.outbox
  outbox-insert_episode row t u inserted =
      ap (λ (v : Tables F). v.outbox) (insert_episode_inv row t u inserted).0

  -- A move of the machine leaves an episode with at most one phrase of each kind.
  pub Change-SpokenOnce :
      (t t' : Tables F) → Change t t' → SpokenOnce t.outbox → SpokenOnce t'.outbox
  unfolding set_episode
  Change-SpokenOnce t t' (unchanged e) h = subst (λ (u : Tables F). SpokenOnce u.outbox) (sym e) h
  Change-SpokenOnce t t' (started row u s task stamp idle st inserted e) h =
      subst SpokenOnce
        (sym (
          ap (λ (v : Tables F). v.outbox) e
          ∙ outbox-stop_task s task stamp u
          ∙ outbox-insert_episode row t u inserted))
        h
  Change-SpokenOnce t t' (lost row loss event task stamp read e) h =
      subst SpokenOnce
        (sym (ap (λ (v : Tables F). v.outbox) e ∙ outbox-stop_task loss.severity task stamp _)) h
  Change-SpokenOnce t t' (confirmed row stamp outbox phrase event read st missing e) h =
      subst (λ (u : Tables F). SpokenOnce u.outbox) (sym e)
        (enqueue_phrase-SpokenOnce degradation_phrase row.episode_id outbox phrase stamp _ h)
  Change-SpokenOnce t t' (cancelled row stamp monotonic event read st back e) h =
      subst (λ (u : Tables F). SpokenOnce u.outbox) (sym e) h
  Change-SpokenOnce t t' (restoring row profile boot stamp monotonic event read st back e) h =
      subst (λ (u : Tables F). SpokenOnce u.outbox) (sym e) h
  Change-SpokenOnce t t' (flapped row profile event read st missing e) h =
      subst (λ (u : Tables F). SpokenOnce u.outbox) (sym e) h
  Change-SpokenOnce t t' (recovered row profile stamp monotonic outbox phrase event read st back e)
        h =
      subst (λ (u : Tables F). SpokenOnce u.outbox) (sym e)
        (enqueue_phrase-SpokenOnce recovery_phrase row.episode_id outbox phrase stamp _ h)
