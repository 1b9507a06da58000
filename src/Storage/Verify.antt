-- ===== src/Storage/Verify.antt =====
-- `verify_control_chain` and `verify_sequence_continuity` of
-- src/hal9000/sentience/storage/database.py.
pub mod Continuity
pub mod Chain
pub mod Tamper
use bollywood_hal.Prelude.{
  ℕ, ◌+◌, Bool, true, false, not, Option, none, some, List, [], ◌∷◌, ltb, ◌==◌, if◌then◌else◌,
}
use bollywood_hal.Storage.Models.{IntegrityResult}
use bollywood_hal.Storage.Rows.{Codec, Row, Db}
use bollywood_hal.Storage.Exact.{event_hash}

module _ {P F D : Type 0} (c : Codec P F D) where
  same_hash : Option D → Option D → Bool
  same_hash none none = true
  same_hash (some a) (some b) = c.same a b
  same_hash _ _ = false

  -- the loop of `verify_control_chain` over the rows that have a hash. A row is as `append_exact_event`
  -- writes it: the exceptions of json.loads and of an enumeration on another text are not modelled.
  unfoldable pub verify_from : Option D → ℕ → List (Row P F D) → IntegrityResult
  unfolding same_hash event_hash
  verify_from previous checked [] = record { valid = true; checked = checked }
  verify_from previous checked (r ∷ rs) =
      let next = verify_from r.event_hash (checked + 1) rs in
      let skipped = verify_from previous checked rs in
      elim r.event_hash [
        | none ↦ skipped
        | some h ↦
            if not (same_hash r.previous_hash previous)
            then record { valid = false; checked = checked }
            else if not (c.same (event_hash c r.sequence previous r.event r.payload_json) h)
            then record { valid = false; checked = checked }
            else next
      ]

  unfoldable pub verify_control_chain : {T : Type 0} → Db P F D T → IntegrityResult
  unfolding verify_from
  verify_control_chain db = verify_from none 0 db.events

module _ {P F D : Type 0} where
  -- the loop of `verify_sequence_continuity`
  unfoldable pub verify_sequence_from : ℕ → ℕ → List (Row P F D) → IntegrityResult
  verify_sequence_from expected checked [] = record { valid = true; checked = checked }
  verify_sequence_from expected checked (r ∷ rs) =
      let rest = verify_sequence_from (expected + 1) (checked + 1) rs in
      if r.sequence == expected then rest else record { valid = false; checked = checked }

  -- WHERE sequence > ?
  unfoldable pub rows_after : ℕ → List (Row P F D) → List (Row P F D)
  rows_after n [] = []
  rows_after n (r ∷ rs) = let rest = rows_after n rs in if ltb n r.sequence then r ∷ rest else rest

  unfoldable pub verify_sequence_continuity : {T : Type 0} → ℕ → Db P F D T → IntegrityResult
  unfolding verify_sequence_from rows_after
  verify_sequence_continuity after db =
      verify_sequence_from (after + 1) 0 (rows_after after db.events)
