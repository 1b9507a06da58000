-- ===== src/Speech/Chunker/Feed.antt =====
-- `feed` and `finish` of `SpeechChunker` (src/hal9000/speech/text.py).
use mathlib.Core.List.{append_assoc}
use bollywood_hal.Prelude.{
  ℕ, zero, suc, ◌+◌, ◌-◌, ◌≡◌, ◌≤◌, ◌<◌, refl, ap, ◌∙◌, max, List, [], ◌∷◌, ◌++◌, length, take, All,
  arith, ◌==◌, inl, inr, Bool-cases, if◌then◌else◌,
}
use bollywood_hal.Speech.Chunker.{Text, Chars, drop, find_boundary}
use bollywood_hal.Speech.Chunker.Boundary.{find_boundary-le}

pub record SpeechChunker : Type 0 where
  pub max_chars : ℕ
  pub buffer : Text

-- `__init__`
unfoldable pub new_chunker : ℕ → SpeechChunker
new_chunker max_chars = record { max_chars = max 80 max_chars; buffer = [] }

abbrev pub reset : SpeechChunker → SpeechChunker
reset k = record k { buffer = [] }

-- the text of some pieces in their order
abbrev pub concat : List Text → Text
concat [] = []
concat (r ∷ rs) = r ++ concat rs

module _ (u : Chars) where
  -- the pieces that are not empty when spoken
  unfoldable pub speak : List Text → List Text
  speak [] = []
  speak (r ∷ rs) =
      let rest = speak rs in if length (u.spoken r) == 0 then rest else u.spoken r ∷ rest

  -- the loop of `feed` on fuel: the pieces that were cut off, and the rest
  unfoldable pub cut_all : ℕ → ℕ → Text → List Text × Text
  unfolding find_boundary drop
  cut_all max_chars zero v = ([], v)
  cut_all max_chars (suc n) v =
      let b = find_boundary u max_chars v in
      let (pieces, rest) = cut_all max_chars n (drop b v) in
      if b == 0 then ([], v) else (take b v ∷ pieces, rest)

  unfoldable pub feed : Text → SpeechChunker → List Text × SpeechChunker
  unfolding speak cut_all
  feed delta k =
      let v = k.buffer ++ delta in
      let (pieces, rest) = cut_all k.max_chars (length v) v in
      (speak pieces, record k { buffer = rest })

  unfoldable pub finish : SpeechChunker → List Text × SpeechChunker
  unfolding speak
  finish k = (speak (k.buffer ∷ []), record k { buffer = [] })

  take-drop : (n : ℕ) (v : Text) → take n v ++ drop n v ≡ v
  unfolding drop
  take-drop zero v = refl
  take-drop (suc n) [] = refl
  take-drop (suc n) (c ∷ cs) = ap (λ z. c ∷ z) (take-drop n cs)

  length-drop : (n : ℕ) (v : Text) → length (drop n v) ≡ length v - n
  unfolding drop
  length-drop zero v = omega arith
  length-drop (suc n) [] = omega arith
  length-drop (suc n) (c ∷ cs) = omega (arith, length-drop n cs)

  length-take : (n : ℕ) (v : Text) → n ≤ length v → length (take n v) ≡ n
  length-take zero v h = refl
  length-take (suc n) [] h = absurd (omega (arith, h))
  length-take (suc n) (c ∷ cs) h = omega (arith, length-take n cs (omega (arith, h)))

  -- what the loop leaves: the text is the pieces and the rest, and the rest has no boundary
  pub record Cut (max_chars : ℕ) (v : Text) (o : List Text × Text) : Type 0 where
    pub whole : concat o.0 ++ o.1 ≡ v
    pub settled : find_boundary u max_chars o.1 ≡ 0
    pub filled : All (λ r. 1 ≤ length r) o.0

  piece-Cut :
      (max_chars b : ℕ) (v : Text) (o : List Text × Text)
      → 1 ≤ b
      → b ≤ length v
      → Cut max_chars (drop b v) o
      → Cut max_chars v (take b v ∷ o.0, o.1)
  piece-Cut max_chars b v o positive inside k = record {
    whole =
        append_assoc (take b v) (concat o.0) o.1 ∙ ap (λ z. take b v ++ z) k.whole ∙ take-drop b v;
    settled = k.settled;
    filled = (omega (arith, length-take b v inside, positive), k.filled);
  }

  cut_all-Cut :
      (max_chars n : ℕ) (v : Text) → length v ≤ n → Cut max_chars v (cut_all max_chars n v)
  unfolding cut_all
  cut_all-Cut max_chars zero v h = record {
    whole = refl;
    settled = omega (arith, find_boundary-le u max_chars v, h);
    filled = tt;
  }
  cut_all-Cut max_chars (suc n) v h =
      let b = find_boundary u max_chars v in
      let settled : length v < suc n + b
          → Cut max_chars (drop b v) (cut_all max_chars n (drop b v)) =
        λ less. cut_all-Cut max_chars n (drop b v) (omega (arith, length-drop b v, less)) in
      elim (Bool-cases (b == 0)) [
        | inl none_left ↦
            rw none_left (record { whole = refl; settled = ground (arith, none_left); filled = tt })
        | inr found ↦
            let positive : 1 ≤ b = ground (arith, found) in
            rw found (
              piece-Cut max_chars b v (cut_all max_chars n (drop b v)) positive
                (find_boundary-le u max_chars v) (settled (omega (arith, h, positive))))
      ]

  -- `feed` returns, for any text, with its buffer cut at every boundary: the pieces that it speaks are
  -- not empty, the pieces and the buffer that is left are together the old buffer and the new text, in
  -- their order, and what is left has no boundary.
  pub feed-settles :
      (delta : Text) (k : SpeechChunker)
      → (pieces : List Text) × ((feed delta k).0 ≡ speak pieces)
        × (concat pieces ++ (feed delta k).1.buffer ≡ k.buffer ++ delta)
        × (find_boundary u k.max_chars (feed delta k).1.buffer ≡ 0)
        × All (λ r. 1 ≤ length r) pieces
  unfolding feed
  feed-settles delta k =
      let v = k.buffer ++ delta in
      let c = cut_all-Cut k.max_chars (length v) v (omega arith) in
      ((cut_all k.max_chars (length v) v).0, refl, c.whole, c.settled, c.filled)
