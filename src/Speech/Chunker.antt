-- ===== src/Speech/Chunker.antt =====
-- `SpeechChunker` of src/hal9000/speech/text.py. A text is the list of its code points. What Python's
-- `str` and `re` decide, and the rendering `markdown_to_speech`, are parameters.
pub mod Boundary
pub mod Feed
use bollywood_hal.Prelude.{
  ℕ, zero, suc, ◌+◌, ◌-◌, ◌/◌, ◌==◌, max, String, Bool, true, false, not, ◌&&◌, ◌||◌, contains,
  Option, none, some, List, [], ◌∷◌, ◌++◌, take, length, ltb, leb, if◌then◌else◌, ◌=s◌,
}

abbrev pub Text : Type 0
Text = List ℕ

pub record Chars : Type 0 where
  pub is_space : ℕ → Bool
  pub is_digit : ℕ → Bool
  -- the match of `([A-Za-z](?:[A-Za-z.]*)?)$` on a text: where it starts, and the group, lowered and
  -- without its last dots
  pub last_token : Text → Option (ℕ × String)
  -- `len(token) == 1 and token.isalpha()`
  pub is_letter : String → Bool
  -- `markdown_to_speech(text)`
  pub spoken : Text → Text

abbrev pub abbreviations : List String
abbreviations =
    "dr" ∷ "mr" ∷ "mrs" ∷ "ms" ∷ "prof" ∷ "sr" ∷ "jr" ∷ "st" ∷ "vs" ∷ "etc" ∷ "e.g" ∷ "i.e" ∷ []

-- `text.startswith("```")`
abbrev pub starts_fence : Text → Bool
starts_fence (a ∷ b ∷ c ∷ _) = a == 96 && (b == 96 && c == 96)
starts_fence _ = false

abbrev pub starts_line : Text → Bool
starts_line (c ∷ _) = c == 10
starts_line [] = false

-- What `_find_boundary` knows at an index: the text before it, the nearest first, and the characters
-- of a fence that it has still to pass.
pub record Scan : Type 0 where
  pub index : ℕ
  pub before : Text
  pub in_fence : Bool
  pub last_space : Option ℕ
  pub passes : ℕ

abbrev pub scan_start : Scan
scan_start = record { index = 0; before = []; in_fence = false; last_space = none; passes = 0 }

-- a boundary, or the scan at the next index
pub data Visit : Type 0 where
  cut : ℕ → Visit
  go : Scan → Visit

-- the next index
abbrev pub step : ℕ → Scan → Scan
step c s = record s { index = s.index + 1; before = c ∷ s.before }

unfoldable pub reverse_onto : Text → Text → Text
reverse_onto [] cs = cs
reverse_onto (b ∷ bs) cs = reverse_onto bs (b ∷ cs)

-- The characters that close a sentence after its mark: quotes, brackets and Markdown.
abbrev pub is_closer : ℕ → Bool
is_closer c =
    c == 34
    || (c == 39
        || (c == 41 || (c == 93 || (c == 125 || (c == 42 || (c == 95 || (c == 126 || c == 96)))))))

unfoldable pub closers : Text → ℕ
closers [] = 0
closers (c ∷ cs) = let n = closers cs in if is_closer c then n + 1 else 0

unfoldable pub drop : ℕ → Text → Text
drop zero cs = cs
drop (suc n) [] = []
drop (suc n) (c ∷ cs) = drop n cs

abbrev pub first_digit : (ℕ → Bool) → Text → Bool
first_digit digit [] = false
first_digit digit (c ∷ _) = digit c

module _ (u : Chars) where
  unfoldable pub strip_left : Text → Text
  strip_left [] = []
  strip_left (c ∷ cs) = let rest = strip_left cs in if u.is_space c then rest else c ∷ cs

  abbrev pub is_pause : Text → Bool
  is_pause [] = false
  is_pause (c ∷ _) = c == 58 || c == 59

  -- `value[:index].rstrip().endswith((":", ";"))`
  unfoldable pub ends_pause : Text → Bool
  unfolding strip_left
  ends_pause before = is_pause (strip_left before)

  -- `_is_decimal`
  abbrev pub is_decimal : ℕ → Text → Text → Bool
  is_decimal c before after =
      c == 46 && (first_digit u.is_digit before && first_digit u.is_digit after)

  -- the character before a start in the text that is reversed
  abbrev pub after_degree : ℕ → Text → Bool
  after_degree zero before = false
  after_degree (suc start) before = starts_degree (drop (length before - suc start) before)
    where
      starts_degree : Text → Bool
      starts_degree [] = false
      starts_degree (c ∷ _) = c == 176

  abbrev pub is_initial : Text → Option (ℕ × String) → Bool
  is_initial before none = false
  is_initial before (some (start, token)) =
      contains token abbreviations || (not (after_degree start before) && u.is_letter token)

  -- `_is_abbreviation`
  unfoldable pub is_abbreviation : ℕ → Text → Bool
  unfolding drop reverse_onto
  is_abbreviation c before = c == 46 && is_initial before (u.last_token (reverse_onto before []))

  abbrev pub is_end : Text → Bool
  is_end [] = true
  is_end (c ∷ _) = u.is_space c

  abbrev pub is_mark : ℕ → Bool
  is_mark c = c == 46 || (c == 33 || c == 63)

  abbrev pub note_space : ℕ → Scan → Scan
  note_space c s = record s {
    last_space = if u.is_space c && not s.in_fence then some s.index else s.last_space;
  }

  -- the cut after the last space, where it is far enough
  abbrev pub space_cut : ℕ → Option ℕ → Option ℕ
  space_cut max_chars none = none
  space_cut max_chars (some n) = if leb (max_chars / 2) n then some (n + 1) else none

  -- the cut of a text that is too long
  abbrev pub long_cut : ℕ → Scan → Option ℕ
  long_cut max_chars s = if leb max_chars s.index then space_cut max_chars s.last_space else none

  -- the boundary that the character at the index makes outside a fence, if it makes one
  unfoldable pub boundary_here : ℕ → ℕ → Text → Scan → Option ℕ
  unfolding ends_pause is_abbreviation closers drop
  boundary_here max_chars c after s =
      if c == 10 && ((starts_fence after || starts_line after) || ends_pause s.before)
      then some (s.index + 1)
      else if is_mark c
      then if is_decimal c s.before after || is_abbreviation c s.before
        then none
        else if is_end (drop (closers after) after)
        then some (s.index + 1 + closers after)
        else long_cut max_chars s
      else long_cut max_chars s

  abbrev pub stop_or_go : Option ℕ → Scan → Visit
  stop_or_go (some n) s = cut n
  stop_or_go none s = go s

  -- a character that is not one of a fence's marks
  unfoldable pub visit_text : ℕ → Scan → ℕ → Text → Visit
  unfolding boundary_here
  visit_text max_chars s c cs =
      if s.in_fence then go (step c s) else stop_or_go (boundary_here max_chars c cs s) (step c s)

  -- what the loop of `_find_boundary` does at a character
  unfoldable pub visit : ℕ → Scan → ℕ → Text → Visit
  unfolding visit_text
  visit max_chars s c cs =
      if ltb 0 s.passes
      then go (step c (record s { passes = s.passes - 1 }))
      else if starts_fence (c ∷ cs)
      then go (step c (record s { in_fence = not s.in_fence; passes = 2 }))
      else visit_text max_chars (note_space c s) c cs

  -- the loop of `_find_boundary`; 0 where there is none
  unfoldable pub find_from : ℕ → Scan → Text → ℕ
  unfolding visit
  find_from max_chars s [] = 0
  find_from max_chars s (c ∷ cs) = elim (visit max_chars s c cs) [
    | cut n ↦ n
    | go s' ↦ find_from max_chars s' cs
  ]

  -- `_find_boundary`
  unfoldable pub find_boundary : ℕ → Text → ℕ
  unfolding find_from
  find_boundary max_chars value = find_from max_chars scan_start value
