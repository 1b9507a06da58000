-- ===== src/Speech/Chunker/Boundary.antt =====
-- A boundary is a position of the text (`_find_boundary`, src/hal9000/speech/text.py).
use bollywood_hal.Prelude.{
  ℕ, suc, ◌+◌, ◌-◌, ◌/◌, ◌≡◌, ◌≤◌, ◌<◌, refl, not, ◌&&◌, ◌||◌, Option, none, some, [], ◌∷◌, length,
  ltb, leb, ◌==◌, arith, if_both,
}
use bollywood_hal.Speech.Chunker.{
  Text, Chars, Scan, scan_start, step, Visit, cut, go, closers, drop, ends_pause, starts_fence,
  starts_line, is_mark, is_decimal, is_abbreviation, is_end, note_space, long_cut, space_cut,
  boundary_here, stop_or_go, visit_text, visit, find_from, find_boundary,
}

length-closers : (cs : Text) → closers cs ≤ length cs
unfolding closers
length-closers [] = omega arith
length-closers (c ∷ cs) = ground (arith, length-closers cs)

-- the last space lies before the index
abbrev pub Behind : ℕ → Option ℕ → Type 0
Behind n none = Unit
Behind n (some k) = k < n

-- a boundary within a text that goes on after the index
abbrev pub Within : ℕ → Option ℕ → Type 0
Within n none = Unit
Within n (some k) = (1 ≤ k) × (k ≤ n)

module _ (u : Chars) where
  space_cut-Within :
      (max_chars i n : ℕ) (o : Option ℕ) → Behind i o → i ≤ n → Within n (space_cut u max_chars o)
  space_cut-Within max_chars i n none behind inside = tt
  space_cut-Within max_chars i n (some k) behind inside =
      if_both (Within n) (leb (max_chars / 2) k) (some (k + 1)) none
        (omega arith, omega (arith, behind, inside)) tt

  long_cut-Within :
      (max_chars n : ℕ) (s : Scan)
      → Behind (s.index + 1) s.last_space
      → s.index + 1 ≤ n
      → Within n (long_cut u max_chars s)
  long_cut-Within max_chars n s behind inside =
      if_both (Within n) (leb max_chars s.index) (space_cut u max_chars s.last_space) none
        (space_cut-Within max_chars (s.index + 1) n s.last_space behind inside) tt

  boundary_here-Within :
      (max_chars c : ℕ) (cs : Text) (s : Scan)
      → Behind (s.index + 1) s.last_space
      → Within (s.index + (1 + length cs)) (boundary_here u max_chars c cs s)
  unfolding boundary_here
  boundary_here-Within max_chars c cs s behind =
      let n = s.index + (1 + length cs) in
      let long = long_cut-Within max_chars n s behind (omega arith) in
      if_both (Within n) (c == 10 && ((starts_fence cs || starts_line cs) || ends_pause u s.before))
        (some (s.index + 1)) _ (omega arith, omega arith)
        (if_both (Within n) (is_mark u c) _ (long_cut u max_chars s)
          (if_both (Within n) (is_decimal u c s.before cs || is_abbreviation u c s.before) none _ tt
            (if_both (Within n) (is_end u (drop (closers cs) cs)) (some (s.index + 1 + closers cs))
              (long_cut u max_chars s) (omega arith, omega (arith, length-closers cs)) long))
          long)

  -- a visit stays within the text, and goes on by one character
  abbrev pub Forward : Scan → Text → Visit → Type 0
  Forward s cs (cut k) = (1 ≤ k) × (k ≤ s.index + (1 + length cs))
  Forward s cs (go s') = (s'.index ≡ s.index + 1) × Behind s'.index s'.last_space

  Behind-suc : (n : ℕ) (o : Option ℕ) → Behind n o → Behind (n + 1) o
  Behind-suc n none h = tt
  Behind-suc n (some k) h = omega (arith, h)

  note_space-Behind :
      (c : ℕ) (s : Scan)
      → Behind s.index s.last_space
      → Behind (s.index + 1) (note_space u c s).last_space
  note_space-Behind c s h =
      if_both (Behind (s.index + 1)) (u.is_space c && not s.in_fence) (some s.index) s.last_space
        (omega arith) (Behind-suc s.index s.last_space h)

  stop-Forward :
      (o : Option ℕ) (s t : Scan) (cs : Text)
      → Within (s.index + (1 + length cs)) o
      → Forward s cs (go t)
      → Forward s cs (stop_or_go u o t)
  stop-Forward none s t cs w f = f
  stop-Forward (some k) s t cs w f = w

  visit_text-Forward :
      (max_chars : ℕ) (s : Scan) (c : ℕ) (cs : Text)
      → Behind (s.index + 1) s.last_space
      → Forward s cs (visit_text u max_chars s c cs)
  unfolding visit_text
  visit_text-Forward max_chars s c cs h =
      if_both (Forward s cs) s.in_fence (go (step c s)) _ (refl, h)
        (stop-Forward (boundary_here u max_chars c cs s) s (step c s) cs
          (boundary_here-Within max_chars c cs s h) (refl, h))

  visit-Forward :
      (max_chars : ℕ) (s : Scan) (c : ℕ) (cs : Text)
      → Behind s.index s.last_space
      → Forward s cs (visit u max_chars s c cs)
  unfolding visit
  visit-Forward max_chars s c cs h =
      let passed = Behind-suc s.index s.last_space h in
      if_both (Forward s cs) (ltb 0 s.passes) (go (step c (record s { passes = s.passes - 1 }))) _
        (refl, passed)
        (if_both (Forward s cs) (starts_fence (c ∷ cs))
          (go (step c (record s { in_fence = not s.in_fence; passes = 2 })))
          (visit_text u max_chars (note_space u c s) c cs) (refl, passed)
          (visit_text-Forward max_chars (note_space u c s) c cs (note_space-Behind c s h)))

  next-bound :
      (max_chars : ℕ) (s : Scan) (cs : Text) (v : Visit)
      → Forward s cs v
      → ((s' : Scan)
          → Behind s'.index s'.last_space
          → find_from u max_chars s' cs ≤ s'.index + length cs)
      → elim v [ cut n ↦ n | go s' ↦ find_from u max_chars s' cs ] ≤ s.index + suc (length cs)
  next-bound max_chars s cs (cut k) f next = omega (arith, f.1)
  next-bound max_chars s cs (go s') f next = omega (arith, next s' f.1, f.0)

  find_from-bound :
      (max_chars : ℕ) (s : Scan) (cs : Text)
      → Behind s.index s.last_space
      → find_from u max_chars s cs ≤ s.index + length cs
  unfolding find_from
  find_from-bound max_chars s [] h = omega arith
  find_from-bound max_chars s (c ∷ cs) h =
      next-bound max_chars s cs (visit u max_chars s c cs) (visit-Forward max_chars s c cs h)
        (λ s' h'. find_from-bound max_chars s' cs h')

  -- A boundary is a position of the text, its end included.
  pub find_boundary-le :
      (max_chars : ℕ) (value : Text) → find_boundary u max_chars value ≤ length value
  unfolding find_boundary
  find_boundary-le max_chars value = omega (arith, find_from-bound max_chars scan_start value tt)
