-- ===== src/Pipeline/Qwen/Output/Line.antt =====
-- brain/pipeline/qwen_slm.py: what `extract_slm_completion` and `compact_slm_output` return
use nubjuk_brain.Prelude.{
  ℕ, ◌+◌, ◌≤◌, ◌≡◌, refl, sym, subst, true, false, List, [], ◌∷◌, Text, codes, length,
  length-append, length-take, take, ◌==◌, All, arith, Bool-cases, inl, inr, if-intro, if◌then◌else◌,
}
use nubjuk_brain.Intent.Normalize.{Unicode, collapse, lstrip, rstrip, push_unless_blank}
use nubjuk_brain.Pipeline.Qwen.Output.{
  is_break, push_char, split_lines, last_or, strip, stripped_lines, extract_slm_completion,
  compact_slm_output,
}

-- What is used of `str.isspace`: the ends of lines are white space.
abbrev pub BreaksAreSpace : Unicode → Type 0
BreaksAreSpace u = (c : ℕ) → is_break c ≡ true → u.is_space c ≡ true

abbrev IsUnbroken : Text → Type 0
IsUnbroken = All (λ (c : ℕ). is_break c ≡ false)

push_char-IsUnbroken :
    (c : ℕ) (lines : List Text)
    → is_break c ≡ false
    → All IsUnbroken lines
    → All IsUnbroken (push_char c lines)
unfolding push_char
push_char-IsUnbroken c [] e h = ((e, tt), tt)
push_char-IsUnbroken c (line ∷ lines) e h = ((e, h.0), h.1)

split_lines-IsUnbroken : (text : Text) → All IsUnbroken (split_lines text)
unfolding split_lines
split_lines-IsUnbroken [] = tt
split_lines-IsUnbroken (c ∷ text) =
    if-intro (All IsUnbroken) (is_break c) (λ _. (tt, split_lines-IsUnbroken text))
      (λ e. push_char-IsUnbroken c (split_lines text) e (split_lines-IsUnbroken text))

module _ (u : Unicode) where
  lstrip-All : (Q : ℕ → Type 0) (text : Text) → All Q text → All Q (lstrip u text)
  unfolding lstrip
  lstrip-All Q [] h = tt
  lstrip-All Q (c ∷ text) h = if-intro (All Q) (u.is_space c) (λ _. lstrip-All Q text h.1) (λ _. h)

  push_unless_blank-All :
      (Q : ℕ → Type 0) (c : ℕ) (text : Text) → Q c → All Q text → All Q (push_unless_blank u c text)
  unfolding push_unless_blank
  push_unless_blank-All Q c [] q h = if-intro (All Q) (u.is_space c) (λ _. tt) (λ _. (q, tt))
  push_unless_blank-All Q c (d ∷ text) q h = (q, h)

  rstrip-All : (Q : ℕ → Type 0) (text : Text) → All Q text → All Q (rstrip u text)
  unfolding rstrip
  rstrip-All Q [] h = tt
  rstrip-All Q (c ∷ text) h = push_unless_blank-All Q c (rstrip u text) h.0 (rstrip-All Q text h.1)

  strip-All : (Q : ℕ → Type 0) (text : Text) → All Q text → All Q (strip u text)
  unfolding strip
  strip-All Q text h = rstrip-All Q (lstrip u text) (lstrip-All Q text h)

  abbrev IsBlank : Text → Type 0
  IsBlank = All (λ (c : ℕ). u.is_space c ≡ true)

  lstrip_blank : (text : Text) → IsBlank text → lstrip u text ≡ []
  unfolding lstrip
  lstrip_blank [] h = refl
  lstrip_blank (c ∷ text) h = rw h.0 (lstrip_blank text h.1)

  -- nothing is left only of a text that is blank
  rstrip_nothing : (text : Text) → length (rstrip u text) ≡ 0 → IsBlank text
  unfolding rstrip push_unless_blank
  rstrip_nothing [] e = tt
  rstrip_nothing (c ∷ text) e = pushed (rstrip u text) (rstrip_nothing text) e
    where
      pushed :
          (t : Text)
          → (length t ≡ 0 → IsBlank text)
          → length (push_unless_blank u c t) ≡ 0
          → IsBlank (c ∷ text)
      pushed [] h e = (ground arith, h refl)
      pushed (d ∷ t) h e = absurd (omega arith)

  lstrip_nothing : (text : Text) → IsBlank (lstrip u text) → IsBlank text
  unfolding lstrip
  lstrip_nothing [] h = tt
  lstrip_nothing (c ∷ text) h = elim (Bool-cases (u.is_space c)) [
    | inl e ↦ (
      e,
      lstrip_nothing text
          (let k : IsBlank (if u.is_space c then lstrip u text else c ∷ text) = h in rw e at k),
    )
    | inr e ↦ let k : IsBlank (if u.is_space c then lstrip u text else c ∷ text) = h in rw e at k
  ]

  strip_nothing : (text : Text) → length (strip u text) ≡ 0 → IsBlank text
  unfolding strip
  strip_nothing text e = lstrip_nothing text (rstrip_nothing (lstrip u text) e)

  -- the lines that are left, and the text whose lines are all blank
  stripped_lines-IsUnbroken :
      (lines : List Text) → All IsUnbroken lines → All IsUnbroken (stripped_lines u lines)
  unfolding stripped_lines
  stripped_lines-IsUnbroken [] h = tt
  stripped_lines-IsUnbroken (line ∷ lines) h =
      if-intro (All IsUnbroken) (length (strip u line) == 0)
        (λ _. stripped_lines-IsUnbroken lines h.1)
        (λ _. (strip-All _ line h.0, stripped_lines-IsUnbroken lines h.1))

  stripped_lines_none : (lines : List Text) → stripped_lines u lines ≡ [] → All IsBlank lines
  unfolding stripped_lines
  stripped_lines_none [] e = tt
  stripped_lines_none (line ∷ lines) e = elim (Bool-cases (length (strip u line) == 0)) [
    | inl f ↦ (strip_nothing line (ground arith), stripped_lines_none lines (ground arith))
    | inr f ↦ absurd (ground arith)
  ]

  push_char-IsBlank :
      (c : ℕ) (lines : List Text)
      → All IsBlank (push_char c lines)
      → (u.is_space c ≡ true) × All IsBlank lines
  unfolding push_char
  push_char-IsBlank c [] h = (h.0.0, tt)
  push_char-IsBlank c (line ∷ lines) h = (h.0.0, (h.0.1, h.1))

  split_lines-IsBlank :
      (text : Text) → BreaksAreSpace u → All IsBlank (split_lines text) → IsBlank text
  unfolding split_lines
  split_lines-IsBlank [] b h = tt
  split_lines-IsBlank (c ∷ text) b h = elim (Bool-cases (is_break c)) [
    | inl e ↦
        let k : All IsBlank
            (if is_break c then [] ∷ split_lines text else push_char c (split_lines text)) =
          h in
        let g : All IsBlank ([] ∷ split_lines text) = rw e at k in
        (b c e, split_lines-IsBlank text b g.1)
    | inr e ↦
        let k : All IsBlank
            (if is_break c then [] ∷ split_lines text else push_char c (split_lines text)) =
          h in
        let (s, g) = push_char-IsBlank c (split_lines text) (rw e at k) in
        (s, split_lines-IsBlank text b g)
  ]

  last_or-All :
      (Q : Text → Type 0) (text : Text) (lines : List Text)
      → Q text
      → All Q lines
      → Q (last_or text lines)
  unfolding last_or
  last_or-All Q text [] q h = q
  last_or-All Q text (line ∷ lines) q h = last_or-All Q line lines h.0 h.1

  completion :
      (text : Text) (lines : List Text)
      → BreaksAreSpace u
      → lines ≡ stripped_lines u (split_lines text)
      → IsUnbroken (last_or (strip u text) lines)
  unfolding last_or
  completion text [] b e =
      let blank = split_lines-IsBlank text b (stripped_lines_none (split_lines text) (sym e)) in
      unfold strip rstrip in rw (lstrip_blank text blank) tt
  completion text (line ∷ lines) b e =
      let h =
        subst (All IsUnbroken) (sym e)
          (stripped_lines-IsUnbroken (split_lines text) (split_lines-IsUnbroken text)) in
      last_or-All IsUnbroken line lines h.0 h.1

  -- The completion that is extracted from an output is a single line: it holds no end of a line, given
  -- that the ends of lines are white space.
  pub extract_slm_completion-All :
      BreaksAreSpace u
      → (output : Text) → All (λ (c : ℕ). is_break c ≡ false) (extract_slm_completion u output)
  unfolding extract_slm_completion
  extract_slm_completion-All b output = completion _ _ b refl

  -- A compacted output has at most three characters more than the limit.
  pub compact_slm_output-le :
      (output : Text) (limit : ℕ) → length (compact_slm_output u output limit) ≤ limit + 3
  unfolding compact_slm_output
  compact_slm_output-le output limit =
      let text = strip u (collapse u false output) in
      ground (arith, length-append (take limit text) (codes "..."), length-take limit text)
