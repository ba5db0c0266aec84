-- ===== src/Pipeline/Moonshine/Transcriber/Trimmed.antt =====
-- brain/pipeline/moonshine_tiny_ko.py: the white space around the text of a transcript
use nubjuk_brain.Prelude.{
  ℕ, ◌<◌, ◌≡◌, refl, ap, ◌∙◌, false, Option, none, some, List, [], ◌∷◌, ◌++◌, Text, length, ◌==◌,
  All, if-intro, arith, length-append,
}
use nubjuk_brain.Intent.Normalize.{Unicode, lstrip, rstrip, push_unless_blank}
use nubjuk_brain.Pipeline.Qwen.Output.{strip}
use nubjuk_brain.Pipeline.Qwen.Prompt.{join}
use nubjuk_brain.Pipeline.Moonshine.Transcriber.{Transcript, line_texts, extract_transcript_text}

module _ (u : Unicode) where
  -- the first and the last character, if there is one, are no white space
  abbrev StartsSolid : Text → Type 0
  StartsSolid [] = Unit
  StartsSolid (c ∷ text) = u.is_space c ≡ false

  abbrev EndsSolid : Text → Type 0
  EndsSolid [] = Unit
  EndsSolid (c ∷ []) = u.is_space c ≡ false
  EndsSolid (c ∷ d ∷ text) = EndsSolid (d ∷ text)

  lstrip-StartsSolid : (text : Text) → StartsSolid (lstrip u text)
  unfolding lstrip
  lstrip-StartsSolid [] = tt
  lstrip-StartsSolid (c ∷ text) =
      if-intro StartsSolid (u.is_space c) (λ _. lstrip-StartsSolid text) (λ e. e)

  push-EndsSolid : (c : ℕ) (text : Text) → EndsSolid text → EndsSolid (push_unless_blank u c text)
  unfolding push_unless_blank
  push-EndsSolid c [] h = if-intro EndsSolid (u.is_space c) (λ _. tt) (λ e. e)
  push-EndsSolid c (d ∷ text) h = h

  rstrip-EndsSolid : (text : Text) → EndsSolid (rstrip u text)
  unfolding rstrip
  rstrip-EndsSolid [] = tt
  rstrip-EndsSolid (c ∷ text) = push-EndsSolid c (rstrip u text) (rstrip-EndsSolid text)

  push-StartsSolid :
      (c : ℕ) (text : Text) → u.is_space c ≡ false → StartsSolid (push_unless_blank u c text)
  unfolding push_unless_blank
  push-StartsSolid c [] e = if-intro StartsSolid (u.is_space c) (λ _. tt) (λ x. x)
  push-StartsSolid c (d ∷ text) e = e

  rstrip-StartsSolid : (text : Text) → StartsSolid text → StartsSolid (rstrip u text)
  unfolding rstrip
  rstrip-StartsSolid [] h = tt
  rstrip-StartsSolid (c ∷ text) h = push-StartsSolid c (rstrip u text) h

  lstrip_solid : (text : Text) → StartsSolid text → lstrip u text ≡ text
  unfolding lstrip
  lstrip_solid [] h = refl
  lstrip_solid (c ∷ text) h = rw h refl

  rstrip_solid : (text : Text) → EndsSolid text → rstrip u text ≡ text
  unfolding rstrip push_unless_blank
  rstrip_solid [] h = refl
  rstrip_solid (c ∷ []) h = rw h refl
  rstrip_solid (c ∷ d ∷ text) h = ap (push_unless_blank u c) (rstrip_solid (d ∷ text) h)

  -- a text that is not empty, with no white space around it
  record IsTrimmed (text : Text) : Type 0 where
    pub filled : 0 < length text
    pub starts : StartsSolid text
    pub ends : EndsSolid text

  line_texts-IsTrimmed : (lines : List (Option Text)) → All IsTrimmed (line_texts u lines)
  unfolding line_texts strip
  line_texts-IsTrimmed [] = tt
  line_texts-IsTrimmed (none ∷ lines) = line_texts-IsTrimmed lines
  line_texts-IsTrimmed (some line ∷ lines) =
      if-intro (All IsTrimmed) (length (strip u line) == 0) (λ _. line_texts-IsTrimmed lines)
        (λ e. (
          record {
            filled = ground arith;
            starts = rstrip-StartsSolid (lstrip u line) (lstrip-StartsSolid line);
            ends = rstrip-EndsSolid (lstrip u line);
          },
          line_texts-IsTrimmed lines,
        ))

  append-StartsSolid : (s t : Text) → 0 < length s → StartsSolid s → StartsSolid (s ++ t)
  append-StartsSolid [] t n h = absurd (omega arith)
  append-StartsSolid (c ∷ s) t n h = h

  append-EndsSolid : (s t : Text) → 0 < length t → EndsSolid t → EndsSolid (s ++ t)
  append-EndsSolid [] t n h = h
  append-EndsSolid (c ∷ []) [] n h = absurd (omega arith)
  append-EndsSolid (c ∷ []) (d ∷ t) n h = h
  append-EndsSolid (c ∷ d ∷ s) t n h = append-EndsSolid (d ∷ s) t n h

  join-IsTrimmed :
      (line : Text) (lines : List Text)
      → All IsTrimmed (line ∷ lines)
      → IsTrimmed (join (32 ∷ []) (line ∷ lines))
  unfolding join
  join-IsTrimmed line [] h = h.0
  join-IsTrimmed line (next ∷ lines) h =
      let rest = join-IsTrimmed next lines h.1 in
      let tail = join (32 ∷ []) (next ∷ lines) in
      record {
        filled = let long = h.0.filled in omega (arith, length-append line (32 ∷ tail));
        starts = append-StartsSolid line (32 ∷ tail) h.0.filled h.0.starts;
        ends =
            append-EndsSolid line (32 ∷ tail) (omega arith)
              (append-EndsSolid (32 ∷ []) tail rest.filled rest.ends);
      }

  joined_solid :
      (lines : List Text)
      → All IsTrimmed lines
      → StartsSolid (join (32 ∷ []) lines) × EndsSolid (join (32 ∷ []) lines)
  joined_solid [] h = unfold join in (tt, tt)
  joined_solid (line ∷ lines) h = let j = join-IsTrimmed line lines h in (j.starts, j.ends)

  -- The text of a transcript has no white space around it, so stripping it again changes nothing.
  pub extract_transcript_text_lem :
      (t : Transcript) → strip u (extract_transcript_text u t) ≡ extract_transcript_text u t
  unfolding strip extract_transcript_text
  extract_transcript_text_lem t =
      let (starts, ends) = joined_solid (line_texts u t.lines) (line_texts-IsTrimmed t.lines) in
      ap (rstrip u) (lstrip_solid _ starts) ∙ rstrip_solid _ ends
