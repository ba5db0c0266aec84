-- ===== src/Pipeline/Moonshine/Transcriber.antt =====
-- brain/pipeline/moonshine_tiny_ko.py: `MoonshineTinyKoTranscriber` behind its construction. The
-- library's transcriber is a parameter. A float of the audio is counted in units of 2 ^ -15, in which
-- `sample / 32768.0` is exact.
pub mod Trimmed
use nubjuk_brain.Prelude.{
  ℕ, min, ◌%◌, ◌-◌, ◌+◌, ◌*◌, ◌≡◌, refl, ap, String, Option, none, some, List, [], ◌∷◌, ◌++◌, map,
  Text, length, ltb, ◌==◌, not, if◌then◌else◌, if-intro, arith,
}
use nubjuk_brain.Errors.{Result, ok, raise}
use nubjuk_brain.Pipeline.{Bytes}
use nubjuk_brain.Pipeline.Pcm.{ℤ, pos, negsuc, sample, samples_of, pcm_s16le_samples}
use nubjuk_brain.Pipeline.Moonshine.{Parts}
use nubjuk_brain.Intent.Normalize.{Unicode}
use nubjuk_brain.Pipeline.Qwen.Output.{strip}
use nubjuk_brain.Pipeline.Qwen.Prompt.{join}

-- A transcript, by the texts of its lines; none is a line without one.
pub record Transcript : Type 0 where
  pub lines : List (Option Text)

-- `transcribe_without_streaming` of the library, and the time that it takes.
pub record Transcriber : Type 0 where
  pub transcribe_without_streaming : List ℤ → ℕ → Result (Transcript × ℕ)

-- `max(-1.0, min(1.0, x))`
unfoldable pub clamp : ℤ → ℤ
clamp (pos n) = pos (min n 32768)
clamp (negsuc n) = negsuc (min n 32767)

abbrev pub clamped : Result (List ℤ) → Result (List ℤ)
clamped (ok samples) = ok (map clamp samples)
clamped (raise e) = raise e

unfoldable pub pcm_s16le_to_float_list : Bytes → Result (List ℤ)
pcm_s16le_to_float_list pcm = clamped (pcm_s16le_samples pcm)

module _ (u : Unicode) where
  abbrev pub line_text : Option Text → Text
  line_text none = []
  line_text (some text) = strip u text

  -- the texts that are not empty
  unfoldable pub line_texts : List (Option Text) → List Text
  line_texts [] = []
  line_texts (line ∷ lines) =
      let rest = line_texts lines in
      if length (line_text line) == 0 then rest else line_text line ∷ rest

  unfoldable pub extract_transcript_text : Transcript → Text
  extract_transcript_text transcript = join (32 ∷ []) (line_texts transcript.lines)

  abbrev pub transcribed : Result (Transcript × ℕ) → Result (Text × ℕ)
  transcribed (ok (transcript, asr_ms)) = ok (extract_transcript_text transcript, asr_ms)
  transcribed (raise e) = raise e

  abbrev pub transcribe_audio : Transcriber → Result (List ℤ) → Result (Text × ℕ)
  transcribe_audio t (ok audio) = transcribed (t.transcribe_without_streaming audio 16000)
  transcribe_audio t (raise e) = raise e

  unfoldable pub transcribe : Transcriber → Bytes → Result (Text × ℕ)
  transcribe t pcm = transcribe_audio t (pcm_s16le_to_float_list pcm)

clamp-sample : (low high : ℕ) → clamp (sample low high) ≡ sample low high
unfolding clamp sample
clamp-sample low high = ground arith

map-clamp-samples_of : (pcm : Bytes) → map clamp (samples_of pcm) ≡ samples_of pcm
unfolding samples_of
map-clamp-samples_of [] = refl
map-clamp-samples_of (low ∷ []) = refl
map-clamp-samples_of (low ∷ high ∷ rest) = rw (clamp-sample low high, map-clamp-samples_of rest)

-- The audio that the library is given is the samples themselves: the clamp never acts.
pub pcm_s16le_to_float_list_lem :
    (pcm : Bytes) → pcm_s16le_to_float_list pcm ≡ pcm_s16le_samples pcm
unfolding pcm_s16le_to_float_list pcm_s16le_samples
pcm_s16le_to_float_list_lem pcm =
    if-intro (λ (r : Result (List ℤ)). clamped r ≡ r) (not (length pcm % 2 == 0)) (λ _. refl)
      (λ _. ap ok (map-clamp-samples_of pcm))

-- the parts of a pipeline that is given no other transcriber
abbrev pub with_transcriber : Transcriber → Parts → Parts
with_transcriber t parts = record parts { transcribe = transcribe parts.unicode t }
