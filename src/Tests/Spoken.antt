-- ===== src/Tests/Spoken.antt =====
-- A whole session with the moonshine pipeline, over three bytes of PCM in one frame of two samples.
use nubjuk_brain.Prelude.{
  ◌≡◌, ◌+◌, ◌/◌, min, map, length, All, refl, some, none, List, [], ◌∷◌, codes, arith,
}
use nubjuk_brain.Errors.{ok}
use nubjuk_brain.Pipeline.{Bytes, StiResult}
use nubjuk_brain.Client.{to_wire, AudioFrame, iter_audio_frames, cut_frames, cut_frame}
use nubjuk_brain.Client.Frames.{payloads}
use nubjuk_brain.Intent.Normalize.{lstrip, rstrip, push_unless_blank}
use nubjuk_brain.Pipeline.Moonshine.{Moonshine, match_intent}
use nubjuk_brain.Pipeline.Moonshine.Recognition.{IsOf}
use nubjuk_brain.Session.{SessionManager, new_manager}
use nubjuk_brain.Server.Spoken.{IsServed}
use nubjuk_brain.Server.Spoken.Transcribed.{serve_transcribed}
use nubjuk_brain.Pipeline.Moonshine.Transcriber.{
  Transcript, Transcriber, extract_transcript_text, line_texts, with_transcriber,
}
use nubjuk_brain.Pipeline.Qwen.Prompt.{join}
use nubjuk_brain.Pipeline.Qwen.Output.{strip}
use nubjuk_brain.Server.Log.{log_enqueued}
use nubjuk_brain.Server.Log.Numbered.{IsNumbered, client_logged}
use nubjuk_brain.Tests.Fixtures.{demo_opts, demo_unicode, late_events, late_events-IsScheduled}
use nubjuk_brain.Tests.Recognition.{parts, resolver, heard}

abbrev pub pcm : Bytes
pcm = 1 ∷ 2 ∷ 3 ∷ []

abbrev pub frame : AudioFrame
frame = record { seq = 0; flags = 1; payload = 1 ∷ 2 ∷ 3 ∷ 0 ∷ [] }

abbrev pub frames : List AudioFrame
frames = frame ∷ []

pub cut : iter_audio_frames pcm 2 ≡ ok frames
unfolding iter_audio_frames cut_frames cut_frame
cut = refl

abbrev free : SessionManager (Moonshine (Unit {0}))
free = new_manager 0 (heard [])

abbrev pub transcript : Transcript
transcript = record { lines = some (codes " ") ∷ none ∷ some (codes " gone ") ∷ [] }

abbrev pub voice : Transcriber
voice = record { transcribe_without_streaming = λ audio rate. ok (transcript, 12) }

serve_transcribed_example :
    (result : StiResult) × IsOf
      (match_intent
        (with_transcriber voice parts)
        (extract_transcript_text demo_unicode transcript))
      (extract_transcript_text demo_unicode transcript)
      12
      result
    × IsServed
        (with_transcriber voice parts)
        resolver
        2
        demo_opts
        (late_events demo_opts frame)
        free
        result
serve_transcribed_example =
    serve_transcribed voice parts resolver 2 (late_events demo_opts frame) demo_opts pcm 2 frames
      free transcript 12 (omega arith) cut (omega arith) (unfold payloads in omega arith)
      (unfold new_manager in refl) refl
      (unfold extract_transcript_text join line_texts strip lstrip rstrip push_unless_blank in
        omega arith)
      (λ r. tt) (late_events-IsScheduled demo_opts frame)

client_logged_example :
    (fs : List AudioFrame) × (iter_audio_frames pcm 2 ≡ ok fs)
    × (length (log_enqueued 256 "c1" (λ k. k) 0 (map to_wire fs))
        ≡ min (length fs) 8 + length fs / 16)
    × All IsNumbered (log_enqueued 256 "c1" (λ k. k) 0 (map to_wire fs))
client_logged_example = client_logged 256 "c1" (λ k. k) pcm 2 (omega arith)
