-- ===== src/Server/Spoken/Transcribed.antt =====
-- brain/ws_server.py with brain/pipeline/moonshine_tiny_ko.py and scripts/send_wav_to_brain.py: from the
-- client's PCM to the intent that the server sends, with the transcriber of the moonshine library
use nubjuk_brain.Prelude.{
  ℕ, false, ◌*◌, ◌%◌, ◌≤◌, ◌<◌, ◌≡◌, ◌∙◌, ap, sym, subst, min, List, length, arith,
}
use nubjuk_brain.Errors.{ok}
use nubjuk_brain.Pipeline.{Bytes, StiResult, SessionOpts}
use nubjuk_brain.Pipeline.Pcm.{samples_of, pcm_s16le_samples}
use nubjuk_brain.Pipeline.Moonshine.{
  max_audio_ms, Parts, Moonshine, SlmIntentResolver, strip, match_intent,
}
use nubjuk_brain.Pipeline.Moonshine.Recognition.{IsExpected, IsOf}
use nubjuk_brain.Pipeline.Moonshine.Transcriber.{
  Transcript, Transcriber, extract_transcript_text, transcribe_audio, transcribed, transcribe,
  with_transcriber, pcm_s16le_to_float_list_lem,
}
use nubjuk_brain.Pipeline.Moonshine.Transcriber.Trimmed.{extract_transcript_text_lem}
use nubjuk_brain.Pipeline.Qwen.Output
use nubjuk_brain.Client.{AudioFrame, iter_audio_frames}
use nubjuk_brain.Client.Frames.{payloads}
use nubjuk_brain.Session.{SessionManager}
use nubjuk_brain.Server.{Event}
use nubjuk_brain.Server.Timing.{IsScheduled}
use nubjuk_brain.Server.Sending.{session_events}
use nubjuk_brain.Server.Spoken.{cut_audio, IsServed, serve_spoken}

samples_whole : (pcm : Bytes) → length pcm % 2 ≡ 0 → pcm_s16le_samples pcm ≡ ok (samples_of pcm)
unfolding pcm_s16le_samples
samples_whole pcm h = ground arith

module _ (t : Transcriber) (parts : Parts) {R : Type 0} (resolver : SlmIntentResolver R) where
  transcribe_whole :
      (pcm : Bytes) (transcript : Transcript) (ms : ℕ)
      → length pcm % 2 ≡ 0
      → t.transcribe_without_streaming (samples_of pcm) 16000 ≡ ok (transcript, ms)
      → transcribe parts.unicode t pcm ≡ ok (extract_transcript_text parts.unicode transcript, ms)
  unfolding transcribe
  transcribe_whole pcm transcript ms even heard =
      ap (transcribe_audio parts.unicode t)
        (pcm_s16le_to_float_list_lem pcm ∙ samples_whole pcm even)
      ∙ ap (transcribed parts.unicode) heard

  stripped :
      (transcript : Transcript)
      → strip (with_transcriber t parts) (extract_transcript_text parts.unicode transcript)
        ≡ extract_transcript_text parts.unicode transcript
  unfolding strip Output.strip
  stripped transcript = extract_transcript_text_lem parts.unicode transcript

  -- A session of the client on a server with the moonshine pipeline and its own transcriber, on a new
  -- connection with the manager's lock free, with any rounds of the worker in which the queue has room
  -- for every frame when it is received, and with an answer that can be sent: if the PCM is not empty and, cut into frames, not longer
  -- than both limits allow, the library returns a transcript for the samples of the frames whose text is
  -- not empty, and the resolver raises nothing but a `StiError`, then the connection is sent an ack and
  -- an intent, and no more, the handler returns, and the manager is `idle` with its lock free. The
  -- intent is the one that the catalog alone matches to the text, at a confidence that is not below the
  -- catalog's.
  pub serve_transcribed :
      (maxsize : ℕ) (es : List Event) (opts : SessionOpts) (pcm : Bytes) (frame_samples : ℕ)
      (frames : List AudioFrame) (m : SessionManager (Moonshine R)) (transcript : Transcript)
      (ms : ℕ)
      → 0 < frame_samples
      → iter_audio_frames pcm frame_samples ≡ ok frames
      → 0 < length pcm
      → length (payloads frames) ≤ 32 * min opts.max_utterance_ms (max_audio_ms parts)
      → m.locked ≡ false
      → t.transcribe_without_streaming (samples_of (payloads frames)) 16000 ≡ ok (transcript, ms)
      → 0 < length (extract_transcript_text parts.unicode transcript)
      → ((r : R)
          → IsExpected
              (resolver.resolve
                (extract_transcript_text parts.unicode transcript)
                parts.catalog
                r).0)
      → IsScheduled maxsize 0 (session_events opts frames) es
      → (result : StiResult) × IsOf
          (match_intent
            (with_transcriber t parts)
            (extract_transcript_text parts.unicode transcript))
          (extract_transcript_text parts.unicode transcript)
          ms
          result
        × IsServed (with_transcriber t parts) resolver maxsize opts es m result
  serve_transcribed maxsize es opts pcm n frames m transcript ms pos cut some_pcm room l heard b x
        k =
      let P = with_transcriber t parts in
      let text = extract_transcript_text parts.unicode transcript in
      let same = stripped transcript in
      subst
        (λ s.
          (result : StiResult) × IsOf (match_intent P s) s ms result
          × IsServed P resolver maxsize opts es m result)
        same
        (serve_spoken P resolver maxsize es opts pcm n frames m text ms pos cut some_pcm room l
          (transcribe_whole (payloads frames) transcript ms (cut_audio pcm n frames pos cut).0
            heard)
          (subst (λ s. 0 < length s) (sym same) b)
          (subst (λ s. (r : R) → IsExpected (resolver.resolve s parts.catalog r).0) (sym same) x) k)
