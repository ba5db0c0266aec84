-- ===== src/Pipeline/Moonshine/Audio.antt =====
-- brain/pipeline/moonshine_tiny_ko.py: the buffer of audio, and audio of an odd length
use nubjuk_brain.Prelude.{
  ℕ, ◌*◌, ◌%◌, ◌≤◌, min, ◌≡◌, ap, true, false, List, [], ◌∷◌, length, length-append, arith, All,
}
use nubjuk_brain.Errors.{raise, runtime}
use nubjuk_brain.Pipeline.{Bytes, SessionOpts}
use nubjuk_brain.Pipeline.Pcm.{audio_bytes_for_ms_lem, pcm_s16le_samples, pcm_s16le_stats}
use nubjuk_brain.Pipeline.Moonshine.{
  max_audio_ms, Parts, Moonshine, SlmIntentResolver, start_session, feed_audio, finish_session,
  transcribe_audio, moonshine,
}
use nubjuk_brain.Session
use nubjuk_brain.Session.{audio_in, SessionManager}
use nubjuk_brain.Session.Schedule.{Call, run}
use nubjuk_brain.Session.Stuck.{IsNoCancel, finish_runtime_blocks}
use nubjuk_brain.Errors.{ok}

module _ (parts : Parts) {R : Type 0} where
  -- chunks of audio, one call for each
  unfoldable pub feed_all : List Bytes → Moonshine R → Moonshine R
  feed_all [] p = p
  feed_all (pcm ∷ rest) p = feed_all rest (feed_audio parts pcm p).1

  feed_audio-bound :
      (pcm : Bytes) (p : Moonshine R) {n : ℕ}
      → p.max_audio_bytes ≡ n
      → length p.pcm ≤ n
      → ((feed_audio parts pcm p).1.max_audio_bytes ≡ n)
        × (length (feed_audio parts pcm p).1.pcm ≤ n)
  unfolding feed_audio
  feed_audio-bound pcm p e h = ground (arith, length-append p.pcm pcm)

  feed_all-bound :
      (chunks : List Bytes) (p : Moonshine R) {n : ℕ}
      → p.max_audio_bytes ≡ n
      → length p.pcm ≤ n
      → length (feed_all chunks p).pcm ≤ n
  unfolding feed_all
  feed_all-bound [] p e h = h
  feed_all-bound (pcm ∷ rest) p e h =
      let (e₁, h₁) = feed_audio-bound pcm p e h in
      feed_all-bound rest (feed_audio parts pcm p).1 e₁ h₁

  -- After a `start_session`, whatever chunks of audio are fed, the buffer holds at most 32 bytes
  -- for each millisecond of the smaller one of the session's and the configuration's limits.
  pub feed_all-within :
      (opts : SessionOpts) (chunks : List Bytes) (p : Moonshine R)
      → length (feed_all chunks (start_session parts opts p).1).pcm
        ≤ 32 * min opts.max_utterance_ms (max_audio_ms parts)
  unfolding start_session
  feed_all-within opts chunks p =
      feed_all-bound chunks (start_session parts opts p).1
        (audio_bytes_for_ms_lem (min opts.max_utterance_ms (max_audio_ms parts))) (omega arith)

module _ (parts : Parts) {R : Type 0} (resolver : SlmIntentResolver R) where
  finish_session_odd :
      (p : Moonshine R)
      → p.cancelled ≡ false
      → length p.pcm % 2 ≡ 1
      → finish_session parts resolver p
        ≡ (raise (runtime "PCM payload must contain whole 16-bit samples"), p)
  unfolding finish_session transcribe_audio pcm_s16le_stats pcm_s16le_samples
  finish_session_odd p c h = ground arith

  -- If the audio of a session that is not cancelled has an odd number of bytes, a `finish` from
  -- `audio_in` with the lock held leaves the lock held, and after any calls without a cancel every
  -- `try_start` is answered false.
  pub odd_audio_blocks :
      (n : ℕ) (m : SessionManager (Moonshine R))
      → m.state ≡ audio_in
      → m.locked ≡ true
      → m.pipeline.cancelled ≡ false
      → length m.pipeline.pcm % 2 ≡ 1
      → (calls : List (Call (Moonshine R))) → All IsNoCancel calls
      → (now : ℕ) (opts : SessionOpts)
      → (Session.try_start
          (moonshine parts resolver)
          now
          opts
          (run (moonshine parts resolver) calls (record {
            manager = (Session.finish (moonshine parts resolver) n m).1;
            pending = 0;
          })).manager).0
        ≡ ok false
  odd_audio_blocks n m e l c h calls k now opts =
      finish_runtime_blocks (moonshine parts resolver) n m
        {x = "PCM payload must contain whole 16-bit samples"} e l
        (unfold moonshine in ap (λ r. r.0) (finish_session_odd m.pipeline c h)) calls k now opts
