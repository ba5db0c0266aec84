-- ===== src/Server/Log/Numbered.antt =====
-- brain/ws_server.py with scripts/send_wav_to_brain.py: the lines that are logged for a client's frames
use nubjuk_brain.Prelude.{
  ℕ, suc, ap, ◌<◌, ◌+◌, ◌-◌, ◌*◌, ◌/◌, ◌%◌, ◌≡◌, refl, ◌∙◌, min, String, some, List, [], ◌∷◌, map,
  length, not, All, if-intro, arith,
}
use nubjuk_brain.Errors.{ok}
use nubjuk_brain.Pipeline.{Bytes}
use nubjuk_brain.Client.{AudioFrame, to_wire, iter_audio_frames}
use nubjuk_brain.Client.Frames.{IsRun, iter_audio_frames-IsRun}
use nubjuk_brain.Server.Log.{
  EnqueuedLine, should_log_audio_frame, frame_seq, log_audio_frame_enqueued, log_enqueued,
}

-- how many of the first frames are logged
abbrev pub logged_of : ℕ → ℕ
logged_of n = min n 8 + n / 16

-- A line with the number that the client gave to the frame: its frames are counted from 0.
abbrev pub IsNumbered : EnqueuedLine → Type 0
IsNumbered line = line.seq ≡ some ((line.frames_received - 1) % 65536)

length-to_wires : (frames : List AudioFrame) → length (map to_wire frames) ≡ length frames
length-to_wires [] = refl
length-to_wires (f ∷ fs) = ap suc (length-to_wires fs)

module _ (maxsize : ℕ) (id : String) where
  length-log_audio_frame_enqueued :
      (frame : Bytes) (n depth : ℕ) (lines : List EnqueuedLine)
      → length (log_audio_frame_enqueued maxsize id frame (n + 1) depth lines) + logged_of n
        ≡ length lines + logged_of (n + 1)
  unfolding log_audio_frame_enqueued should_log_audio_frame
  length-log_audio_frame_enqueued frame n depth lines = ground arith

  length-log_enqueued :
      (queue_depth : ℕ → ℕ) (n : ℕ) (frames : List Bytes)
      → length (log_enqueued maxsize id queue_depth n frames) + logged_of n
        ≡ logged_of (n + length frames)
  unfolding log_enqueued
  length-log_enqueued queue_depth n [] = omega arith
  length-log_enqueued queue_depth n (frame ∷ frames) =
      let ih = length-log_enqueued queue_depth (n + 1) frames in
      let one =
        length-log_audio_frame_enqueued frame n (queue_depth (n + 1))
          (log_enqueued maxsize id queue_depth (n + 1) frames) in
      omega arith

  counted :
      (queue_depth : ℕ → ℕ) (frames : List AudioFrame)
      → length (log_enqueued maxsize id queue_depth 0 (map to_wire frames))
        ≡ min (length frames) 8 + length frames / 16
  counted queue_depth frames =
      let all = length-log_enqueued queue_depth 0 (map to_wire frames) in
      omega (arith, length-to_wires frames)

  frame_seq-to_wire : (f : AudioFrame) → frame_seq (to_wire f) ≡ some f.seq
  unfolding frame_seq to_wire
  frame_seq-to_wire f = ground arith

  line-IsNumbered :
      (f : AudioFrame) (n depth : ℕ) (lines : List EnqueuedLine)
      → f.seq ≡ n % 65536
      → All IsNumbered lines
      → All IsNumbered (log_audio_frame_enqueued maxsize id (to_wire f) (n + 1) depth lines)
  unfolding log_audio_frame_enqueued
  line-IsNumbered f n depth lines e h =
      if-intro (All IsNumbered) (not (should_log_audio_frame (n + 1))) (λ _. h)
        (λ _. (frame_seq-to_wire f ∙ ground arith, h))

  log_enqueued-IsNumbered :
      (queue_depth : ℕ → ℕ) (b n : ℕ) (fs : List AudioFrame)
      → IsRun b n fs
      → All IsNumbered (log_enqueued maxsize id queue_depth n (map to_wire fs))
  unfolding log_enqueued
  log_enqueued-IsNumbered queue_depth b n [] r = tt
  log_enqueued-IsNumbered queue_depth b n (f ∷ []) r =
      line-IsNumbered f n (queue_depth (n + 1)) [] r.0 tt
  log_enqueued-IsNumbered queue_depth b n (f ∷ g ∷ fs) r =
      line-IsNumbered f n (queue_depth (n + 1)) _ r.0
        (log_enqueued-IsNumbered queue_depth b (n + 1) (g ∷ fs) r.3)

  -- The lines of the server for the frames that the client cuts of its PCM, if they are enqueued one
  -- after another from the first on, whatever the depths of the queue: of the first eight frames each,
  -- and then of every sixteenth, so `min n 8 + n / 16` lines for n frames; and each line has the number
  -- that the client gave to the frame, which is that of the frames received before it, modulo 2 ^ 16.
  pub client_logged :
      (queue_depth : ℕ → ℕ) (pcm : Bytes) (frame_samples : ℕ)
      → 0 < frame_samples
      → (frames : List AudioFrame) × (iter_audio_frames pcm frame_samples ≡ ok frames)
        × (length (log_enqueued maxsize id queue_depth 0 (map to_wire frames))
            ≡ min (length frames) 8 + length frames / 16)
        × All IsNumbered (log_enqueued maxsize id queue_depth 0 (map to_wire frames))
  client_logged queue_depth pcm frame_samples pos =
      let (frames, cut, run, padded) = iter_audio_frames-IsRun pcm frame_samples pos in
      (
        frames,
        cut,
        counted queue_depth frames,
        log_enqueued-IsNumbered queue_depth (frame_samples * 2) 0 frames run,
      )
