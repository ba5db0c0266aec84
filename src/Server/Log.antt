-- ===== src/Server/Log.antt =====
-- brain/ws_server.py: which audio frames are logged, and what the lines tell of them
pub mod Numbered
use nubjuk_brain.Prelude.{
  ℕ, ◌+◌, ◌*◌, ◌%◌, String, Bool, ◌||◌, ◌&&◌, not, Option, none, some, List, [], ◌∷◌, length, leb,
  ltb, ◌==◌, if◌then◌else◌,
}
use nubjuk_brain.Pipeline.{Bytes}

unfoldable pub should_log_audio_frame : ℕ → Bool
should_log_audio_frame count = leb count 8 || count % 16 == 0

-- `int.from_bytes(frame[0:2], byteorder="big", signed=False)`
unfoldable pub frame_seq : Bytes → Option ℕ
frame_seq (high ∷ low ∷ rest) = some (256 * high + low)
frame_seq _ = none

-- the lines `audio_frame_enqueued` and `audio_worker_feed`
pub record EnqueuedLine : Type 0 where
  pub correlation_id : String
  pub frames_received : ℕ
  pub seq : Option ℕ
  pub wire_bytes : ℕ
  pub queue_depth : ℕ
  pub queue_max_frames : ℕ

pub record FeedLine : Type 0 where
  pub correlation_id : String
  pub frames_processed : ℕ
  pub seq : Option ℕ
  pub feed_ms : ℕ
  pub queue_depth : ℕ
  pub queue_max_frames : ℕ

module _ (maxsize : ℕ) (id : String) where
  -- `_log_audio_frame_enqueued`, in front of the lines that follow
  unfoldable pub log_audio_frame_enqueued : Bytes → ℕ → ℕ → List EnqueuedLine → List EnqueuedLine
  log_audio_frame_enqueued frame frames_received queue_depth lines =
      if not (should_log_audio_frame frames_received)
      then lines
      else record {
        correlation_id = id;
        frames_received = frames_received;
        seq = frame_seq frame;
        wire_bytes = length frame;
        queue_depth = queue_depth;
        queue_max_frames = maxsize;
      }
        ∷ lines

  -- `_log_audio_worker_feed`, in front of the lines that follow
  unfoldable pub log_audio_worker_feed : Bytes → ℕ → ℕ → ℕ → List FeedLine → List FeedLine
  log_audio_worker_feed frame frames_processed queue_depth feed_ms lines =
      if not (should_log_audio_frame frames_processed) && ltb feed_ms 5
      then lines
      else record {
        correlation_id = id;
        frames_processed = frames_processed;
        seq = frame_seq frame;
        feed_ms = feed_ms;
        queue_depth = queue_depth;
        queue_max_frames = maxsize;
      }
        ∷ lines

  -- The handler, for frames that are received and enqueued one after another, `frames_received` of them
  -- before; the depth of the queue behind each is given by its number.
  unfoldable pub log_enqueued : (ℕ → ℕ) → ℕ → List Bytes → List EnqueuedLine
  log_enqueued queue_depth frames_received [] = []
  log_enqueued queue_depth frames_received (frame ∷ frames) =
      log_audio_frame_enqueued frame (frames_received + 1) (queue_depth (frames_received + 1))
        (log_enqueued queue_depth (frames_received + 1) frames)

  -- the worker, for frames that the manager takes, with the time that each takes
  unfoldable pub log_fed : (ℕ → ℕ) → ℕ → List (Bytes × ℕ) → List FeedLine
  log_fed queue_depth frames_processed [] = []
  log_fed queue_depth frames_processed ((frame, feed_ms) ∷ frames) =
      log_audio_worker_feed frame (frames_processed + 1) (queue_depth (frames_processed + 1))
        feed_ms (log_fed queue_depth (frames_processed + 1) frames)
