-- ===== src/Session/Reception.antt =====
-- brain/session.py: what the reception of a frame does to the statistics and the pipeline
use nubjuk_brain.Prelude.{
  ℕ, ◌+◌, ◌*◌, ◌%◌, ◌≡◌, refl, ap, Option, none, some, List, [], ◌∷◌, ◌++◌, append-nil,
  append_assoc, length, ◌==◌, if◌then◌else◌, arith,
}
use nubjuk_brain.Pipeline.{Bytes, StiPipeline}
use nubjuk_brain.Session.State.{
  Warning, SessionStats, SessionManager, warn, write_log, audio_in, unexpected_pcm_bytes,
  reserved_nonzero, unknown_flags, seq_non_monotonic,
}
use nubjuk_brain.Session.Frames.{
  expect_after, check_seq, check_flags, check_reserved, check_payload, count_frame, feed_pipeline,
  accept_frame, feed_audio, unknown_bits,
}

-- The warnings that a frame deserves: a sequence number that is not the expected one, flags other
-- than bit 0, a reserved byte that is not 0, a payload that is not 40 ms of audio.
unfoldable pub seq_warnings : Option ℕ → ℕ → List Warning
seq_warnings none seq = []
seq_warnings (some expected) seq =
    if seq == expected then [] else seq_non_monotonic expected seq ∷ []

unfoldable pub header_warnings : ℕ → ℕ → List Warning
header_warnings flags reserved =
    (if unknown_bits flags == 0 then [] else unknown_flags flags ∷ [])
    ++ (if reserved == 0 then [] else reserved_nonzero reserved ∷ [])

unfoldable pub payload_warnings : Bytes → List Warning
payload_warnings payload =
    if length payload == 1280 then [] else unexpected_pcm_bytes (length payload) ∷ []

unfoldable pub warnings : Option ℕ → ℕ → ℕ → ℕ → Bytes → List Warning
warnings expected seq flags reserved payload =
    seq_warnings expected seq ++ header_warnings flags reserved ++ payload_warnings payload

abbrev pub add_warnings : List Warning → SessionStats → SessionStats
add_warnings ws s = record s { frame_warnings = s.frame_warnings ++ ws }

module _ {P : Type 0} where
  check_seq-stats :
      (e : Option ℕ) (seq : ℕ) (m : SessionManager P)
      → (check_seq e seq m).stats ≡ record (add_warnings (seq_warnings e seq) m.stats) {
        expected_seq = some ((seq + 1) % 65536);
      }
  unfolding check_seq seq_warnings warn write_log expect_after
  check_seq-stats none seq m = rw append-nil
  check_seq-stats (some e) seq m = ground (arith, append-nil m.stats.frame_warnings)

  check_header-stats :
      (flags reserved : ℕ) (m : SessionManager P)
      → (check_reserved reserved (check_flags flags m)).stats
        ≡ add_warnings (header_warnings flags reserved) m.stats
  unfolding check_flags check_reserved header_warnings warn write_log
  check_header-stats flags reserved m = ground (
    arith,
    append-nil m.stats.frame_warnings,
    append_assoc m.stats.frame_warnings (unknown_flags flags ∷ []) (reserved_nonzero reserved ∷ []),
  )

  check_payload-stats :
      (payload : Bytes) (m : SessionManager P)
      → (check_payload payload m).stats ≡ add_warnings (payload_warnings payload) m.stats
  unfolding check_payload payload_warnings warn write_log
  check_payload-stats payload m = ground (arith, append-nil m.stats.frame_warnings)

  checked : ℕ → ℕ → ℕ → Bytes → SessionManager P → SessionManager P
  checked seq flags reserved payload m =
      check_payload payload
        (check_reserved reserved (check_flags flags (check_seq m.stats.expected_seq seq m)))

  pipeline-check_seq :
      (e : Option ℕ) (seq : ℕ) (m : SessionManager P) → (check_seq e seq m).pipeline ≡ m.pipeline
  unfolding check_seq warn write_log expect_after
  pipeline-check_seq none seq m = refl
  pipeline-check_seq (some e) seq m = ground arith

  pipeline-check_header :
      (flags reserved : ℕ) (m : SessionManager P)
      → (check_reserved reserved (check_flags flags m)).pipeline ≡ m.pipeline
  unfolding check_flags check_reserved warn write_log
  pipeline-check_header flags reserved m = ground arith

  pipeline-check_payload :
      (payload : Bytes) (m : SessionManager P) → (check_payload payload m).pipeline ≡ m.pipeline
  unfolding check_payload warn write_log
  pipeline-check_payload payload m = ground arith

  pipeline-checked :
      (seq flags reserved : ℕ) (payload : Bytes) (m : SessionManager P)
      → (checked seq flags reserved payload m).pipeline ≡ m.pipeline
  unfolding checked
  pipeline-checked seq flags reserved payload m =
      rw (pipeline-check_payload, pipeline-check_header, pipeline-check_seq)

  stats-checked :
      (seq flags reserved : ℕ) (payload : Bytes) (m : SessionManager P)
      → (checked seq flags reserved payload m).stats
        ≡ record (add_warnings (warnings m.stats.expected_seq seq flags reserved payload) m.stats) {
          expected_seq = some ((seq + 1) % 65536);
        }
  unfolding checked warnings
  stats-checked seq flags reserved payload m =
      rw (check_payload-stats, check_header-stats, check_seq-stats) (simp append_assoc)

-- The statistics after a frame.
unfoldable pub received : ℕ → ℕ → ℕ → Bytes → SessionStats → SessionStats
received seq flags reserved payload s =
    record (add_warnings (warnings s.expected_seq seq flags reserved payload) s) {
      frames_observed = s.frames_observed + 1;
      audio_bytes = s.audio_bytes + length payload;
      expected_seq = some ((seq + 1) % 65536);
    }

module _ {P : Type 0} (ops : StiPipeline P) where
  feed_audio_accepts :
      (frame : Bytes) (m : SessionManager P)
      → m.state ≡ audio_in
      → feed_audio ops frame m ≡ accept_frame ops frame m
  unfolding feed_audio
  feed_audio_accepts frame m e = ground arith

  accept_frame-received :
      (high low flags reserved : ℕ) (payload : Bytes) (m : SessionManager P)
      → ((accept_frame ops (high ∷ low ∷ flags ∷ reserved ∷ payload) m).1.stats
          ≡ received (high * 256 + low) flags reserved payload m.stats)
        × ((accept_frame ops (high ∷ low ∷ flags ∷ reserved ∷ payload) m).0
            ≡ (ops.feed_audio payload m.pipeline).0)
        × ((accept_frame ops (high ∷ low ∷ flags ∷ reserved ∷ payload) m).1.pipeline
            ≡ (ops.feed_audio payload m.pipeline).1)
  unfolding accept_frame feed_pipeline count_frame received checked
  accept_frame-received high low flags reserved payload m =
      let same = pipeline-checked (high * 256 + low) flags reserved payload m in
      (
        ap
            (λ (s : SessionStats). record s {
              frames_observed = s.frames_observed + 1;
              audio_bytes = s.audio_bytes + length payload;
            })
            (stats-checked (high * 256 + low) flags reserved payload m),
        ap (λ p. (ops.feed_audio payload p).0) same,
        ap (λ p. (ops.feed_audio payload p).1) same,
      )

  -- In `audio_in`, a frame with a whole header is counted with its payload's bytes, its successor's
  -- number modulo 2 ^ 16 is expected next, exactly the warnings that it deserves are noted, and
  -- the payload alone goes to the pipeline, whose answer is the call's.
  pub feed_audio-received :
      (high low flags reserved : ℕ) (payload : Bytes) (m : SessionManager P)
      → m.state ≡ audio_in
      → ((feed_audio ops (high ∷ low ∷ flags ∷ reserved ∷ payload) m).1.stats
          ≡ received (high * 256 + low) flags reserved payload m.stats)
        × ((feed_audio ops (high ∷ low ∷ flags ∷ reserved ∷ payload) m).0
            ≡ (ops.feed_audio payload m.pipeline).0)
        × ((feed_audio ops (high ∷ low ∷ flags ∷ reserved ∷ payload) m).1.pipeline
            ≡ (ops.feed_audio payload m.pipeline).1)
  feed_audio-received high low flags reserved payload m e =
      rw (feed_audio_accepts (high ∷ low ∷ flags ∷ reserved ∷ payload) m e)
        (accept_frame-received high low flags reserved payload m)
