-- ===== src/Session/Frames.antt =====
-- brain/session.py: `feed_audio`, which parses the header of a binary frame
use nubjuk_brain.Prelude.{
  ℕ, ◌+◌, ◌-◌, ◌*◌, ◌%◌, not, Option, none, some, ◌∷◌, length, ◌==◌, if◌then◌else◌,
}
use nubjuk_brain.Errors.{Result, ok}
use nubjuk_brain.Pipeline.{Bytes, StiPipeline}
use nubjuk_brain.Session.State.{
  audio_in, ◌is◌, expected_pcm_payload_bytes, frame_too_short, seq_non_monotonic, unknown_flags,
  reserved_nonzero, unexpected_pcm_bytes, SessionManager, warn,
}

-- `flags & ~0x01`
abbrev pub unknown_bits : ℕ → ℕ
unknown_bits flags = flags - flags % 2

module _ {P : Type 0} where
  -- `self.stats.expected_seq = (seq + 1) & 0xFFFF`
  unfoldable pub expect_after : ℕ → SessionManager P → SessionManager P
  expect_after seq m = record m {
    stats = record m.stats { expected_seq = some ((seq + 1) % 65536) };
  }

  -- the three branches on `expected_seq`
  unfoldable pub check_seq : Option ℕ → ℕ → SessionManager P → SessionManager P
  check_seq none seq m = expect_after seq m
  check_seq (some expected) seq m =
      if not (seq == expected)
      then expect_after seq (warn (seq_non_monotonic expected seq) m)
      else expect_after expected m

  unfoldable pub check_flags : ℕ → SessionManager P → SessionManager P
  check_flags flags m = if not (unknown_bits flags == 0) then warn (unknown_flags flags) m else m

  unfoldable pub check_reserved : ℕ → SessionManager P → SessionManager P
  check_reserved r m = if not (r == 0) then warn (reserved_nonzero r) m else m

  unfoldable pub check_payload : Bytes → SessionManager P → SessionManager P
  check_payload payload m =
      if not (length payload == expected_pcm_payload_bytes)
      then warn (unexpected_pcm_bytes (length payload)) m
      else m

  unfoldable pub count_frame : Bytes → SessionManager P → SessionManager P
  count_frame payload m = record m {
    stats = record m.stats {
      frames_observed = m.stats.frames_observed + 1;
      audio_bytes = m.stats.audio_bytes + length payload;
    };
  }

module _ {P : Type 0} (ops : StiPipeline P) where
  -- `await self._pipeline.feed_audio(payload)`
  unfoldable pub feed_pipeline : Bytes → SessionManager P → Result (Unit {0}) × SessionManager P
  feed_pipeline payload m =
      let (r, p) = ops.feed_audio payload m.pipeline in (r, record m { pipeline = p })

  -- the body of `feed_audio` behind its first test; a frame of fewer than 4 bytes has no header
  unfoldable pub accept_frame : Bytes → SessionManager P → Result (Unit {0}) × SessionManager P
  accept_frame (high ∷ low ∷ flags ∷ reserved ∷ payload) m =
      let seq = high * 256 + low in
      let m₁ = check_seq m.stats.expected_seq seq m in
      let m₂ = check_payload payload (check_reserved reserved (check_flags flags m₁)) in
      feed_pipeline payload (count_frame payload m₂)
  accept_frame _ m = (ok tt, warn frame_too_short m)

  unfoldable pub feed_audio : Bytes → SessionManager P → Result (Unit {0}) × SessionManager P
  feed_audio frame m = if not (m.state is audio_in) then (ok tt, m) else accept_frame frame m
