-- ===== src/Pipeline.antt =====
-- brain/pipeline/base.py: what a pipeline is given, what it returns, and its four operations.
pub mod Mock
pub mod Pcm
pub mod Moonshine
pub mod Qwen
use nubjuk_brain.Prelude.{ℕ, String, Option, List, Text}
use nubjuk_brain.Errors.{Result}
use nubjuk_brain.Json.{Fields}

-- `bytes`; each element is below 256.
abbrev pub Bytes : Type 0
Bytes = List ℕ

-- `dict[str, Any]`
abbrev pub Slots : Type 0
Slots = Fields

-- A non-negative float, counted in units of 2 ^ -1074, of which every such float is a multiple.
abbrev pub Float : Type 0
Float = ℕ

pub record StiResult : Type 0 where
  pub intent : Text
  pub slots : Slots
  pub confidence : Float
  pub raw_text : Option Text
  pub asr_ms : ℕ
  pub slm_ms : ℕ

pub record SessionOpts : Type 0 where
  pub correlation_id : String
  pub max_utterance_ms : ℕ
  pub language : String

-- The abstract class, over the state `P` of an implementation. A method returns its result, or
-- raises, beside the new state.
pub record StiPipeline (P : Type 0) : Type 0 where
  pub start_session : SessionOpts → P → Result (Unit {0}) × P
  pub feed_audio : Bytes → P → Result (Unit {0}) × P
  pub finish_session : P → Result StiResult × P
  pub cancel_session : P → P
