-- ===== src/Errors.antt =====
-- brain/pipeline/base.py: `StiError`, and the exceptions that a call may raise.
use nubjuk_brain.Prelude.{String, Option, none, some}

pub record StiError : Type 0 where
  pub code : String
  pub message : String

-- `StiError(code, message)`: the message defaults to the code.
abbrev pub sti_error : String → Option String → StiError
sti_error code (some message) = record { code = code; message = message }
sti_error code none = record { code = code; message = code }

-- What a call raises: the program's own exception, `asyncio.CancelledError`, or `RuntimeError`.
pub data Exception : Type 0 where
  sti : StiError → Exception
  cancelled_error : Exception
  runtime : String → Exception

pub data Result {ℓ} (A : Type ℓ) : Type ℓ where
  ok : A → Result A
  raise : Exception → Result A
