-- ===== src/Pipeline/Qwen/Process/Stopped.antt =====
-- brain/pipeline/qwen_slm.py: the processes that the resolver leaves, and its answers to the pipeline
use nubjuk_brain.Prelude.{ℕ, ◌%◌, ◌<◌, ◌≡◌, true, false, none, List, [], ◌∷◌, Text, length, All}
use nubjuk_brain.Errors.{ok}
use nubjuk_brain.Intent.Normalize.{Unicode}
use nubjuk_brain.Intent.Phonetic.{Floats}
use nubjuk_brain.Intent.Catalog.{IntentCatalog}
use nubjuk_brain.Pipeline.Moonshine.{Parts, Moonshine, strip, match_intent, finish_session}
use nubjuk_brain.Pipeline.Moonshine.Recognition.{IsExpected, Returns, finish_session-Returns}
use nubjuk_brain.Pipeline.Qwen.Process
use nubjuk_brain.Pipeline.Qwen.Process.{
  LlamaProcess, Run, refused, exited, timed_out, broken, cancelled_before, cancelled_during, Llama,
  QwenSlmIntentResolver, decision_of, after_run, qwen,
}

abbrev AreStopped : List LlamaProcess → Type 0
AreStopped = All (λ (p : LlamaProcess). p.running ≡ false)

-- No process is held, and none that was given up runs.
pub record IsIdle (s : QwenSlmIntentResolver) : Type 0 where
  pub free : s.process ≡ none
  pub stopped : All (λ (p : LlamaProcess). p.running ≡ false) s.left

-- A call on the resolver.
pub data Call : Type 0 where
  resolving : Text → IntentCatalog → Call
  cancelling : Call

-- reading the output of the process did not fail
abbrev pub IsRead : Run → Type 0
IsRead (broken _) = ⊥
IsRead _ = Unit

-- the call was not cancelled
abbrev pub IsUndisturbed : Run → Type 0
IsUndisturbed cancelled_before = ⊥
IsUndisturbed cancelled_during = ⊥
IsUndisturbed _ = Unit

module _ (llama : Llama) (u : Unicode) (fl : Floats) where
  -- the calls, one after the other
  unfoldable pub call_all : List Call → QwenSlmIntentResolver → QwenSlmIntentResolver
  call_all [] s = s
  call_all (Call.resolving text c ∷ calls) s =
      call_all calls (Process.resolve llama u fl text c s).1
  call_all (Call.cancelling ∷ calls) s = call_all calls (Process.cancel llama s)

  after_run-IsExpected :
      (r : Run) (c : IntentCatalog) (s : QwenSlmIntentResolver)
      → IsUndisturbed r
      → IsExpected (after_run llama u fl r c s).0
  unfolding after_run decision_of
  after_run-IsExpected (refused x) c s k = tt
  after_run-IsExpected (exited true output ms) c s k = tt
  after_run-IsExpected (exited false output ms) c s k = tt
  after_run-IsExpected timed_out c s k = tt
  after_run-IsExpected (broken x) c s k = tt
  after_run-IsExpected cancelled_before c s k = absurd k
  after_run-IsExpected cancelled_during c s k = absurd k

  pub qwen-IsExpected :
      (text : Text) (c : IntentCatalog) (s : QwenSlmIntentResolver)
      → ((prompt : Text) → IsUndisturbed (llama.run prompt))
      → IsExpected ((qwen llama u fl).resolve text c s).0
  unfolding qwen Process.resolve
  qwen-IsExpected text c s k = after_run-IsExpected _ c s (k _)

  -- The moonshine pipeline with this resolver: if no run of llama-cli is cancelled, the session is not
  -- cancelled, its audio is whole samples, at least one, and the transcriber returns a text that is not
  -- blank, then `finish_session` returns a result, whatever llama-cli does or prints, and its intent is
  -- the one that the catalog alone matches to the stripped transcript.
  pub finish_session_qwen-Returns :
      (parts : Parts) (p : Moonshine QwenSlmIntentResolver) (text : Text) (ms : ℕ)
      → ((prompt : Text) → IsUndisturbed (llama.run prompt))
      → p.cancelled ≡ false
      → 0 < length p.pcm
      → length p.pcm % 2 ≡ 0
      → parts.transcribe p.pcm ≡ ok (text, ms)
      → 0 < length (strip parts text)
      → Returns parts
          (qwen llama u fl)
          (match_intent parts (strip parts text))
          (strip parts text)
          ms
          (finish_session parts (qwen llama u fl) p).0
  finish_session_qwen-Returns parts p text ms k c n e t b =
      finish_session-Returns parts (qwen llama u fl) p text ms c n e t b
        (λ r. qwen-IsExpected (strip parts text) parts.catalog r k)
