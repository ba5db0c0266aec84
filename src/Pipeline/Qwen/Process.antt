-- ===== src/Pipeline/Qwen/Process.antt =====
-- brain/pipeline/qwen_slm.py: `QwenSlmIntentResolver` and its process. What the operating system and
-- llama-cli do is a parameter.
pub mod Stopped
use nubjuk_brain.Prelude.{
  ℕ, String, Bool, true, false, Option, none, some, List, [], ◌∷◌, ◌++◌, Text, not, ◌&&◌,
  if◌then◌else◌,
}
use nubjuk_brain.Errors.{Result, ok, raise, sti, sti_error, cancelled_error}
use nubjuk_brain.Pipeline.{Float}
use nubjuk_brain.Pipeline.Moonshine.{SlmIntentDecision, SlmIntentResolver}
use nubjuk_brain.Intent.Normalize.{Unicode}
use nubjuk_brain.Intent.Phonetic.{Floats}
use nubjuk_brain.Intent.Catalog.{IntentCatalog, intent_ids}
use nubjuk_brain.Pipeline.Qwen.Choice.{parse_intent_from_slm_output}
use nubjuk_brain.Pipeline.Qwen.Output.{extract_slm_completion}
use nubjuk_brain.Pipeline.Qwen.Prompt.{build_intent_prompt}

pub data Signal : Type 0 where
  terminate kill : Signal

-- A process, with the signals that it was sent; its `returncode` is None while it is running.
pub record LlamaProcess : Type 0 where
  pub running : Bool
  pub signals : List Signal

-- What becomes of a run of llama-cli: it cannot be executed; it exits, with code 0 or another one, its
-- output and the time that it took; the time runs out; reading its output fails; or the call is
-- cancelled, before or after the process is there.
pub data Run : Type 0 where
  refused : String → Run
  exited : Bool → Text → ℕ → Run
  timed_out : Run
  broken : String → Run
  cancelled_before : Run
  cancelled_during : Run

-- What the resolver is given: the program, by its prompt; whether a process that is told to terminate
-- exits within a second; and the text of a score.
pub record Llama : Type 0 where
  pub run : Text → Run
  pub obeys : LlamaProcess → Bool
  pub fixed_3 : Float → Text

-- The resolver's `_process`, and the processes that it has given up, as it left them.
pub record QwenSlmIntentResolver : Type 0 where
  pub process : Option LlamaProcess
  pub left : List LlamaProcess

abbrev pub new_resolver : QwenSlmIntentResolver
new_resolver = record { process = none; left = [] }

abbrev pub started : LlamaProcess
started = record { running = true; signals = [] }

-- a process that another one is assigned over, which goes on as it is
unfoldable pub abandon : Option LlamaProcess → List LlamaProcess → List LlamaProcess
abandon none left = left
abandon (some p) left = p ∷ left

-- `self._process = process`
unfoldable pub spawn : QwenSlmIntentResolver → QwenSlmIntentResolver
spawn s = record { process = some started; left = abandon s.process s.left }

module _ (llama : Llama) where
  -- What a signal makes of a process: a kill ends it, and it may go on behind a terminate.
  unfoldable pub signalled : Signal → LlamaProcess → LlamaProcess
  signalled terminate p = record {
    running = p.running && not (llama.obeys p);
    signals = p.signals ++ terminate ∷ [];
  }
  signalled kill p = record { running = false; signals = p.signals ++ kill ∷ [] }

  -- `terminate`, and `kill` if the process is still running when the wait for it runs out
  unfoldable pub stop : LlamaProcess → LlamaProcess
  stop p = let p₁ = signalled terminate p in if p₁.running then signalled kill p₁ else p₁

  unfoldable pub give_up : Option LlamaProcess → List LlamaProcess → List LlamaProcess
  give_up none left = left
  give_up (some p) left = if p.running then stop p ∷ left else p ∷ left

  unfoldable pub cancel : QwenSlmIntentResolver → QwenSlmIntentResolver
  cancel s = record { process = none; left = give_up s.process s.left }

  module _ (u : Unicode) (fl : Floats) where
    -- what is made of the output, when the process has exited
    unfoldable pub decision_of : Bool → Text → ℕ → IntentCatalog → Result SlmIntentDecision
    decision_of false output slm_ms c =
        raise (sti (sti_error "slm_failed" (some "llama-cli exited with code")))
    decision_of true output slm_ms c =
        let completion = extract_slm_completion u output in
        ok (record {
          intent = parse_intent_from_slm_output completion (intent_ids c);
          raw_output = completion;
          slm_ms = slm_ms;
        })

    -- `resolve` from the start of the process on
    unfoldable pub after_run :
        Run
        → IntentCatalog
        → QwenSlmIntentResolver
        → Result SlmIntentDecision × QwenSlmIntentResolver
    after_run (refused x) c s = (raise (sti (sti_error "slm_failed" (some x))), s)
    after_run (exited zero_code output slm_ms) c s = (
      decision_of zero_code output slm_ms c,
      record {
        process = none;
        left = record started { running = false } ∷ abandon s.process s.left;
      },
    )
    after_run timed_out c s = (
      raise (sti (sti_error "timeout" (some "SLM intent resolution timed out"))),
      cancel (spawn s),
    )
    after_run (broken x) c s = (raise (sti (sti_error "slm_failed" (some x))), spawn s)
    after_run cancelled_before c s = (raise cancelled_error, cancel s)
    after_run cancelled_during c s = (raise cancelled_error, cancel (spawn s))

    unfoldable pub resolve :
        Text
        → IntentCatalog
        → QwenSlmIntentResolver
        → Result SlmIntentDecision × QwenSlmIntentResolver
    resolve raw_text c s =
        after_run (llama.run (build_intent_prompt u fl llama.fixed_3 raw_text c)) c s

    unfoldable pub qwen : SlmIntentResolver QwenSlmIntentResolver
    qwen = record { resolve = resolve; cancel = cancel }
