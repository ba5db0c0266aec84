-- ===== src/Session/Soundness.antt =====
-- brain/session.py: the invariant of the manager under sequences of calls
use nubjuk_brain.Prelude.{
  ℕ, zero, suc, ◌+◌, ◌≤◌, ◌<◌, ltb, String, ◌≡◌, refl, List, [], ◌∷◌, arith, Bool-cases, inl, inr,
  ◌∙◌,
}
use nubjuk_brain.Pipeline.{SessionOpts, StiPipeline}
use nubjuk_brain.Session.State.{SessionManager, processing, new_manager, transition}
use nubjuk_brain.Session.Methods
use nubjuk_brain.Session.Methods.{finish_start, report_frames}
use nubjuk_brain.Session.Diagram.{new_manager-IsTraced}
use nubjuk_brain.Session.Quiet.{IsQuiet-feed_audio}
use nubjuk_brain.Session.Schedule.{Call, System, perform, run, waits, IsTimely, IsOrderly}
use nubjuk_brain.Session.Settled.{
  IsSettled, Starts, try_start-IsSettled, feed_audio-IsSettled, finish_start-IsSettled,
  finish_resume-IsSettled, complete-IsSettled, cancel-IsSettled,
}

-- The manager is settled; at most one `finish` awaits the pipeline, and has it in `processing`.
pub record IsSound {P : Type 0} (s : System P) : Type 0 where
  pub settled : IsSettled s.manager
  pub single : s.pending ≤ 1
  pub awaiting : 0 < s.pending → s.manager.state ≡ processing

abbrev pub start : {P : Type 0} → ℕ → P → System P
start now p = record { manager = new_manager now p; pending = 0 }

pub start-IsSound : {P : Type 0} (now : ℕ) (p : P) → IsSound (start now p)
unfolding new_manager
start-IsSound now p = record {
  settled = record {
    held = refl;
    options = refl;
    not_cancelled = refl;
    traced = new_manager-IsTraced now p;
  };
  single = omega arith;
  awaiting = λ e. absurd (omega arith);
}

module _ {P : Type 0} (ops : StiPipeline P) (starts : Starts ops) where
  try_start_busy :
      (now : ℕ) (opts : SessionOpts) (m : SessionManager P)
      → IsSettled m
      → m.state ≡ processing
      → (Methods.try_start ops now opts m).1.state ≡ processing
  unfolding Methods.try_start
  try_start_busy now opts m h e = ground arith

  finish_start_pending :
      (n : ℕ) (m : SessionManager P) (b : ℕ)
      → b ≤ 1
      → (0 < b → m.state ≡ processing)
      → (b + waits (finish_start ops n m).0 ≤ 1)
        × (0 < b + waits (finish_start ops n m).0 → (finish_start ops n m).1.state ≡ processing)
  unfolding finish_start transition
  finish_start_pending n m zero l h = ground arith
  finish_start_pending n m (suc b) l h =
      let e : m.state ≡ processing = h (omega arith) in ground arith

  complete_busy :
      (now : ℕ) (reason : String) (m : SessionManager P)
      → m.state ≡ processing
      → (Methods.complete ops now reason m).state ≡ processing
  unfolding Methods.complete
  complete_busy now reason m e = ground arith

  perform-IsSound :
      (c : Call P) (s : System P) → IsTimely ops c s → IsSound s → IsSound (perform ops c s)
  unfolding perform
  perform-IsSound (Call.try_start now opts) s k h = record {
    settled = try_start-IsSettled ops starts now opts s.manager h.settled;
    single = h.single;
    awaiting = λ e. try_start_busy now opts s.manager h.settled (h.awaiting e);
  }
  perform-IsSound (Call.feed_audio frame) s k h = record {
    settled = feed_audio-IsSettled ops frame s.manager h.settled;
    single = h.single;
    awaiting = λ e. (IsQuiet-feed_audio ops frame s.manager).state ∙ h.awaiting e;
  }
  perform-IsSound (Call.finish n) s k h =
      let (one, busy) = finish_start_pending n s.manager s.pending h.single h.awaiting in
      record {
        settled = finish_start-IsSettled ops n s.manager h.settled;
        single = one;
        awaiting = busy;
      }
  perform-IsSound (Call.resume r p) s k h = elim (Bool-cases (ltb 0 s.pending)) [
    | inl e ↦ rw e (record {
      settled =
          finish_resume-IsSettled ops r (record s.manager { pipeline = p })
            (h.awaiting (ground arith))
            (record {
              held = h.settled.held;
              options = h.settled.options;
              not_cancelled = h.settled.not_cancelled;
              traced = h.settled.traced;
            });
      single = let one = h.single in omega arith;
      awaiting = λ f. let one = h.single in absurd (omega arith);
    })
    | inr e ↦ rw e h
  ]
  perform-IsSound (Call.complete now reason) s k h = record {
    settled = complete-IsSettled ops now reason s.manager h.settled;
    single = h.single;
    awaiting = λ e. complete_busy now reason s.manager (h.awaiting e);
  }
  perform-IsSound (Call.cancel reason) s k h = record {
    settled = cancel-IsSettled ops reason s.manager h.settled;
    single = h.single;
    awaiting = λ e. absurd (omega arith);
  }
  perform-IsSound (Call.interrupt reason) s k h = record {
    settled = cancel-IsSettled ops reason s.manager h.settled;
    single = let one = h.single in omega arith;
    awaiting = λ e. let one = h.single in absurd (omega arith);
  }

  -- Over a pipeline whose `start_session` does not raise and whose `cancel_session` is over at once, any
  -- sequence of calls in which `cancel` is not called while a `finish` awaits the pipeline takes a sound
  -- system to a sound one; the return of the pipeline to a waiting `finish`, and its interruption with a
  -- cancel behind it, may come at any time. Sound: the lock is held exactly outside `idle`, exactly while
  -- there are session options, the manager does not rest in `cancelled`, the logged transitions are moves
  -- of the state diagram from `idle` to the present state, at most one `finish` awaits, and while it does,
  -- the state is `processing`.
  pub run-IsSound :
      (calls : List (Call P)) (s : System P)
      → IsOrderly ops calls s
      → IsSound s
      → IsSound (run ops calls s)
  unfolding run
  run-IsSound [] s k h = h
  run-IsSound (c ∷ calls) s k h =
      run-IsSound calls (perform ops c s) k.1 (perform-IsSound c s k.0 h)
