-- ===== src/Session/Settled.antt =====
-- brain/session.py: the invariant of the manager, method by method
use nubjuk_brain.Prelude.{
  ℕ, String, ◌≡◌, refl, sym, subst, ◌∙◌, ap, Bool, true, false, not, ◌&&◌, Option, none, some,
  if-intro, arith,
}
use nubjuk_brain.Errors.{Result, ok, raise, sti, cancelled_error, runtime}
use nubjuk_brain.Pipeline.{Bytes, StiResult, SessionOpts, StiPipeline}
use nubjuk_brain.Session.State.{
  SessionState, idle, audio_in, processing, done, cancelled, ◌is◌, SessionManager, transition,
  log_session_done, write_log,
}
use nubjuk_brain.Session.Frames
use nubjuk_brain.Session.Methods
use nubjuk_brain.Session.Methods.{start_result, report_frames, cleanup, finish_start, finish_resume}
use nubjuk_brain.Session.Diagram.{
  ◌⟶◌, moved, start, end_audio, answer, stop_audio, stop_processing, unsent, close_done,
  close_cancelled, IsTraced, transition-IsTraced, log_session_done-IsTraced,
}
use nubjuk_brain.Session.Quiet.{IsQuiet, IsQuiet-feed_audio, IsQuiet-report_frames}

abbrev pub opened {ℓ} : {A : Type ℓ} → Option A → Bool
opened none = false
opened (some _) = true

-- At rest: the lock is held exactly outside `idle`, and exactly while there are options; no call
-- leaves the manager in `cancelled`; and the logged transitions follow the diagram to the state.
pub record IsSettled {P : Type 0} (m : SessionManager P) : Type 0 where
  pub held : m.locked ≡ not (m.state is idle)
  pub options : opened m.opts ≡ m.locked
  pub not_cancelled : (m.state is cancelled) ≡ false
  pub traced : IsTraced m

leave : {s : SessionState} → s ⟶ idle → (s is idle) ≡ false
leave close_done = refl
leave close_cancelled = refl

stop : (s : SessionState) → (s is idle) ≡ false → (s is cancelled) ≡ false → s ⟶ cancelled
stop idle h k = absurd (ground arith)
stop audio_in h k = stop_audio
stop processing h k = stop_processing
stop done h k = unsent
stop cancelled h k = absurd (ground arith)

begin_from : (s : SessionState) → (s is idle) ≡ true → s ⟶ audio_in
begin_from idle h = start
begin_from audio_in h = absurd (ground arith)
begin_from processing h = absurd (ground arith)
begin_from done h = absurd (ground arith)
begin_from cancelled h = absurd (ground arith)

is_audio_in : (s : SessionState) → not (s is audio_in) ≡ false → s ≡ audio_in
is_audio_in audio_in h = refl
is_audio_in idle h = absurd (ground arith)
is_audio_in processing h = absurd (ground arith)
is_audio_in done h = absurd (ground arith)
is_audio_in cancelled h = absurd (ground arith)

close_from : (s : SessionState) → (s is done) ≡ true → s ⟶ idle
close_from idle h = absurd (ground arith)
close_from audio_in h = absurd (ground arith)
close_from processing h = absurd (ground arith)
close_from done h = close_done
close_from cancelled h = absurd (ground arith)

Quiet-IsSettled : {P : Type 0} {m n : SessionManager P} → IsQuiet m n → IsSettled m → IsSettled n
Quiet-IsSettled {m} {n} q h = record {
  held = q.locked ∙ h.held ∙ ap (λ s. not (s is idle)) (sym q.state);
  options = ap opened q.opts ∙ h.options ∙ sym q.locked;
  not_cancelled = ap (λ s. s is cancelled) q.state ∙ h.not_cancelled;
  traced = q.traced h.traced;
}

transition-IsSettled :
    {P : Type 0} (t : SessionState) (reason : String) (m : SessionManager P)
    → (t is idle) ≡ false
    → (t is cancelled) ≡ false
    → m.state ⟶ t
    → m.locked ≡ true
    → IsSettled m
    → IsSettled (transition t reason m)
unfolding transition write_log
transition-IsSettled t reason m not_idle stays e locked h = record {
  held = rw not_idle locked;
  options = h.options;
  not_cancelled = stays;
  traced = moved _ reason h.traced e;
}

module _ {P : Type 0} (ops : StiPipeline P) where
  -- `cleanup` outside `idle`: its test passes
  pub cleanup_moves :
      (reason : String) (m : SessionManager P)
      → (m.state is idle) ≡ false
      → cleanup ops reason m ≡ (
          let m' = transition idle reason (record m { pipeline = ops.cancel_session m.pipeline }) in
          record m' { opts = none; locked = false })
  unfolding cleanup transition
  cleanup_moves reason m h = rw h

  pub cleanup-IsSettled :
      (reason : String) (m : SessionManager P)
      → m.state ⟶ idle
      → IsTraced m
      → IsSettled (cleanup ops reason m)
  cleanup-IsSettled reason m e h = rw (cleanup_moves reason m (leave e)) (
      unfold transition in
      record { held = refl; options = refl; not_cancelled = refl; traced = moved _ reason h e })

  pub cancel-IsSettled :
      (reason : String) (m : SessionManager P)
      → IsSettled m
      → IsSettled (Methods.cancel ops reason m)
  unfolding Methods.cancel
  cancel-IsSettled reason m h =
      if-intro IsSettled (m.state is idle && not m.locked) (λ _. h)
        λ e.
          let leaves : (m.state is idle) ≡ false = ground arith in
          rw h.not_cancelled (
            cleanup-IsSettled reason (transition cancelled reason m)
              (unfold transition in close_cancelled)
              (transition-IsTraced cancelled reason m (stop m.state leaves h.not_cancelled)
                h.traced))

  -- What a pipeline's `start_session` promises here: it does not raise.
  abbrev pub Starts : Type 0
  Starts = (opts : SessionOpts) (p : P) → (p' : P) × (ops.start_session opts p ≡ (ok tt, p'))

  pub try_start-IsSettled :
      Starts
      → (now : ℕ) (opts : SessionOpts) (m : SessionManager P) → IsSettled m
      → IsSettled (Methods.try_start ops now opts m).1
  unfolding Methods.try_start
  try_start-IsSettled starts now opts m h =
      if-intro {A = Result Bool × SessionManager P} (λ r. IsSettled r.1) m.locked (λ _. h)
        λ e.
          let (p, started) = starts opts m.pipeline in
          rw started (
            unfold start_result transition write_log in
            record {
              held = refl;
              options = refl;
              not_cancelled = refl;
              traced = moved _ _ h.traced (begin_from m.state (ground arith));
            })

  pub feed_audio-IsSettled :
      (frame : Bytes) (m : SessionManager P)
      → IsSettled m
      → IsSettled (Frames.feed_audio ops frame m).1
  feed_audio-IsSettled frame m h = Quiet-IsSettled (IsQuiet-feed_audio ops frame m) h

  pub finish_resume-IsSettled :
      (r : Result StiResult) (m : SessionManager P)
      → m.state ≡ processing
      → IsSettled m
      → IsSettled (finish_resume ops r m).1
  unfolding finish_resume
  finish_resume-IsSettled (ok result) m e h = rw h.not_cancelled (
      transition-IsSettled done "pipeline_result"
        (record m { stats = record m.stats { intent = some result.intent } }) refl refl
        (subst (λ s. s ⟶ done) (sym e) answer) (h.held ∙ ap (λ s. not (s is idle)) e)
        (record {
          held = h.held;
          options = h.options;
          not_cancelled = h.not_cancelled;
          traced = h.traced;
        }))
  finish_resume-IsSettled (raise (sti x)) m e h = rw h.not_cancelled (
      cleanup-IsSettled "cleanup" (transition cancelled "pipeline_error" m)
        (unfold transition write_log in close_cancelled)
        (transition-IsTraced cancelled "pipeline_error" m
          (subst (λ s. s ⟶ cancelled) (sym e) stop_processing) h.traced))
  finish_resume-IsSettled (raise cancelled_error) m e h = h
  finish_resume-IsSettled (raise (runtime x)) m e h = h

  pub complete-IsSettled :
      (now : ℕ) (reason : String) (m : SessionManager P)
      → IsSettled m
      → IsSettled (Methods.complete ops now reason m)
  unfolding Methods.complete
  complete-IsSettled now reason m h =
      if-intro IsSettled (m.state is done)
        (λ e.
          cleanup-IsSettled reason (log_session_done now m)
            (unfold log_session_done write_log in close_from m.state e)
            (log_session_done-IsTraced now m h.traced))
        (λ _. h)

  -- A `finish` that goes on to its await is in `processing`; one that raises changes nothing.
  pub finish_start-IsSettled :
      (n : ℕ) (m : SessionManager P) → IsSettled m → IsSettled (finish_start ops n m).1
  unfolding finish_start
  finish_start-IsSettled n m h =
      if-intro {A = Result (Unit {0}) × SessionManager P} (λ r. IsSettled r.1)
        (not (m.state is audio_in)) (λ _. h)
        λ e.
          let q = IsQuiet-report_frames n m in
          let here : m.state ≡ audio_in = is_audio_in m.state e in
          transition-IsSettled processing "session_end" (report_frames n m) refl refl
            (subst (λ s. s ⟶ processing) (sym (q.state ∙ here)) end_audio)
            (q.locked ∙ h.held ∙ ap (λ s. not (s is idle)) here) (Quiet-IsSettled q h)
