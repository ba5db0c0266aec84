-- ===== src/Session/Late.antt =====
-- brain/session.py: a `finish` that a `cancel` has left waiting
use nubjuk_brain.Prelude.{◌≡◌, false}
use nubjuk_brain.Errors.{Result, ok, raise}
use nubjuk_brain.Pipeline.{StiResult}
use nubjuk_brain.Session.State.{SessionManager, idle, done}
use nubjuk_brain.Session.Methods

-- the manager behind the return of the pipeline: at rest, or in `done` without its lock
abbrev pub AfterLate : {P : Type 0} → Result StiResult → SessionManager P → Type 0
AfterLate (ok result) m = (m.state ≡ done) × (m.locked ≡ false)
AfterLate (raise e) m = (m.state ≡ idle) × (m.locked ≡ false)
