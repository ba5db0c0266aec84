-- ===== src/Server/Worker.antt =====
-- brain/ws_server.py: `_audio_feed_worker`
use nubjuk_brain.Prelude.{false, some, List, [], ◌∷◌, if◌then◌else◌}
use nubjuk_brain.Errors.{sti_error, Result, ok, raise, sti, cancelled_error, runtime}
use nubjuk_brain.Pipeline.{Bytes, StiPipeline}
use nubjuk_brain.Session
use nubjuk_brain.Session.{SessionManager, logged_id}
use nubjuk_brain.Server.State.{Connection, Server}

module _ {P : Type 0} (ops : StiPipeline P) where
  -- the worker's connection after a frame, by what the manager's `feed_audio` does
  unfoldable pub fed : Result (Unit {0}) → Connection → Connection
  fed (ok _) c = c
  fed (raise (sti e)) c = record c { audio_error = some e; working = false }
  fed (raise (runtime x)) c = record c {
    audio_error = some (sti_error "internal" (some x));
    working = false;
  }
  fed (raise cancelled_error) c = record c { working = false }

  -- one round of the worker's loop
  unfoldable pub feed_next : List Bytes → Server P → Server P
  feed_next [] s = s
  feed_next (frame ∷ queue) s =
      let (r, m) = Session.feed_audio ops frame s.manager in
      record { connection = fed r (record s.connection { audio_queue = queue }); manager = m }

  unfoldable pub work : Server P → Server P
  work s = if s.connection.working then feed_next s.connection.audio_queue s else s
