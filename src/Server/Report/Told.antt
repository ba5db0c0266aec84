-- ===== src/Server/Report/Told.antt =====
-- brain/ws_server.py: that the log tells which busy messages and intents a client was sent
use nubjuk_brain.Prelude.{
  arith, if-both, if-intro, ℕ, ◌≡◌, refl, ◌∙◌, ap, sym, String, Bool, true, false, ◌||◌, Option,
  none, some, List, [], ◌∷◌, ◌++◌, append-nil, append_assoc, All,
}
use nubjuk_brain.Errors.{StiError, Result, ok, raise, sti, cancelled_error, runtime}
use nubjuk_brain.Pipeline.{Bytes, StiResult, StiPipeline}
use nubjuk_brain.Session
use nubjuk_brain.Server.{
  Server, Connection, Reply, Raw, ClientMessage, Event, is_waiting, is_full, refuse_frame, enqueue,
  answer_start, on_start, on_message, receive, fed, feed_next, work, answer_end, finish_or_cancel,
  after_finish, end_session, drained, step, serve, disconnect, binary, unsupported, invalid,
  message, session_start, session_end, session_cancel, received, unsent, worked, looked, ack, busy,
  error, intent,
}
use nubjuk_brain.Server.Report.{
  ReportLine, ws_disconnect, session_busy_send, intent_send, log_intent_send, report_start,
  report_end, report_round, report_end_session, report_look, report,
}

-- the lines that tell of the replies: of busy messages and intents
unfoldable pub lines_of : List Reply → List ReportLine
lines_of [] = []
lines_of (ack id ∷ rs) = lines_of rs
lines_of (busy id ∷ rs) = session_busy_send id ∷ lines_of rs
lines_of (error id code text ∷ rs) = lines_of rs
lines_of (intent id r ∷ rs) = log_intent_send id r ∷ lines_of rs

-- the lines without those of disconnects
unfoldable pub answers_of : List ReportLine → List ReportLine
answers_of [] = []
answers_of (ws_disconnect id source started ∷ ls) = answers_of ls
answers_of (session_busy_send id ∷ ls) = session_busy_send id ∷ answers_of ls
answers_of (intent_send id i c t a s ∷ ls) = intent_send id i c t a s ∷ answers_of ls

-- an event in which nothing fails to be sent
abbrev pub IsDelivered : Event → Type 0
IsDelivered (received now raw) = Unit
IsDelivered (unsent now raw) = ⊥
IsDelivered worked = Unit
IsDelivered (looked now delivered) = delivered ≡ true

lines_of-append : (xs ys : List Reply) → lines_of (xs ++ ys) ≡ lines_of xs ++ lines_of ys
unfolding lines_of
lines_of-append [] ys = refl
lines_of-append (ack id ∷ rs) ys = lines_of-append rs ys
lines_of-append (busy id ∷ rs) ys = ap (◌∷◌ (session_busy_send id)) (lines_of-append rs ys)
lines_of-append (error id code text ∷ rs) ys = lines_of-append rs ys
lines_of-append (intent id r ∷ rs) ys = ap (◌∷◌ (log_intent_send id r)) (lines_of-append rs ys)

answers_of-append :
    (xs ys : List ReportLine) → answers_of (xs ++ ys) ≡ answers_of xs ++ answers_of ys
unfolding answers_of
answers_of-append [] ys = refl
answers_of-append (ws_disconnect id source started ∷ ls) ys = answers_of-append ls ys
answers_of-append (session_busy_send id ∷ ls) ys =
    ap (◌∷◌ (session_busy_send id)) (answers_of-append ls ys)
answers_of-append (intent_send id i c t a s ∷ ls) ys =
    ap (◌∷◌ (intent_send id i c t a s)) (answers_of-append ls ys)

module _ {P : Type 0} (ops : StiPipeline P) where
  -- the lines tell what a connection was sent beyond what another one was
  abbrev Tells : List Reply → Server P → List ReportLine → Type 0
  Tells sent t lines = lines_of t.connection.sent ≡ lines_of sent ++ answers_of lines

  silent :
      (sent : List Reply) (lines : List ReportLine)
      → answers_of lines ≡ []
      → lines_of sent ≡ lines_of sent ++ answers_of lines
  silent sent lines e = rw e (sym (append-nil (lines_of sent)))

  nothing : (sent : List Reply) → lines_of sent ≡ lines_of sent ++ answers_of []
  nothing sent = silent sent [] (unfold answers_of in refl)

  errs :
      (sent : List Reply) (id code text : String)
      → lines_of (sent ++ error id code text ∷ []) ≡ lines_of sent ++ answers_of []
  errs sent id code text =
      lines_of-append sent (error id code text ∷ []) ∙ (unfold lines_of answers_of in refl)

  start-Tells :
      (id : String) (r : Result Bool) (c : Connection)
      → lines_of (answer_start ops id r c).sent ≡ lines_of c.sent ++ answers_of (report_start id r)
  unfolding answer_start report_start
  start-Tells id (ok true) c =
      lines_of-append c.sent (ack id ∷ []) ∙ (unfold lines_of answers_of in refl)
  start-Tells id (ok false) c =
      lines_of-append c.sent (busy id ∷ []) ∙ (unfold lines_of answers_of in refl)
  start-Tells id (raise e) c = nothing c.sent

  message-Tells :
      (now : ℕ) (m : ClientMessage) (s : Server P)
      → Tells s.connection.sent (on_message ops now m s) (report_round ops now (message m) s)
  unfolding on_message on_start report_round
  message-Tells now (session_start opts) s =
      start-Tells opts.correlation_id (Session.try_start ops now opts s.manager).0
        (record s.connection { correlation_id = opts.correlation_id })
  message-Tells now (session_end id n) s =
      if-intro (λ t. Tells s.connection.sent t []) s.connection.started
        (λ _. nothing s.connection.sent) (λ _. errs s.connection.sent _ _ _)
  message-Tells now (session_cancel id) s =
      if-intro (λ t. Tells s.connection.sent t []) s.connection.started
        (λ _. nothing s.connection.sent) (λ _. errs s.connection.sent _ _ _)

  enqueue-Tells :
      (maxsize : ℕ) (frame : Bytes) (e : Option StiError) (s : Server P)
      → Tells s.connection.sent (enqueue ops maxsize frame e s) []
  unfolding enqueue refuse_frame
  enqueue-Tells maxsize frame (some e) s = errs s.connection.sent _ _ _
  enqueue-Tells maxsize frame none s =
      if-intro (λ t. Tells s.connection.sent t []) (is_full maxsize s.connection.audio_queue)
        (λ _. errs s.connection.sent _ _ _) (λ _. nothing s.connection.sent)

  receive-Tells :
      (maxsize now : ℕ) (raw : Raw) (s : Server P)
      → Tells s.connection.sent (receive ops maxsize now raw s) (report_round ops now raw s)
  unfolding receive report_round
  receive-Tells maxsize now disconnect s =
      let lines =
        ws_disconnect s.connection.correlation_id "receive_disconnect" s.connection.started ∷ [] in
      if-intro (λ t. Tells s.connection.sent t lines) s.connection.started
        (λ _. silent s.connection.sent lines (unfold answers_of in refl))
        (λ _. silent s.connection.sent lines (unfold answers_of in refl))
  receive-Tells maxsize now (binary frame) s =
      if-intro (λ t. Tells s.connection.sent t []) s.connection.started
        (λ _. enqueue-Tells maxsize frame s.connection.audio_error s)
        (λ _. errs s.connection.sent _ _ _)
  receive-Tells maxsize now unsupported s = errs s.connection.sent _ _ _
  receive-Tells maxsize now (invalid id text) s = errs s.connection.sent _ _ _
  receive-Tells maxsize now (message m) s = message-Tells now m s

  fed-sent : (r : Result (Unit {0})) (c : Connection) → (fed ops r c).sent ≡ c.sent
  unfolding fed
  fed-sent (ok _) c = refl
  fed-sent (raise (sti e)) c = refl
  fed-sent (raise (runtime x)) c = refl
  fed-sent (raise cancelled_error) c = refl

  feed_next-sent :
      (q : List Bytes) (s : Server P) → (feed_next ops q s).connection.sent ≡ s.connection.sent
  unfolding feed_next
  feed_next-sent [] s = refl
  feed_next-sent (frame ∷ q) s = fed-sent (Session.feed_audio ops frame s.manager).0 _

  answer-Tells :
      (now : ℕ) (id : String) (r : Result StiResult) (s : Server P) (c : Connection)
      → Tells s.connection.sent (answer_end ops now true id r s) (report_end true id r c)
  unfolding answer_end finish_or_cancel after_finish report_end
  answer-Tells now id (ok result) s c =
      lines_of-append s.connection.sent (intent id result ∷ [])
      ∙ (unfold lines_of answers_of in refl)
  answer-Tells now id (raise (sti e)) s c = errs s.connection.sent _ _ _
  answer-Tells now id (raise cancelled_error) s c = nothing s.connection.sent
  answer-Tells now id (raise (runtime x)) s c = nothing s.connection.sent

  end-Tells :
      (now : ℕ) (id : String) (n : ℕ) (e : Option StiError) (q : List Bytes) (s : Server P)
      → Tells s.connection.sent
          (end_session ops now true id n e q s)
          (report_end_session ops true id n e q s)
  unfolding end_session report_end_session
  end-Tells now id n (some x) q s = errs s.connection.sent _ _ _
  end-Tells now id n none [] s =
      answer-Tells now id (Session.finish ops n s.manager).0
        (record s { manager = (Session.finish ops n s.manager).1 }) s.connection
  end-Tells now id n none (frame ∷ q) s = nothing s.connection.sent

  look-Tells :
      (now : ℕ) (w : Option (String × ℕ)) (s : Server P)
      → Tells s.connection.sent (drained ops now true w s) (report_look ops true w s)
  unfolding drained report_look
  look-Tells now none s = nothing s.connection.sent
  look-Tells now (some (id, n)) s =
      end-Tells now id n s.connection.audio_error s.connection.audio_queue s

  step-Tells :
      (maxsize : ℕ) (e : Event) (s : Server P)
      → IsDelivered e
      → Tells s.connection.sent (step ops maxsize e s) (report ops maxsize e s)
  unfolding step report work
  step-Tells maxsize (received now raw) s d =
      if-both (Tells s.connection.sent) (s.connection.returned || is_waiting s.connection.waiting)
        (λ _. nothing s.connection.sent) (λ _. receive-Tells maxsize now raw s)
  step-Tells maxsize (unsent now raw) s d = absurd d
  step-Tells maxsize worked s d =
      if-intro (λ t. Tells s.connection.sent t []) s.connection.working
        (λ _. ap lines_of (feed_next-sent s.connection.audio_queue s) ∙ nothing s.connection.sent)
        (λ _. nothing s.connection.sent)
  step-Tells maxsize (looked now true) s d =
      if-both (Tells s.connection.sent) s.connection.returned (λ _. nothing s.connection.sent)
        (λ _. look-Tells now s.connection.waiting s)
  step-Tells maxsize (looked now false) s d = absurd (ground arith)

module _ {P : Type 0} (ops : StiPipeline P) (maxsize : ℕ) where
  -- the lines of all steps
  unfoldable pub reports : List Event → Server P → List ReportLine
  reports [] s = []
  reports (e ∷ events) s = report ops maxsize e s ++ reports events (step ops maxsize e s)

  -- For any events of a connection, in any order, in which nothing fails to be sent: the lines of the log,
  -- but for those of disconnects, tell the busy messages and the intents that the client is sent, in
  -- their order, and no others; the line of an intent has its confidence, text and times.
  pub serve-reported :
      (events : List Event) (s : Server P)
      → All IsDelivered events
      → lines_of (serve ops maxsize events s).connection.sent
        ≡ lines_of s.connection.sent ++ answers_of (reports events s)
  unfolding serve reports
  serve-reported [] s d = nothing ops s.connection.sent
  serve-reported (e ∷ events) s d =
      serve-reported events (step ops maxsize e s) d.1
      ∙ ap (λ x. x ++ answers_of (reports events (step ops maxsize e s)))
          (step-Tells ops maxsize e s d.0)
      ∙ append_assoc (lines_of s.connection.sent) (answers_of (report ops maxsize e s))
          (answers_of (reports events (step ops maxsize e s)))
      ∙ ap (◌++◌ (lines_of s.connection.sent))
          (sym (answers_of-append (report ops maxsize e s) (reports events (step ops maxsize e s))))
