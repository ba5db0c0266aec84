-- ===== src/Tests/Manager.antt =====
-- The session manager and the client, on a session with the mock pipeline.
use nubjuk_brain.Prelude.{
  ℕ, ◌+◌, ◌*◌, ◌<◌, ◌≡◌, refl, true, false, List, [], ◌∷◌, ◌++◌, replicate, length, arith,
}
use nubjuk_brain.Errors.{ok}
use nubjuk_brain.Pipeline.{Bytes}
use nubjuk_brain.Pipeline.Mock
use nubjuk_brain.Pipeline.Mock.{MockPipeline, mock}
use nubjuk_brain.Session
use nubjuk_brain.Session.{SessionManager, report_frames}
use nubjuk_brain.Session.Schedule.{Call, System, run, perform, IsOrderly}
use nubjuk_brain.Session.Settled.{Starts}
use nubjuk_brain.Session.Soundness.{IsSound, start, start-IsSound, run-IsSound}
use nubjuk_brain.Session.Outcomes.{
  AfterCancel, cancel-AfterCancel, AfterStart, try_start-AfterStart, AfterFinish,
  finish-AfterFinish,
}
use nubjuk_brain.Session.Stuck.{finish_runtime_blocks}
use nubjuk_brain.Session.Reception.{received, feed_audio-received}
use nubjuk_brain.Client.{AudioFrame, iter_audio_frames}
use nubjuk_brain.Client.Frames.{IsRun, payloads, iter_audio_frames-IsRun}
use nubjuk_brain.Client.Delivery.{deliver, client_unwarned}
use nubjuk_brain.Tests.Fixtures.{answering, demo_opts, demo_mock, failing, open_session}

mock-Starts : Starts mock
unfolding mock Mock.start_session
mock-Starts opts p = (_, refl)

abbrev calls : List (Call MockPipeline)
calls =
    Call.try_start 0 demo_opts
    ∷ Call.cancel "gone"
    ∷ Call.try_start 3 demo_opts
    ∷ Call.feed_audio (0 ∷ 0 ∷ 1 ∷ 0 ∷ 7 ∷ [])
    ∷ Call.finish 1
    ∷ Call.interrupt "disconnect"
    ∷ Call.try_start 5 demo_opts
    ∷ []

-- the one cancel among them is called when no `finish` waits
calls-IsOrderly : IsOrderly mock calls (start 0 demo_mock)
unfolding perform
calls-IsOrderly = (tt, (refl, (tt, (tt, (tt, (tt, (tt, tt)))))))

run-IsSound_example : IsSound (run mock calls (start 0 demo_mock))
run-IsSound_example =
    run-IsSound mock mock-Starts calls (start 0 demo_mock) calls-IsOrderly
      (start-IsSound 0 demo_mock)

abbrev begun : SessionManager MockPipeline
begun = (run mock calls (start 0 demo_mock)).manager

cancel-AfterCancel_example :
    AfterCancel mock begun.locked begun (Session.cancel mock "disconnect" begun)
cancel-AfterCancel_example =
    cancel-AfterCancel mock "disconnect" begun
      (run-IsSound mock mock-Starts calls (start 0 demo_mock) calls-IsOrderly
        (start-IsSound 0 demo_mock)).settled

try_start-AfterStart_example :
    AfterStart mock 3 demo_opts true
      (open_session demo_mock)
      (Session.try_start mock 3 demo_opts (open_session demo_mock))
try_start-AfterStart_example =
    try_start-AfterStart mock 3 demo_opts (open_session demo_mock)
      (unfold mock Mock.start_session in refl)

finish-AfterFinish_example :
    ((Session.finish failing 0 (open_session tt)).0 ≡ (failing.finish_session tt).0)
    × AfterFinish failing
        (failing.finish_session tt).0
        tt
        (Session.finish failing 0 (open_session tt)).1
finish-AfterFinish_example = finish-AfterFinish failing 0 (open_session tt) refl refl

finish_runtime_blocks_example :
    (Session.try_start failing 9 demo_opts
      (run failing (Call.feed_audio [] ∷ []) (record {
        manager = (Session.finish failing 0 (open_session tt)).1;
        pending = 0;
      })).manager).0
    ≡ ok false
finish_runtime_blocks_example =
    finish_runtime_blocks failing 0 (open_session tt) refl refl refl (Call.feed_audio [] ∷ [])
      (tt, tt) 9 demo_opts

feed_audio-received_example :
    ((Session.feed_audio failing (1 ∷ 2 ∷ 0 ∷ 3 ∷ 7 ∷ 8 ∷ []) (open_session tt)).1.stats
      ≡ received (1 * 256 + 2) 0 3 (7 ∷ 8 ∷ []) (open_session tt).stats)
    × ((Session.feed_audio failing (1 ∷ 2 ∷ 0 ∷ 3 ∷ 7 ∷ 8 ∷ []) (open_session tt)).0 ≡ ok tt)
    × ((Session.feed_audio failing (1 ∷ 2 ∷ 0 ∷ 3 ∷ 7 ∷ 8 ∷ []) (open_session tt)).1.pipeline ≡ tt)
feed_audio-received_example =
    feed_audio-received failing 1 2 0 3 (7 ∷ 8 ∷ []) (open_session tt) refl

abbrev pcm : Bytes
pcm = 1 ∷ 2 ∷ 3 ∷ []

iter_audio_frames-IsRun_example :
    (frames : List AudioFrame) × (iter_audio_frames pcm 1 ≡ ok frames)
    × IsRun 2 0 frames
    × ((z : ℕ) × (z < 2) × (payloads frames ≡ pcm ++ replicate z 0))
iter_audio_frames-IsRun_example = iter_audio_frames-IsRun pcm 1 (omega arith)

client_unwarned_example :
    (frames : List AudioFrame) × (iter_audio_frames pcm 640 ≡ ok frames)
    × ((report_frames
          (length frames)
          (deliver failing frames (open_session tt))).stats.frame_warnings
        ≡ [])
    × ((deliver failing frames (open_session tt)).stats.frames_observed ≡ length frames)
    × ((deliver failing frames (open_session tt)).stats.audio_bytes ≡ 0 + 1280 * length frames)
client_unwarned_example = client_unwarned failing pcm (open_session tt) refl refl refl

-- a session whose finish waits
abbrev awaiting : System (Unit {0})
awaiting = run answering (Call.try_start 0 demo_opts ∷ Call.finish 0 ∷ []) (start 0 tt)
