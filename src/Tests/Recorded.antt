-- ===== src/Tests/Recorded.antt =====
-- A recording of three samples.
use nubjuk_brain.Prelude.{◌≡◌, refl, true, some, List, [], ◌∷◌, arith}
use nubjuk_brain.Errors.{ok}
use nubjuk_brain.Pipeline.Pcm.{ℤ, pos, negsuc}
use nubjuk_brain.Client.Dialogue.{Wave}
use nubjuk_brain.Recording.{Arguments, SoundDevice, wrote, main}
use nubjuk_brain.Recording.Accepted.{IsRead, main-IsRead}

abbrev hum : List ℤ
hum = pos 300 ∷ negsuc 0 ∷ negsuc 32767 ∷ []

abbrev microphone : SoundDevice
microphone = record { rec = λ count rate. ok hum }

abbrev arguments : Arguments
arguments = record { seconds_positive = true; sample_rate = 16000; sample_count = 3 }

main-IsRead_example : (w : Wave) × (main arguments (some microphone) ≡ wrote w) × IsRead hum 3 w
main-IsRead_example =
    main-IsRead arguments microphone hum refl refl refl refl (omega arith) (omega arith)
