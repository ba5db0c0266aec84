-- ===== src/Schema/Answers.antt =====
-- brain/schema.py and scripts/send_wav_to_brain.py: the server's messages as the client reads them
use nubjuk_brain.Prelude.{◌≡◌, ap, ℕ, String, Bool, true, false, str_eq}
use nubjuk_brain.Errors.{Result, ok, raise, runtime}
use nubjuk_brain.Json.{Fields}
use nubjuk_brain.Server.{Reply}
use nubjuk_brain.Schema.{
  ServerMessage, Libraries, LibrariesLaws, server_message, make_session_ack, make_session_busy,
  make_error, make_intent, type_of,
}
use nubjuk_brain.Client.Dialogue.{is_string, has_type, on_first, is_final}

-- What the client is to do with a reply to its start, and whether a reply to its end is the last.
abbrev pub outcome : Reply → Result (Unit {0})
outcome (Reply.ack id) = ok tt
outcome (Reply.busy id) = raise (runtime "server busy")
outcome (Reply.error id code text) = raise (runtime "server rejected session_start")
outcome (Reply.intent id r) = raise (runtime "expected session_ack")

abbrev pub is_last : Reply → Bool
is_last (Reply.ack id) = false
is_last (Reply.busy id) = false
is_last (Reply.error id code text) = true
is_last (Reply.intent id r) = true

module _ (lib : Libraries) (laws : LibrariesLaws lib) where
  has_type-model_dump :
      (name : String) (m : ServerMessage)
      → has_type name (lib.model_dump m) ≡ str_eq (type_of m) name
  unfolding has_type is_string
  has_type-model_dump name m = ap (is_string name) (laws.dumped_type m)

  abbrev pub dumped : String → ℕ → Reply → Fields
  dumped version ready_at_ms reply = lib.model_dump (server_message version ready_at_ms reply)

  -- The client does with each reply of the handler, in the message made of it, what it is to do.
  pub dialogue_understood :
      (version : String) (ready_at_ms : ℕ) (reply : Reply)
      → (on_first (dumped version ready_at_ms reply) ≡ outcome reply)
        × (is_final (dumped version ready_at_ms reply) ≡ is_last reply)
  unfolding on_first is_final server_message make_session_ack make_session_busy make_error
      make_intent
  dialogue_understood v t (Reply.ack id) = (simp (has_type-model_dump), simp (has_type-model_dump))
  dialogue_understood v t (Reply.busy id) = (simp (has_type-model_dump), simp (has_type-model_dump))
  dialogue_understood v t (Reply.error id code text) =
      (simp (has_type-model_dump), simp (has_type-model_dump))
  dialogue_understood v t (Reply.intent id r) =
      (simp (has_type-model_dump), simp (has_type-model_dump))
