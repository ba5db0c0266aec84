-- ===== src/Schema/Sent.antt =====
-- brain/schema.py and scripts/send_wav_to_brain.py: the client's messages as the server reads them
use nubjuk_brain.Prelude.{
  ℕ, ◌≡◌, refl, ◌∙◌, ap, String, true, some, List, [], ◌∷◌, ◌++◌, length, leb, arith,
}
use nubjuk_brain.Server
use nubjuk_brain.Server.{Raw}
use nubjuk_brain.Server.Sending.{frame_events, session_events}
use nubjuk_brain.Client.{AudioFrame}
use nubjuk_brain.Client.Dialogue.{WavAudio, utterance_limit, start_message, end_message}
use nubjuk_brain.Schema.{
  Libraries, validated, validate_loaded, parse_client_message, received_text, client_message,
  get_field, string_or_empty,
}
use nubjuk_brain.Schema.Declared.{
  is_number, is_literal, is_text, is_number_from, conforms_to, are_given, is_declared, are_declared,
  is_model, session_start_message, session_end_message, start_of, end_of, ValidatorLaws,
}

utterance_limit_positive : (given : ℕ) (wav : WavAudio) → leb 1 (utterance_limit given wav) ≡ true
unfolding utterance_limit
utterance_limit_positive given wav = ground arith

start_conforms :
    (device_id id : String) (limit : ℕ)
    → leb 1 limit ≡ true
    → is_model session_start_message (start_message device_id id limit) ≡ true
unfolding is_model are_given are_declared is_declared conforms_to is_number is_literal is_text
    is_number_from get_field start_message
start_conforms device_id id limit h = rw h refl

end_conforms :
    (id : String) (frames : List AudioFrame)
    → is_model session_end_message (end_message id frames) ≡ true
unfolding is_model are_given are_declared is_declared conforms_to is_number is_literal is_text
    is_number_from get_field end_message
end_conforms id frames = ground arith

-- what the server receives where it parses the two texts that the client sends
unfoldable pub wire_events : Libraries → String → List AudioFrame → String → List Raw
wire_events lib start_text frames end_text =
    received_text (parse_client_message lib start_text)
    ∷ (frame_events frames ++ received_text (parse_client_message lib end_text) ∷ [])

module _ (lib : Libraries) (laws : ValidatorLaws lib) where
  received_start :
      (raw device_id id : String) (limit : ℕ)
      → lib.loads raw ≡ some (start_message device_id id limit)
      → leb 1 limit ≡ true
      → received_text (parse_client_message lib raw)
        ≡ Raw.message (
            Server.ClientMessage.session_start
              (record { correlation_id = id; max_utterance_ms = limit; language = "ko" }))
  unfolding parse_client_message validate_loaded validated received_text client_message
      start_message start_of get_field string_or_empty
  received_start raw device_id id limit e h =
      ap (λ o. received_text (validate_loaded lib o)) e
      ∙ ap (λ v. received_text (validated (start_message device_id id limit) v))
          (laws.start_valid _ refl (start_conforms device_id id limit h))

  received_end :
      (raw id : String) (frames : List AudioFrame)
      → lib.loads raw ≡ some (end_message id frames)
      → received_text (parse_client_message lib raw)
        ≡ Raw.message (Server.ClientMessage.session_end id (length frames))
  unfolding parse_client_message validate_loaded validated received_text client_message end_message
      end_of get_field string_or_empty
  received_end raw id frames e =
      ap (λ o. received_text (validate_loaded lib o)) e
      ∙ ap (λ v. received_text (validated (end_message id frames) v))
          (laws.end_valid _ refl (end_conforms id frames))

  -- If `json.loads` reads the two texts that the client sends as its two messages, and the validator
  -- reads dicts that conform to their models, then the server's handler takes the texts for a start and
  -- an end of the session with the client's correlation id, its limit, which is never 0, the language
  -- "ko", and the number of its frames.
  pub wire_events-session_events :
      (start_text end_text device_id id : String) (given : ℕ) (wav : WavAudio)
      (frames : List AudioFrame)
      → lib.loads start_text ≡ some (start_message device_id id (utterance_limit given wav))
      → lib.loads end_text ≡ some (end_message id frames)
      → wire_events lib start_text frames end_text
        ≡ session_events
            (record {
              correlation_id = id;
              max_utterance_ms = utterance_limit given wav;
              language = "ko";
            })
            frames
  unfolding wire_events session_events
  wire_events-session_events start_text end_text device_id id given wav frames s e =
      rw
        (
          received_start start_text device_id id (utterance_limit given wav) s
              (utterance_limit_positive given wav),
          received_end end_text id frames e,
        )
        refl
