-- ===== src/Lib.antt =====
-- The verification library of nubjuk-brain, a server that turns speech into intents. A client
-- (scripts/send_wav_to_brain.py) sends a session of numbered audio frames over a WebSocket. The
-- server (brain/ws_server.py) hands them to one session manager (brain/session.py), which admits
-- one session at a time, checks the frames, and drives a pipeline (brain/pipeline/base.py). A
-- pipeline answers with a fixed intent (mock.py), or transcribes the audio and matches the
-- transcript against a catalog of intents (moonshine_tiny_ko.py, brain/intent/catalog.py).
--
-- Files. A Python method that changes an object is a function from the old object to its result
-- and the new object; an exception is a `raise` of `Result` (Errors).
-- * Pipeline is base.py: the record StiPipeline holds the four operations of the abstract class,
--   and the manager takes it as a parameter. Pipeline/Mock is mock.py. Pipeline/Pcm and
--   Pipeline/Moonshine are moonshine_tiny_ko.py, its samples and its session operations; Audio and
--   Recognition below it prove what is said of the buffer and of the result, Log has the lines
--   that finish_session logs, and Transcriber is MoonshineTinyKoTranscriber over the library,
--   which is a parameter.
-- * Session is session.py: State has the fields and the log, Frames is feed_audio, and Methods has
--   the other methods under their names. An `await` of the pipeline in `finish` is a cut:
--   `finish_start` runs up to it and `finish_resume` from it on. Schedule has all calls on a
--   manager, in any order, `resume` being the pipeline's answer to a waiting finish, which a cancel
--   leaves waiting, and `interrupt` the watcher's end of one. The await of `cancel_session` in
--   `_cleanup` is no cut: it is taken to be over at once, and not to raise. Diagram,
--   Quiet, Settled and Soundness prove the invariant, Outcomes and Reception what single calls do,
--   Stuck what follows a RuntimeError, and Late what follows a cancel of a waiting finish.
-- * Client is iter_audio_frames and AudioFrame of the client script, and Client/Dialogue its
--   messages and its branches on the answers; Client/Script is the whole of send_wav and main, on
--   what the socket receives and how many messages it takes, and Client/Delivery runs its frames through the session manager.
-- * Schema is schema.py: the messages, how they are made and parsed. `server_message` and
--   `received_text` tie them to the replies and the events of Server, and Schema/Answers to the
--   client. Schema/Declared has the fields that the client's messages declare, and Schema/Sent
--   parses what the client sends.
-- * Config is config.py: the two configurations, their checks and the environment.
-- * Server is ws_server.py. State has a connection and its messages, Handler a round of the
--   handler's loop (`receive`, and `receive_unsent` where a send raises WebSocketDisconnect),
--   Worker a round of the audio worker, Ending the end of a session whose queue is awaited, and
--   Steps puts them in any order. Server/Queue is about the queue; Server/Endings, Server/Leaks
--   and Server/Draining about the session when the handler returns. Server/Many has several
--   connections that share one manager. Server/Timing says in which orders messages are received
--   and the worker takes its rounds: any, as long as the queue has room for a frame when it is
--   received. In such an order Server/Sending and Server/Exchange run a whole session of the client,
--   and Server/Spoken does so with the moonshine pipeline, from the PCM to the intent. In these steps
--   a `finish` is one step, which nothing interrupts; Server/Interrupted has the watcher that cancels
--   a waiting finish, apart from them. Server/Log has the log lines
--   of audio frames, and Server/Report those of answers and disconnects. The maximum size of the
--   queue is a parameter.
-- * Setup is create_app with the constructors of the pipelines: the environment, the files and the
--   libraries of a Machine make an app, and Setup/Mocked and Setup/Recognised follow its first
--   client to the answer. Recording is record_voice.py.
-- * Pipeline/Qwen is qwen_slm.py: Prompt is build_intent_prompt, Process is the resolver with the
--   process of llama-cli, Paths its construction, Output is extract_slm_completion, and
--   Choice is parse_intent_from_slm_output. What llama-cli does with a prompt is a parameter.
-- * Intent is catalog.py: Recipe is the data and its validator, Catalog the indexes and the stages
--   of match, Loading is load_intent_catalog, Pronunciation is pronunciation_candidates, Normalize
--   is normalize_text, Hangul the syllables and their tables, Phonetic is phonetic_similarity,
--   Distance is _levenshtein_distance, and Sorting the stable sort of lists.
-- * Prelude has shared operations and lemmas on lists, texts, orders and dictionaries, and Tests
--   the inputs on which the theorems are run.
--
-- Numbers. Python's integers are natural numbers where they cannot be negative. A sequence number
-- keeps its `& 0xFFFF` as `% 65536`. A float is counted in units of 2 ^ -1074; division,
-- subtraction and rounding of floats are the parameter Floats. A text is the list of its code
-- points; Unicode's tables are the parameter Unicode. Times are milliseconds that a call is given.
--
-- Fuel. iter_audio_frames has the length of the PCM, which is enough because a round moves the
-- offset by at least one byte. The search for the places of an intent has the length of the output
-- and one more, which is enough because a round moves the start by the length of an intent that is
-- not empty; with an empty one the loop of the source does not end.
--
-- Not modelled: what pydantic does with dicts that do not conform, and its field checks of the
-- server's messages and of catalogs (they are taken as validated); a send that raises a
-- RuntimeError; FastAPI, argparse, sockets, sounddevice and the file format of wave; the lines
-- that are logged at the start of the app and of a connection, and the printed lines of the
-- scripts; and the end of the app, where the transcriber is closed.
mod Prelude
pub mod Errors
pub mod Json
pub mod Pipeline
pub mod Session
pub mod Client
pub mod Recording
pub mod Server
pub mod Schema
pub mod Setup
pub mod Config
pub mod Intent
pub mod Tests
