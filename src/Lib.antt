-- ===== src/Lib.antt =====
-- A verification library for voxedge, the engine of a voice assistant at the edge: streaming speech
-- recognition (ASR), a language model, and speech synthesis (TTS) around a session.
--
-- Parts and files:
-- - Base: shared tests on numbers, list functions over the native numbers, and library names.
-- - Engine/AsrWorker: an ASR backend as the engine sees it, from the calls that
--   voxedge/engine/asr_session_manager.py makes; a parameter of what follows. Its methods act on a
--   world and return or raise whatever they like.
-- - Engine/AsrRecovery and Engine/AsrManager: voxedge/engine/asr_session_manager.py. The record
--   Manager holds the fields of ASRSessionManager; a method with the same name is a function on it
--   (inner_cancel is _inner_cancel, mark_error is _async_mark_error). Every method runs under the
--   manager's lock, so each is one step; what other tasks do to the abort epoch before they have the
--   lock is a number that finalize_with_status takes. The ASR loop bounds cancel by a time limit, so a
--   cancel comes with its Interruption. Call and step are the calls in any order.
-- - Engine/Capability: voxedge/engine/capability_resolver.py and concurrency_capability.py.
-- - Engine/Coordinator: voxedge/engine/coordinator.py. `acquire` is `enter` up to its yield and
--   `leave` after it; Step and Reach are tasks that enter and leave in any order. The mode comes from
--   Engine/Capability.
-- - Text/Equality and Text/Strip: Python's `==` and stripping of texts, which are lists of code points.
-- - Text/Degenerate: collapse_segment_repeats of voxedge/text/degenerate.py; Kept holds the variables
--   of its loop. Text/Degenerate/Runs has a definition by runs, without indices, for comparison.
-- - Text/Period, Text/Tail and Text/Interior: the searches _find_period, _find_tail_period and
--   _find_interior_run of voxedge/text/degenerate.py and their bars, on a list of units.
-- - Text/Collapse: collapse_repetition of the same file, by these searches. The record Segment holds the
--   units with their offsets; collapse_whole, collapse_tail and collapse_run are its three cuts.
-- - Text/Join: voxedge/text/join.py.
-- - Text/Numerals: the characters of Chinese numerals, and a listener that reads them, which the numerals
--   of the code are compared with.
-- - Engine/TtsBuffer: voxedge/engine/tts_buffer.py. The record Buffer holds the fields of
--   LowLatencyTTSBuffer; _next_chunk is next_chunk, whose tries are hard_chunk, soft_chunk and
--   length_chunk, in this order.
-- - Engine/SentenceBuffer: _SentenceBuffer of voxedge/engine/conversation.py; next_end is the search for
--   its regular expression.
-- - Engine/SessionState: voxedge/engine/session_state.py.
-- - Engine/AsrLoop: _ASRLoop.run of voxedge/engine/asr_loop.py. iteration is the body of its loop, and
--   the record Host holds what other tasks do to the session's state at each await, the manager's
--   answers and the clock.
-- - Engine/AudioDispatcher: _AudioDispatcher.run of voxedge/engine/audio_dispatcher.py and
--   _ASRLoop.open_turn; on_frame is the body of the loop, and fed the samples given to accept_audio.
-- - Engine/ToolRegistry: the table of tools of voxedge/engine/tool_registry.py; Change is a call of
--   register or unregister.
-- - Engine/RemoteTools: the remote calls of voxedge/engine/tool_registry.py. begin is _dispatch_remote up
--   to its await and finish after it; Step and Reach are calls, replies and barge-ins in any order.
--   Engine/RemoteTools/Ledger is what they promise, on calls without futures and pending table.
-- - Engine/ClientEvents: _ClientEvents.run of voxedge/engine/client_events.py, and of the Session of
--   voxedge/engine/conversation.py what it calls: _bargein_tts, _on_asr_final and
--   _handle_response_create. A handler is one step of step.
-- - Engine/TurnDriver: run_turn of voxedge/engine/turn_driver.py. The record Host holds its parameters
--   and Turn what it changes: the messages of the message sink, what it gave to the text sink and the
--   callbacks, and how often it asked should_abort. stream_loop is the loop over one stream's events,
--   dispatch_all the loop over the calls, and rounds the loop over the rounds.
--   A tool's dispatch, and the print of its result, may raise; the callbacks and the sinks do not.
-- - Engine/SpokenNumbers: the numerals of voxedge/engine/tts_sequencer.py, whose functions keep their
--   names without the leading underscore.
-- - Engine/TtsSequencer: _TTSChannel of voxedge/engine/tts_sequencer.py. The record Channel holds its
--   fields and those of the session's state that it uses; resume is its loop from one await to the next,
--   and Action what other tasks do between. Engine/TtsSequencer/Transcript says what a client may hear.
--   A sentence leaves the queue one step before its task is made, as it does before Python 3.12.
-- - Artifacts/Manifest: voxedge/artifacts/manifest.py, from JSON values (Artifacts/Json) to the records
--   ArtifactFile, ArtifactSpec and ArtifactManifest; a leading underscore of a function is dropped.
-- - Artifacts/Download: voxedge/artifacts/download.py over a file system that is a function from paths
--   to contents; resolve_one is _resolve_one, and resolve_all the loop over an artifact's files.
-- - Audio/Segment: voxedge/audio/segment.py, both splitters.
-- - Backends/WorkerIo: WorkerIO of voxedge/backends/jetson/worker_io.py. A request goes on by advance from
--   one access of shared state to the next, and Action is what its caller, the reader thread and close
--   do, in any order; run takes any list of them.
-- - Backends/CancelReceipts: cancel_and_wait of the same class, with _offer_receipt; a call goes on by
--   step, and Action is what the calls, the reader thread and close do.
-- Proofs stand in child modules named for what they prove, and concrete runs in Tests modules.
--
-- Bounds and fuel: the rebuild makes 3 attempts, as the source does. The greedy loop of the splitter
-- takes one more than the number of samples as fuel, which suffices since every cut moves forward by
-- at least the least segment, taken to be at least 1. The loop of the TTS buffer takes one more than
-- the length of the buffer, which suffices since a chunk shortens it; so do the sentence buffer's
-- loops. The counts of copies take the length of the sequence, since a copy is not empty, and the loop
-- over starts in Text/Interior takes two more than it, since the start moves forward. The turn driver
-- makes max_rounds rounds, as the source does. The ASR loop runs until the session ends, so run takes
-- a number of iterations, and what is shown of it holds for every number. A number has fewer decimal
-- digits than its successor counts.
--
-- Not modelled: the inference backends under voxedge/backends but for that class, of which
-- send_request and the telemetry are left out, and the capabilities over numpy (voxedge/capabilities),
-- since they drive runtimes outside the repository; the resampling of voxedge/audio/rate.py; the task
-- wiring of voxedge/engine/conversation.py; logging; time, except as the outcomes of bounded waits;
-- the cancellation of a session's tasks at its end. Nor are the normalization of Markdown, domains and
-- numbers in a text by regular expressions, the tools' decorator and local dispatch, the language
-- model's turn around the turn driver, and the other text modules.
pub mod Base
pub mod Engine
pub mod Audio
pub mod Text
pub mod Artifacts
pub mod Backends
