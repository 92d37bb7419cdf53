-- ===== src/Lib.antt =====
-- TinyVoice firmware: the box that records a voice message while its button is held, uploads it, and
-- plays the answer. This library models the C++ of firmware/tinyvoice.
--
-- The parts and how they interact:
--   Two tasks and the main loop share globals. A capture task reads the microphone into a ring of
--   samples; the main loop drains the ring through a chunk buffer into one file on the flash; a
--   network worker makes every background call to the server, one job at a time, and leaves its
--   answers in flags that the main loop reads. The button, the answers and Wi-Fi drive a state
--   machine, and the LEDs show its state.
--
-- Which file models what:
--   StateMachine    src/state_machine.cpp, include/state_machine.h: a function per method
--                   (onUploadStart is on_upload_start), `step` for a call of any of them.
--   Button          src/button.cpp: `loop` of a level and a time, its phases, the reports.
--   Ring            src/audio_recorder.cpp, pushRing (push_ring), popRing (pop_ring), initRing: the
--                   circular window; Ring/Refine relates it to the list of the newest samples.
--   Wav             buildWavHeader of src/audio_recorder.cpp, findWavPcmOffset of
--                   src/audio_player.cpp.
--   Platform        the POSIX, LittleFS and FreeRTOS calls, which are no code of the repository, as a
--                   record of operations over a world, with laws in IsPosix. errno is part of the
--                   answer of `write`, and IsPosix says nothing of it, since a write that succeeds
--                   does not clear it; IsSteady is a platform where no write takes a part of its
--                   data and leaves EBADF there. Platform/Script has instances of both.
--   Storage         src/storage_lock.cpp over the platform.
--   Take            openTakeFd, closeTakeFd and writeChunkToDisk of src/audio_recorder.cpp. Take/Torn
--                   and Take/Laid say what is left whatever errno holds, Take/Write what is left on a steady
--                   platform, which the Recorder builds on.
--   Recorder        computeMaxPcmBytes, writeChunkSync and writeSamples of src/audio_recorder.cpp,
--                   the state being the fields of AudioRecorder and the open take.
--   Recorder/Session arm, disarm, start, loop, stop and the capture task of the same file; what the
--                   capture task pushes while start prepares and between two rounds of a drain, and
--                   the read that stop overtakes, are arguments. Its children
--                   follow the samples through a take: Content says where they are, During keeps
--                   that in a push, Popped and Drains in a drain, Rounds in the main loop's calls,
--                   and Start, Ending, Settle and Stop at its two ends; Whole puts them together, and
--                   Begin is begin(), whose recorder can start the first take.
--   MainLoop        src/main.cpp: the globals as the record Device, the worker's task, the requests
--                   and the back-off; MainLoop/Turns has a function per phase of loop(), and
--                   MainLoop/Steps the runs: setup(), then phases in any order, with the worker
--                   moving between any two of them. A phase is one step, so that what the worker
--                   does in the middle of a phase counts as done before or after it.
--   Api/Endpoint    parseEndpoint of src/api_client.cpp, on texts as lists of codes; Api/Endpoint/Reads
--                   says what it makes of a URL as it is written.
--   Api/Tls         waitWritable, tlsWriteAll, writeBodyFromFile and readHttpStatus there.
--   Api/Post        postRecording, its retry and uploadRecordingPcm: what is handed to the TLS client.
--   Api/Multipart   the three Stream classes; Api/Multipart/Loop and its siblings relate them.
--   Api/Download    downloadAudioToFile, to its result, the trimmed flag and the file.
--   Api/Calls       heartbeat, pollNext, markPlayed and the uploads through the HTTP library, to the
--                   requests that they make.
--   Player          applyPcmGain, play and playFile of src/audio_player.cpp; the gain's fixed-point
--                   value is an argument, since it is computed from a float. Player/Tone is playTone,
--                   over a record of float operations, and Player/Chime the two chimes.
--   Wifi            connect, reconnect and loop of src/wifi_manager.cpp.
--   Led             src/led.cpp; the pins are fields of the record.
--   Volume          src/volume.cpp, over a record of float operations; the readings are arguments.
--   Queue           mountLittleFS, ensureStorageDirs, queueUploadFile and processQueue of src/main.cpp,
--                   over a record of the operations of LittleFS, the mutex and the upload.
--   Prelude         the shared names, tests and list lemmas, 32-bit words, and texts with atoi.
--
-- Numbers: size_t and unsigned long are 32 bits on the ESP32; sums and differences that the source
-- lets wrap are written with u32 and sub32, an int that overflows is taken to wrap, times are words of millis(). Samples are bit patterns of
-- int16_t, bytes are numbers.
--
-- Answers: where the code asks a socket, the TLS client, a file or the clock in a loop, the answers
-- of the rounds are a list, an argument, and `none` says that it ran out. The theorems on tlsWriteAll,
-- on the upload, on the download and on Wi-Fi's connect take a clock that moves on as the code's own waits make it,
-- and enough rounds for the time limits of these loops; they exclude `none`.
--
-- Fuel: a loop that makes progress in each round has the length of what is left and one more round as
-- fuel (writeChunkToDisk, writeSamples, a drain of the ring, the chunk search), and `none` says that
-- it ran out; the theorems on the writes, on whole takes, on the tones and on the chunk search, at
-- files below 4 GiB whose sizes do not wrap, exclude that.
--
-- Not modelled: in src/api_client.cpp the mutex, the clients that are kept open, the LED tick and the
-- log; the I2S driver of the player; breatheDuty of the LEDs, which computes in
-- floating point and is a parameter; the creation of tasks and mutexes, the flush worker (no chunk is
-- handed to it any more), and delays. The main loop takes the results of the API client, of the
-- player and of Wi-Fi as arguments. The Go server under backend and the deployment files are other
-- programs.
pub mod Prelude
pub mod StateMachine
pub mod Button
pub mod Ring
pub mod Volume
pub mod Wav
pub mod Platform
pub mod Api
pub mod Led
pub mod MainLoop
pub mod Storage
pub mod Take
pub mod Player
pub mod Wifi
pub mod Queue
pub mod Recorder
