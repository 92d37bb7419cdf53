-- ===== src/Api/Multipart/Agree.antt =====
-- The three streams deliver the same bytes.
use tiny_voice.Prelude.{
  ℕ, ◌+◌, ◌-◌, ◌≡◌, refl, sym, ap, ◌∙◌, true, Option, List, [], ◌++◌, append_assoc, arith, length,
  drop,
}
use tiny_voice.Api.Multipart.{
  read_all, MemoryStream, memory_round, FileStream, file_round, RecordingStream, recording_round,
}
use tiny_voice.Api.Multipart.Loop.{parts, read_all-Delivers}
use tiny_voice.Api.Multipart.Rounds.{
  Anything, memory_view, memory_round-Gives, FileIsValid, file_view, Progress, file_round-Gives,
}
use tiny_voice.Api.Multipart.Chunks.{
  flat, Present, RecordingIsValid, recording_view, recording_round-Gives,
}

-- The streams as their constructors leave them.
abbrev pub memory_stream : List ℕ → List ℕ → List ℕ → MemoryStream
memory_stream head audio tail = record { head = head; audio = audio; tail = tail; pos = 0 }

abbrev pub file_stream : List ℕ → List ℕ → List ℕ → FileStream
file_stream head file tail = record {
  head = head;
  unread = file;
  file_len = length file;
  tail = tail;
  pos = 0;
}

abbrev pub recording_stream :
    List ℕ → List ℕ → List (Option (List ℕ)) → ℕ → List ℕ → RecordingStream
recording_stream head wav_header files pcm_len tail = record {
  head = head;
  wav_header = wav_header;
  chunk_files = files;
  unread = [];
  pcm_len = pcm_len;
  tail = tail;
  pos = 0;
}

-- However a client cuts its reads, the three streams give it the head, the audio and the tail, part
-- by part: from memory, from a file, and from a WAV header and chunk files. The reads of the files
-- may be short but make progress, and the chunks are there, not empty, and have the announced length;
-- the mutex of the flash is had each time that a chunk is opened.
pub streams_agree :
    (gives : ℕ → ℕ → ℕ) (ns head wav_header tail : List ℕ) (files : List (Option (List ℕ)))
    → Progress gives
    → Present files
    → let audio = wav_header ++ flat files in
      (read_all memory_round ns (memory_stream head audio tail)
        ≡ parts ns (head ++ (audio ++ tail)))
      × (read_all (file_round gives) ns (file_stream head audio tail)
          ≡ parts ns (head ++ (audio ++ tail)))
      × (read_all
            (recording_round gives (λ pos. true))
            ns
            (recording_stream head wav_header files (length (flat files)) tail)
          ≡ parts ns (head ++ (audio ++ tail)))
streams_agree gives ns head wav_header tail files progress present = (
  read_all-Delivers memory_round Anything memory_view memory_round-Gives ns
      (memory_stream head (wav_header ++ flat files) tail) _ refl tt,
  read_all-Delivers (file_round gives) FileIsValid file_view (file_round-Gives gives progress) ns
      (file_stream head (wav_header ++ flat files) tail) _
      (ap (λ k. head ++ ((wav_header ++ flat files) ++ drop k tail)) {y = 0} (omega arith))
      (omega arith),
  read_all-Delivers (recording_round gives (λ pos. true)) RecordingIsValid recording_view
      (recording_round-Gives gives progress) ns
      (recording_stream head wav_header files (length (flat files)) tail) _
      (ap
          (λ k.
            head
            ++ (drop k wav_header
                ++ (flat files
                    ++ drop (0 - (length head + length wav_header) - length (flat files)) tail)))
          {y = 0} (omega arith)
        ∙ ap (λ k. head ++ (wav_header ++ (flat files ++ drop k tail))) {y = 0} (omega arith)
        ∙ ap (λ t. head ++ t) (sym (append_assoc wav_header (flat files) tail)))
      (record { counted = omega arith; present = present }),
)
