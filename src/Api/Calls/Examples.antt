-- ===== src/Api/Calls/Examples.antt =====
-- Calls with short answers, and uploads of a short file.
use tiny_voice.Api.Post.{head_text, tail_text}
use tiny_voice.Api.Multipart.{memory_round, file_round, recording_round}
use tiny_voice.Prelude.{
  ℕ, min, ◌≡◌, refl, true, false, Option, none, some, List, [], ◌∷◌, ◌++◌, arith, length, codes,
}
use tiny_voice.Api.Calls.{
  Meets, NextMessage, NextDocument, read_document, poll_next, upload_audio, upload_audio_file,
  upload_multipart_file, upload_multipart_recording,
}
use tiny_voice.Api.Multipart.Chunks.{flat}
use tiny_voice.Api.Calls.Announce.{Sends, whole, uploads_announce}

abbrev answers : Meets
answers = record { is_held = true; begins = true; code = 200 }

abbrev old : NextMessage
old = record { available = true; id = codes "a"; duration_ms = 1; size_bytes = 2 }

-- Where there is no message, the other fields stay as they were.
abbrev no_message : NextDocument
no_message = record {
  available = some false;
  id = some (codes "b");
  duration_ms = none;
  size_bytes = none;
}

nothing_new : (poll_next [] [] (some no_message) answers old).1 ≡ record old { available = false }
unfolding poll_next read_document
nothing_new = refl

abbrev file : List ℕ
file = codes "RIFF....WAVEfmt ................data....abcdef"

abbrev header : List ℕ
header = codes "RIFF....WAVEfmt ................data.......;"

abbrev chunks : List (Option (List ℕ))
chunks = some (1 ∷ 2 ∷ []) ∷ some (3 ∷ []) ∷ []

abbrev twos : ℕ → ℕ → ℕ
twos pos want = min 2 want

uploads_announce_example :
    Sends memory_round false true (whole file) (upload_audio [] [] 9 file true 201)
    × Sends
        (file_round twos)
        false
        true
        (whole file)
        (upload_audio_file [] [] 9 (some file) true 201)
    × Sends
        (file_round twos)
        false
        true
        (whole file)
        (upload_multipart_file [] [] 9 (some file) true 201)
    × Sends
        (recording_round twos (λ pos. true))
        false
        true
        (whole (header ++ flat chunks))
        (upload_multipart_recording [] [] 9 (some header) (length (flat chunks)) chunks true 201)
unfolding head_text tail_text
uploads_announce_example =
    uploads_announce [] [] header file 9 201 true twos chunks (λ pos want h. omega arith)
      (omega arith, (omega arith, tt)) refl (omega arith) (omega arith)
