-- ===== src/Api/Multipart/Examples.antt =====
-- The streams on a short body.
use tiny_voice.Prelude.{ℕ, min, ◌≡◌, refl, true, Option, some, List, [], ◌∷◌, ◌++◌, arith, length}
use tiny_voice.Api.Multipart.{
  read_loop, read_bytes, read_all, memory_round, file_round, open_next_chunk, chunk_round,
  recording_round,
}
use tiny_voice.Api.Multipart.Loop.{parts}
use tiny_voice.Api.Multipart.Chunks.{flat}
use tiny_voice.Api.Multipart.Agree.{memory_stream, file_stream, recording_stream, streams_agree}

-- A file that gives two bytes at most.
abbrev twos : ℕ → ℕ → ℕ
twos pos want = min 2 want

abbrev two_chunks : List (Option (List ℕ))
two_chunks = some (3 ∷ 4 ∷ 5 ∷ []) ∷ some (6 ∷ []) ∷ []

cut :
    read_all
      (recording_round twos (λ pos. true))
      (4 ∷ 9 ∷ [])
      (recording_stream (1 ∷ []) (2 ∷ []) two_chunks 4 (7 ∷ []))
    ≡ (1 ∷ 2 ∷ 3 ∷ 4 ∷ []) ∷ (5 ∷ 6 ∷ 7 ∷ []) ∷ []
unfolding read_all read_bytes read_loop recording_round open_next_chunk chunk_round
cut = refl

streams_agree_example :
    (read_all memory_round
        (4 ∷ 9 ∷ [])
        (memory_stream (1 ∷ []) ((2 ∷ []) ++ flat two_chunks) (7 ∷ []))
      ≡ parts (4 ∷ 9 ∷ []) ((1 ∷ []) ++ (((2 ∷ []) ++ flat two_chunks) ++ (7 ∷ []))))
    × (read_all
          (file_round twos)
          (4 ∷ 9 ∷ [])
          (file_stream (1 ∷ []) ((2 ∷ []) ++ flat two_chunks) (7 ∷ []))
        ≡ parts (4 ∷ 9 ∷ []) ((1 ∷ []) ++ (((2 ∷ []) ++ flat two_chunks) ++ (7 ∷ []))))
    × (read_all
          (recording_round twos (λ pos. true))
          (4 ∷ 9 ∷ [])
          (recording_stream (1 ∷ []) (2 ∷ []) two_chunks (length (flat two_chunks)) (7 ∷ []))
        ≡ parts (4 ∷ 9 ∷ []) ((1 ∷ []) ++ (((2 ∷ []) ++ flat two_chunks) ++ (7 ∷ []))))
streams_agree_example =
    streams_agree twos (4 ∷ 9 ∷ []) (1 ∷ []) (2 ∷ []) (7 ∷ []) two_chunks
      (λ pos want h. omega arith) (omega arith)
