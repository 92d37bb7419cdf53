-- ===== src/Wav/Tests.antt =====
-- WAV files, and the theorems at them.
use tiny_voice.Prelude.{ℕ, ◌≡◌, refl, ◌⊎◌, none, some, List, [], ◌∷◌, ◌++◌, arith}
use tiny_voice.Wav.{
  riff_tag, wave_tag, build_wav_header, tag_at, chunk_size_at, next_chunk, find_chunk,
  find_wav_pcm_offset,
}
use tiny_voice.Wav.Parse.{IsDataAt, find_wav_pcm_offset_sound, Wraps, find_wav_pcm_offset_total}
use tiny_voice.Wav.RoundTrip.{wav_round_trip}
use tiny_voice.Wav.Diverges.{find_wav_pcm_offset_diverges}

-- A `LIST` chunk of `size` bytes stands first.
abbrev listed : List ℕ → List ℕ → List ℕ
listed size rest =
    (riff_tag ++ (0 ∷ 0 ∷ 0 ∷ 0 ∷ []) ++ wave_tag ++ (b'L' ∷ b'I' ∷ b'S' ∷ b'T' ∷ []) ++ size)
    ++ rest

-- An odd chunk is padded.
abbrev padded : List ℕ
padded = listed (1 ∷ 0 ∷ 0 ∷ 0 ∷ []) (7 ∷ 0 ∷ b'd' ∷ b'a' ∷ b't' ∷ b'a' ∷ 0 ∷ 0 ∷ 0 ∷ 0 ∷ [])

abbrev looping : List ℕ
looping = listed (0xf8 ∷ 0xff ∷ 0xff ∷ 0xff ∷ []) []

padded_found : find_wav_pcm_offset 3 padded 30 ≡ some 30
unfolding find_wav_pcm_offset find_chunk tag_at chunk_size_at next_chunk
padded_found = refl

find_wav_pcm_offset_sound_example : (◌≡◌ {A = ℕ} 30 0) ⊎ IsDataAt padded 30 30
find_wav_pcm_offset_sound_example = find_wav_pcm_offset_sound 3 padded 30 (omega arith) padded_found

find_wav_pcm_offset_total_example :
    ((off : ℕ) × (find_wav_pcm_offset 31 padded 30 ≡ some off)) ⊎ Wraps padded 30
find_wav_pcm_offset_total_example = find_wav_pcm_offset_total padded 30 (omega arith)

wav_round_trip_example :
    let wav = build_wav_header 4 ++ (1 ∷ 2 ∷ 3 ∷ 4 ∷ []) in
    (find_wav_pcm_offset 2 wav 48 ≡ some 44)
    × (chunk_size_at wav 36 ≡ 4)
    × (chunk_size_at wav 0 ≡ 40)
wav_round_trip_example =
    wav_round_trip 0 4 48 (1 ∷ 2 ∷ 3 ∷ 4 ∷ []) (omega arith) (omega arith) (omega arith)

find_wav_pcm_offset_diverges_example : find_wav_pcm_offset 1000 looping 20 ≡ none
unfolding tag_at chunk_size_at
find_wav_pcm_offset_diverges_example =
    find_wav_pcm_offset_diverges 1000 looping 20 (omega arith) (omega arith) refl refl refl refl
