-- ===== src/Wav.antt =====
-- The WAV container: `buildWavHeader` of firmware/tinyvoice/src/audio_recorder.cpp writes it, and
-- `findWavPcmOffset` of firmware/tinyvoice/src/audio_player.cpp looks for the samples in it.
-- Bytes are numbers below 256; sizes and positions are 32-bit words that wrap.
pub mod Parse
pub mod RoundTrip
pub mod Diverges
mod Tests
use tiny_voice.Prelude.{
  ℕ, zero, suc, ◌+◌, ◌*◌, ◌%◌, ◌^◌, Bool, not, ◌&&◌, ◌||◌, Option, none, some, List, [], ◌∷◌, ◌++◌,
  ltb, leb, ◌==◌, if◌then◌else◌, get_or, u32, byte_of,
}

abbrev pub sample_rate : ℕ
sample_rate = 16000

abbrev pub wav_header_size : ℕ
wav_header_size = 44

-- The four bytes of a word, lowest first.
abbrev pub little_endian : ℕ → List ℕ
little_endian w = byte_of w 0 ∷ byte_of w 1 ∷ byte_of w 2 ∷ byte_of w 3 ∷ []

abbrev pub riff_tag : List ℕ
riff_tag = b'R' ∷ b'I' ∷ b'F' ∷ b'F' ∷ []

abbrev pub wave_tag : List ℕ
wave_tag = b'W' ∷ b'A' ∷ b'V' ∷ b'E' ∷ []

abbrev pub fmt_tag : List ℕ
fmt_tag = b'f' ∷ b'm' ∷ b't' ∷ b' ' ∷ []

abbrev pub data_tag : List ℕ
data_tag = b'd' ∷ b'a' ∷ b't' ∷ b'a' ∷ []

-- The 44 bytes in the order of their addresses; those that are not assigned are 0.
unfoldable pub build_wav_header : ℕ → List ℕ
build_wav_header data_size =
    let chunk_size = u32 (36 + data_size) in
    let byte_rate = sample_rate * 2 in
    riff_tag
    ++ (little_endian chunk_size
        ++ (wave_tag
            ++ (fmt_tag
                ++ ((16 ∷ 0 ∷ 0 ∷ 0 ∷ 1 ∷ 0 ∷ 1 ∷ 0 ∷ [])
                    ++ (little_endian sample_rate
                        ++ (little_endian byte_rate
                            ++ ((2 ∷ 0 ∷ 16 ∷ 0 ∷ [])
                                ++ (data_tag ++ little_endian data_size))))))))

-- The byte at an index of the array.
abbrev pub at : List ℕ → ℕ → ℕ
at xs i = get_or xs i 0

-- `memcmp(wavData + pos, tag, 4) == 0`
unfoldable pub tag_at : List ℕ → ℕ → List ℕ → Bool
tag_at wav pos tag =
    at wav pos == at tag 0
    && at wav (pos + 1) == at tag 1
    && at wav (pos + 2) == at tag 2
    && at wav (pos + 3) == at tag 3

unfoldable pub chunk_size_at : List ℕ → ℕ → ℕ
chunk_size_at wav pos =
    at wav (pos + 4)
    + at wav (pos + 5) * 2 ^ 8
    + at wav (pos + 6) * 2 ^ 16
    + at wav (pos + 7) * 2 ^ 24

-- Where the next chunk begins, after one of `size` bytes at `body`: chunks are padded to even.
unfoldable pub next_chunk : ℕ → ℕ → ℕ
next_chunk body size = let pos = u32 (body + size) in if size % 2 == 1 then u32 (pos + 1) else pos

-- The `while` loop; `none` says that the fuel ran out.
unfoldable pub find_chunk : ℕ → List ℕ → ℕ → ℕ → Option ℕ
find_chunk zero wav len pos = none
find_chunk (suc fuel) wav len pos =
    let body = u32 (pos + 8) in
    let size = chunk_size_at wav pos in
    let rest = find_chunk fuel wav len (next_chunk body size) in
    if leb (u32 (pos + 8)) len
    then (if tag_at wav pos data_tag
        then some body
        else (if ltb len (u32 (body + size)) then some 0 else rest))
    else some 0

-- 0 says that there is no `data` chunk.
unfoldable pub find_wav_pcm_offset : ℕ → List ℕ → ℕ → Option ℕ
find_wav_pcm_offset fuel wav len =
    if ltb len 12 || not (tag_at wav 0 riff_tag) || not (tag_at wav 8 wave_tag)
    then some 0
    else find_chunk fuel wav len 12
