-- ===== src/Wav/RoundTrip.antt =====
-- What the recorder writes, the player finds.
use tiny_voice.Prelude.{
  ℕ, suc, ◌+◌, ◌-◌, ◌*◌, ◌^◌, ◌≤◌, ◌<◌, ◌≡◌, refl, some, List, ◌++◌, arith, length, word, byte_of,
}
use tiny_voice.Wav.{
  wav_header_size, build_wav_header, tag_at, chunk_size_at, next_chunk, find_chunk,
  find_wav_pcm_offset,
}

pub length-build_wav_header : (n : ℕ) → length (build_wav_header n) ≡ wav_header_size
unfolding build_wav_header
length-build_wav_header n = refl

-- The four bytes of a word give it back.
little_endian_lem :
    (n : ℕ)
    → n < word
    → byte_of n 0 + byte_of n 1 * 2 ^ 8 + byte_of n 2 * 2 ^ 16 + byte_of n 3 * 2 ^ 24 ≡ n
little_endian_lem n h = omega arith

-- The header that the recorder builds for `n` bytes of samples, followed by anything, is read by the
-- player: its samples begin at byte 44, and the size fields hold `n` and `n + 36`. The player may see any part of the file of at least 44 bytes.
pub wav_round_trip :
    (fuel n len : ℕ) (pcm : List ℕ)
    → n + 36 < word
    → wav_header_size ≤ len
    → len < word - 16
    → let wav = build_wav_header n ++ pcm in
      (find_wav_pcm_offset (suc (suc fuel)) wav len ≡ some wav_header_size)
      × (chunk_size_at wav 36 ≡ n)
      × (chunk_size_at wav 0 ≡ n + 36)
unfolding build_wav_header find_wav_pcm_offset find_chunk tag_at chunk_size_at next_chunk
wav_round_trip fuel n len pcm hn lo hi = (ground arith, omega arith, omega arith)
