-- ===== src/Wav/Diverges.antt =====
-- A chunk whose stated size is 2^32 - 8 sends the search back to where it stands.
use tiny_voice.Prelude.{
  ℕ, zero, suc, ◌+◌, ◌-◌, ◌≤◌, ◌<◌, ◌≡◌, refl, true, false, none, List, arith, word, u32,
}
use tiny_voice.Wav.{
  riff_tag, wave_tag, data_tag, tag_at, chunk_size_at, next_chunk, find_chunk, find_wav_pcm_offset,
}

find_chunk_stays :
    (fuel : ℕ) (wav : List ℕ) (len pos : ℕ)
    → pos + 8 ≤ len
    → len < word
    → tag_at wav pos data_tag ≡ false
    → chunk_size_at wav pos ≡ word - 8
    → find_chunk fuel wav len pos ≡ none
unfolding find_chunk next_chunk
find_chunk_stays zero wav len pos fits hl other e = refl
find_chunk_stays (suc fuel) wav len pos fits hl other e =
    let same : u32 (u32 (pos + 8) + (word - 8)) ≡ pos = omega arith in
    ground (arith, find_chunk_stays fuel wav len pos fits hl other e, same)

-- The search does not end on a file whose first chunk is not `data` and states a size of
-- 2^32 - 8 bytes: no number of rounds gives an answer.
pub find_wav_pcm_offset_diverges :
    (fuel : ℕ) (wav : List ℕ) (len : ℕ)
    → 20 ≤ len
    → len < word
    → tag_at wav 0 riff_tag ≡ true
    → tag_at wav 8 wave_tag ≡ true
    → tag_at wav 12 data_tag ≡ false
    → chunk_size_at wav 12 ≡ word - 8
    → find_wav_pcm_offset fuel wav len ≡ none
unfolding find_wav_pcm_offset
find_wav_pcm_offset_diverges fuel wav len lo hi riff wave other e =
    ground (arith, find_chunk_stays fuel wav len 12 lo hi other e)
