-- ===== src/Player.antt =====
-- firmware/tinyvoice/src/audio_player.cpp: the volume on samples, and playing a WAV file from memory
-- or from the flash. The gain is a float: whether it counts as full, and what its product with
-- 32768 converts to, are given. `none` says that a loop was still going when its rounds ran out, or
-- that the scan for the samples did not end.
pub mod Samples
pub mod Blocks
pub mod Sound
pub mod Tone
pub mod Chime
mod Examples
use tiny_voice.Prelude.{
  ℕ, ◌+◌, ◌-◌, ◌*◌, ◌/◌, ◌^◌, min, Bool, true, false, not, ◌||◌, Option, none, some, List, [], ◌∷◌,
  ◌++◌, ltb, leb, ◌==◌, if◌then◌else◌, length, take, drop, word, u32, byte_of,
}
use mathlib.Core.Option
use tiny_voice.Wav.{find_wav_pcm_offset}

-- The gain at a time: `gain >= 0.999f`, and the bits of `(int32_t)(gain * 32768.0f + 0.5f)`, where
-- a gain below 0 is 0.
pub record Gain : Type 0 where
  pub is_full : Bool
  pub q15 : ℕ

abbrev pub full_q15 : ℕ
full_q15 = 32768

-- `a < b` of two words that stand for `int32_t`.
abbrev pub signed_ltb : ℕ → ℕ → Bool
signed_ltb a b = ltb (u32 (a + 2 ^ 31)) (u32 (b + 2 ^ 31))

unfoldable pub limit_q15 : ℕ → ℕ
limit_q15 q15 =
    let q = if signed_ltb q15 0 then 0 else q15 in if signed_ltb full_q15 q then full_q15 else q

-- An `int16_t` as an `int32_t`.
abbrev pub sign_extend : ℕ → ℕ
sign_extend n = if leb (2 ^ 15) n then n + (word - 2 ^ 16) else n

-- `w >> 15` of an `int32_t`, which keeps the sign.
abbrev pub shift_right : ℕ → ℕ
shift_right w = w / 2 ^ 15 + (if leb (2 ^ 31) w then word - 2 ^ 17 else 0)

-- Both limits of a sample.
unfoldable pub limited : ℕ → ℕ
limited scaled =
    let low = if signed_ltb 32767 scaled then 32767 else scaled in
    if signed_ltb low (word - 2 ^ 15) then word - 2 ^ 15 else low

-- The word of a sample after the gain.
unfoldable pub scaled_sample : ℕ → ℕ → ℕ
unfolding limited
scaled_sample q15 n = limited (shift_right (u32 (sign_extend n * q15)))

-- The loop over whole samples; an odd byte at the end stays.
unfoldable pub scale_samples : ℕ → List ℕ → List ℕ
scale_samples q15 [] = []
scale_samples q15 (x ∷ []) = x ∷ []
scale_samples q15 (lo ∷ (hi ∷ buf)) =
    let scaled = scaled_sample q15 (lo + hi * 2 ^ 8) in
    byte_of scaled 0 ∷ (byte_of scaled 1 ∷ scale_samples q15 buf)

unfoldable pub apply_pcm_gain : Gain → List ℕ → List ℕ
apply_pcm_gain g buf =
    if ltb (length buf) 2
    then buf
    else (if g.is_full then buf else scale_samples (limit_q15 g.q15) buf)

abbrev pub block_size : ℕ
block_size = 512

-- A round of a loop: the gain after the volume's poll, and how many bytes `i2s_write` takes, or the
-- file gives.
pub record Round : Type 0 where
  pub gain : Gain
  pub count : ℕ

-- The loop of `play`, to the bytes that the speaker takes.
unfoldable pub play_loop : List Round → List ℕ → Option (List ℕ)
play_loop rounds [] = some []
play_loop [] (x ∷ left) = none
play_loop (r ∷ rounds) (x ∷ left) =
    let chunk = take block_size (x ∷ left) in
    let n = min r.count (length chunk) in
    Option.map (λ out. take n (apply_pcm_gain r.gain chunk) ++ out)
      (play_loop rounds (drop n (x ∷ left)))

-- `AudioPlayer::play`, to its result and what the speaker takes.
unfoldable pub play : Bool → List ℕ → List Round → Option (Bool × List ℕ)
play is_ready wav rounds =
    if not is_ready || leb (length wav) 44
    then some (false, [])
    else elim (find_wav_pcm_offset (length wav + 1) wav (length wav)) [
      | none ↦ none
      | some off ↦
          if off == 0
          then some (false, [])
          else Option.map {B = Bool × List ℕ} (λ out. (true, out)) (play_loop rounds (drop off wav))
    ]

-- The loop of `playFile`: it ends early where the file gives nothing.
unfoldable pub file_loop : List Round → List ℕ → List ℕ → Option (List ℕ)
file_loop rounds [] out = some out
file_loop [] (x ∷ left) out = none
file_loop (r ∷ rounds) (x ∷ left) out =
    let n = min r.count (min block_size (length (x ∷ left))) in
    let rest =
      file_loop rounds (drop n (x ∷ left)) (out ++ apply_pcm_gain r.gain (take n (x ∷ left))) in
    if n == 0 then some out else rest

abbrev pub header_size : ℕ
header_size = 256

-- `playFile` once the samples are looked for.
unfoldable pub play_found : List ℕ → Bool → List Round → Option ℕ → Option (Bool × List ℕ)
play_found file seeks rounds none = none
play_found file seeks rounds (some off) =
    if off == 0 || not seeks
    then some (false, [])
    else Option.map {B = Bool × List ℕ} (λ out. (ltb 0 (length out), out))
        (file_loop rounds (drop off file) [])

-- `AudioPlayer::playFile`, with the file (none where it does not open), how many bytes its first
-- read gives, and whether it can seek. What is handed over counts as written.
unfoldable pub play_file : Bool → Option (List ℕ) → ℕ → Bool → List Round → Option (Bool × List ℕ)
play_file false file header_count seeks rounds = some (false, [])
play_file true none header_count seeks rounds = some (false, [])
play_file true (some file) header_count seeks rounds =
    let header_len = min header_count (min header_size (length file)) in
    play_found file seeks rounds
      (find_wav_pcm_offset (header_len + 1) (take header_len file) header_len)
