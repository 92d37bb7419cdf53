-- ===== src/Player/Examples.antt =====
-- Three samples under a gain of a half.
use tiny_voice.Player.Chime.{ring_notes, play_ringtone, IsChime, ringtone-IsChime}
use tiny_voice.Player.Tone.{
  tone_samples, ToneFloats, block, play_tone, joined, IsTone, play_tone-IsTone,
}
use tiny_voice.Prelude.{
  ℕ, ◌-◌, ◌*◌, ◌%◌, ◌≡◌, refl, inl, true, false, Option, none, some, List, [], ◌∷◌, arith, ltb, leb,
  length,
}
use tiny_voice.Player.{
  Gain, limit_q15, scaled_sample, scale_samples, apply_pcm_gain, Round, play, play_file,
}
use tiny_voice.Player.Samples.{heard, apply_pcm_gain_lem}
use tiny_voice.Player.Sound.{Steady, wav_file, players_agree}

abbrev half : Gain
half = record { is_full = false; q15 = 16384 }

-- 1000, -3 and 32767.
abbrev pcm : List ℕ
pcm = 232 ∷ 3 ∷ 253 ∷ 255 ∷ 255 ∷ 127 ∷ []

-- 500, -2 and 16383.
halved : apply_pcm_gain half pcm ≡ 244 ∷ 1 ∷ 254 ∷ 255 ∷ 255 ∷ 63 ∷ []
unfolding apply_pcm_gain limit_q15 scale_samples scaled_sample
halved = refl

apply_pcm_gain_lem_example : apply_pcm_gain half pcm ≡ heard half pcm
apply_pcm_gain_lem_example =
    apply_pcm_gain_lem half pcm (omega arith)
      (omega arith, (omega arith, (omega arith, (omega arith, (omega arith, (omega arith, tt))))))

abbrev rounds : List Round
rounds = record { gain = half; count = 4 } ∷ record { gain = half; count = 900 } ∷ []

rounds-Steady : Steady half rounds pcm
rounds-Steady = (refl, omega arith, inl tt, (refl, omega arith, inl tt, tt))

abbrev all_at_once : List Round
all_at_once = record { gain = half; count = 900 } ∷ []

players_agree_example :
    (play_file true (some (wav_file pcm)) 300 true rounds ≡ some (true, apply_pcm_gain half pcm))
    × (play true (wav_file pcm) all_at_once ≡ some (true, apply_pcm_gain half pcm))
players_agree_example =
    players_agree half pcm 300 rounds all_at_once (omega arith) (omega arith) (omega arith)
      rounds-Steady (refl, omega arith, inl tt, tt)

-- Whole numbers in place of floats: a wave that counts its index.
abbrev counting : ToneFloats
counting = record {
  F = ℕ;
  lt = ltb;
  le = leb;
  of_int = λ n. n;
  mul = λ a b. a * b;
  sub = λ a b. a - b;
  div = λ a b. a;
  sinf = λ a. a;
  to_int16 = λ a. a % 65536;
  of_hundredths = λ n. n;
  two_pi = 6;
  attack_part = 8;
  release_from = 80;
  release_part = 20;
  most = 32767;
  least = 0;
}

-- A millisecond is 16 samples, in one block.
abbrev lengths : Option (List (List ℕ)) → List ℕ
lengths none = []
lengths (some []) = []
lengths (some (b ∷ blocks)) = length b ∷ (length (joined counting blocks) ∷ [])

one_millisecond : lengths (play_tone counting true 5 1 (λ number. 3)) ≡ 16 ∷ (0 ∷ [])
unfolding play_tone tone_samples block
one_millisecond = refl

play_tone-IsTone_example :
    IsTone counting 440 320 (λ number. number) 0 (play_tone counting true 440 20 (λ number. number))
play_tone-IsTone_example =
    play_tone-IsTone counting 440 20 (λ number. number) refl (omega arith) (omega arith)

ring_plays :
    IsChime counting
      (ring_notes counting)
      (λ note number. number)
      0
      (play_ringtone counting true (λ note number. number))
ring_plays = ringtone-IsChime counting (λ note number. number) (refl, (refl, (refl, (refl, tt))))
