-- ===== src/Player/Sound.antt =====
-- What the speaker is given of a WAV file, however its samples are cut into rounds.
use tiny_voice.Prelude.{
  ℕ, suc, ◌+◌, ◌-◌, ◌≤◌, ◌<◌, min, ◌≡◌, refl, sym, ap, ap₂, ◌∙◌, ◌⊎◌, Bool, true, false, Option,
  some, List, [], ◌∷◌, ◌++◌, append-nil, append_assoc, arith, ltb, leb, ◌==◌, lt→ltb, if-cases,
  length, take, drop, length-append, length-take, take-append_right, word,
}
use tiny_voice.Wav.{build_wav_header, find_wav_pcm_offset}
use tiny_voice.Wav.RoundTrip.{length-build_wav_header, wav_round_trip}
use tiny_voice.Player.{
  Gain, apply_pcm_gain, block_size, Round, play_loop, play, file_loop, header_size, play_found,
  play_file,
}
use tiny_voice.Player.Blocks.{Even, apply-split, take-apply, length-apply, apply-nil}
use mathlib.Core.Option

-- How much of the samples that are left a round takes.
abbrev pub given : Round → List ℕ → ℕ
given r left = min r.count (min block_size (length left))

-- The gain stays the same, and each round takes some whole samples, or all that is left.
abbrev pub Steady : Gain → List Round → List ℕ → Type 0
Steady g rounds [] = Unit
Steady g [] (x ∷ left) = ⊥
Steady g (r ∷ rounds) (x ∷ left) =
    (r.gain ≡ g)
    × (0 < given r (x ∷ left))
    × (Even (given r (x ∷ left)) ⊎ (given r (x ∷ left) ≡ length (x ∷ left)))
    × Steady g rounds (drop (given r (x ∷ left)) (x ∷ left))

module _ (g : Gain) where
  file_loop_lem :
      (rounds : List Round) (left out : List ℕ)
      → Steady g rounds left
      → file_loop rounds left out ≡ some (out ++ apply_pcm_gain g left)
  unfolding file_loop
  file_loop_lem rounds [] out steady =
      ap some (sym (ap (λ xs. out ++ xs) (apply-nil g) ∙ append-nil out))
  file_loop_lem [] (x ∷ left) out steady = absurd steady
  file_loop_lem (r ∷ rounds) (x ∷ left) out (same, moves, cut, steady) =
      let n = given r (x ∷ left) in
      if-cases (λ o. o ≡ some (out ++ apply_pcm_gain g (x ∷ left))) (n == 0)
        (λ e. absurd (ground (arith, e)))
        (λ e.
          file_loop_lem rounds (drop n (x ∷ left))
            (out ++ apply_pcm_gain r.gain (take n (x ∷ left))) steady
          ∙ ap some (
              append_assoc out (apply_pcm_gain r.gain (take n (x ∷ left)))
                (apply_pcm_gain g (drop n (x ∷ left)))
              ∙ ap (λ xs. out ++ xs)
                  (ap
                      (λ (f : Gain).
                        apply_pcm_gain f (take n (x ∷ left))
                        ++ apply_pcm_gain g (drop n (x ∷ left)))
                      same
                    ∙ apply-split g n (x ∷ left) cut)))

  play_loop_lem :
      (rounds : List Round) (left : List ℕ)
      → Steady g rounds left
      → play_loop rounds left ≡ some (apply_pcm_gain g left)
  unfolding play_loop
  play_loop_lem rounds [] steady = ap some (sym (apply-nil g))
  play_loop_lem [] (x ∷ left) steady = absurd steady
  play_loop_lem (r ∷ rounds) (x ∷ left) (same, moves, cut, steady) =
      let n = given r (x ∷ left) in
      let size : min r.count (length (take block_size (x ∷ left))) ≡ n =
        omega (arith, length-take block_size (x ∷ left)) in
      ap₂ (λ (k : ℕ) (f : Gain). round_of k f rounds (x ∷ left)) size same
      ∙ ap (Option.map (λ out. take n (apply_pcm_gain g (take block_size (x ∷ left))) ++ out))
          (play_loop_lem rounds (drop n (x ∷ left)) steady)
      ∙ ap some (
          ap (λ xs. xs ++ apply_pcm_gain g (drop n (x ∷ left)))
            (take-apply g n (x ∷ left) (omega arith) cut)
          ∙ apply-split g n (x ∷ left) cut)
    where
      round_of : ℕ → Gain → List Round → List ℕ → Option (List ℕ)
      round_of k f rounds left =
          Option.map (λ out. take k (apply_pcm_gain f (take block_size left)) ++ out)
            (play_loop rounds (drop k left))

-- The file that the recorder writes around some samples.
abbrev pub wav_file : List ℕ → List ℕ
wav_file pcm = build_wav_header (length pcm) ++ pcm

length-wav_file : (pcm : List ℕ) → length (wav_file pcm) ≡ 44 + length pcm
length-wav_file pcm =
    omega (
      arith,
      length-append (build_wav_header (length pcm)) pcm,
      length-build_wav_header (length pcm),
    )

drop-wav_file : (pcm : List ℕ) → drop 44 (wav_file pcm) ≡ pcm
unfolding build_wav_header
drop-wav_file pcm = refl

finds :
    (n len : ℕ) (pcm : List ℕ)
    → n + 64 < word
    → 44 ≤ len
    → len < word - 16
    → find_wav_pcm_offset (len + 1) (build_wav_header n ++ pcm) len ≡ some 44
finds n len pcm h lo hi =
    ap (λ fuel. find_wav_pcm_offset fuel (build_wav_header n ++ pcm) len) {x = len + 1}
      {y = suc (suc (len - 1))} (omega arith)
    ∙ (wav_round_trip (len - 1) n len pcm (omega arith) lo hi).0

finds-taken :
    (pcm : List ℕ) (len : ℕ)
    → length pcm < word - 64
    → 44 ≤ len
    → len < word - 16
    → find_wav_pcm_offset (len + 1) (take len (wav_file pcm)) len ≡ some 44
finds-taken pcm len small lo hi =
    ap (λ w. find_wav_pcm_offset (len + 1) w len)
      (take-append_right len (build_wav_header (length pcm)) pcm
        (omega (arith, length-build_wav_header (length pcm))))
    ∙ finds (length pcm) len (take (len - length (build_wav_header (length pcm))) pcm) (omega arith)
        lo hi

abbrev heard_of : List ℕ → Bool × List ℕ
heard_of out = (ltb 0 (length out), out)

-- From the flash.
play_file_lem :
    (g : Gain) (pcm : List ℕ) (header_count : ℕ) (rounds : List Round)
    → length pcm < word - 64
    → 44 ≤ header_count
    → Steady g rounds pcm
    → play_file true (some (wav_file pcm)) header_count true rounds
      ≡ some (ltb 0 (length pcm), apply_pcm_gain g pcm)
unfolding play_file play_found
play_file_lem g pcm header_count rounds small reads steady =
    let room = length-wav_file pcm in
    let n = min header_count (min header_size (length (wav_file pcm))) in
    ap (play_found (wav_file pcm) true rounds)
      (finds-taken pcm n small (omega (arith, room)) (omega arith))
    ∙ ap (λ xs. Option.map heard_of (file_loop rounds xs [])) (drop-wav_file pcm)
    ∙ ap (Option.map heard_of) (file_loop_lem g rounds pcm [] steady)
    ∙ ap (λ k. some (ltb 0 k, apply_pcm_gain g pcm)) (length-apply g pcm)

-- From memory.
play_lem :
    (g : Gain) (pcm : List ℕ) (rounds : List Round)
    → 0 < length pcm
    → length pcm < word - 64
    → Steady g rounds pcm
    → play true (wav_file pcm) rounds ≡ some (true, apply_pcm_gain g pcm)
unfolding play
play_lem g pcm rounds some_pcm small steady =
    let room = length-wav_file pcm in
    let long : leb (length (wav_file pcm)) 44 ≡ false = ground (arith, room) in
    rw
      (
        long,
        finds (length pcm) (length (wav_file pcm)) pcm (omega arith) (omega (arith, room))
            (omega (arith, room)),
        drop-wav_file pcm,
      )
      (ap (Option.map {B = Bool × List ℕ} (λ out. (true, out))) (play_loop_lem g rounds pcm steady))

-- A WAV file of the recorder is heard as it is, from its first sample to its last, under the gain,
-- whether it is played from the flash or from memory, and both say so: for a gain that stays, a
-- first read that has the header, and rounds in which the flash gives, or `i2s_write` takes, whole
-- samples or all that is left.
pub players_agree :
    (g : Gain) (pcm : List ℕ) (header_count : ℕ) (file_rounds memory_rounds : List Round)
    → 0 < length pcm
    → length pcm < word - 64
    → 44 ≤ header_count
    → Steady g file_rounds pcm
    → Steady g memory_rounds pcm
    → (play_file true (some (wav_file pcm)) header_count true file_rounds
        ≡ some (true, apply_pcm_gain g pcm))
      × (play true (wav_file pcm) memory_rounds ≡ some (true, apply_pcm_gain g pcm))
players_agree g pcm header_count file_rounds memory_rounds some_pcm small reads steady steady' = (
  play_file_lem g pcm header_count file_rounds small reads steady
      ∙ ap (λ b. some (b, apply_pcm_gain g pcm)) (lt→ltb 0 (length pcm) some_pcm),
  play_lem g pcm memory_rounds some_pcm small steady',
)
