-- ===== src/Player/Tone.antt =====
-- `playTone` of firmware/tinyvoice/src/audio_player.cpp: the blocks of samples that go to the speaker.
-- The floating point of the compiler is a record of operations, and the gain that `_volume` has
-- during each block is an argument, since it is read again after each. The product that counts the
-- samples is an int, which is taken to wrap.
use tiny_voice.Prelude.{
  ℕ, zero, suc, ◌+◌, ◌-◌, ◌*◌, ◌/◌, ◌^◌, ◌≤◌, ◌<◌, min, ◌≡◌, refl, sym, ap, ap₂, ◌∙◌, subst, ◌⊎◌,
  inl, inr, Bool, true, false, not, ◌||◌, Option, none, some, List, [], ◌∷◌, ◌++◌, arith, ltb, leb,
  ◌==◌, if◌then◌else◌, lt_or_le, if-cases, length, u32,
}

abbrev pub sample_rate : ℕ
sample_rate = 16000

-- The samples in `buf`.
abbrev pub block_samples : ℕ
block_samples = 256

-- `totalSamples`: a product that wraps to a negative int leaves no sample, since the loop runs while
-- fewer are produced.
unfoldable pub tone_samples : ℕ → ℕ
tone_samples duration_ms =
    let product = u32 (sample_rate * duration_ms) in
    if ltb product (2 ^ 31) then product / 1000 else 0

-- Without a wrap it is the rate times the duration.
pub tone_samples_lem :
    (duration_ms : ℕ)
    → sample_rate * duration_ms < 2 ^ 31
    → tone_samples duration_ms ≡ sample_rate * duration_ms / 1000
unfolding tone_samples
tone_samples_lem duration_ms h = ground arith

-- `float` and the constants of the tone; `to_int16` is the conversion to a bit pattern of int16_t.
pub record ToneFloats : Type 1 where
  pub F : Type 0
  pub lt : F → F → Bool
  pub le : F → F → Bool
  pub of_int : ℕ → F
  pub mul : F → F → F
  pub sub : F → F → F
  pub div : F → F → F
  pub sinf : F → F
  pub to_int16 : F → ℕ
  pub of_hundredths : ℕ → F
  pub two_pi : F
  pub attack_part : F
  pub release_from : F
  pub release_part : F
  pub most : F
  pub least : F

module _ (fl : ToneFloats) where
  -- The rise over the first 8 % and the fall over the last 20 %.
  unfoldable pub envelope : fl.F → fl.F
  envelope progress =
      let attack =
        if fl.lt progress fl.attack_part then fl.div progress fl.attack_part else fl.of_int 1 in
      let release =
        if fl.lt fl.release_from progress
        then fl.div (fl.sub (fl.of_int 1) progress) fl.release_part
        else fl.of_int 1 in
      fl.mul attack release

  -- The sample at an index of the tone.
  unfoldable pub tone_sample : fl.F → ℕ → fl.F → ℕ → ℕ
  unfolding envelope
  tone_sample hz total gain k =
      let t = fl.div (fl.of_int k) (fl.of_int sample_rate) in
      let env = envelope (fl.div (fl.of_int k) (fl.of_int total)) in
      let wave = fl.sinf (fl.mul (fl.mul fl.two_pi hz) t) in
      let sample = fl.mul (fl.mul (fl.mul wave (fl.of_int 7000)) env) gain in
      let high = if fl.lt fl.most sample then fl.most else sample in
      fl.to_int16 (if fl.lt high fl.least then fl.least else high)

  -- The inner loop: `n` samples from an index on.
  unfoldable pub block : fl.F → ℕ → fl.F → ℕ → ℕ → List ℕ
  block hz total gain k zero = []
  block hz total gain k (suc n) = tone_sample hz total gain k ∷ block hz total gain (k + 1) n

  -- The outer loop, with the gain of each block by its number: the blocks that are written.
  unfoldable pub tone_loop : ℕ → fl.F → ℕ → (ℕ → fl.F) → ℕ → ℕ → Option (List (List ℕ))
  tone_loop zero hz total gains produced number = none
  tone_loop (suc fuel) hz total gains produced number =
      let n = min block_samples (total - produced) in
      let rest = tone_loop fuel hz total gains (produced + n) (number + 1) in
      if leb total produced then some [] else elim rest [
        | none ↦ none
        | some blocks ↦ some (block hz total (gains number) produced n ∷ blocks)
      ]

  -- `playTone`: nothing where the player is not ready, or the pitch or the duration is not positive.
  unfoldable pub play_tone : Bool → fl.F → ℕ → (ℕ → fl.F) → Option (List (List ℕ))
  unfolding tone_loop
  play_tone ready hz duration_ms gains =
      let total = tone_samples duration_ms in
      if not ready || fl.le hz (fl.of_int 0) || duration_ms == 0
      then some []
      else tone_loop (suc total) hz total gains 0 0

  -- What a tone is, sample by sample, each with the gain of its block.
  abbrev pub tone_from : fl.F → ℕ → (ℕ → fl.F) → ℕ → ℕ → List ℕ
  tone_from hz total gains k zero = []
  tone_from hz total gains k (suc n) =
      tone_sample hz total (gains (k / block_samples)) k ∷ tone_from hz total gains (k + 1) n

  abbrev pub joined : List (List ℕ) → List ℕ
  joined [] = []
  joined (b ∷ blocks) = b ++ joined blocks

  -- No write is longer than `buf`.
  abbrev pub Fits : List (List ℕ) → Type 0
  Fits [] = Unit
  Fits (b ∷ blocks) = (length b ≤ block_samples) × Fits blocks

  -- The blocks that are written are the tone from an index on.
  abbrev pub IsTone : fl.F → ℕ → (ℕ → fl.F) → ℕ → Option (List (List ℕ)) → Type 0
  IsTone hz total gains k none = ⊥
  IsTone hz total gains k (some blocks) =
      (joined blocks ≡ tone_from hz total gains k (total - k)) × Fits blocks

  tone_from-split :
      (hz : fl.F) (total : ℕ) (gains : ℕ → fl.F) (k m n l : ℕ)
      → l ≡ m + n
      → tone_from hz total gains k m ++ tone_from hz total gains (k + m) n
        ≡ tone_from hz total gains k l
  tone_from-split hz total gains k zero n l e =
      ap (λ i. tone_from hz total gains i n) {x = k + 0} {y = k} (omega arith)
      ∙ ap (λ j. tone_from hz total gains k j) {x = n} {y = l} (omega (arith, e))
  tone_from-split hz total gains k (suc m) n zero e = absurd (omega (arith, e))
  tone_from-split hz total gains k (suc m) n (suc l) e =
      ap (λ t. tone_sample hz total (gains (k / block_samples)) k ∷ t)
        (ap (λ i. tone_from hz total gains (k + 1) m ++ tone_from hz total gains i n)
            {x = k + suc m} {y = (k + 1) + m} (omega arith)
          ∙ tone_from-split hz total gains (k + 1) m n l (omega (arith, e)))

  -- A block lies under one gain.
  block_lem :
      (hz : fl.F) (total : ℕ) (gains : ℕ → fl.F) (number k n : ℕ)
      → number * block_samples ≤ k
      → k + n ≤ number * block_samples + block_samples
      → block hz total (gains number) k n ≡ tone_from hz total gains k n
  unfolding block
  block_lem hz total gains number k zero low high = refl
  block_lem hz total gains number k (suc n) low high =
      ap (λ g. tone_sample hz total (gains g) k ∷ block hz total (gains number) (k + 1) n)
        {x = number} {y = k / block_samples} (omega (arith, low, high))
      ∙ ap (λ t. tone_sample hz total (gains (k / block_samples)) k ∷ t)
          (block_lem hz total gains number (k + 1) n (omega (arith, low)) (omega (arith, high)))

  length-block :
      (hz : fl.F) (total : ℕ) (gain : fl.F) (k n : ℕ) → length (block hz total gain k n) ≡ n
  unfolding block
  length-block hz total gain k zero = refl
  length-block hz total gain k (suc n) = ap suc (length-block hz total gain (k + 1) n)

  tone_loop-IsTone :
      (fuel : ℕ) (hz : fl.F) (total : ℕ) (gains : ℕ → fl.F) (produced number : ℕ)
      → (produced ≡ number * block_samples) ⊎ (total ≤ produced)
      → total < fuel + produced
      → 0 < fuel
      → IsTone hz total gains produced (tone_loop fuel hz total gains produced number)
  unfolding tone_loop
  tone_loop-IsTone zero hz total gains produced number at enough positive = absurd (omega arith)
  tone_loop-IsTone (suc fuel) hz total gains produced number at enough positive =
      if-cases (IsTone hz total gains produced) (leb total produced) {x = some []}
        (λ done. (
          ap (λ n. tone_from hz total gains produced n) {x = 0} {y = total - produced}
              (ground (arith, done)),
          tt,
        ))
        (λ more. by_rest (tone_loop fuel hz total gains (produced + n) (number + 1)) (start more) (
          tone_loop-IsTone fuel hz total gains (produced + n) (number + 1) (next more)
            (ground (arith, more, enough)) (ground (arith, more, enough))))
    where
      n : ℕ
      n = min block_samples (total - produced)

      start : (leb total produced) ≡ false → produced ≡ number * block_samples
      start more = elim at [ inl e ↦ e | inr over ↦ absurd (ground (arith, more, over)) ]

      next :
          (leb total produced) ≡ false
          → (produced + n ≡ (number + 1) * block_samples) ⊎ (total ≤ produced + n)
      next more = elim (lt_or_le (total - produced) block_samples) [
        | inl short ↦ inr (omega (arith, short))
        | inr long ↦ inl (omega (arith, long, start more))
      ]

      by_rest :
          (o : Option (List (List ℕ)))
          → produced ≡ number * block_samples
          → IsTone hz total gains (produced + n) o
          → IsTone hz total gains produced (elim o [
            | none ↦ none
            | some blocks ↦ some (block hz total (gains number) produced n ∷ blocks)
          ])
      by_rest none e h = h
      by_rest (some blocks) e (h, fits) = (
        ap₂ (λ a b. a ++ b)
              (block_lem hz total gains number produced n (omega (arith, e)) (omega (arith, e))) h
            ∙ tone_from-split hz total gains produced n (total - (produced + n)) (total - produced)
                (omega arith),
        (omega (arith, length-block hz total (gains number) produced n), fits),
      )

  -- `playTone` of a ready player, at a positive pitch, for some time whose count of samples, times
  -- 1000, is an int (134217 ms at most): it ends, the blocks together
  -- are the samples of the tone in order, none left out or repeated, each with the gain of its block,
  -- and no block is longer than the buffer.
  pub play_tone-IsTone :
      (hz : fl.F) (duration_ms : ℕ) (gains : ℕ → fl.F)
      → fl.le hz (fl.of_int 0) ≡ false
      → 0 < duration_ms
      → sample_rate * duration_ms < 2 ^ 31
      → IsTone hz (sample_rate * duration_ms / 1000) gains 0 (play_tone true hz duration_ms gains)
  unfolding play_tone
  play_tone-IsTone hz duration_ms gains pitch time short =
      subst
        (λ n. IsTone hz total gains 0 (
          if not true || fl.le hz (fl.of_int 0) || duration_ms == 0
          then some []
          else tone_loop (suc n) hz n gains 0 0))
        (sym (tone_samples_lem duration_ms short))
        (if-cases (IsTone hz total gains 0) (not true || fl.le hz (fl.of_int 0) || duration_ms == 0)
          {x = some []} (λ idle. absurd (ground (arith, idle, pitch, time)))
          (λ going.
            tone_loop-IsTone (suc total) hz total gains 0 0 (inl refl) (omega arith) (omega arith)))
    where
      total : ℕ
      total = sample_rate * duration_ms / 1000
