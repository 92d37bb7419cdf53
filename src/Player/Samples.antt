-- ===== src/Player/Samples.antt =====
-- What the gain does to samples.
use tiny_voice.Prelude.{
  ℕ, ◌+◌, ◌-◌, ◌*◌, ◌/◌, ◌%◌, ◌^◌, ◌≤◌, ◌<◌, ◌≡◌, refl, ap, ap₂, ◌∙◌, inl, inr, List, [], ◌∷◌,
  arith, ltb, if◌then◌else◌, ltb→lt, lt_or_le, if-cases, length, word, u32, byte_of,
}
use tiny_voice.Player.{
  Gain, full_q15, limit_q15, sign_extend, shift_right, limited, scaled_sample, scale_samples,
  apply_pcm_gain,
}

-- The pattern of a 16-bit sample times `q15 / 2 ^ 15`, rounded down: by the magnitude of the sample.
abbrev pub quieter : ℕ → ℕ → ℕ
quieter q15 n =
    if ltb n (2 ^ 15)
    then n * q15 / 2 ^ 15
    else (2 ^ 16 - ((2 ^ 16 - n) * q15 + (2 ^ 15 - 1)) / 2 ^ 15) % 2 ^ 16

mul-le : (a b c d : ℕ) → a ≤ b → c ≤ d → a * c ≤ b * d
mul-le a b c d h k = grind arith

sub-mul : (a b c : ℕ) → a ≤ c → (c - a) * b + a * b ≡ c * b
sub-mul a b c h = grind arith

limited-above : (m : ℕ) → m ≤ 32767 * 2 ^ 15 → limited (shift_right m) ≡ m / 2 ^ 15
unfolding limited
limited-above m h = ground arith

limited-below :
    (m : ℕ)
    → 0 < m
    → m ≤ 2 ^ 30
    → limited (shift_right (word - m)) ≡ word - (m + (2 ^ 15 - 1)) / 2 ^ 15
unfolding limited
limited-below m h k = ground arith

scaled_sample-above :
    (q15 n : ℕ) → q15 ≤ full_q15 → n < 2 ^ 15 → scaled_sample q15 n ≡ n * q15 / 2 ^ 15
unfolding scaled_sample
scaled_sample-above q15 n h k =
    ap (λ w. limited (shift_right w)) {x = u32 (sign_extend n * q15)} {y = n * q15} same
    ∙ limited-above (n * q15) (mul-le n 32767 q15 full_q15 (omega arith) h)
  where
    extended : sign_extend n ≡ n
    extended = ground arith

    same : u32 (sign_extend n * q15) ≡ n * q15
    same =
        ap (λ e. u32 (e * q15)) extended
        ∙ omega (arith, mul-le n 32767 q15 full_q15 (omega arith) h)

scaled_sample-below :
    (q15 m : ℕ)
    → q15 ≤ full_q15
    → 0 < m
    → m ≤ 2 ^ 15
    → scaled_sample q15 (2 ^ 16 - m) ≡ u32 (word - (m * q15 + (2 ^ 15 - 1)) / 2 ^ 15)
unfolding scaled_sample
scaled_sample-below q15 m h k l =
    let small = mul-le m (2 ^ 15) q15 full_q15 l h in
    let product = sub-mul m q15 word (omega arith) in
    let wide : sign_extend (2 ^ 16 - m) ≡ word - m = ground arith in
    elim (lt_or_le 0 (m * q15)) [
      | inl some_left ↦
          bits (word - m * q15) wide (omega (arith, product, small))
          ∙ limited-below (m * q15) some_left (omega (arith, small))
          ∙ omega (arith, small)
      | inr nothing ↦
          bits 0 wide (omega (arith, product, nothing))
          ∙ limited-above 0 (omega arith)
          ∙ omega (arith, nothing)
    ]
  where
    bits :
        (w : ℕ)
        → sign_extend (2 ^ 16 - m) ≡ word - m
        → u32 ((word - m) * q15) ≡ w
        → limited (shift_right (u32 (sign_extend (2 ^ 16 - m) * q15))) ≡ limited (shift_right w)
    bits w wide e =
        ap (λ v. limited (shift_right (u32 (v * q15)))) {x = sign_extend (2 ^ 16 - m)}
          {y = word - m} wide
        ∙ ap (λ v. limited (shift_right v)) {x = u32 ((word - m) * q15)} {y = w} e

-- The gain on whole samples, read off `quieter`.
abbrev pub amplified : ℕ → List ℕ → List ℕ
amplified q15 [] = []
amplified q15 (x ∷ []) = x ∷ []
amplified q15 (lo ∷ (hi ∷ buf)) =
    let n = quieter q15 (lo + hi * 2 ^ 8) in n % 256 ∷ (n / 256 ∷ amplified q15 buf)

abbrev pub AllBytes : List ℕ → Type 0
AllBytes [] = Unit
AllBytes (x ∷ xs) = (x < 256) × AllBytes xs

sample_bytes :
    (q15 n : ℕ)
    → q15 ≤ full_q15
    → n < 2 ^ 16
    → (byte_of (scaled_sample q15 n) 0 ≡ quieter q15 n % 256)
      × (byte_of (scaled_sample q15 n) 1 ≡ quieter q15 n / 256)
sample_bytes q15 n h k = elim (lt_or_le n (2 ^ 15)) [
  | inr below ↦
      let e : scaled_sample q15 n ≡ u32 (word - ((2 ^ 16 - n) * q15 + (2 ^ 15 - 1)) / 2 ^ 15) =
        ap (scaled_sample q15) {x = n} {y = 2 ^ 16 - (2 ^ 16 - n)} (omega arith)
        ∙ scaled_sample-below q15 (2 ^ 16 - n) h (omega arith) (omega arith) in
      let small = mul-le (2 ^ 16 - n) (2 ^ 15) q15 full_q15 (omega arith) h in
      ground (arith, e, small, below)
  | inl above ↦
      let e = scaled_sample-above q15 n h above in
      let small = mul-le n 32767 q15 full_q15 (omega arith) h in ground (arith, e, small, above)
]

scale_samples-amplified :
    (q15 : ℕ) (buf : List ℕ)
    → q15 ≤ full_q15
    → AllBytes buf
    → scale_samples q15 buf ≡ amplified q15 buf
unfolding scale_samples
scale_samples-amplified q15 [] h k = refl
scale_samples-amplified q15 (x ∷ []) h k = refl
scale_samples-amplified q15 (lo ∷ (hi ∷ buf)) h (k, (l, m)) =
    let bytes = sample_bytes q15 (lo + hi * 2 ^ 8) h (omega arith) in
    ap₂ (λ x xs. x ∷ xs) bytes.0
      (ap₂ (λ x xs. x ∷ xs) bytes.1 (scale_samples-amplified q15 buf h m))

limit_q15-le : (q15 : ℕ) → q15 < word → limit_q15 q15 ≤ full_q15
unfolding limit_q15
limit_q15-le q15 h = ground arith

-- What the speaker is given of a buffer.
abbrev pub heard : Gain → List ℕ → List ℕ
heard g buf = if g.is_full then buf else amplified (limit_q15 g.q15) buf

heard-short : (g : Gain) (buf : List ℕ) → length buf < 2 → buf ≡ heard g buf
heard-short g [] h = ground arith
heard-short g (x ∷ []) h = ground arith
heard-short g (x ∷ (y ∷ buf)) h = absurd (omega arith)

-- The volume is exact: a full gain leaves the bytes alone; any other makes of each 16-bit sample its
-- product with the gain's 15-bit fraction, rounded down, so that neither limit of a sample is met.
-- An odd byte at the end stays.
pub apply_pcm_gain_lem :
    (g : Gain) (buf : List ℕ) → g.q15 < word → AllBytes buf → apply_pcm_gain g buf ≡ heard g buf
unfolding apply_pcm_gain
apply_pcm_gain_lem g buf h k =
    if-cases (λ out. out ≡ heard g buf) (ltb (length buf) 2)
      (λ e. heard-short g buf (ltb→lt (length buf) 2 e))
      (λ e.
        ap (λ out. if g.is_full then buf else out)
          (scale_samples-amplified (limit_q15 g.q15) buf (limit_q15-le g.q15 h) k))
