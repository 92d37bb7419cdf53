-- ===== src/Player/Blocks.antt =====
-- The gain on a block of samples and on the whole of them.
use tiny_voice.Prelude.{
  ℕ, zero, suc, ◌+◌, ◌*◌, ◌^◌, ◌≤◌, ◌<◌, ◌≡◌, refl, sym, ap, ap₂, ◌∙◌, ◌⊎◌, inl, inr, Bool, true,
  false, List, [], ◌∷◌, ◌++◌, append-nil, arith, ltb, if◌then◌else◌, ltb→lt, if-both, if-cases,
  length, take, drop, take-all, drop-all, take-append-drop, take-take, byte_of,
}
use tiny_voice.Player.{Gain, limit_q15, scaled_sample, scale_samples, apply_pcm_gain, block_size}

abbrev pub Even : ℕ → Type 0
Even zero = Unit
Even (suc zero) = ⊥
Even (suc (suc n)) = Even n

module _ (q15 : ℕ) where
  scale-split :
      (n : ℕ) (buf : List ℕ)
      → Even n
      → scale_samples q15 (take n buf) ++ scale_samples q15 (drop n buf) ≡ scale_samples q15 buf
  unfolding scale_samples
  scale-split zero [] h = refl
  scale-split zero (x ∷ buf) h = refl
  scale-split (suc zero) buf h = absurd h
  scale-split (suc (suc n)) [] h = refl
  scale-split (suc (suc n)) (x ∷ []) h = refl
  scale-split (suc (suc n)) (x ∷ (y ∷ buf)) h =
      let s = scaled_sample q15 (x + y * 2 ^ 8) in
      ap (λ out. byte_of s 0 ∷ (byte_of s 1 ∷ out)) (scale-split n buf h)

  take-scale :
      (n : ℕ) (buf : List ℕ)
      → Even n
      → take n (scale_samples q15 buf) ≡ scale_samples q15 (take n buf)
  unfolding scale_samples
  take-scale zero [] h = refl
  take-scale zero (x ∷ buf) h = ground arith
  take-scale (suc zero) buf h = absurd h
  take-scale (suc (suc n)) [] h = refl
  take-scale (suc (suc n)) (x ∷ []) h = refl
  take-scale (suc (suc n)) (x ∷ (y ∷ buf)) h =
      let s = scaled_sample q15 (x + y * 2 ^ 8) in
      ap (λ out. byte_of s 0 ∷ (byte_of s 1 ∷ out)) (take-scale n buf h)

  length-scale : (buf : List ℕ) → length (scale_samples q15 buf) ≡ length buf
  unfolding scale_samples
  length-scale [] = refl
  length-scale (x ∷ []) = refl
  length-scale (x ∷ (y ∷ buf)) = ap (λ n. suc (suc n)) (length-scale buf)

  scale-short : (buf : List ℕ) → length buf < 2 → buf ≡ scale_samples q15 buf
  unfolding scale_samples
  scale-short [] h = refl
  scale-short (x ∷ []) h = refl
  scale-short (x ∷ (y ∷ buf)) h = absurd (omega arith)

-- The gain does not ask how long a buffer is.
gained : Bool → ℕ → List ℕ → List ℕ
gained is_full q15 buf = if is_full then buf else scale_samples q15 buf

apply_pcm_gain-gained :
    (g : Gain) (buf : List ℕ) → apply_pcm_gain g buf ≡ gained g.is_full (limit_q15 g.q15) buf
unfolding apply_pcm_gain gained
apply_pcm_gain-gained g buf =
    if-cases (λ out. out ≡ gained g.is_full (limit_q15 g.q15) buf) (ltb (length buf) 2)
      (λ e.
        if-both (λ out. buf ≡ out) g.is_full refl
          (scale-short (limit_q15 g.q15) buf (ltb→lt (length buf) 2 e)))
      (λ e. refl)

-- What a round takes of the samples: whole ones, or all of them.
abbrev pub Cut : ℕ → List ℕ → Type 0
Cut n buf = Even n ⊎ (n ≡ length buf)

gained-nil : (is_full : Bool) (q15 : ℕ) → gained is_full q15 [] ≡ []
unfolding gained scale_samples
gained-nil true q15 = refl
gained-nil false q15 = refl

gained-split :
    (is_full : Bool) (q15 n : ℕ) (buf : List ℕ)
    → Cut n buf
    → gained is_full q15 (take n buf) ++ gained is_full q15 (drop n buf) ≡ gained is_full q15 buf
unfolding gained
gained-split true q15 n buf cut = take-append-drop n buf
gained-split false q15 n buf (inl even) = scale-split q15 n buf even
gained-split false q15 n buf (inr all) =
    ap₂ (λ xs ys. scale_samples q15 xs ++ scale_samples q15 ys) (take-all n buf (omega arith))
      (drop-all n buf (omega arith))
    ∙ ap (λ ys. scale_samples q15 buf ++ ys) (gained-nil false q15)
    ∙ append-nil (scale_samples q15 buf)

take-gained :
    (is_full : Bool) (q15 n : ℕ) (buf : List ℕ)
    → n ≤ block_size
    → Cut n buf
    → take n (gained is_full q15 (take block_size buf)) ≡ gained is_full q15 (take n buf)
unfolding gained
take-gained true q15 n buf h cut = take-take n block_size buf h
take-gained false q15 n buf h (inl even) =
    take-scale q15 n (take block_size buf) even
    ∙ ap (scale_samples q15) (take-take n block_size buf h)
take-gained false q15 n buf h (inr all) =
    let whole = take-all block_size buf (omega arith) in
    ap (λ xs. take n (scale_samples q15 xs)) whole
    ∙ take-all n (scale_samples q15 buf) (omega (arith, length-scale q15 buf))
    ∙ ap (scale_samples q15) (sym (take-all n buf (omega arith)))

module _ (g : Gain) where
  pub apply-split :
      (n : ℕ) (buf : List ℕ)
      → Cut n buf
      → apply_pcm_gain g (take n buf) ++ apply_pcm_gain g (drop n buf) ≡ apply_pcm_gain g buf
  apply-split n buf cut =
      rw
        (
          apply_pcm_gain-gained g (take n buf),
          apply_pcm_gain-gained g (drop n buf),
          apply_pcm_gain-gained g buf,
        )
        (gained-split g.is_full (limit_q15 g.q15) n buf cut)

  pub take-apply :
      (n : ℕ) (buf : List ℕ)
      → n ≤ block_size
      → Cut n buf
      → take n (apply_pcm_gain g (take block_size buf)) ≡ apply_pcm_gain g (take n buf)
  take-apply n buf h cut =
      rw (apply_pcm_gain-gained g (take block_size buf), apply_pcm_gain-gained g (take n buf))
        (take-gained g.is_full (limit_q15 g.q15) n buf h cut)

  pub length-apply : (buf : List ℕ) → length (apply_pcm_gain g buf) ≡ length buf
  unfolding gained
  length-apply buf =
      ap length (apply_pcm_gain-gained g buf)
      ∙ if-both (λ (xs : List ℕ). length xs ≡ length buf) g.is_full refl
          (length-scale (limit_q15 g.q15) buf)

  pub apply-nil : apply_pcm_gain g [] ≡ []
  unfolding apply_pcm_gain
  apply-nil = refl
