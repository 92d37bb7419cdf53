-- ===== src/Recorder/Samples.antt =====
-- `writeSamples`: no sample is lost, repeated or reordered on its way to the file.
use mathlib.Core.Option
use tiny_voice.Prelude.{
  ℕ, zero, suc, ◌+◌, ◌-◌, ◌*◌, ◌/◌, ◌%◌, ◌≤◌, ◌<◌, min, ◌≡◌, refl, sym, ap, ap₂, ◌∙◌, subst, ◌⊎◌,
  inl, inr, Bool, true, false, Option, none, some, List, [], ◌∷◌, ◌++◌, append_assoc, arith, leb,
  ◌==◌, Bool-cases, length, take, drop, length-append, length-take, length-drop, take-append_left,
  take-min, take-append_exact,
}
use tiny_voice.Platform.{Platform, IsSteady}
use tiny_voice.Take.{TakeState}
use tiny_voice.Take.Write.{on_file}
use tiny_voice.Recorder.{
  chunk_bytes, Recorder, write_pos, encode, clamp_chunk, remaining_pcm, copy, State,
  write_chunk_sync, Round, end_round, copy_round,
}
use tiny_voice.Recorder.Chunks.{stream, IsValid, IsClosed, Keeps, Flushed, write_chunk_sync_lem}

pub length-encode : (xs : List ℕ) → length (encode xs) ≡ length xs * 2
length-encode [] = refl
length-encode (x ∷ xs) = omega (arith, length-encode xs)

pub take-encode :
    (k n : ℕ) (xs : List ℕ) → n ≡ k * 2 → take n (encode xs) ++ encode (drop k xs) ≡ encode xs
take-encode zero n xs e = ap (λ m. take m (encode xs) ++ encode xs) {y = 0} (omega arith)
take-encode (suc k) zero xs e = absurd (omega arith)
take-encode (suc k) (suc zero) xs e = absurd (omega arith)
take-encode (suc k) (suc (suc n)) [] e = refl
take-encode (suc k) (suc (suc n)) (x ∷ xs) e =
    ap (λ t. x % 256 ∷ x / 256 % 256 ∷ t) (take-encode k n xs (omega arith))

-- A chunk is whole samples, at least one, and fits the samples, the space and the budget.
clamp_chunk_lem :
    (count space remaining : ℕ)
    → 0 < count
    → 0 < space
    → 0 < remaining
    → remaining % 2 ≡ 0
    → let (chunk, bytes) = clamp_chunk count space remaining in
      (bytes ≡ chunk * 2) × (0 < chunk) × (chunk ≤ count) × (chunk ≤ space) × (bytes ≤ remaining)
clamp_chunk_lem count space remaining hc hs hr he = ground arith

module _ (p : Platform) (law : IsSteady p) where
  -- All the bytes of a call that begins in `s`: what is in the file or waits, then the samples.
  abbrev pub supply : State p → List ℕ → List ℕ
  supply s samples = stream p law s ++ encode samples

  -- How `writeSamples` leaves the recorder: in the take, with all the bytes that the budget allows,
  -- or with the take closed and a prefix in the file.
  abbrev pub Wrote : State p → List ℕ → Option (State p) → Type 0
  Wrote s samples none = ⊥
  Wrote s samples (some s') =
      (IsValid p law s'
        × (stream p law s' ≡ take s.0.max_pcm_bytes (supply s samples))
        × (s'.0.max_pcm_bytes ≡ s.0.max_pcm_bytes))
      ⊎ IsClosed p law (supply s samples) s'

  -- How a round goes on: with fewer samples and the same bytes in all.
  abbrev pub Continues : State p → List ℕ → State p → List ℕ → Type 0
  Continues s samples s' left =
      IsValid p law s'
      × (supply s' left ≡ supply s samples)
      × (s'.0.max_pcm_bytes ≡ s.0.max_pcm_bytes)

  abbrev pub RoundEnds : State p → List ℕ → Option (Round p) → Type 0
  RoundEnds s samples none = ⊥
  RoundEnds s samples (some (s', none)) = Wrote s samples (some s')
  RoundEnds s samples (some (s', some left)) =
      (length left < length samples)
      × (Continues s samples s' left ⊎ IsClosed p law (supply s samples) s')

  pub length-stream :
      (s : State p) → IsValid p law s → length (stream p law s) ≡ s.0.pcm_total + write_pos s.0
  length-stream (r, t) v = omega (arith, length-append (on_file p law t) r.staging, v.counted)

  -- In a valid take the budget's difference does not wrap.
  pub remaining_pcm_lem :
      (s : State p)
      → IsValid p law s
      → remaining_pcm s.0 ≡ s.0.max_pcm_bytes - (s.0.pcm_total + write_pos s.0)
  remaining_pcm_lem s v = omega (arith, v)

  -- A closed take stays a prefix when more bytes follow.
  pub IsClosed-more :
      (bytes more : List ℕ) (s : State p)
      → IsClosed p law bytes s
      → IsClosed p law (bytes ++ more) s
  IsClosed-more bytes more s c = record {
    closed = c.closed;
    not_recording = c.not_recording;
    kept = min c.kept (length bytes);
    within = omega (arith, c.within);
    prefix =
        c.prefix
        ∙ take-min c.kept bytes
        ∙ sym (take-append_left (min c.kept (length bytes)) bytes more (omega arith));
  }

  -- The end of a round keeps the bytes in order, or closes the take at a prefix of them.
  abbrev EndsRound : State p → List ℕ → Option (Round p) → Type 0
  EndsRound s left none = ⊥
  EndsRound s left (some (s', none)) = ⊥
  EndsRound s left (some (s', some rest)) =
      (rest ≡ left) × (Keeps p law s s' ⊎ IsClosed p law (stream p law s) s')

  end-Flushed :
      (s : State p) (left : List ℕ) (f : Option (Bool × State p))
      → Flushed p law s f
      → EndsRound s left (Option.map (λ (f : Bool × State p). (f.1, some left)) f)
  end-Flushed s left none h = h
  end-Flushed s left (some (true, s')) h = (refl, inl h.0)
  end-Flushed s left (some (false, s')) h = (refl, inr h)

  end_round_lem :
      (r : Recorder) (t : TakeState p) (left : List ℕ)
      → IsValid p law (r, t)
      → EndsRound (r, t) left (end_round p (r, t) left)
  unfolding end_round
  end_round_lem r t left v = elim (Bool-cases (leb r.staging_size (write_pos r))) [
    | inl due ↦
        rw due
          (end-Flushed (r, t) left (write_chunk_sync p (r, t)) (write_chunk_sync_lem p law r t v))
    | inr room ↦
        rw room (refl, inl (record { still_valid = v; same_stream = refl; same_budget = refl }))
  ]

  -- The copy of whole samples keeps the recorder valid and the bytes in order.
  copy_lem :
      (r : Recorder) (t : TakeState p) (samples : List ℕ) (chunk bytes : ℕ)
      → IsValid p law (r, t)
      → bytes ≡ chunk * 2
      → chunk ≤ length samples
      → write_pos r + bytes ≤ chunk_bytes
      → r.pcm_total + write_pos r + bytes ≤ r.max_pcm_bytes
      → IsValid p law (copy r samples bytes, t)
        × (supply (copy r samples bytes, t) (drop chunk samples) ≡ supply (r, t) samples)
  unfolding copy
  copy_lem r t samples chunk bytes v e hc hs hb = (ground (arith, v, size), order)
    where
      size : length (r.staging ++ take bytes (encode samples)) ≡ write_pos r + bytes
      size = omega (
        arith,
        length-append r.staging (take bytes (encode samples)),
        length-take bytes (encode samples),
        length-encode samples,
      )

      order : supply (copy r samples bytes, t) (drop chunk samples) ≡ supply (r, t) samples
      order =
          append_assoc (on_file p law t) (r.staging ++ take bytes (encode samples))
            (encode (drop chunk samples))
          ∙ ap (λ b. on_file p law t ++ b)
              (append_assoc r.staging (take bytes (encode samples)) (encode (drop chunk samples))
                ∙ ap (λ b. r.staging ++ b) (take-encode chunk bytes samples e))
          ∙ sym (append_assoc (on_file p law t) r.staging (encode samples))

  join_round :
      (s s1 : State p) (samples left : List ℕ) (r : Option (Round p))
      → length left < length samples
      → supply s1 left ≡ supply s samples
      → s1.0.max_pcm_bytes ≡ s.0.max_pcm_bytes
      → EndsRound s1 left r
      → RoundEnds s samples r
  join_round s s1 samples left none hl e b h = h
  join_round s s1 samples left (some (s', none)) hl e b h = absurd h
  join_round s s1 samples left (some (s', some rest)) hl e b (same, inl k) = (
    rw same hl,
    inl (k.still_valid, ap₂ (λ a c. a ++ encode c) k.same_stream same ∙ e, k.same_budget ∙ b),
  )
  join_round s s1 samples left (some (s', some rest)) hl e b (same, inr c) = (
    rw same hl,
    inr (subst (λ x. IsClosed p law x s') e (IsClosed-more (stream p law s1) (encode left) s' c)),
  )

  -- A round from a recorder with space: it stops at the budget, or copies samples and goes on.
  pub copy_round_lem :
      (r : Recorder) (t : TakeState p) (samples : List ℕ) (space : ℕ)
      → IsValid p law (r, t)
      → 0 < length samples
      → 0 < space
      → write_pos r + space * 2 ≤ chunk_bytes
      → RoundEnds (r, t) samples (copy_round p samples space (true, (r, t)))
  unfolding copy_round
  copy_round_lem r t samples space v hl hs hf = elim (Bool-cases (remaining_pcm r == 0)) [
    | inl spent ↦ rw spent (
        inl (
          ground (arith, v),
          sym (
              take-append_exact r.max_pcm_bytes (stream p law (r, t)) (encode samples)
                (full spent)),
          refl,
        ))
    | inr more ↦ rw more (
        join_round (r, t) (copy r samples bytes, t) samples (drop chunk samples) _
          (omega (arith, length-drop chunk samples, sizes more)) (copied more).1
          (unfold copy in refl)
          (end_round_lem (copy r samples bytes) t (drop chunk samples) (copied more).0))
  ]
    where
      chunk : ℕ
      chunk = (clamp_chunk (length samples) space (remaining_pcm r)).0

      bytes : ℕ
      bytes = (clamp_chunk (length samples) space (remaining_pcm r)).1

      left_in_budget : remaining_pcm r ≡ r.max_pcm_bytes - (r.pcm_total + write_pos r)
      left_in_budget = remaining_pcm_lem (r, t) v

      full : (remaining_pcm r == 0) ≡ true → length (stream p law (r, t)) ≡ r.max_pcm_bytes
      full spent = ground (arith, length-stream (r, t) v, left_in_budget, v)

      sizes :
          (remaining_pcm r == 0) ≡ false
          → (bytes ≡ chunk * 2)
            × (0 < chunk)
            × (chunk ≤ length samples)
            × (chunk ≤ space)
            × (bytes ≤ remaining_pcm r)
      sizes more =
          clamp_chunk_lem (length samples) space (remaining_pcm r) hl hs (ground arith)
            (omega (arith, left_in_budget, v))

      copied :
          (remaining_pcm r == 0) ≡ false
          → IsValid p law (copy r samples bytes, t)
            × (supply (copy r samples bytes, t) (drop chunk samples) ≡ supply (r, t) samples)
      copied more =
          copy_lem r t samples chunk bytes v (sizes more).0 (sizes more).2
            (omega (arith, sizes more)) (omega (arith, sizes more, left_in_budget, v))
