-- ===== src/Recorder/Flags.antt =====
-- What `writeSamples` does to the flags: recording ends at the budget or with the take, and the
-- budget stays.
use tiny_voice.Prelude.{
  ℕ, zero, suc, ◌/◌, ◌≡◌, refl, ◌∙◌, ◌⊎◌, inl, inr, Bool, true, false, not, ◌||◌, Option, none,
  some, List, arith, leb, ◌==◌, if◌then◌else◌, if-both, if-cases, length,
}
use tiny_voice.Take.{TakeState, write_chunk_to_disk}
use tiny_voice.Recorder.{
  Recorder, write_pos, has_space_for_chunk, mark_flash_limit, space_samples, remaining_pcm, copy,
  State, chunk_written, write_chunk_sync, flush_if, Round, end_round, copy_round, write_round,
  write_samples_loop, write_samples,
}
use tiny_voice.Platform.{Platform}
use mathlib.Core.Option

-- Recording as before, or ended where the budget is used up or the take is closed.
abbrev pub Flag : Recorder → Recorder → Type 0
Flag r r' =
    (r'.max_pcm_bytes ≡ r.max_pcm_bytes)
    × ((r'.recording ≡ r.recording) ⊎ ((remaining_pcm r' ≡ 0) ⊎ (r'.disk_full ≡ true)))

-- Recording as before, or the take closed.
abbrev Goes : Recorder → Recorder → Type 0
Goes r r' =
    (r'.max_pcm_bytes ≡ r.max_pcm_bytes) × ((r'.recording ≡ r.recording) ⊎ (r'.disk_full ≡ true))

module _ (p : Platform) where
  abbrev Chunk : Recorder → Option (Bool × State p) → Type 0
  Chunk r none = Unit
  Chunk r (some (true, (r', t))) =
      (r'.max_pcm_bytes ≡ r.max_pcm_bytes) × (r'.recording ≡ r.recording)
  Chunk r (some (false, (r', t))) = (r'.max_pcm_bytes ≡ r.max_pcm_bytes) × (r'.disk_full ≡ true)

  mark-full :
      (r : Recorder)
      → ((mark_flash_limit r).max_pcm_bytes ≡ r.max_pcm_bytes)
        × ((mark_flash_limit r).disk_full ≡ true)
  unfolding mark_flash_limit
  mark-full r = ground arith

  written-Chunk :
      (r : Recorder) (o : Option (Bool × TakeState p)) → Chunk r (Option.map (chunk_written p r) o)
  unfolding chunk_written
  written-Chunk r none = tt
  written-Chunk r (some (true, t)) = (refl, refl)
  written-Chunk r (some (false, t)) = mark-full r

  write_chunk_sync-Chunk : (r : Recorder) (t : TakeState p) → Chunk r (write_chunk_sync p (r, t))
  unfolding write_chunk_sync
  write_chunk_sync-Chunk r t =
      if-both (Chunk r) (write_pos r == 0 || r.disk_full) {x = some (true, (r, t))} (refl, refl)
        (if-both (Chunk r) (not (has_space_for_chunk r (write_pos r)))
          {x = some (false, (mark_flash_limit r, t))} (mark-full r)
          (written-Chunk r (write_chunk_to_disk p r.staging t)))

  abbrev AfterRound : Recorder → Option (Round p) → Type 0
  AfterRound r none = Unit
  AfterRound r (some ((r', t), none)) = Flag r r'
  AfterRound r (some ((r', t), some left)) = Goes r r'

  end_round-AfterRound :
      (r0 r : Recorder) (t : TakeState p) (left : List ℕ)
      → r.max_pcm_bytes ≡ r0.max_pcm_bytes
      → r.recording ≡ r0.recording
      → AfterRound r0 (end_round p (r, t) left)
  unfolding end_round
  end_round-AfterRound r0 r t left b e =
      by_flush (flush_if p (leb r.staging_size (write_pos r)) (r, t)) (
        if-both (Chunk r) (leb r.staging_size (write_pos r)) {y = some (true, (r, t))}
          (write_chunk_sync-Chunk r t) (refl, refl))
    where
      by_flush :
          (o : Option (Bool × State p))
          → Chunk r o
          → AfterRound r0 (Option.map (λ (f : Bool × State p). (f.1, some left)) o)
      by_flush none h = tt
      by_flush (some (true, (r', t'))) h = (h.0 ∙ b, inl (h.1 ∙ e))
      by_flush (some (false, (r', t'))) h = (h.0 ∙ b, inr (h.1))

  copy_round-AfterRound :
      (r0 : Recorder) (samples : List ℕ) (space : ℕ) (f : Bool × State p)
      → Chunk r0 (some f)
      → AfterRound r0 (copy_round p samples space f)
  unfolding copy_round copy
  copy_round-AfterRound r0 samples space (false, (r, t)) h = (h.0, inr (inr h.1))
  copy_round-AfterRound r0 samples space (true, (r, t)) h =
      if-cases (AfterRound r0) (remaining_pcm r == 0)
        {x = some ((record r { recording = false }, t), none)}
        (λ spent. (h.0, inr (inl (ground (arith, spent)))))
        (λ more. end_round-AfterRound r0 _ t _ h.0 h.1)

  write_round-AfterRound :
      (r : Recorder) (t : TakeState p) (samples : List ℕ)
      → AfterRound r (write_round p (r, t) samples)
  unfolding write_round
  write_round-AfterRound r t samples = by_flush (flush_if p (space_samples r == 0) (r, t)) (
      if-both (Chunk r) (space_samples r == 0) {y = some (true, (r, t))}
        (write_chunk_sync-Chunk r t) (refl, refl))
    where
      space : ℕ
      space = if space_samples r == 0 then r.staging_size / 2 else space_samples r

      by_flush :
          (o : Option (Bool × State p))
          → Chunk r o
          → AfterRound r (elim o [ none ↦ none | some f ↦ copy_round p samples space f ])
      by_flush none h = tt
      by_flush (some f) h = copy_round-AfterRound r samples space f h

  abbrev pub FlagOr : Recorder → Option (State p) → Type 0
  FlagOr r none = Unit
  FlagOr r (some s) = Flag r s.0

  abbrev StillClosed : Recorder → Option (State p) → Type 0
  StillClosed r none = Unit
  StillClosed r (some s) = (s.0.max_pcm_bytes ≡ r.max_pcm_bytes) × (s.0.disk_full ≡ true)

  loop-StillClosed :
      (fuel : ℕ) (r : Recorder) (t : TakeState p) (samples : List ℕ)
      → r.disk_full ≡ true
      → StillClosed r (write_samples_loop p fuel (r, t) samples)
  unfolding write_samples_loop
  loop-StillClosed zero r t samples closed = tt
  loop-StillClosed (suc fuel) r t samples closed =
      if-cases (StillClosed r) (length samples == 0 || r.disk_full || r.staging_size == 0)
        {x = some (r, t)} (λ e. (refl, closed)) (λ e. absurd (ground (arith, e)))

  -- The loop after a round.
  rest-FlagOr :
      (r r' : Recorder) (o : Option (State p))
      → Goes r r'
      → FlagOr r' o
      → (r'.disk_full ≡ true → StillClosed r' o)
      → FlagOr r o
  rest-FlagOr r r' none g h c = tt
  rest-FlagOr r r' (some s) (b, inl same) (b', inl same') c = (b' ∙ b, inl (same' ∙ same))
  rest-FlagOr r r' (some s) (b, inl same) (b', inr other) c = (b' ∙ b, inr other)
  rest-FlagOr r r' (some s) (b, inr closed) h c = ((c closed).0 ∙ b, inr (inr (c closed).1))

  loop-FlagOr :
      (fuel : ℕ) (r : Recorder) (t : TakeState p) (samples : List ℕ)
      → FlagOr r (write_samples_loop p fuel (r, t) samples)
  unfolding write_samples_loop
  loop-FlagOr zero r t samples = tt
  loop-FlagOr (suc fuel) r t samples =
      if-both (FlagOr r) (length samples == 0 || r.disk_full || r.staging_size == 0)
        {x = some (r, t)} (refl, inl refl)
        (by_round (write_round p (r, t) samples) (write_round-AfterRound r t samples)
          (λ r' t' left. loop-FlagOr fuel r' t' left))
    where
      by_round :
          (o : Option (Round p))
          → AfterRound r o
          → ((r' : Recorder) (t' : TakeState p) (left : List ℕ)
              → FlagOr r' (write_samples_loop p fuel (r', t') left))
          → FlagOr r (elim o [
            | none ↦ none
            | some (s', left) ↦ elim left [
              | none ↦ some s'
              | some xs ↦ write_samples_loop p fuel s' xs
            ]
          ])
      by_round none h ih = tt
      by_round (some ((r', t'), none)) h ih = h
      by_round (some ((r', t'), some left)) h ih =
          rest-FlagOr r r' (write_samples_loop p fuel (r', t') left) h (ih r' t' left)
            (loop-StillClosed fuel r' t' left)

  pub write_samples-FlagOr :
      (s : State p) (samples : List ℕ) → FlagOr s.0 (write_samples p s samples)
  unfolding write_samples
  write_samples-FlagOr (r, t) samples = loop-FlagOr (suc (length samples)) r t samples
