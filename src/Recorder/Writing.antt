-- ===== src/Recorder/Writing.antt =====
-- `writeSamples` as a whole: its rounds end, and together they put all of the samples that the
-- budget allows behind what is already in the file or waits for it.
use tiny_voice.Prelude.{
  ℕ, zero, suc, ◌/◌, ◌<◌, ◌≡◌, refl, sym, ap, ap₂, ◌∙◌, subst, inl, inr, Bool, true, false, ◌||◌,
  Option, none, some, List, [], ◌∷◌, ◌++◌, append-nil, arith, ◌==◌, if◌then◌else◌, Bool-cases,
  length, take, take-all,
}
use tiny_voice.Platform.{Platform, IsSteady}
use tiny_voice.Take.{TakeState}
use tiny_voice.Recorder.{
  chunk_bytes, Recorder, encode, space_samples, State, write_chunk_sync, Round, copy_round,
  write_round, write_samples_loop, write_samples,
}
use tiny_voice.Recorder.Chunks.{stream, IsValid, IsClosed, Keeps, Flushed, write_chunk_sync_lem}
use tiny_voice.Recorder.Samples.{
  supply, Wrote, RoundEnds, length-stream, IsClosed-more, copy_round_lem,
}

module _ (p : Platform) (law : IsSteady p) where
  -- What a call does after a flush is what it does to the same bytes before it.
  Wrote-after :
      (s s1 : State p) (samples : List ℕ) (r : Option (State p))
      → Keeps p law s s1
      → Wrote p law s1 samples r
      → Wrote p law s samples r
  Wrote-after s s1 samples none k h = h
  Wrote-after s s1 samples (some s') k (inl (v, e, b)) = inl (
    v,
    e ∙ ap₂ (λ n a. take n (a ++ encode samples)) k.same_budget k.same_stream,
    b ∙ k.same_budget,
  )
  Wrote-after s s1 samples (some s') k (inr c) =
      inr (subst (λ x. IsClosed p law (x ++ encode samples) s') k.same_stream c)

  ends_after :
      (s s1 : State p) (samples : List ℕ) (r : Option (Round p))
      → Keeps p law s s1
      → RoundEnds p law s1 samples r
      → RoundEnds p law s samples r
  ends_after s s1 samples none k h = h
  ends_after s s1 samples (some (s', none)) k h = Wrote-after s s1 samples (some s') k h
  ends_after s s1 samples (some (s', some left)) k (hl, inl (v, e, b)) =
      (hl, inl (v, e ∙ ap (λ a. a ++ encode samples) k.same_stream, b ∙ k.same_budget))
  ends_after s s1 samples (some (s', some left)) k (hl, inr c) =
      (hl, inr (subst (λ x. IsClosed p law (x ++ encode samples) s') k.same_stream c))

  after_flush :
      (s : State p) (samples : List ℕ) (space : ℕ) (f : Option (Bool × State p))
      → 0 < length samples
      → space ≡ chunk_bytes / 2
      → Flushed p law s f
      → RoundEnds p law s samples (elim f [ none ↦ none | some g ↦ copy_round p samples space g ])
  after_flush s samples space none hl hs h = h
  after_flush s samples space (some (true, (r1, t1))) hl hs (k, e) =
      ends_after s (r1, t1) samples _ k
        (copy_round_lem p law r1 t1 samples space k.still_valid hl (omega arith) (omega arith))
  after_flush s samples space (some (false, (r1, t1))) hl hs c =
      unfold copy_round in inr (IsClosed-more p law (stream p law s) (encode samples) (r1, t1) c)

  write_round_lem :
      (r : Recorder) (t : TakeState p) (samples : List ℕ)
      → IsValid p law (r, t)
      → 0 < length samples
      → RoundEnds p law (r, t) samples (write_round p (r, t) samples)
  unfolding write_round
  write_round_lem r t samples v hl = elim (Bool-cases (space_samples r == 0)) [
    | inl full ↦
        rw (full, write_round)
          (after_flush (r, t) samples
            (if space_samples r == 0 then r.staging_size / 2 else space_samples r)
            (write_chunk_sync p (r, t)) hl (ground (arith, v)) (write_chunk_sync_lem p law r t v))
    | inr room ↦
        rw (room, write_round)
          (rw room (
            copy_round_lem p law r t samples (space_samples r) v hl (ground arith)
              (omega (arith, v))))
  ]

  -- The loop stops at once in a closed take.
  pub loop_closed :
      (fuel : ℕ) (s : State p) (samples : List ℕ)
      → 0 < fuel
      → s.0.disk_full ≡ true
      → write_samples_loop p fuel s samples ≡ some s
  unfolding write_samples_loop
  loop_closed zero s samples hf h = elim hf [ ]
  loop_closed (suc fuel) (r, t) samples hf h = rw (test)
    where
      test : (length samples == 0 || r.disk_full || r.staging_size == 0) ≡ true
      test = ground arith

  -- What one round and then the loop do.
  loop_step :
      (fuel : ℕ) (r : Recorder) (t : TakeState p) (samples : List ℕ)
      → 0 < length samples
      → IsValid p law (r, t)
      → write_samples_loop p (suc fuel) (r, t) samples ≡ elim (write_round p (r, t) samples) [
        | none ↦ none
        | some (s', left) ↦ elim left [ none ↦ some s' | some xs ↦ write_samples_loop p fuel s' xs ]
      ]
  unfolding write_samples_loop
  loop_step fuel r t samples hl v = rw test
    where
      test : (length samples == 0 || r.disk_full || r.staging_size == 0) ≡ false
      test = ground (arith, v)

  -- From the result of a round, the loop's.
  loop_rest :
      (fuel : ℕ) (s : State p) (samples : List ℕ) (round : Option (Round p))
      → length samples < suc fuel
      → ((s' : State p) (left : List ℕ)
          → length left < fuel
          → IsValid p law s'
          → Wrote p law s' left (write_samples_loop p fuel s' left))
      → RoundEnds p law s samples round
      → Wrote p law s samples (elim round [
        | none ↦ none
        | some (s', left) ↦ elim left [ none ↦ some s' | some xs ↦ write_samples_loop p fuel s' xs ]
      ])
  loop_rest fuel s samples none hf ih h = h
  loop_rest fuel s samples (some (s', none)) hf ih h = h
  loop_rest fuel s samples (some (s', some left)) hf ih (hl, inl (v, e, b)) =
      more (write_samples_loop p fuel s' left) (ih s' left (omega arith) v)
    where
      more : (o : Option (State p)) → Wrote p law s' left o → Wrote p law s samples o
      more none h = h
      more (some s'') (inl (v', e', b')) = inl (v', e' ∙ ap₂ take b e, b' ∙ b)
      more (some s'') (inr c) = inr (subst (λ x. IsClosed p law x s'') e c)
  loop_rest fuel s samples (some (s', some left)) hf ih (hl, inr c) =
      rw (loop_closed fuel s' left (omega arith) c.closed) (inr c)

  loop_lem :
      (fuel : ℕ) (r : Recorder) (t : TakeState p) (samples : List ℕ)
      → length samples < fuel
      → IsValid p law (r, t)
      → Wrote p law (r, t) samples (write_samples_loop p fuel (r, t) samples)
  loop_lem zero r t samples hf v = elim hf [ ]
  loop_lem (suc fuel) r t [] hf v = unfold write_samples_loop in inl (v, stopped, refl)
    where
      stopped : stream p law (r, t) ≡ take r.max_pcm_bytes (supply p law (r, t) [])
      stopped = sym (
          take-all r.max_pcm_bytes (stream p law (r, t) ++ [])
            (rw append-nil (omega (arith, length-stream p law (r, t) v, v)))
          ∙ append-nil (stream p law (r, t)))
  loop_lem (suc fuel) r t (x ∷ xs) hf v = rw (loop_step fuel r t (x ∷ xs) (omega arith) v) (
      loop_rest fuel (r, t) (x ∷ xs) (write_round p (r, t) (x ∷ xs)) hf
        (λ s' left h v'. loop_lem fuel s'.0 s'.1 left h v')
        (write_round_lem r t (x ∷ xs) v (omega arith)))

  -- `writeSamples` in a take ends. Either it leaves the recorder valid, and the file and the buffer
  -- hold what they held and then the samples, in order and cut at the budget; or a write failed,
  -- the take is closed, and the file holds a prefix of those bytes. On a flash where no write takes
  -- a part of its data and leaves `EBADF` in `errno`.
  pub write_samples_lem :
      (r : Recorder) (t : TakeState p) (samples : List ℕ)
      → IsValid p law (r, t)
      → Wrote p law (r, t) samples (write_samples p (r, t) samples)
  unfolding write_samples
  write_samples_lem r t samples v = loop_lem (suc (length samples)) r t samples (omega arith) v
