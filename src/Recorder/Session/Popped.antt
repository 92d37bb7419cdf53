-- ===== src/Recorder/Session/Popped.antt =====
-- Samples that `popRing` gives and `writeSamples` takes stay among those that were heard.
use tiny_voice.Prelude.{
  ℕ, suc, ◌≤◌, ◌≡◌, refl, sym, ap, ◌∙◌, subst, ◌⊎◌, inl, inr, true, Option, none, some, List, ◌++◌,
  append_assoc, arith, lt_or_le, length, take, length-take, take-all, take-append_left,
  take-append_exact,
}
use tiny_voice.Platform.{Platform, IsSteady}
use tiny_voice.Ring.Window.{contents}
use tiny_voice.Recorder.{encode, remaining_pcm, State, write_samples}
use tiny_voice.Recorder.Chunks.{stream, IsValid, IsClosed}
use tiny_voice.Recorder.Samples.{Wrote, length-stream, remaining_pcm_lem}
use tiny_voice.Recorder.Writing.{loop_closed, write_samples_lem}
use tiny_voice.Recorder.Flags.{Flag, FlagOr, write_samples-FlagOr}
use tiny_voice.Recorder.Session.{Session}
use tiny_voice.Recorder.Session.Content.{
  encode-append, Exact, Full, Lossy, Content, Closed-more, Closed-take, Alive, Written,
}

module _ (p : Platform) (law : IsSteady p) where
  open_closed : (c : State p) → IsValid p law c → c.0.disk_full ≡ true → ⊥
  open_closed c v h = ground (arith, v, h)

  -- A valid take that got all of the bytes, or the front of them that fills the budget.
  Exact-written :
      (heard drained chunk : List ℕ) (s s' : Session p)
      → heard ≡ (drained ++ chunk) ++ contents s'.ring
      → (s'.capturing ≡ true → s.core.0.recording ≡ true)
      → IsValid p law s'.core
      → stream p law s'.core ≡ take s.core.0.max_pcm_bytes (encode (drained ++ chunk))
      → Flag s.core.0 s'.core.0
      → Content p law heard s'
  Exact-written heard drained chunk s s' split awake v e (b, flag) =
      elim (lt_or_le s.core.0.max_pcm_bytes (length bytes)) [
        | inr fits ↦ by_flag (e ∙ take-all s.core.0.max_pcm_bytes bytes fits) flag
        | inl over ↦ inr (
            inl (
              full (omega (arith, ap length e, length-take s.core.0.max_pcm_bytes bytes))
                (omega (arith, over))))
      ]
    where
      bytes : List ℕ
      bytes = encode (drained ++ chunk)

      full :
          length (stream p law s'.core) ≡ s'.core.0.max_pcm_bytes
          → s.core.0.max_pcm_bytes ≤ length bytes
          → Full p law heard s'
      full n over = (v, whole, n)
        where
          whole : stream p law s'.core ≡ take s'.core.0.max_pcm_bytes (encode heard)
          whole =
              e
              ∙ ap (λ n. take n bytes) (sym b)
              ∙ sym (
                  ap (λ h. take s'.core.0.max_pcm_bytes (encode h)) split
                  ∙ ap (take s'.core.0.max_pcm_bytes)
                      (encode-append (drained ++ chunk) (contents s'.ring))
                  ∙ take-append_left s'.core.0.max_pcm_bytes bytes (encode (contents s'.ring))
                      (omega (arith, b, over)))

      by_flag :
          stream p law s'.core ≡ bytes
          → ((s'.core.0.recording ≡ s.core.0.recording)
              ⊎ ((remaining_pcm s'.core.0 ≡ 0) ⊎ (s'.core.0.disk_full ≡ true)))
          → Content p law heard s'
      by_flag all (inl same) = inl (drained ++ chunk, split, v, all, λ on. same ∙ awake on)
      by_flag all (inr (inl spent)) = inr (
          inl (
            full
              (omega (
                arith,
                spent,
                remaining_pcm_lem p law s'.core v,
                length-stream p law s'.core v,
                v.budget,
              ))
              (omega (
                arith,
                spent,
                remaining_pcm_lem p law s'.core v,
                length-stream p law s'.core v,
                v.budget,
                b,
                ap length all,
              ))))
      by_flag all (inr (inr closed)) = absurd (open_closed s'.core v closed)

  -- What is written leaves the take valid or closed.
  pub Written-Alive :
      (c : State p) (chunk : List ℕ) (c' : State p)
      → Written p law c chunk (some c')
      → Alive p law c'
  Written-Alive c chunk c' (flag, inl (v, inl w)) = inl w.0
  Written-Alive c chunk c' (flag, inl (v, inr closed)) = inr closed.closed
  Written-Alive c chunk c' (flag, inr (closed, keep)) =
      inr (ap (λ (c : State p). c.0.disk_full) keep ∙ closed)

  -- A take closed in its budget keeps bytes of the budget only.
  Closed-at :
      (n : ℕ) (bytes more : List ℕ) (c : State p)
      → IsClosed p law (bytes ++ more) c
      → length bytes ≡ n
      → c.0.max_pcm_bytes ≡ n
      → IsClosed p law bytes c
  Closed-at n bytes more c h e b = record {
    closed = h.closed;
    not_recording = h.not_recording;
    kept = h.kept;
    within = h.within;
    prefix = h.prefix ∙ take-append_left h.kept bytes more (omega (arith, h.within, e, b));
  }

  Closed-popped :
      (heard chunk : List ℕ) (s s' : Session p)
      → Written p law s.core chunk (some s'.core)
      → IsClosed p law (encode heard) s.core
      → Content p law heard s'
  Closed-popped heard chunk s s' (flag, inl (v, w)) h = absurd (open_closed s.core v h.closed)
  Closed-popped heard chunk s s' (flag, inr (closed, keep)) h =
      inr (inr (inl (subst (λ c. IsClosed p law (encode heard) c) (sym keep) h)))

  -- A round on a take that runs exactly, from the samples that wait before it.
  Exact-popped :
      (heard chunk : List ℕ) (s s' : Session p)
      → contents s.ring ≡ chunk ++ contents s'.ring
      → s'.capturing ≡ s.capturing
      → Written p law s.core chunk (some s'.core)
      → Exact p law heard s
      → Content p law heard s'
  Exact-popped heard chunk s s' split same (flag, inr (closed, keep)) (drained, all, v, e, awake) =
      absurd (open_closed s.core v closed)
  Exact-popped heard chunk s s' split same (flag, inl (v', inl (valid, e', b)))
        (drained, all, v, e, awake) =
      Exact-written heard drained chunk s s' (heard_split) (λ on. awake (sym same ∙ on)) valid
        (e'
          ∙ ap (take s.core.0.max_pcm_bytes)
              (ap (λ b. b ++ encode chunk) e ∙ sym (encode-append drained chunk)))
        flag
    where
      heard_split : heard ≡ (drained ++ chunk) ++ contents s'.ring
      heard_split =
          all ∙ ap (λ t. drained ++ t) split ∙ sym (append_assoc drained chunk (contents s'.ring))
  Exact-popped heard chunk s s' split same (flag, inl (v', inr closed))
        (drained, all, v, e, awake) =
      inr (
        inr (
          inl (
            subst (λ h. IsClosed p law (encode h) s'.core)
              (sym (
                all
                ∙ ap (λ t. drained ++ t) split
                ∙ sym (append_assoc drained chunk (contents s'.ring))))
              (Closed-more p law (drained ++ chunk) (contents s'.ring) s'.core (
                subst (λ b. IsClosed p law b s'.core)
                  (ap (λ b. b ++ encode chunk) e ∙ sym (encode-append drained chunk)) closed)))))

  -- A round on a take whose budget is used up adds nothing to it.
  Full-popped :
      (heard chunk : List ℕ) (s s' : Session p)
      → Written p law s.core chunk (some s'.core)
      → Full p law heard s
      → Content p law heard s'
  Full-popped heard chunk s s' (flag, inr (closed, keep)) (v, e, n) =
      absurd (open_closed s.core v closed)
  Full-popped heard chunk s s' (flag, inl (v', inl (valid, e', b))) (v, e, n) = inr (
      inl (valid, still ∙ e ∙ ap (λ n. take n (encode heard)) (sym b), ap length still ∙ n ∙ sym b))
    where
      still : stream p law s'.core ≡ stream p law s.core
      still = e' ∙ take-append_exact s.core.0.max_pcm_bytes (stream p law s.core) (encode chunk) n
  Full-popped heard chunk s s' (flag, inl (v', inr closed)) (v, e, n) = inr (
      inr (
        inl (
          Closed-take p law s.core.0.max_pcm_bytes (encode heard) s'.core (
            subst (λ b. IsClosed p law b s'.core) e
              (Closed-at s.core.0.max_pcm_bytes (stream p law s.core) (encode chunk) s'.core closed
                n (flag.0))))))

  Lossy-popped :
      (heard chunk : List ℕ) (s s' : Session p)
      → s'.ring.dropped ≡ s.ring.dropped
      → Written p law s.core chunk (some s'.core)
      → Lossy p law s
      → Content p law heard s'
  Lossy-popped heard chunk s s' same w (lost, alive) =
      inr (inr (inr (omega (arith, same, lost), Written-Alive s.core chunk s'.core w)))

  pub Content-popped :
      (heard chunk : List ℕ) (s s' : Session p)
      → contents s.ring ≡ chunk ++ contents s'.ring
      → s'.capturing ≡ s.capturing
      → s'.ring.dropped ≡ s.ring.dropped
      → Written p law s.core chunk (some s'.core)
      → Content p law heard s
      → Content p law heard s'
  Content-popped heard chunk s s' split on same w (inl exact) =
      Exact-popped heard chunk s s' split on w exact
  Content-popped heard chunk s s' split on same w (inr (inl full)) =
      Full-popped heard chunk s s' w full
  Content-popped heard chunk s s' split on same w (inr (inr (inl closed))) =
      Closed-popped heard chunk s s' w closed
  Content-popped heard chunk s s' split on same w (inr (inr (inr lossy))) =
      Lossy-popped heard chunk s s' same w lossy

  -- `writeSamples` ends, whatever state the take is in.
  pub write_samples-Written :
      (c : State p) (chunk : List ℕ)
      → Alive p law c
      → Written p law c chunk (write_samples p c chunk)
  write_samples-Written c chunk (inl v) =
      both (write_samples p c chunk) (write_samples_lem p law c.0 c.1 chunk v)
        (write_samples-FlagOr p c chunk)
    where
      both :
          (o : Option (State p)) → Wrote p law c chunk o → FlagOr p c.0 o → Written p law c chunk o
      both none w flag = w
      both (some c') w flag = (flag, inl (v, w))
  write_samples-Written c chunk (inr closed) =
      subst (Written p law c chunk) (sym stops) ((refl, inl refl), inr (closed, refl))
    where
      stops : write_samples p c chunk ≡ some c
      stops =
          unfold write_samples in
          loop_closed p law (suc (length chunk)) c chunk (omega arith) closed

  pub Content-Alive : (heard : List ℕ) (s : Session p) → Content p law heard s → Alive p law s.core
  Content-Alive heard s (inl (drained, all, v, e, awake)) = inl v
  Content-Alive heard s (inr (inl full)) = inl full.0
  Content-Alive heard s (inr (inr (inl closed))) = inr closed.closed
  Content-Alive heard s (inr (inr (inr lossy))) = lossy.1
