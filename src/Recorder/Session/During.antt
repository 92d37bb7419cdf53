-- ===== src/Recorder/Session/During.antt =====
-- `loop` in a take: what the capture task pushes and what the loop drains keep all that was heard.
use tiny_voice.Prelude.{
  ℕ, ◌+◌, ◌≤◌, ◌<◌, ◌≡◌, refl, sym, ap, ◌∙◌, subst, ◌⊎◌, inl, inr, true, false, not, ◌&&◌, List, [],
  ◌∷◌, ◌++◌, append-nil, append_assoc, arith, if-both, length, take, length-append, word,
}
use tiny_voice.Platform.{Platform, IsSteady}
use tiny_voice.Ring.{Ring, push_ring}
use tiny_voice.Ring.Bounds
use tiny_voice.Ring.Window.{contents}
use tiny_voice.Ring.Refine.{push_ring_refines}
use tiny_voice.Ring.Drops.{push_ring-drops, push_ring-count, push_ring-nil}
use tiny_voice.Recorder.{encode, State}
use tiny_voice.Recorder.Chunks.{stream, IsValid, IsClosed}
use tiny_voice.Recorder.Session.{Session, capture}
use tiny_voice.Recorder.Session.Content.{Content, Full-more, Closed-more, Alive}

abbrev pub flat : List (List ℕ) → List ℕ
flat [] = []
flat (a ∷ arrivals) = a ++ flat arrivals

module _ (p : Platform) (law : IsSteady p) where
  -- A push in a take is heard.
  Content-pushed :
      (heard more : List ℕ) (s s' : Session p)
      → s'.core ≡ s.core
      → s'.capturing ≡ s.capturing
      → s.ring.dropped ≤ s'.ring.dropped
      → (s.core.0.recording ≡ true
          → (contents s'.ring ≡ contents s.ring ++ more) ⊎ (s.ring.dropped < s'.ring.dropped))
      → s.capturing ≡ true
      → Content p law heard s
      → Content p law (heard ++ more) s'
  Content-pushed heard more s s' core same least drops on (inl (drained, all, v, e, awake)) =
      elim (drops (awake on)) [
        | inl fits ↦ inl (
          drained,
          ap (λ t. t ++ more) all
              ∙ append_assoc drained (contents s.ring) more
              ∙ ap (λ t. drained ++ t) (sym fits),
          subst (IsValid p law) (sym core) v,
          ap (stream p law) core ∙ e,
          λ on'. ap (λ (c : State p). c.0.recording) core ∙ awake on,
        )
        | inr lost ↦ inr (inr (inr (omega (arith, lost), inl (subst (IsValid p law) (sym core) v))))
      ]
  Content-pushed heard more s s' core same least drops on (inr (inl full)) = inr (
      inl (
        subst
          (λ c.
            IsValid p law c
            × (stream p law c ≡ take c.0.max_pcm_bytes (encode (heard ++ more)))
            × (length (stream p law c) ≡ c.0.max_pcm_bytes))
          (sym core) (Full-more p law heard more s full)))
  Content-pushed heard more s s' core same least drops on (inr (inr (inl closed))) = inr (
      inr (
        inl (
          subst (IsClosed p law (encode (heard ++ more))) (sym core)
            (Closed-more p law heard more s.core closed))))
  Content-pushed heard more s s' core same least drops on (inr (inr (inr (lost, alive)))) =
      inr (inr (inr (omega (arith, lost, least), subst (Alive p law) (sym core) alive)))

  -- What the ring holds may be kept elsewhere in it.
  pub Content-ring :
      (heard : List ℕ) (s : Session p) (ring : Ring)
      → contents ring ≡ contents s.ring
      → ring.dropped ≡ s.ring.dropped
      → Content p law heard s
      → Content p law heard (record s { ring = ring })
  Content-ring heard s ring same d (inl (drained, all, v, e, awake)) =
      inl (drained, all ∙ ap (λ t. drained ++ t) (sym same), v, e, awake)
  Content-ring heard s ring same d (inr (inl full)) = inr (inl full)
  Content-ring heard s ring same d (inr (inr (inl closed))) = inr (inr (inl closed))
  Content-ring heard s ring same d (inr (inr (inr (lost, alive)))) =
      inr (inr (inr (omega (arith, lost, d), alive)))

  -- `capture` without samples does nothing.
  capture-nil : (s : Session p) → capture p s [] ≡ s
  unfolding capture
  capture-nil s =
      if-both (λ t. t ≡ s) (not s.capturing && not s.core.0.recording) refl
        (ap (λ r. record s { ring = r }) (push_ring-nil s.core.0.recording s.ring))

-- In a take whose budget is `most` bytes.
module _ (p : Platform) (law : IsSteady p) (most : ℕ) where
  pub record During (heard : List ℕ) (s : Session p) : Type 0 where
    pub ring_valid : Bounds.IsValid s.ring
    pub counted : (s.ring.dropped ≤ length heard) ⊎ (s.capturing ≡ false)
    pub content : Content p law heard s
    pub same_budget : s.core.0.max_pcm_bytes ≡ most

  -- The ring and the flags after `capture`.
  pub record Captured (heard more : List ℕ) (s s' : Session p) : Type 0 where
    pub during : During (heard ++ more) s'
    pub same_capturing : s'.capturing ≡ s.capturing
    pub same_cap : s'.ring.cap ≡ s.ring.cap
    pub grows : s'.ring.count ≤ s.ring.count + length more
    pub same_core : s'.core ≡ s.core

  -- The bound of the count, in a session with the same count.
  pub counted_as :
      (heard : List ℕ) (s s' : Session p)
      → s'.ring.dropped ≡ s.ring.dropped
      → s'.capturing ≡ s.capturing
      → (s.ring.dropped ≤ length heard) ⊎ (s.capturing ≡ false)
      → (s'.ring.dropped ≤ length heard) ⊎ (s'.capturing ≡ false)
  counted_as heard s s' same on (inl few) = inl (omega (arith, same, few))
  counted_as heard s s' same on (inr off) = inr (on ∙ off)

  Captured-nil : (heard : List ℕ) (s : Session p) → During heard s → Captured heard [] s s
  Captured-nil heard s d = record {
    during = subst (λ h. During h s) (sym (append-nil heard)) d;
    same_capturing = refl;
    same_cap = refl;
    grows = omega arith;
    same_core = refl;
  }

  Captured-push :
      (heard more : List ℕ) (s : Session p)
      → During heard s
      → s.capturing ≡ true
      → length heard + length more < word
      → Captured heard more s (record s { ring = push_ring s.core.0.recording s.ring more })
  Captured-push heard more s d on small =
      let dropped : s.ring.dropped ≤ length heard = elim d.counted [
        | inl few ↦ few
        | inr off ↦ absurd (ground (arith, on, off))
      ] in
      let (kept, valid, cap) =
        push_ring_refines s.core.0.recording {r = s.ring} more d.ring_valid in
      let (least, upper, drops) =
        push_ring-drops s.core.0.recording {r = s.ring} more d.ring_valid
          (omega (arith, dropped, small)) in
      record {
        during = record {
          ring_valid = valid;
          counted = inl (omega (arith, upper, dropped, length-append heard more));
          content =
              Content-pushed p law heard more s
                (record s { ring = push_ring s.core.0.recording s.ring more }) refl refl least drops
                on d.content;
          same_budget = d.same_budget;
        };
        same_capturing = refl;
        same_cap = cap;
        grows = push_ring-count s.core.0.recording {r = s.ring} more d.ring_valid;
        same_core = refl;
      }

  pub capture-Captured :
      (heard more : List ℕ) (s : Session p)
      → During heard s
      → (s.capturing ≡ true) ⊎ (more ≡ [])
      → length heard + length more < word
      → Captured heard more s (capture p s more)
  capture-Captured heard more s d (inl on) small =
      subst (Captured heard more s) (sym pushed) (Captured-push heard more s d on small)
    where
      pushed : capture p s more ≡ record s { ring = push_ring s.core.0.recording s.ring more }
      pushed = unfold capture in rw on
  capture-Captured heard more s d (inr none_heard) small =
      subst (λ m. Captured heard m s (capture p s m)) (sym none_heard)
        (subst (Captured heard [] s) (sym (capture-nil p law s)) (Captured-nil heard s d))
