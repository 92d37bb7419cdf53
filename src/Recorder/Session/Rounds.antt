-- ===== src/Recorder/Session/Rounds.antt =====
-- The rounds of the main loop in a take: `loop` again and again, while samples arrive.
use tiny_voice.Prelude.{
  ℕ, zero, suc, ◌+◌, ◌/◌, ◌≤◌, ◌<◌, ◌≡◌, refl, sym, ap, ◌∙◌, subst, ◌⊎◌, inl, inr, true, Option,
  none, some, List, ◌++◌, append_assoc, arith, if◌then◌else◌, length, length-append, word,
}
use tiny_voice.Platform.{Platform, IsSteady}
use tiny_voice.Take.{is_open}
use tiny_voice.Recorder.Session.{arriving, later, Session, capture, loop, drain_twice}
use tiny_voice.Recorder.Session.During.{flat, During, Captured, capture-Captured}
use tiny_voice.Recorder.Session.Drains.{loop-Drains}
use tiny_voice.Recorder.Session.Drained.{flat_next, Drained, Drains, Drained-none}

module _ (p : Platform) where
  -- Rounds of the main loop: what arrives before a round, and then `loop`.
  unfoldable pub take_rounds : ℕ → List (List ℕ) → Session p → Option (Session p × List (List ℕ))
  take_rounds zero arrivals s = some (s, arrivals)
  take_rounds (suc rounds) arrivals s =
      elim (loop p (later arrivals) (capture p s (arriving arrivals))) [
        | none ↦ none
        | some (s', left) ↦ take_rounds rounds left s'
      ]

module _ (p : Platform) (law : IsSteady p) (most : ℕ) where
  -- The take goes on: what arrived since is heard.
  abbrev pub Continues :
      List ℕ → List (List ℕ) → Session p → Option (Session p × List (List ℕ)) → Type 0
  Continues heard arrivals s none = ⊥
  Continues heard arrivals s (some (s', left)) = Drained p law most heard 0 arrivals s s' left

  Continues-then :
      (heard : List ℕ) (arrivals : List (List ℕ)) (s s' : Session p) (left : List (List ℕ))
      (h : Drained p law most heard 0 arrivals s s' left) (o : Option (Session p × List (List ℕ)))
      → Continues (heard ++ h.used) left s' o
      → Continues heard arrivals s o
  Continues-then heard arrivals s s' left h none h' = h'
  Continues-then heard arrivals s s' left h (some (s'', left')) h' = record {
    used = h.used ++ h'.used;
    split =
        h.split ∙ ap (λ t. h.used ++ t) h'.split ∙ sym (append_assoc h.used h'.used (flat left'));
    during = subst (λ t. During p law most t s'') (append_assoc heard h.used h'.used) h'.during;
    same_capturing = h'.same_capturing ∙ h.same_capturing;
    same_cap = h'.same_cap ∙ h.same_cap;
    progress = further h.progress h'.progress;
  }
    where
      further :
          (s'.ring.count ≡ 0) ⊎ (s'.ring.count + 0 ≤ s.ring.count + length h.used)
          → (s''.ring.count ≡ 0) ⊎ (s''.ring.count + 0 ≤ s'.ring.count + length h'.used)
          → (s''.ring.count ≡ 0) ⊎ (s''.ring.count + 0 ≤ s.ring.count + length (h.used ++ h'.used))
      further a (inl empty) = inl empty
      further (inl empty) (inr less) =
          inr (omega (arith, empty, less, length-append h.used h'.used))
      further (inr least) (inr less) =
          inr (omega (arith, least, less, length-append h.used h'.used))

  loop-Continues :
      (arrivals : List (List ℕ)) (heard : List ℕ) (s : Session p)
      → During p law most heard s
      → s.capturing ≡ true
      → length heard + length (flat arrivals) < word
      → Continues heard arrivals s (loop p arrivals s)
  loop-Continues arrivals heard s d on small =
      weaker (loop p arrivals s) (loop-Drains p law most arrivals heard s d (inl on) small)
    where
      weaker :
          (o : Option (Session p × List (List ℕ)))
          → Drains p law most heard (if is_open s.core.1.0 then s.ring.cap / 2 else 0) arrivals s o
          → Continues heard arrivals s o
      weaker none h = h
      weaker (some (s', left)) h = record {
        used = h.used;
        split = h.split;
        during = h.during;
        same_capturing = h.same_capturing;
        same_cap = h.same_cap;
        progress = elim h.progress [ inl empty ↦ inl empty | inr less ↦ inr (omega (arith, less)) ];
      }

  -- The bound on what is heard goes along.
  pub still_small :
      (heard used : List ℕ) (arrivals left : List (List ℕ))
      → flat arrivals ≡ used ++ flat left
      → length heard + length (flat arrivals) < word
      → length (heard ++ used) + length (flat left) < word
  still_small heard used arrivals left split small =
      omega
        (arith, small, ap length split, length-append used (flat left), length-append heard used)

  pub drain_twice-Continues :
      (arrivals : List (List ℕ)) (heard : List ℕ) (s : Session p)
      → During p law most heard s
      → s.capturing ≡ true
      → length heard + length (flat arrivals) < word
      → Continues heard arrivals s (drain_twice p arrivals s)
  unfolding drain_twice
  drain_twice-Continues arrivals heard s d on small =
      second (loop p arrivals s) (loop-Continues arrivals heard s d on small)
    where
      second :
          (o : Option (Session p × List (List ℕ)))
          → Continues heard arrivals s o
          → Continues heard arrivals s (elim o [ none ↦ none | some (s', left) ↦ loop p left s' ])
      second none h = h
      second (some (s', left)) h = Continues-then heard arrivals s s' left h (loop p left s') (
          loop-Continues left (heard ++ h.used) s' h.during (h.same_capturing ∙ on)
            (still_small heard h.used arrivals left h.split small))

  -- What is pushed before a round is heard as well.
  abbrev pushed_before :
      (heard : List ℕ) (arrivals : List (List ℕ)) (s : Session p)
      → Captured p law most heard (arriving arrivals) s (capture p s (arriving arrivals))
      → Drained p law most heard 0 arrivals s (capture p s (arriving arrivals)) (later arrivals)
  pushed_before heard arrivals s c = record {
    used = arriving arrivals;
    split = flat_next arrivals;
    during = c.during;
    same_capturing = c.same_capturing;
    same_cap = c.same_cap;
    progress = inr (omega (arith, c.grows));
  }

  pub take_rounds-Continues :
      (rounds : ℕ) (arrivals : List (List ℕ)) (heard : List ℕ) (s : Session p)
      → During p law most heard s
      → s.capturing ≡ true
      → length heard + length (flat arrivals) < word
      → Continues heard arrivals s (take_rounds p rounds arrivals s)
  unfolding take_rounds
  take_rounds-Continues zero arrivals heard s d on small =
      Drained-none p law most heard 0 arrivals s d (inl refl)
  take_rounds-Continues (suc rounds) arrivals heard s d on small =
      Continues-then heard arrivals s s1 (later arrivals) first
        (elim (loop p (later arrivals) s1) [
          | none ↦ none
          | some (s', left) ↦ take_rounds p rounds left s'
        ])
        (by_loop (loop p (later arrivals) s1)
          (loop-Continues (later arrivals) (heard ++ arriving arrivals) s1 first.during
            (first.same_capturing ∙ on) small1)
          (λ left heard' s' d' on' small'.
            take_rounds-Continues rounds left heard' s' d' on' small'))
    where
      s1 : Session p
      s1 = capture p s (arriving arrivals)

      pushed : Captured p law most heard (arriving arrivals) s (capture p s (arriving arrivals))
      pushed = capture-Captured p law most heard (arriving arrivals) s d (inl on) (
          omega (
            arith,
            small,
            ap length (flat_next arrivals),
            length-append (arriving arrivals) (flat (later arrivals)),
          ))

      first : Drained p law most heard 0 arrivals s s1 (later arrivals)
      first = pushed_before heard arrivals s pushed

      small1 : length (heard ++ arriving arrivals) + length (flat (later arrivals)) < word
      small1 =
          still_small heard (arriving arrivals) arrivals (later arrivals) (flat_next arrivals) small

      by_loop :
          (o : Option (Session p × List (List ℕ)))
          → Continues (heard ++ arriving arrivals) (later arrivals) s1 o
          → ((left : List (List ℕ)) (heard' : List ℕ) (s' : Session p)
              → During p law most heard' s'
              → s'.capturing ≡ true
              → length heard' + length (flat left) < word
              → Continues heard' left s' (take_rounds p rounds left s'))
          → Continues
              (heard ++ arriving arrivals)
              (later arrivals)
              s1
              (elim o [ none ↦ none | some (s', left) ↦ take_rounds p rounds left s' ])
      by_loop none h ih = h
      by_loop (some (s', left)) h ih =
          Continues-then (heard ++ arriving arrivals) (later arrivals) s1 s' left h
            (take_rounds p rounds left s')
            (ih left ((heard ++ arriving arrivals) ++ h.used) s' h.during
              (h.same_capturing ∙ first.same_capturing ∙ on)
              (still_small (heard ++ arriving arrivals) h.used (later arrivals) left h.split
                small1))
