-- ===== src/Recorder/Session/Drains.antt =====
-- `loop` of a take ends, and moves samples from the ring to the recorder without losing one.
use tiny_voice.Prelude.{
  ℕ, zero, suc, ◌+◌, ◌-◌, ◌/◌, ◌<◌, min, ◌≡◌, refl, sym, ap, ◌∙◌, subst, ◌⊎◌, inl, inr, true, false,
  not, ◌||◌, Option, none, some, List, [], ◌++◌, arith, leb, ◌==◌, if◌then◌else◌, if-cases, length,
  length-append, nil_of_length, word,
}
use tiny_voice.Platform.{Platform, IsSteady}
use tiny_voice.Ring.{Ring, pop_ring}
use tiny_voice.Ring.Window.{contents}
use tiny_voice.Ring.Drops.{pop_ring-split}
use tiny_voice.Take.{is_open}
use tiny_voice.Recorder.{State, write_samples}
use tiny_voice.Recorder.Session.{i2s_read_samples, arriving, later, Session, capture, drain, loop}
use tiny_voice.Recorder.Session.Content.{Alive, Written}
use tiny_voice.Recorder.Session.Popped.{Content-popped, write_samples-Written, Content-Alive}
use tiny_voice.Recorder.Session.During.{
  flat, Content-ring, During, Captured, counted_as, capture-Captured,
}
use tiny_voice.Recorder.Session.Drained.{
  flat_next, nil_parts, Drained, Drains, Drained-none, Drains-after,
}
use tiny_voice.Ring.Bounds

module _ (p : Platform) (law : IsSteady p) (most : ℕ) where
  -- What a round finds: the session after the push, the pop, and the samples popped.
  pub record Popped (heard more : List ℕ) (s : Session p) (chunk : List ℕ) (ring : Ring)
      : Type 0 where
    pub captured : Captured p law most heard more s (capture p s more)
    pub front : contents (capture p s more).ring ≡ chunk ++ contents ring
    pub same_dropped : ring.dropped ≡ (capture p s more).ring.dropped
    pub valid : Bounds.IsValid ring
    pub cap : ring.cap ≡ (capture p s more).ring.cap
    pub size : length chunk ≡ min i2s_read_samples (capture p s more).ring.count
    pub count : ring.count + length chunk ≡ (capture p s more).ring.count

  Popped_lem :
      (heard more : List ℕ) (s : Session p)
      → During p law most heard s
      → (s.capturing ≡ true) ⊎ (more ≡ [])
      → length heard + length more < word
      → let (chunk, ring) = pop_ring (capture p s more).ring i2s_read_samples in
        Popped heard more s chunk ring
  Popped_lem heard more s d on small =
      let c = capture-Captured p law most heard more s d on small in
      let (front, dropped, valid, cap, size, count) =
        pop_ring-split i2s_read_samples {r = (capture p s more).ring} c.during.ring_valid in
      record {
        captured = c;
        front = front;
        same_dropped = dropped;
        valid = valid;
        cap = cap;
        size = size;
        count = count;
      }

  -- The ring was empty.
  Popped-empty :
      (heard more : List ℕ) (target : ℕ) (arrivals : List (List ℕ)) (s : Session p) (chunk : List ℕ)
      (ring : Ring)
      → flat arrivals ≡ more ++ flat (later arrivals)
      → Popped heard more s chunk ring
      → (length chunk == 0) ≡ true
      → Drained p law most heard target arrivals s
          (record (capture p s more) { ring = ring })
          (later arrivals)
  Popped-empty heard more target arrivals s chunk ring split q empty = record {
    used = more;
    split = split;
    during = record {
      ring_valid = q.valid;
      counted =
          counted_as p law most (heard ++ more) (capture p s more)
            (record (capture p s more) { ring = ring }) q.same_dropped refl
            q.captured.during.counted;
      content =
          Content-ring p law (heard ++ more) (capture p s more) ring
            (sym (
              q.front ∙ ap (λ t. t ++ contents ring) (nil_of_length chunk (ground (arith, empty)))))
            q.same_dropped q.captured.during.content;
      same_budget = q.captured.during.same_budget;
    };
    same_capturing = q.captured.same_capturing;
    same_cap = q.cap ∙ q.captured.same_cap;
    progress = inl (ground (arith, empty, q.size, q.count));
  }

  -- What was popped is written.
  Popped-During :
      (heard more chunk : List ℕ) (s : Session p) (ring : Ring) (c : State p)
      → Popped heard more s chunk ring
      → Written p law s.core chunk (some c)
      → During p law most (heard ++ more) (record (capture p s more) { ring = ring; core = c })
  Popped-During heard more chunk s ring c q w = record {
    ring_valid = q.valid;
    counted =
        counted_as p law most (heard ++ more) (capture p s more)
          (record (capture p s more) { ring = ring; core = c }) q.same_dropped refl
          q.captured.during.counted;
    content =
        Content-popped p law (heard ++ more) chunk (capture p s more)
          (record (capture p s more) { ring = ring; core = c }) q.front refl q.same_dropped
          (subst (λ b. Written p law b chunk (some c)) (sym q.captured.same_core) w)
          q.captured.during.content;
    same_budget =
        w.0.0
        ∙ ap (λ (c : State p). c.0.max_pcm_bytes) (sym q.captured.same_core)
        ∙ q.captured.during.same_budget;
  }

  -- A round that popped samples, and the rounds behind it.
  drain-step :
      (fuel budget drained : ℕ) (arrivals : List (List ℕ)) (heard more chunk : List ℕ)
      (s : Session p) (ring : Ring)
      → flat arrivals ≡ more ++ flat (later arrivals)
      → Popped heard more s chunk ring
      → (length chunk == 0) ≡ false
      → drained < budget
      → ((s' : Session p)
          → During p law most (heard ++ more) s'
          → s'.capturing ≡ s.capturing
          → Drains p law most
              (heard ++ more)
              (budget - (drained + length chunk))
              (later arrivals)
              s'
              (drain p fuel budget (drained + length chunk) (later arrivals) s'))
      → Drains p law most heard (budget - drained) arrivals s (elim (write_samples p s.core chunk) [
        | none ↦ none
        | some c ↦
            drain p fuel budget
              (drained + length chunk)
              (later arrivals)
              (record (capture p s more) { ring = ring; core = c })
      ])
  drain-step fuel budget drained arrivals heard more chunk s ring split q nonempty below ih =
      by_write (write_samples p s.core chunk) (write_samples-Written p law s.core chunk alive)
    where
      alive : Alive p law s.core
      alive =
          subst (Alive p law) q.captured.same_core
            (Content-Alive p law (heard ++ more) (capture p s more) q.captured.during.content)

      by_write :
          (o : Option (State p))
          → Written p law s.core chunk o
          → Drains p law most heard (budget - drained) arrivals s (elim o [
            | none ↦ none
            | some c ↦
                drain p fuel budget
                  (drained + length chunk)
                  (later arrivals)
                  (record (capture p s more) { ring = ring; core = c })
          ])
      by_write none w = w
      by_write (some c) w =
          let s' : Session p = record (capture p s more) { ring = ring; core = c } in
          Drains-after p law most heard more (budget - drained) (budget - (drained + length chunk))
            arrivals s s' (drain p fuel budget (drained + length chunk) (later arrivals) s') split
            q.captured.same_capturing (q.cap ∙ q.captured.same_cap)
            (omega (arith, q.count, q.captured.grows))
            (ih s' (Popped-During heard more chunk s ring c q w) q.captured.same_capturing)

  drain-Drains :
      (fuel budget drained : ℕ) (arrivals : List (List ℕ)) (heard : List ℕ) (s : Session p)
      → During p law most heard s
      → (s.capturing ≡ true) ⊎ (flat arrivals ≡ [])
      → length heard + length (flat arrivals) < word
      → 0 < fuel
      → budget < fuel + drained
      → Drains p law most heard
          (budget - drained)
          arrivals
          s
          (drain p fuel budget drained arrivals s)
  unfolding drain
  drain-Drains zero budget drained arrivals heard s d on small positive enough =
      absurd (omega arith)
  drain-Drains (suc fuel) budget drained arrivals heard s d on small positive enough =
      if-cases (Drains p law most heard (budget - drained) arrivals s) (leb budget drained)
        {x = some (s, arrivals)}
        (λ done.
          Drained-none p law most heard (budget - drained) arrivals s d
            (inl (ground (arith, done))))
        (λ below.
          if-cases (Drains p law most heard (budget - drained) arrivals s) (length chunk == 0)
            {x = some (record (capture p s more) { ring = ring }, later arrivals)}
            (λ empty.
              Popped-empty heard more (budget - drained) arrivals s chunk ring split popped empty)
            (λ nonempty.
              drain-step fuel budget drained arrivals heard more chunk s ring split popped nonempty
                (ground (arith, below))
                (λ s' d' same.
                  drain-Drains fuel budget (drained + length chunk) (later arrivals) (heard ++ more)
                    s' d'
                    (elim on [
                      | inl going ↦ inl (same ∙ going)
                      | inr quiet ↦
                          inr (nil_parts more (flat (later arrivals)) (sym split ∙ quiet)).1
                    ])
                    (omega (arith, small, lengths, length-append heard more))
                    (ground (arith, below, enough)) (ground (arith, nonempty, enough)))))
    where
      more : List ℕ
      more = arriving arrivals

      split : flat arrivals ≡ more ++ flat (later arrivals)
      split = flat_next arrivals

      lengths : length (flat arrivals) ≡ length more + length (flat (later arrivals))
      lengths = ap length split ∙ length-append more (flat (later arrivals))

      chunk : List ℕ
      chunk = (pop_ring (capture p s more).ring i2s_read_samples).0

      ring : Ring
      ring = (pop_ring (capture p s more).ring i2s_read_samples).1

      popped : Popped heard more s chunk ring
      popped =
          Popped_lem heard more s d
            (elim on [
              | inl going ↦ inl going
              | inr quiet ↦ inr (nil_parts more (flat (later arrivals)) (sym split ∙ quiet)).0
            ])
            (omega (arith, small, lengths))

  pub loop-Drains :
      (arrivals : List (List ℕ)) (heard : List ℕ) (s : Session p)
      → During p law most heard s
      → (s.capturing ≡ true) ⊎ (flat arrivals ≡ [])
      → length heard + length (flat arrivals) < word
      → Drains p law most heard
          (if is_open s.core.1.0 then s.ring.cap / 2 else 0)
          arrivals
          s
          (loop p arrivals s)
  unfolding loop
  loop-Drains arrivals heard s d on small =
      if-cases (Drains p law most heard target arrivals s)
        (not (is_open s.core.1.0) || s.ring.count == 0) {x = some (s, arrivals)}
        (λ idle. Drained-none p law most heard target arrivals s d (ground (arith, idle)))
        (λ busy.
          subst
            (λ t. Drains p law most heard t arrivals s (drain p (suc budget) budget 0 arrivals s))
            {x = budget - 0} {y = target} (ground (arith, busy))
            (drain-Drains (suc budget) budget 0 arrivals heard s d on small (omega arith)
              (omega arith)))
    where
      budget : ℕ
      budget = s.ring.cap / 2

      target : ℕ
      target = if is_open s.core.1.0 then s.ring.cap / 2 else 0
