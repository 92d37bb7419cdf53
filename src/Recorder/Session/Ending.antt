-- ===== src/Recorder/Session/Ending.antt =====
-- `stop` after a take: the ring is emptied, the buffer written, and the file's size believed.
use tiny_voice.Prelude.{
  ℕ, zero, suc, ◌+◌, ◌*◌, ◌/◌, ◌≤◌, ◌<◌, ◌≡◌, refl, sym, ap, ◌∙◌, subst, ◌⊎◌, inl, inr, true, false,
  Option, none, some, List, [], ◌++◌, append-nil, arith, ◌==◌, if◌then◌else◌, Bool-cases, length,
  length-append, nil_of_length, word,
}
use tiny_voice.Platform.{Platform, IsSteady}
use tiny_voice.Take.{is_open}
use tiny_voice.Recorder.Session.{Session, loop, drain_all}
use tiny_voice.Recorder.Session.During.{flat, During}
use tiny_voice.Recorder.Session.Drains.{loop-Drains}
use tiny_voice.Recorder.Session.Drained.{Drained, Drains}

module _ (p : Platform) (law : IsSteady p) (most : ℕ) where
  -- A take that is not open is not drained.
  loop_shut :
      (arrivals : List (List ℕ)) (s : Session p)
      → is_open s.core.1.0 ≡ false
      → loop p arrivals s ≡ some (s, arrivals)
  unfolding loop
  loop_shut arrivals s shut = rw shut

  abbrev pub Emptied : List ℕ → Session p → Option (Session p) → Type 0
  Emptied heard s none = ⊥
  Emptied heard s (some s') =
      During p law most heard s'
      × (is_open s'.core.1.0 ≡ true → (is_open s.core.1.0 ≡ true) × (s'.ring.count ≡ 0))

  -- What the drain left where nothing arrived.
  nothing_used :
      (heard : List ℕ) (target : ℕ) (s s' : Session p) (left : List (List ℕ))
      → Drained p law most heard target [] s s' left
      → During p law most heard s' × ((s'.ring.count ≡ 0) ⊎ (s'.ring.count + target ≤ s.ring.count))
  nothing_used heard target s s' left h = (
    subst (λ t. During p law most t s') (ap (λ u. heard ++ u) silent ∙ append-nil heard) h.during,
    elim h.progress [
      | inl empty ↦ inl empty
      | inr less ↦ inr (omega (arith, less, ap length silent))
    ],
  )
    where
      silent : h.used ≡ []
      silent =
          nil_of_length h.used (omega (arith, ap length h.split, length-append h.used (flat left)))

  Emptied-from :
      (heard : List ℕ) (s s' : Session p) (o : Option (Session p))
      → is_open s.core.1.0 ≡ true
      → Emptied heard s' o
      → Emptied heard s o
  Emptied-from heard s s' none on h = h
  Emptied-from heard s s' (some s'') on h = (h.0, λ e. (on, (h.1 e).1))

  -- The last loop, or one more before the rest.
  Emptied-loop :
      (rounds : ℕ) (heard : List ℕ) (s : Session p) (o : Option (Session p × List (List ℕ)))
      → is_open s.core.1.0 ≡ true
      → s.ring.count ≤ suc rounds * (s.ring.cap / 2)
      → Drains p law most heard (s.ring.cap / 2) [] s o
      → ((s' : Session p)
          → During p law most heard s'
          → s'.ring.count ≤ rounds * (s'.ring.cap / 2)
          → Emptied heard s' (drain_all p rounds s'))
      → Emptied heard s (elim o [
        | none ↦ none
        | some (s', left) ↦ elim (s'.ring.count == 0) [
          | true ↦ some s'
          | false ↦ drain_all p rounds s'
        ]
      ])
  Emptied-loop rounds heard s none on few h ih = h
  Emptied-loop rounds heard s (some (s', left)) on few h ih =
      let (d, progress) = nothing_used heard (s.ring.cap / 2) s s' left h in
      elim (Bool-cases (s'.ring.count == 0)) [
        | inl empty ↦ rw empty (d, λ e. (on, ground (arith, empty)))
        | inr more ↦ rw more (
            Emptied-from heard s s' (drain_all p rounds s') on (
              ih s' d (
                subst (λ c. s'.ring.count ≤ rounds * (c / 2)) (sym h.same_cap)
                  (fewer progress more))))
      ]
    where
      fewer :
          (s'.ring.count ≡ 0) ⊎ (s'.ring.count + s.ring.cap / 2 ≤ s.ring.count)
          → (s'.ring.count == 0) ≡ false
          → s'.ring.count ≤ rounds * (s.ring.cap / 2)
      fewer (inl empty) more = absurd (ground (arith, empty, more))
      fewer (inr less) more = omega (arith, less, few)

  Emptied-idle :
      (rounds : ℕ) (heard : List ℕ) (s : Session p)
      → During p law most heard s
      → (is_open s.core.1.0 ≡ true → ⊥)
      → Emptied heard s (drain_all p rounds s)
      → Emptied heard s (elim (s.ring.count == 0) [ true ↦ some s | false ↦ drain_all p rounds s ])
  Emptied-idle rounds heard s d off h = elim (Bool-cases (s.ring.count == 0)) [
    | inl empty ↦ rw empty (d, λ e. absurd (off e))
    | inr more ↦ rw more h
  ]

  pub drain_all-Emptied :
      (rounds : ℕ) (heard : List ℕ) (s : Session p)
      → During p law most heard s
      → length heard < word
      → (is_open s.core.1.0 ≡ true → s.ring.count ≤ rounds * (s.ring.cap / 2))
      → Emptied heard s (drain_all p rounds s)
  unfolding drain_all
  drain_all-Emptied zero heard s d small few = (d, λ e. (e, omega (arith, few e)))
  drain_all-Emptied (suc rounds) heard s d small few = elim (Bool-cases (is_open s.core.1.0)) [
    | inl on ↦
        Emptied-loop rounds heard s (loop p [] s) on (few on)
          (subst (λ n. Drains p law most heard n [] s (loop p [] s))
            {x = if is_open s.core.1.0 then s.ring.cap / 2 else 0} {y = s.ring.cap / 2} (rw on)
            (loop-Drains p law most [] heard s d (inr refl) (omega (arith, small))))
          (λ s' d' few'. drain_all-Emptied rounds heard s' d' small (λ e. few'))
    | inr off ↦
        subst (Emptied heard s)
          (sym (
            ap
              (λ (o : Option (Session p × List (List ℕ))). elim o [
                | none ↦ none
                | some (s', left) ↦ elim (s'.ring.count == 0) [
                  | true ↦ some s'
                  | false ↦ drain_all p rounds s'
                ]
              ])
              (loop_shut [] s off)))
          (Emptied-idle rounds heard s d (closed off)
            (drain_all-Emptied rounds heard s d small (λ e. absurd (closed off e))))
  ]
    where
      closed : is_open s.core.1.0 ≡ false → is_open s.core.1.0 ≡ true → ⊥
      closed off e = cc
