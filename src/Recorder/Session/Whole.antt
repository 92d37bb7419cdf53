-- ===== src/Recorder/Session/Whole.antt =====
-- A take from `start` to `stop`, with the rounds of the main loop between them.
use tiny_voice.Prelude.{
  ℕ, ◌+◌, ◌-◌, ◌/◌, ◌≤◌, ◌<◌, ◌≡◌, sym, ap, ◌∙◌, ◌⊎◌, inl, inr, Bool, true, false, Option, none,
  some, List, ◌++◌, append_assoc, arith, ◌==◌, if◌then◌else◌, length, length-append, word,
}
use tiny_voice.Platform.{Platform, IsSteady}
use tiny_voice.Recorder.{bytes_per_second}
use tiny_voice.Recorder.Session.{Session, start, stop}
use tiny_voice.Recorder.Session.During.{flat}
use tiny_voice.Recorder.Session.Rounds.{take_rounds, Continues, take_rounds-Continues}
use tiny_voice.Recorder.Session.Start.{budget_of_start, held, length-held, Begun, start-Begun}
use tiny_voice.Recorder.Session.Stop.{Outcome, Stopped, stop-Stopped}
use tiny_voice.Ring.Bounds

module _ (p : Platform) where
  -- A whole take: `some none` where `start` refuses. The last parts are what has not arrived, and the
  -- room in the ring when `stop` is called.
  unfoldable pub record_take :
      ℕ
      → ℕ
      → List ℕ
      → List (List ℕ)
      → List ℕ
      → Session p
      → Option (Option (ℕ × ℕ × Session p × List (List ℕ) × ℕ))
  unfolding take_rounds
  record_take now rounds meanwhile arrivals late s = elim (start p now meanwhile arrivals s) [
    | none ↦ none
    | some (false, s1, left) ↦ some none
    | some (true, s1, left) ↦ elim (take_rounds p rounds left s1) [
      | none ↦ none
      | some (s2, left') ↦ elim (stop p late s2) [
        | none ↦ none
        | some (pcm, len, s3) ↦ some (some (pcm, len, s3, left', s2.ring.cap - s2.ring.count))
      ]
    ]
  ]

module _ (p : Platform) (law : IsSteady p) where
  -- What a whole take comes to: what was heard, what is kept of it, the sizes, and the file.
  abbrev pub Recorded :
      Session p
      → List ℕ
      → List (List ℕ)
      → List ℕ
      → Option (Option (ℕ × ℕ × Session p × List (List ℕ) × ℕ))
      → Type 0
  Recorded s meanwhile arrivals late none = ⊥
  Recorded s meanwhile arrivals late (some none) = Unit
  Recorded s meanwhile arrivals late (some (some (pcm, len, s', left, room))) =
      (heard : List ℕ) × (heard ++ flat left ≡ held p law s meanwhile ++ flat arrivals)
      × (bytes_per_second / 2 ≤ budget_of_start p s)
      × (kept : List ℕ) × ((kept ≡ heard ++ late) ⊎ (room < length late))
      × (len ≡ (if pcm == 0 then 0 else 44 + pcm))
      × Outcome p law kept (budget_of_start p s) pcm s'

  Stopped-Recorded :
      (s s2 : Session p) (meanwhile : List ℕ) (arrivals left : List (List ℕ)) (late heard : List ℕ)
      (o : Option (ℕ × ℕ × Session p))
      → heard ++ flat left ≡ held p law s meanwhile ++ flat arrivals
      → bytes_per_second / 2 ≤ budget_of_start p s
      → s2.ring.count ≤ s2.ring.cap
      → Stopped p law heard late (budget_of_start p s) s2 o
      → Recorded s meanwhile arrivals late (elim o [
        | none ↦ none
        | some (pcm, len, s3) ↦ some (some (pcm, len, s3, left, s2.ring.cap - s2.ring.count))
      ])
  Stopped-Recorded s s2 meanwhile arrivals left late heard none split room in_ring h = h
  Stopped-Recorded s s2 meanwhile arrivals left late heard (some (pcm, len, s3)) split room in_ring
        (kept, all, sizes, outcome) =
      (
        heard,
        split,
        room,
        kept,
        elim all [ inl e ↦ inl e | inr over ↦ inr (omega (arith, over, in_ring)) ],
        sizes,
        outcome,
      )

  rounds-Recorded :
      (s s1 : Session p) (meanwhile : List ℕ) (arrivals left : List (List ℕ)) (late heard : List ℕ)
      (o : Option (Session p × List (List ℕ)))
      → heard ++ flat left ≡ held p law s meanwhile ++ flat arrivals
      → bytes_per_second / 2 ≤ budget_of_start p s
      → 2 ≤ s1.ring.cap
      → length heard + length (flat left) + length late < word
      → Continues p law (budget_of_start p s) heard left s1 o
      → Recorded s meanwhile arrivals late (elim o [
        | none ↦ none
        | some (s2, left') ↦ elim (stop p late s2) [
          | none ↦ none
          | some (pcm, len, s3) ↦ some (some (pcm, len, s3, left', s2.ring.cap - s2.ring.count))
        ]
      ])
  rounds-Recorded s s1 meanwhile arrivals left late heard none split room cap small h = h
  rounds-Recorded s s1 meanwhile arrivals left late heard (some (s2, left')) split room roomy small
        h =
      Stopped-Recorded s s2 meanwhile arrivals left' late (heard ++ h.used) (stop p late s2)
        (append_assoc heard h.used (flat left') ∙ ap (λ t. heard ++ t) (sym h.split) ∙ split) room
        h.during.ring_valid.count_in
        (stop-Stopped p law (heard ++ h.used) late (budget_of_start p s) s2 h.during
          (omega (
            arith,
            small,
            ap length h.split,
            length-append h.used (flat left'),
            length-append heard h.used,
          ))
          (omega (arith, h.same_cap, roomy)))

  pub record_take-Recorded :
      (now rounds : ℕ) (meanwhile : List ℕ) (arrivals : List (List ℕ)) (late : List ℕ)
      (s : Session p)
      → Bounds.IsValid s.ring
      → 2 ≤ s.ring.cap
      → s.core.0.recording ≡ false
      → s.ring.cap + length (flat arrivals) + length late < word
      → Recorded s meanwhile arrivals late (record_take p now rounds meanwhile arrivals late s)
  unfolding record_take
  record_take-Recorded now rounds meanwhile arrivals late s v roomy idle small =
      by_start (start p now meanwhile arrivals s)
        (start-Begun p law now meanwhile arrivals s v idle (omega (arith, small)))
    where
      by_start :
          (o : Option (Bool × Session p × List (List ℕ)))
          → Begun p law s meanwhile arrivals o
          → Recorded s meanwhile arrivals late (elim o [
            | none ↦ none
            | some (false, s1, left) ↦ some none
            | some (true, s1, left) ↦ elim (take_rounds p rounds left s1) [
              | none ↦ none
              | some (s2, left') ↦ elim (stop p late s2) [
                | none ↦ none
                | some (pcm, len, s3) ↦
                    some (some (pcm, len, s3, left', s2.ring.cap - s2.ring.count))
              ]
            ]
          ])
      by_start none h = h
      by_start (some (false, s1, left)) h = tt
      by_start (some (true, s1, left)) (heard, split, d, on, cap, room) =
          let few : length heard + length (flat left) + length late < word = omega (
            arith,
            ap length split,
            small,
            length-append heard (flat left),
            length-held p law s meanwhile,
            length-append (held p law s meanwhile) (flat arrivals),
          ) in
          rounds-Recorded s s1 meanwhile arrivals left late heard (take_rounds p rounds left s1)
            split room (omega (arith, cap, roomy)) few
            (take_rounds-Continues p law (budget_of_start p s) rounds left heard s1 d on
              (omega (arith, few)))
