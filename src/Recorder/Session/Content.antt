-- ===== src/Recorder/Session/Content.antt =====
-- Where the samples that were heard are, at every point of a take.
use tiny_voice.Prelude.{
  ℕ, zero, suc, ◌/◌, ◌%◌, ◌<◌, min, ◌≡◌, refl, sym, ap, ◌∙◌, subst, ◌⊎◌, true, Option, none, some,
  List, [], ◌∷◌, ◌++◌, arith, length, take, length-take, take-all, take-append_left,
}
use tiny_voice.Platform.{Platform, IsSteady}
use tiny_voice.Ring.Window.{contents}
use tiny_voice.Recorder.{encode, State}
use tiny_voice.Recorder.Chunks.{stream, IsValid, IsClosed}
use tiny_voice.Recorder.Samples.{Wrote, IsClosed-more}
use tiny_voice.Recorder.Flags.{Flag}
use tiny_voice.Recorder.Session.{Session}

pub encode-append : (xs ys : List ℕ) → encode (xs ++ ys) ≡ encode xs ++ encode ys
encode-append [] ys = refl
encode-append (x ∷ xs) ys = ap (λ t. x % 256 ∷ (x / 256 % 256 ∷ t)) (encode-append xs ys)

take-of-take : (k n : ℕ) (xs : List ℕ) → take k (take n xs) ≡ take (min k n) xs
take-of-take zero n xs = ap (λ k. take k xs) {x = 0} {y = min 0 n} (omega arith)
take-of-take (suc k) zero xs = ap (λ k. take k xs) {x = 0} {y = min (suc k) 0} (omega arith)
take-of-take (suc k) (suc n) [] = sym (take-all (min (suc k) (suc n)) [] (omega arith))
take-of-take (suc k) (suc n) (x ∷ xs) =
    ap (λ t. x ∷ t) (take-of-take k n xs)
    ∙ ap (λ k. take k (x ∷ xs)) {x = suc (min k n)} {y = min (suc k) (suc n)} (omega arith)

module _ (p : Platform) (law : IsSteady p) where
  -- All that was heard is written or waits in the ring, and the take runs while it is captured.
  abbrev pub Exact : List ℕ → Session p → Type 0
  Exact heard s =
      (drained : List ℕ) × (heard ≡ drained ++ contents s.ring)
      × IsValid p law s.core
      × (stream p law s.core ≡ encode drained)
      × (s.capturing ≡ true → s.core.0.recording ≡ true)

  -- The budget is used up by what was heard first.
  abbrev pub Full : List ℕ → Session p → Type 0
  Full heard s =
      IsValid p law s.core
      × (stream p law s.core ≡ take s.core.0.max_pcm_bytes (encode heard))
      × (length (stream p law s.core) ≡ s.core.0.max_pcm_bytes)

  -- Samples were lost, and counted.
  abbrev pub Lossy : Session p → Type 0
  Lossy s = (0 < s.ring.dropped) × (IsValid p law s.core ⊎ (s.core.0.disk_full ≡ true))

  -- The other case is a take that a failing write closed, whose file has a front part.
  abbrev pub Content : List ℕ → Session p → Type 0
  Content heard s =
      Exact heard s ⊎ (Full heard s ⊎ (IsClosed p law (encode heard) s.core ⊎ Lossy s))

  pub Full-more : (heard more : List ℕ) (s : Session p) → Full heard s → Full (heard ++ more) s
  Full-more heard more s (v, e, n) = (
    v,
    e
        ∙ sym (
            ap (take s.core.0.max_pcm_bytes) (encode-append heard more)
            ∙ take-append_left s.core.0.max_pcm_bytes (encode heard) (encode more)
                (omega (arith, ap length e, length-take s.core.0.max_pcm_bytes (encode heard), n))),
    n,
  )

  pub Closed-more :
      (heard more : List ℕ) (c : State p)
      → IsClosed p law (encode heard) c
      → IsClosed p law (encode (heard ++ more)) c
  Closed-more heard more c h =
      subst (λ b. IsClosed p law b c) (sym (encode-append heard more))
        (IsClosed-more p law (encode heard) (encode more) c h)

  -- A take that is closed at a front part of what the budget takes is closed at one of the whole.
  pub Closed-take :
      (n : ℕ) (bytes : List ℕ) (c : State p)
      → IsClosed p law (take n bytes) c
      → IsClosed p law bytes c
  Closed-take n bytes c h = record {
    closed = h.closed;
    not_recording = h.not_recording;
    kept = min h.kept n;
    within = omega (arith, h.within);
    prefix = h.prefix ∙ take-of-take h.kept n bytes;
  }

  -- What `writeSamples` did: as `Wrote` says in a valid take, and nothing in a closed one.
  abbrev pub Alive : State p → Type 0
  Alive c = IsValid p law c ⊎ (c.0.disk_full ≡ true)

  abbrev pub Written : State p → List ℕ → Option (State p) → Type 0
  Written c chunk none = ⊥
  Written c chunk (some c') =
      Flag c.0 c'.0
      × ((IsValid p law c × Wrote p law c chunk (some c')) ⊎ ((c.0.disk_full ≡ true) × (c' ≡ c)))
