-- ===== src/Recorder/Session/Drained.antt =====
-- What `loop` leaves: the samples heard since, and how far the ring is emptied.
use tiny_voice.Prelude.{
  ℕ, ◌+◌, ◌≤◌, ◌≡◌, refl, sym, ap, ◌∙◌, subst, ◌⊎◌, inl, inr, Option, none, some, List, [], ◌∷◌,
  ◌++◌, append-nil, append_assoc, arith, length, length-append, nil_of_length,
}
use tiny_voice.Platform.{Platform, IsSteady}
use tiny_voice.Recorder.Session.{arriving, later, Session}
use tiny_voice.Recorder.Session.During.{flat, During}

pub flat_next :
    (arrivals : List (List ℕ)) → flat arrivals ≡ arriving arrivals ++ flat (later arrivals)
flat_next [] = refl
flat_next (a ∷ arrivals) = refl

pub nil_parts : (xs ys : List ℕ) → xs ++ ys ≡ [] → (xs ≡ []) × (ys ≡ [])
nil_parts xs ys e = (
  nil_of_length xs (omega (arith, ap length e, length-append xs ys)),
  nil_of_length ys (omega (arith, ap length e, length-append xs ys)),
)

module _ (p : Platform) (law : IsSteady p) (most : ℕ) where
  -- From `s` and what arrives, the loop is in `s'`: `used` was heard since.
  pub record Drained (heard : List ℕ) (target : ℕ) (arrivals : List (List ℕ)) (s s' : Session p)
      (left : List (List ℕ)) : Type 0 where
    pub used : List ℕ
    pub split : flat arrivals ≡ used ++ flat left
    pub during : During p law most (heard ++ used) s'
    pub same_capturing : s'.capturing ≡ s.capturing
    pub same_cap : s'.ring.cap ≡ s.ring.cap
    pub progress : (s'.ring.count ≡ 0) ⊎ (s'.ring.count + target ≤ s.ring.count + length used)

  abbrev pub Drains :
      List ℕ → ℕ → List (List ℕ) → Session p → Option (Session p × List (List ℕ)) → Type 0
  Drains heard target arrivals s none = ⊥
  Drains heard target arrivals s (some (s', left)) = Drained heard target arrivals s s' left

  -- No round was needed.
  pub Drained-none :
      (heard : List ℕ) (target : ℕ) (arrivals : List (List ℕ)) (s : Session p)
      → During p law most heard s
      → (target ≡ 0) ⊎ (s.ring.count ≡ 0)
      → Drained heard target arrivals s s arrivals
  Drained-none heard target arrivals s d h = record {
    used = [];
    split = refl;
    during = subst (λ h. During p law most h s) (sym (append-nil heard)) d;
    same_capturing = refl;
    same_cap = refl;
    progress = elim h [ inl z ↦ inr (omega (arith, z)) | inr e ↦ inl e ];
  }

  -- A round, and then the rest.
  pub Drains-after :
      (heard more : List ℕ) (target rest : ℕ) (arrivals : List (List ℕ)) (s s' : Session p)
      (o : Option (Session p × List (List ℕ)))
      → flat arrivals ≡ more ++ flat (later arrivals)
      → s'.capturing ≡ s.capturing
      → s'.ring.cap ≡ s.ring.cap
      → s'.ring.count + target ≤ s.ring.count + length more + rest
      → Drains (heard ++ more) rest (later arrivals) s' o
      → Drains heard target arrivals s o
  Drains-after heard more target rest arrivals s s' none split on same_cap step h = h
  Drains-after heard more target rest arrivals s s' (some (s'', left)) split on same_cap step h =
      record {
        used = more ++ h.used;
        split = split ∙ ap (λ t. more ++ t) h.split ∙ sym (append_assoc more h.used (flat left));
        during = subst (λ t. During p law most t s'') (append_assoc heard more h.used) h.during;
        same_capturing = h.same_capturing ∙ on;
        same_cap = h.same_cap ∙ same_cap;
        progress = elim h.progress [
          | inl empty ↦ inl empty
          | inr less ↦ inr (omega (arith, less, step, length-append more h.used))
        ];
      }
