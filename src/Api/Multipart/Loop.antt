-- ===== src/Api/Multipart/Loop.antt =====
-- A stream that delivers a text, read by read.
use tiny_voice.Prelude.{
  ℕ, zero, suc, ◌-◌, ◌≤◌, ◌<◌, ◌≡◌, refl, sym, ap, ap₂, ◌∙◌, subst, Option, none, some, List, [],
  ◌∷◌, ◌++◌, arith, ◌==◌, if-cases, length, take, drop, drop-all, drop-append_right,
  take-append_right, take-nil,
}
use tiny_voice.Api.Multipart.{read_loop, read_bytes, read_all}

-- A round ends the loop only where nothing is left to deliver; else it gives a byte at least, no more
-- than asked for, from the front of what is left.
abbrev pub Gives : {S : Type 0} → (S → Type 0) → (S → List ℕ) → ℕ → S → Option (List ℕ) × S → Type 0
Gives IsValid view left s (none, s') = (view s ≡ []) × (view s' ≡ []) × IsValid s'
Gives IsValid view left s (some bytes, s') =
    (0 < length bytes) × (length bytes ≤ left) × (view s ≡ bytes ++ view s') × IsValid s'

-- A text cut at these lengths, one after the other.
abbrev pub parts : List ℕ → List ℕ → List (List ℕ)
parts [] text = []
parts (n ∷ ns) text = take n text ∷ parts ns (drop n text)

module _ {S : Type 0} (round : ℕ → S → Option (List ℕ) × S) (IsValid : S → Type 0)
    (view : S → List ℕ)
    (law : (left : ℕ) (s : S)
      → 0 < left
      → IsValid s
      → Gives IsValid view left s (round left s)) where
  abbrev pub Delivers : ℕ → S → List ℕ × S → Type 0
  Delivers n s r = (r.0 ≡ take n (view s)) × (view r.1 ≡ drop n (view s)) × IsValid r.1

  nothing_asked : (s : S) → IsValid s → Delivers 0 s ([], s)
  nothing_asked s v = (refl, refl, v)

  nothing_left :
      (n : ℕ) (s s' : S) → view s ≡ [] → view s' ≡ [] → IsValid s' → Delivers n s ([], s')
  nothing_left n s s' e e' v = (
    sym (ap (take n) e ∙ take-nil n),
    e' ∙ sym (drop-all n [] (omega arith)) ∙ ap (drop n) (sym e),
    v,
  )

  Delivers-cons :
      (left : ℕ) (s s1 : S) (bytes : List ℕ) (r : List ℕ × S)
      → length bytes ≤ left
      → view s ≡ bytes ++ view s1
      → Delivers (left - length bytes) s1 r
      → Delivers left s (bytes ++ r.0, r.1)
  Delivers-cons left s s1 bytes r short e (out, rest, v) = (
    ap (λ t. bytes ++ t) out
        ∙ sym (ap (take left) e ∙ take-append_right left bytes (view s1) short),
    rest ∙ sym (ap (drop left) e ∙ drop-append_right left bytes (view s1) short),
    v,
  )

  read_loop-Delivers :
      (fuel left : ℕ) (s : S)
      → left ≤ fuel
      → IsValid s
      → Delivers left s (read_loop round fuel left s)
  unfolding read_loop
  read_loop-Delivers zero left s h v =
      subst (λ n. Delivers n s ([], s)) {x = 0} (omega arith) (nothing_asked s v)
  read_loop-Delivers (suc fuel) left s h v =
      if-cases (Delivers left s) (left == 0) {x = ([], s)}
        (λ e. subst (λ n. Delivers n s ([], s)) {x = 0} (ground arith) (nothing_asked s v))
        (λ more.
          by_round (read_loop round fuel) (λ n s'. read_loop-Delivers fuel n s') (round left s).0
            (round left s).1 (law left s (ground arith) v))
    where
      by_round :
          (rest : ℕ → S → List ℕ × S)
          → ((n : ℕ) (s' : S) → n ≤ fuel → IsValid s' → Delivers n s' (rest n s'))
          → (o : Option (List ℕ)) (s1 : S) → Gives IsValid view left s (o, s1)
          → Delivers left s (elim o [
            | none ↦ ([], s1)
            | some bytes ↦ let (out, s2) = rest (left - length bytes) s1 in (bytes ++ out, s2)
          ])
      by_round rest ih none s1 (e, e1, v1) = nothing_left left s s1 e e1 v1
      by_round rest ih (some bytes) s1 (one, short, e, v1) =
          Delivers-cons left s s1 bytes (rest (left - length bytes) s1) short e
            (ih (left - length bytes) s1 (omega arith) v1)

  pub read_bytes-Delivers : (n : ℕ) (s : S) → IsValid s → Delivers n s (read_bytes round n s)
  unfolding read_bytes
  read_bytes-Delivers n s v = read_loop-Delivers n n s (omega arith) v

  -- The parts of a text that reads of these lengths give.
  pub read_all-Delivers :
      (ns : List ℕ) (s : S) (text : List ℕ)
      → view s ≡ text
      → IsValid s
      → read_all round ns s ≡ parts ns text
  unfolding read_all
  read_all-Delivers [] s text e v = refl
  read_all-Delivers (n ∷ ns) s text e v =
      let (out, rest, v') = read_bytes-Delivers n s v in
      ap₂ (λ x xs. x ∷ xs) (out ∙ ap (take n) e)
        (read_all-Delivers ns (read_bytes round n s).1 (drop n text) (rest ∙ ap (drop n) e) v')
