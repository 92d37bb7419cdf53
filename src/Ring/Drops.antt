-- ===== src/Ring/Drops.antt =====
-- What the ring counts as dropped: in a take, nothing is lost that is not counted.
use tiny_voice.Ring.Window.{contents}
use tiny_voice.Ring.Refine.{length-contents, last_of_fits, push_ring_refines, pop_ring_refines}
use tiny_voice.Ring.Bounds.{IsValid}
use tiny_voice.Prelude.{
  ℕ, zero, suc, ◌+◌, ◌-◌, ◌%◌, ◌≤◌, ◌<◌, min, ◌≡◌, refl, sym, ap, ap₂, ◌∙◌, subst, ◌⊎◌, inl, inr,
  Bool, true, false, not, ◌||◌, List, [], ◌∷◌, ◌++◌, arith, ltb, ◌==◌, if◌then◌else◌, lt_or_le,
  if-both, length, get_or, length-append, length-take, length-drop, take-append-drop, word,
}
use tiny_voice.Ring.{Ring, make_room, append, push_ring, pop_ring, push_loop, pop_loop}

-- The count after a push of `n` samples; a ring that overflows in a take counts more than before.
abbrev Counted : Bool → Ring → ℕ → Ring → Type 0
Counted recording r n r' =
    (r.dropped ≤ r'.dropped)
    × (r'.dropped ≤ r.dropped + n)
    × (recording ≡ true → r.cap < r.count + n → r.dropped < r'.dropped)

abbrev one : Bool → Ring → ℕ → Ring
one recording r x = append (make_room recording r) x

-- One sample.
one-Counted :
    (recording : Bool) (r : Ring) (x : ℕ)
    → r.count ≤ r.cap
    → 0 < r.cap
    → r.dropped + 1 < word
    → (r.dropped ≤ (one recording r x).dropped)
      × ((one recording r x).dropped ≤ r.dropped + 1)
      × ((one recording r x).cap ≡ r.cap)
      × ((one recording r x).count ≡ (if ltb r.count r.cap then r.count + 1 else r.count))
unfolding make_room append
one-Counted recording r x h c k = ground arith

one-drops :
    (recording : Bool) (r : Ring) (x : ℕ)
    → recording ≡ true
    → r.cap ≤ r.count
    → r.dropped + 1 < word
    → r.dropped < (one recording r x).dropped
unfolding make_room append
one-drops recording r x e h k = ground arith

push_loop-Counted :
    (recording : Bool) (r : Ring) (samples : List ℕ)
    → r.count ≤ r.cap
    → 0 < r.cap
    → r.dropped + length samples < word
    → Counted recording r (length samples) (push_loop recording r samples)
unfolding push_loop
push_loop-Counted recording r [] h c k = (omega arith, omega arith, λ e over. omega arith)
push_loop-Counted recording r (x ∷ xs) h c k =
    let (least, most, same, count) = one-Counted recording r x h c (omega arith) in
    let (least', most', drops) =
      push_loop-Counted recording (one recording r x) xs (ground (arith, same, count))
        (omega (arith, same)) (omega (arith, most)) in
    (
      omega (arith, least, least'),
      omega (arith, most, most'),
      λ e over. elim (lt_or_le r.count r.cap) [
        | inl room ↦ let d = drops e (ground (arith, same, count, room)) in omega (arith, least, d)
        | inr full ↦
            let d = one-drops recording r x e full (omega arith) in omega (arith, d, least')
      ],
    )

-- A push in a take counts what it loses: where the count stays, nothing was lost, and the ring holds
-- what it held and then the samples. The count never falls, and does not wrap below 2^32 samples.
pub push_ring-drops :
    (recording : Bool) {r : Ring} (samples : List ℕ)
    → IsValid r
    → r.dropped + length samples < word
    → let r' = push_ring recording r samples in
      (r.dropped ≤ r'.dropped)
      × (r'.dropped ≤ r.dropped + length samples)
      × (recording ≡ true → (contents r' ≡ contents r ++ samples) ⊎ (r.dropped < r'.dropped))
push_ring-drops recording {r} samples v k =
    let (least, most, drops) = counted in
    (
      least,
      most,
      λ e. elim (lt_or_le r.cap (r.count + length samples)) [
        | inl over ↦ inr (drops e over)
        | inr fits ↦ inl (
            (push_ring_refines recording {r = r} samples v).0
            ∙ last_of_fits r.cap (contents r ++ samples)
                (omega (arith, length-append (contents r) samples, length-contents r, fits)))
      ],
    )
  where
    guard : (not r.attached || r.cap == 0) ≡ false
    guard = ground (arith, v)

    looped : push_ring recording r samples ≡ push_loop recording r samples
    looped = unfold push_ring in rw guard

    counted : Counted recording r (length samples) (push_ring recording r samples)
    counted =
        subst (Counted recording r (length samples)) (sym looped)
          (push_loop-Counted recording r samples v.count_in v.nonempty k)

pop_loop-dropped : (room : ℕ) (r : Ring) → (pop_loop room r).1.dropped ≡ r.dropped
unfolding pop_loop
pop_loop-dropped zero r = refl
pop_loop-dropped (suc room) r =
    let after = record r { read = (r.read + 1) % r.cap; count = r.count - 1 } in
    if-both (λ (o : List ℕ × Ring). o.1.dropped ≡ r.dropped) (ltb 0 r.count)
      {x = (get_or r.buf r.read 0 ∷ (pop_loop room after).0, (pop_loop room after).1)} {y = ([], r)}
      (pop_loop-dropped room after) refl

-- A pop splits what the ring holds, in order; nothing is counted as dropped.
pub pop_ring-split :
    (max_count : ℕ) {r : Ring}
    → IsValid r
    → let (out, r') = pop_ring r max_count in
      (contents r ≡ out ++ contents r')
      × (r'.dropped ≡ r.dropped)
      × IsValid r'
      × (r'.cap ≡ r.cap)
      × (length out ≡ min max_count r.count)
      × (r'.count + length out ≡ r.count)
pop_ring-split n {r} v =
    let (out, left, v', same) = pop_ring_refines n {r = r} v in
    let split : contents r ≡ (pop_ring r n).0 ++ contents (pop_ring r n).1 =
      sym (ap₂ (λ a b. a ++ b) out left ∙ take-append-drop n (contents r)) in
    (
      split,
      unfold pop_ring in pop_loop-dropped n r,
      v',
      same,
      ap length out ∙ length-take n (contents r) ∙ ap (λ k. min n k) (length-contents r),
      omega (
        arith,
        ap length split,
        length-append (pop_ring r n).0 (contents (pop_ring r n).1),
        length-contents (pop_ring r n).1,
        length-contents r,
      ),
    )

-- A push puts in no more than the samples.
pub push_ring-count :
    (recording : Bool) {r : Ring} (samples : List ℕ)
    → IsValid r
    → (push_ring recording r samples).count ≤ r.count + length samples
push_ring-count recording {r} samples v = omega (
  arith,
  ap length (push_ring_refines recording {r = r} samples v).0,
  length-drop (length (contents r ++ samples) - r.cap) (contents r ++ samples),
  length-append (contents r) samples,
  length-contents r,
  length-contents (push_ring recording r samples),
)

pub push_ring-nil : (recording : Bool) (r : Ring) → push_ring recording r [] ≡ r
unfolding push_ring push_loop
push_ring-nil recording r = if-both (λ q. q ≡ r) (not r.attached || r.cap == 0) refl refl

-- A push in a take counts what it loses: where the count stays the same, nothing was lost, and the
-- ring holds what it held and then the samples. The count never falls and grows by no more than the
-- samples. This holds for a valid ring, while the count and the samples stay below 2^32.
pub counted_losses :
    {r : Ring} (samples : List ℕ)
    → IsValid r
    → r.dropped + length samples < word
    → let r' = push_ring true r samples in
      (r.dropped ≤ r'.dropped)
      × (r'.dropped ≤ r.dropped + length samples)
      × ((contents r' ≡ contents r ++ samples) ⊎ (r.dropped < r'.dropped))
counted_losses {r} samples v k =
    let (least, upper, drops) = push_ring-drops true {r = r} samples v k in
    (least, upper, drops refl)

push_loop-uncounted :
    (r : Ring) (samples : List ℕ) → (push_loop false r samples).dropped ≡ r.dropped
unfolding push_loop make_room append
push_loop-uncounted r [] = refl
push_loop-uncounted r (x ∷ xs) =
    push_loop-uncounted (append (make_room false r) x) xs ∙ (ground arith)

-- Outside a take nothing is counted.
pub push_ring-uncounted :
    (r : Ring) (samples : List ℕ) → (push_ring false r samples).dropped ≡ r.dropped
unfolding push_ring
push_ring-uncounted r samples =
    if-both (λ (q : Ring). q.dropped ≡ r.dropped) (not r.attached || r.cap == 0) refl
      (push_loop-uncounted r samples)
