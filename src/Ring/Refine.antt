-- ===== src/Ring/Refine.antt =====
-- The ring against a queue that keeps its newest `cap` samples.
use tiny_voice.Prelude.{
  ℕ, zero, suc, ◌+◌, ◌-◌, ◌%◌, ◌≤◌, ◌<◌, ◌≡◌, refl, sym, ap, ap₂, ◌∙◌, ◌⊎◌, inl, inr, Bool, false,
  not, ◌||◌, List, [], ◌∷◌, ◌++◌, append-nil, append_assoc, mod-lt, arith, ltb, ◌==◌, ltb→lt,
  Bool-cases, lt_or_le, length, get_or, set, take, drop, length-append, get_or-set_self,
  length-drop, drop-drop, drop-append_left,
}
use tiny_voice.Ring.{Ring, make_room, append, push_ring, pop_ring, push_loop}
use tiny_voice.Ring.Bounds.{IsValid, mod_shift, make_room-IsValid, append-IsValid}
use tiny_voice.Ring.Window.{window, length-window, window_of_pos, window_last, window-set, contents}

-- The last `n` elements of a list.
abbrev pub last_of : ℕ → List ℕ → List ℕ
last_of n xs = drop (length xs - n) xs

pub length-contents : (r : Ring) → length (contents r) ≡ r.count
length-contents r = length-window r.buf r.cap r.read r.count

make_room_full :
    (recording : Bool) {r : Ring}
    → IsValid r
    → r.cap ≤ r.count
    → contents (make_room recording r) ≡ drop 1 (contents r)
unfolding make_room
make_room_full recording {r} v h = ground (arith, window_of_pos r.buf r.cap r.read r.count)

make_room_free : (recording : Bool) (r : Ring) → r.count < r.cap → make_room recording r ≡ r
unfolding make_room
make_room_free recording r h = ground arith

-- There is room afterwards, in a ring of the same size.
make_room_room :
    (recording : Bool) {r : Ring}
    → IsValid r
    → ((make_room recording r).count < r.cap) × ((make_room recording r).cap ≡ r.cap)
unfolding make_room
make_room_room recording v = ground arith

-- A sample that has room joins the queue at its end.
append_lem :
    {r : Ring} (x : ℕ)
    → IsValid r
    → r.count < r.cap
    → contents (append r x) ≡ contents r ++ (x ∷ [])
unfolding append
append_lem {r} x v h =
    (ap (λ n. window buf' r.cap r.read n) {y = suc r.count} (omega arith)
      ∙ window_last buf' r.cap r.read r.count r.write v.read_in v.write_at)
    ∙ ap₂ (λ s y. s ++ (y ∷ []))
        (window-set r.buf r.cap r.read r.count r.write x v.read_in h v.write_at)
        (get_or-set_self r.buf r.write x 0 (omega (arith, mod-lt (r.read + r.count) v.nonempty)))
  where
    buf' : List ℕ
    buf' = set r.buf r.write x

pub last_of_fits : (n : ℕ) (xs : List ℕ) → length xs ≤ n → last_of n xs ≡ xs
last_of_fits n xs h = let e : length xs - n ≡ 0 = omega arith in rw e

pub last_of-append :
    (n : ℕ) (xs ys : List ℕ) → last_of n (last_of n xs ++ ys) ≡ last_of n (xs ++ ys)
last_of-append n xs ys =
    rw (← drop-append_left k xs ys (omega arith))
      (drop-drop k _ _ (xs ++ ys) (omega (arith, length-drop k (xs ++ ys), length-append xs ys)))
  where
    k : ℕ
    k = length xs - n

-- One sample pushed: the newest `cap` of the queue and the sample remain.
abbrev push_one : Bool → Ring → ℕ → Ring
push_one recording r x = append (make_room recording r) x

push_one-IsValid :
    (recording : Bool) {r : Ring} (x : ℕ)
    → IsValid r
    → IsValid (push_one recording r x) × ((push_one recording r x).cap ≡ r.cap)
unfolding append
push_one-IsValid recording {r} x v =
    let (room, same) = make_room_room recording v in
    (append-IsValid x (make_room-IsValid recording v) (rw same room), same)

push_one_lem :
    (recording : Bool) {r : Ring} (x : ℕ)
    → IsValid r
    → contents (push_one recording r x) ≡ last_of r.cap (contents r ++ (x ∷ []))
push_one_lem recording {r} x v =
    append_lem x (make_room-IsValid recording v)
      (rw ((make_room_room recording v).1) ((make_room_room recording v).0))
    ∙ body (lt_or_le r.count r.cap)
  where
    size : length (contents r ++ (x ∷ [])) ≡ r.count + 1
    size = length-append (contents r) (x ∷ []) ∙ ap (λ n. n + 1) (length-contents r)

    body :
        (r.count < r.cap) ⊎ (r.cap ≤ r.count)
        → contents (make_room recording r) ++ (x ∷ []) ≡ last_of r.cap (contents r ++ (x ∷ []))
    body (inl p) =
        rw (make_room_free recording r p)
          (sym (last_of_fits r.cap (contents r ++ (x ∷ [])) (omega (arith, size))))
    body (inr q) =
        let one : length (contents r ++ (x ∷ [])) - r.cap ≡ 1 = omega (arith, size, v.count_in) in
        rw (make_room_full recording v q, one)
          (sym (
            drop-append_left 1 (contents r) (x ∷ [])
              (omega (arith, length-contents r, v.nonempty))))

push_loop_lem :
    (recording : Bool) {r : Ring} (xs : List ℕ)
    → IsValid r
    → (contents (push_loop recording r xs) ≡ last_of r.cap (contents r ++ xs))
      × IsValid (push_loop recording r xs)
      × ((push_loop recording r xs).cap ≡ r.cap)
unfolding push_loop
push_loop_lem recording {r} [] v = (
  rw append-nil
      (sym (last_of_fits r.cap (contents r) (omega (arith, length-contents r, v.count_in)))),
  v,
  refl,
)
push_loop_lem recording {r} (x ∷ xs) v =
    let (v', same) = push_one-IsValid recording x v in
    let (ih, iv, ic) = push_loop_lem recording {r = push_one recording r x} xs v' in
    (
      ih
          ∙ ap₂ (λ c q. last_of c (q ++ xs)) same (push_one_lem recording x v)
          ∙ last_of-append r.cap (contents r ++ (x ∷ [])) xs
          ∙ ap (last_of r.cap) (append_assoc (contents r) (x ∷ []) xs),
      iv,
      ic ∙ same,
    )

-- `pushRing` keeps the newest samples: a valid ring then holds the last `cap` of what it held
-- followed by the samples pushed, in order, and stays valid, with the same capacity.
pub push_ring_refines :
    (recording : Bool) {r : Ring} (samples : List ℕ)
    → IsValid r
    → (contents (push_ring recording r samples) ≡ last_of r.cap (contents r ++ samples))
      × IsValid (push_ring recording r samples)
      × ((push_ring recording r samples).cap ≡ r.cap)
unfolding push_ring
push_ring_refines recording {r} samples v = rw (guard) (push_loop_lem recording samples v)
  where
    guard : (not r.attached || r.cap == 0) ≡ false
    guard = ground (arith, v)

-- One sample popped is the oldest.
pop_step :
    {r : Ring}
    → IsValid r
    → 0 < r.count
    → let r' = record r { read = (r.read + 1) % r.cap; count = r.count - 1 } in
      (contents r ≡ get_or r.buf r.read 0 ∷ contents r') × IsValid r'
pop_step {r} v h = (
  window_of_pos r.buf r.cap r.read r.count h,
  ground (arith, mod_shift r.cap r.read (r.count - 1), mod-lt (r.read + 1) v.nonempty),
)

-- `popRing` drains in order: a valid ring gives its oldest samples, `max_count` at most, keeps the
-- rest, and stays valid, with the same capacity.
pub pop_ring_refines :
    (max_count : ℕ) {r : Ring}
    → IsValid r
    → let (out, r') = pop_ring r max_count in
      (out ≡ take max_count (contents r))
      × (contents r' ≡ drop max_count (contents r))
      × IsValid r'
      × (r'.cap ≡ r.cap)
unfolding pop_ring
pop_ring_refines zero v = (refl, refl, v, refl)
pop_ring_refines (suc n) {r} v = elim (Bool-cases (ltb 0 r.count)) [
  | inl p ↦ rw p (
      let (front, v') = pop_step v (ltb→lt 0 r.count p) in
      let (out, left, v'', same) =
        pop_ring_refines n {r = record r { read = (r.read + 1) % r.cap; count = r.count - 1 }} v' in
      (rw (front, out), rw front left, v'', same))
  | inr q ↦ rw q (
      let gone : contents r ≡ [] = ap (window r.buf r.cap r.read) {y = 0} (ground arith) in
      (rw gone, rw gone, v, refl))
]
