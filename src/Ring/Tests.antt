-- ===== src/Ring/Tests.antt =====
-- A ring of three samples, and the theorems at it.
use tiny_voice.Prelude.{◌≤◌, ◌<◌, ◌≡◌, refl, ◌⊎◌, true, [], ◌∷◌, ◌++◌, arith}
use tiny_voice.Ring.{Ring, make_room, append, push_ring, pop_ring}
use tiny_voice.Ring.Bounds.{IsValid}
use tiny_voice.Ring.Window.{contents}
use tiny_voice.Ring.Drops.{counted_losses}
use tiny_voice.Ring.Refine.{push_ring_refines, pop_ring_refines}

-- It holds 8, then 9, round the end of its buffer.
abbrev wrapped : Ring
wrapped = record {
  attached = true;
  buf = 9 ∷ 7 ∷ 8 ∷ [];
  cap = 3;
  write = 1;
  read = 2;
  count = 2;
  dropped = 0;
}

wrapped-IsValid : IsValid wrapped
wrapped-IsValid = record {
  is_attached = refl;
  nonempty = omega arith;
  storage = omega arith;
  read_in = omega arith;
  count_in = omega arith;
  write_at = refl;
}

overrun_drops : (push_ring true wrapped (1 ∷ 2 ∷ 3 ∷ [])).dropped ≡ 2
unfolding push_ring make_room append
overrun_drops = refl

push_ring_refines_example :
    (contents (push_ring true wrapped (1 ∷ 2 ∷ 3 ∷ [])) ≡ 1 ∷ 2 ∷ 3 ∷ [])
    × IsValid (push_ring true wrapped (1 ∷ 2 ∷ 3 ∷ []))
    × ((push_ring true wrapped (1 ∷ 2 ∷ 3 ∷ [])).cap ≡ 3)
push_ring_refines_example = push_ring_refines true (1 ∷ 2 ∷ 3 ∷ []) wrapped-IsValid

pop_ring_refines_example :
    let (out, r) = pop_ring wrapped 1 in
    (out ≡ 8 ∷ []) × (contents r ≡ 9 ∷ []) × IsValid r × (r.cap ≡ 3)
pop_ring_refines_example = pop_ring_refines 1 wrapped-IsValid

counted_losses_example :
    let r' = push_ring true wrapped (1 ∷ 2 ∷ 3 ∷ []) in
    (0 ≤ r'.dropped)
    × (r'.dropped ≤ 3)
    × ((contents r' ≡ contents wrapped ++ (1 ∷ 2 ∷ 3 ∷ [])) ⊎ (0 < r'.dropped))
counted_losses_example = counted_losses (1 ∷ 2 ∷ 3 ∷ []) wrapped-IsValid (omega arith)
