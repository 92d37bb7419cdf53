-- ===== src/Ring/Bounds.antt =====
-- The invariant of the ring: its indices stay inside the buffer and agree with its count.
use tiny_voice.Prelude.{
  ℕ, suc, ◌+◌, ◌-◌, ◌%◌, ◌≤◌, ◌<◌, ◌≡◌, ap, ◌⊎◌, Bool, true, List, add_assoc, mod-add-mod, mod-lt,
  arith, length, length-set,
}
use tiny_voice.Ring.{Ring, ring_sample_count, init, clear, make_room, append}

pub record IsValid (r : Ring) : Type 0 where
  pub is_attached : r.attached ≡ true
  pub nonempty : 0 < r.cap
  pub storage : r.cap ≤ length r.buf
  pub read_in : r.read < r.cap
  pub count_in : r.count ≤ r.cap
  pub write_at : r.write ≡ (r.read + r.count) % r.cap

pub init-IsValid : (s : List ℕ) → length s ≡ ring_sample_count → IsValid (init s)
unfolding init
init-IsValid s h = ground arith

pub clear-IsValid : {r : Ring} → IsValid r → IsValid (clear r)
unfolding clear
clear-IsValid v = ground arith

-- One step round the ring, from an index inside it.
pub step_round :
    (cap h : ℕ) → h < cap → ((h + 1) % cap ≡ h + 1) ⊎ ((h + 1 ≡ cap) × ((h + 1) % cap ≡ 0))
step_round cap h lt = grind arith

pub mod_shift : (cap h n : ℕ) → ((h + 1) % cap + n) % cap ≡ (h + suc n) % cap
mod_shift cap h n = rw mod-add-mod (ap (λ k. k % cap) (omega arith))

full_turn : (cap h : ℕ) → h < cap → (h + cap) % cap ≡ h
full_turn cap h lt = grind arith

pub make_room-IsValid : (recording : Bool) {r : Ring} → IsValid r → IsValid (make_room recording r)
unfolding make_room
make_room-IsValid recording {r} v =
    ground (arith, mod_shift r.cap r.read (r.count - 1), mod-lt (r.read + 1) v.nonempty)

pub append-IsValid : {r : Ring} (x : ℕ) → IsValid r → r.count < r.cap → IsValid (append r x)
unfolding append
append-IsValid {r} x v h = ground (
  arith,
  length-set r.buf r.write x,
  mod-add-mod (r.read + r.count) r.cap 1,
  ap (λ k. k % r.cap) (add_assoc r.read r.count 1),
)
