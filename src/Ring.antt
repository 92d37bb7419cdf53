-- ===== src/Ring.antt =====
-- The sample ring of firmware/tinyvoice/src/audio_recorder.cpp (`pushRing`, `popRing`, `initRing`
-- and the resets in `arm` and `disarm`): a circular window that the capture task fills and the main
-- loop drains, each call inside one critical section.
pub mod Bounds
pub mod Window
pub mod Refine
pub mod Drops
mod Tests
use tiny_voice.Prelude.{
  ℕ, zero, suc, ◌+◌, ◌-◌, ◌%◌, Bool, true, not, ◌||◌, List, [], ◌∷◌, ltb, leb, ◌==◌, if◌then◌else◌,
  get_or, set, u32,
}

-- `attached` says that `_ring` points to the buffer. A sample is the bit pattern of an `int16_t`.
pub record Ring : Type 0 where
  pub attached : Bool
  pub buf : List ℕ
  pub cap : ℕ
  pub write : ℕ
  pub read : ℕ
  pub count : ℕ
  pub dropped : ℕ

abbrev pub ring_sample_count : ℕ
ring_sample_count = 16384

-- `initRing`, over the static buffer, and the fields that `begin` clears.
unfoldable pub init : List ℕ → Ring
init s_ring_buffer = record {
  attached = true;
  buf = s_ring_buffer;
  cap = ring_sample_count;
  write = 0;
  read = 0;
  count = 0;
  dropped = 0;
}

-- What `arm` and `disarm` do to the ring.
unfoldable pub clear : Ring → Ring
clear r = record r { write = 0; read = 0; count = 0; dropped = 0 }

-- A full ring gives up its oldest sample; only in a take is it counted as dropped.
unfoldable pub make_room : Bool → Ring → Ring
make_room recording r =
    if leb r.cap r.count
    then record r {
      read = (r.read + 1) % r.cap;
      count = r.count - 1;
      dropped = (if recording then u32 (r.dropped + 1) else r.dropped);
    }
    else r

unfoldable pub append : Ring → ℕ → Ring
append r x = record r {
  buf = set r.buf r.write x;
  write = (r.write + 1) % r.cap;
  count = r.count + 1;
}

push_loop : Bool → Ring → List ℕ → Ring
push_loop recording r [] = r
push_loop recording r (x ∷ xs) = push_loop recording (append (make_room recording r) x) xs

unfoldable pub push_ring : Bool → Ring → List ℕ → Ring
unfolding push_loop
push_ring recording r samples =
    if not r.attached || r.cap == 0 then r else push_loop recording r samples

-- The number is the room left in the caller's array.
pop_loop : ℕ → Ring → List ℕ × Ring
pop_loop zero r = ([], r)
pop_loop (suc room) r =
    let rest = pop_loop room (record r { read = (r.read + 1) % r.cap; count = r.count - 1 }) in
    if ltb 0 r.count then (get_or r.buf r.read 0 ∷ rest.0, rest.1) else ([], r)

unfoldable pub pop_ring : Ring → ℕ → List ℕ × Ring
unfolding pop_loop
pop_ring r max_count = pop_loop max_count r
