-- ===== src/Prelude/Words.antt =====
-- The 32-bit words of the ESP32: `unsigned long`, `size_t` and the clock of `millis()`.
use Prim.Native.Nat.{ℕ, ◌+◌, ◌-◌, ◌*◌, ◌/◌, ◌%◌, ◌^◌, ◌≤◌, ◌<◌}
use mathlib.Core.Path.{◌≡◌}
use native.Mathlib.Omega.{arith}

abbrev pub word : ℕ
word = 2 ^ 32

abbrev pub u8 : ℕ → ℕ
u8 n = n % 256

abbrev pub u32 : ℕ → ℕ
u32 n = n % word

-- `a - b` of two words, which wraps: the time since `b` on a wrapping clock.
abbrev pub sub32 : ℕ → ℕ → ℕ
sub32 a b = (a + word - b) % word

-- Byte `k` of a word: `(w >> (8 * k)) & 0xFF`.
abbrev pub byte_of : ℕ → ℕ → ℕ
byte_of w k = w / 2 ^ (8 * k) % 256

-- The time between two instants of a clock that wraps, if it is short.
pub sub32-u32 : (t0 t : ℕ) → t0 ≤ t → t < t0 + word → sub32 (u32 t) (u32 t0) ≡ t - t0
sub32-u32 t0 t h k = omega arith
