-- ===== src/Wifi/Connect.antt =====
-- The first connection.
use mathlib.Core.Option
use tiny_voice.Prelude.{
  ℕ, ◌+◌, ◌-◌, ◌*◌, ◌≤◌, ◌<◌, ◌≡◌, refl, ap, ◌∙◌, Bool, true, false, not, ◌&&◌, ◌||◌, some, List,
  [], ◌∷◌, arith, ltb, if-cases, length, u32, sub32, sub32-u32,
}
use tiny_voice.Wifi.{connect_ms, Test, connect_loop, connect}

-- The tests of the loop, each 250 ms at least and a minute at most after the one before, by the
-- `delay`; the clock wraps.
abbrev pub Delayed : ℕ → List Test → Type 0
Delayed soonest [] = Unit
Delayed soonest ((connected, now) ∷ tests) =
    (t : ℕ) × (soonest ≤ t) × (t ≤ soonest + 60000) × (now ≡ u32 t) × Delayed (t + 250) tests

connect_loop-ends :
    (tests : List Test) (soonest start : ℕ) (after : Bool)
    → Delayed soonest tests
    → start ≤ soonest
    → soonest ≤ start + 15250
    → 15250 < 250 * length tests + (soonest - start)
    → connect_loop tests (u32 start) after ≡ some after
unfolding connect_loop
connect_loop-ends [] soonest start after delayed lo hi enough = absurd (omega arith)
connect_loop-ends ((connected, now) ∷ tests) soonest start after (t, le, near, same, delayed) lo hi
      enough =
    let since : sub32 now (u32 start) ≡ t - start =
      ap (λ w. sub32 w (u32 start)) same ∙ sub32-u32 start t (omega arith) (omega arith) in
    if-cases (λ o. o ≡ some after) (not connected && ltb (sub32 now (u32 start)) connect_ms)
      (λ go.
        connect_loop-ends tests (t + 250) start after delayed (omega arith)
          (ground (arith, go, since)) (omega arith))
      (λ e. refl)

-- `connect` ends within 62 tests, where each comes at most a minute after the earliest time that the
-- delays before it allow: it starts a connection only where there is none, and returns whether Wi-Fi
-- is connected then. The clock may wrap.
pub connect_lem :
    (was_connected after : Bool) (tests : List Test) (start : ℕ)
    → Delayed start tests
    → 62 ≤ length tests
    → connect was_connected tests (u32 start) after
      ≡ some (not was_connected, was_connected || after)
unfolding connect
connect_lem true after tests start delayed enough = refl
connect_lem false after tests start delayed enough =
    ap (Option.map {B = Bool × Bool} (λ ok. (true, ok)))
      (connect_loop-ends tests start start after delayed (omega arith) (omega arith) (omega arith))
