-- ===== src/Button/Stable.antt =====
-- A level that lasts for the debounce time is taken, and a press that lasts becomes a hold.
use tiny_voice.Prelude.{
  ℕ, ◌+◌, ◌≤◌, ◌<◌, ◌≡◌, ◌⊎◌, Bool, true, false, not, List, [], ◌∷◌, arith, word, u32, sub32,
}
use tiny_voice.Button.{Button, debounce_ms, hold_threshold_ms, loop, run}

-- Every round reads the level `level`, at any time.
abbrev pub AllLevel : Bool → List (Bool × ℕ) → Type 0
AllLevel level [] = Unit
AllLevel level ((l, now) ∷ rest) = (l ≡ level) × AllLevel level rest

-- The level was first read at `t0`, and is taken or waits since then.
abbrev Steady : Bool → ℕ → Button → Type 0
Steady level t0 b =
    (b.raw_down ≡ not level)
    × (((b.stable_down ≡ not level) × (b.pressed ≡ not level))
        ⊎ ((b.stable_down ≡ level) × (b.last_change_ms ≡ t0)))

loop_first :
    (level : Bool) (t0 : ℕ) (b : Button)
    → b.raw_down ≡ level
    → b.stable_down ≡ level
    → t0 < word
    → Steady level t0 (loop b level t0)
unfolding loop
loop_first true t0 b er es h = ground arith
loop_first false t0 b er es h = ground arith

loop-Steady :
    (level : Bool) (t0 now : ℕ) (b : Button)
    → Steady level t0 b
    → Steady level t0 (loop b level now)
unfolding loop
loop-Steady true t0 now b h = ground arith
loop-Steady false t0 now b h = ground arith

run-Steady :
    (level : Bool) (t0 : ℕ) (b : Button) (rounds : List (Bool × ℕ))
    → AllLevel level rounds
    → Steady level t0 b
    → Steady level t0 (run b rounds)
unfolding run
run-Steady level t0 b [] a h = h
run-Steady level t0 b ((l, now) ∷ rest) a h =
    run-Steady level t0 (loop b l now) rest a.1 (rw (a.0) (loop-Steady level t0 now b h))

loop_last :
    (level : Bool) (t0 d : ℕ) (b : Button)
    → t0 < word
    → debounce_ms ≤ d
    → d < word
    → Steady level t0 b
    → ((loop b level (u32 (t0 + d))).stable_down ≡ not level)
      × ((loop b level (u32 (t0 + d))).pressed ≡ not level)
unfolding loop
loop_last true t0 d b h0 hd hw h = ground arith
loop_last false t0 d b h0 hd hw h = ground arith

-- A stable level is taken: a button at rest at `level` (its inverse is read from `t0` on, in any
-- number of rounds) has taken the new level, and its pressed flag with it, at the first round that
-- comes at least the debounce time after `t0`. The clock may wrap.
pub stable_taken :
    (level : Bool) (t0 d : ℕ) (b : Button) (rounds : List (Bool × ℕ))
    → t0 < word
    → debounce_ms ≤ d
    → d < word
    → b.raw_down ≡ level
    → b.stable_down ≡ level
    → AllLevel level rounds
    → let c = loop (run (loop b level t0) rounds) level (u32 (t0 + d)) in
      (c.stable_down ≡ not level) × (c.pressed ≡ not level)
stable_taken level t0 d b rounds h0 hd hw er es a =
    loop_last level t0 d (run (loop b level t0) rounds) h0 hd hw
      (run-Steady level t0 (loop b level t0) rounds a (loop_first level t0 b er es h0))

-- A press that is still held 300 ms after it was taken is reported as a hold in that round, and as
-- a hold that stays: the round does not report a short press or a release.
pub hold_reported :
    (b : Button) (now : ℕ)
    → b.pressed ≡ true
    → b.held ≡ false
    → b.stable_down ≡ true
    → b.raw_down ≡ true
    → hold_threshold_ms ≤ sub32 now b.press_start_ms
    → let c = loop b false now in
      (c.held ≡ true) × (c.just_held ≡ true) × (c.short_press ≡ false) × (c.release ≡ false)
unfolding loop
hold_reported b now hp hh hs hr ht = ground arith
