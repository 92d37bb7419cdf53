-- ===== src/Button/Invariant.antt =====
-- The flags of the button agree with one another after every round.
use tiny_voice.Prelude.{
  ℕ, ◌≤◌, ◌≡◌, ◌⊎◌, Bool, true, false, not, ◌&&◌, ◌||◌, List, [], ◌∷◌, arith, sub32,
}
use tiny_voice.Button.{Button, hold_threshold_ms, begin, loop, run}

-- A press that is held is pressed, and a pressed button is down; each report comes with its cause,
-- and a round that reports the release reports no hold.
pub record IsCoherent (b : Button) : Type 0 where
  pub held_pressed : b.held ≡ true → b.pressed ≡ true
  pub pressed_down : b.pressed ≡ true → b.stable_down ≡ true
  pub just_held_held : b.just_held ≡ true → b.held ≡ true
  pub short_released : b.short_press ≡ true → b.release ≡ true
  pub released_up : b.release ≡ true → b.pressed ≡ false

pub begin-IsCoherent : (level : Bool) (now : ℕ) → IsCoherent (begin level now)
unfolding begin
begin-IsCoherent level now = ground arith

-- Every round keeps the flags coherent, at any level and time.
pub loop-IsCoherent :
    (b : Button) (level : Bool) (now : ℕ) → IsCoherent b → IsCoherent (loop b level now)
unfolding loop
loop-IsCoherent b level now h = ground arith

run-IsCoherent : (b : Button) (rounds : List (Bool × ℕ)) → IsCoherent b → IsCoherent (run b rounds)
unfolding run
run-IsCoherent b [] h = h
run-IsCoherent b ((level, now) ∷ rest) h =
    run-IsCoherent (loop b level now) rest (loop-IsCoherent b level now h)

-- From `begin` on, whatever is read: a held button is pressed and a pressed one is down, and no
-- round reports both a hold and a release or a short press.
pub reports_exclusive :
    (level : Bool) (start : ℕ) (rounds : List (Bool × ℕ))
    → let b = run (begin level start) rounds in
      ((b.held && not b.pressed) ≡ false)
      × ((b.pressed && not b.stable_down) ≡ false)
      × ((b.just_held && (b.release || b.short_press)) ≡ false)
reports_exclusive level start rounds =
    ground (arith, run-IsCoherent (begin level start) rounds (begin-IsCoherent level start))

-- A press that was held is never a short press: the round that reports its release reports no
-- short press, and a round that reports one follows a round where the button was pressed, not held.
pub short_press_needs_tap :
    (b : Button) (level : Bool) (now : ℕ)
    → (loop b level now).short_press ≡ true
    → (b.pressed ≡ true) × (b.held ≡ false) × ((loop b level now).release ≡ true)
unfolding loop
short_press_needs_tap b level now h = ground arith

-- A hold is reported at most once in a press: a round that reports it found the button not held
-- before, or pressed anew in this very round, and at least 300 ms after the press began.
pub just_held_once :
    (b : Button) (level : Bool) (now : ℕ)
    → (loop b level now).just_held ≡ true
    → ((b.held ≡ false) ⊎ ((b.stable_down ≡ false) × ((loop b level now).stable_down ≡ true)))
      × ((loop b level now).held ≡ true)
      × (hold_threshold_ms ≤ sub32 now (loop b level now).press_start_ms)
unfolding loop
just_held_once b level now h = ground arith
