-- ===== src/Button/Tests.antt =====
-- Runs of the button, and its theorems at inputs that meet their hypotheses. `true` is the level
-- of a button that is up.
use tiny_voice.Prelude.{
  ◌+◌, ◌-◌, ◌≤◌, ◌≡◌, refl, ◌⊎◌, true, false, not, ◌&&◌, ◌||◌, [], ◌∷◌, arith, word, u32, sub32,
}
use tiny_voice.Button.{Button, begin, loop, run}
use tiny_voice.Button.Invariant.{reports_exclusive, short_press_needs_tap, just_held_once}
use tiny_voice.Button.Debounce.{rounds_at, glitch_ignored}
use tiny_voice.Button.Stable.{stable_taken, hold_reported}

abbrev resting : Button
resting = record {
  pressed = false;
  held = false;
  just_held = false;
  short_press = false;
  release = false;
  stable_down = false;
  raw_down = false;
  press_start_ms = 0;
  last_change_ms = 0;
}

abbrev pressing : Button
pressing = record resting { pressed = true; stable_down = true; raw_down = true }

abbrev releasing : Button
releasing = record resting { pressed = true; stable_down = true }

tap_reported :
    (run resting ((false, 1000) ∷ (false, 1060) ∷ (true, 1100) ∷ (true, 1150) ∷ [])).short_press
    ≡ true
unfolding run loop
tap_reported = refl

hold_runs : (run resting ((false, 1000) ∷ (false, 1060) ∷ (false, 1360) ∷ [])).just_held ≡ true
unfolding run loop
hold_runs = refl

one_report :
    let b = run (begin true 7) ((false, 1000) ∷ (false, 1060) ∷ []) in
    ((b.held && not b.pressed) ≡ false)
    × ((b.pressed && not b.stable_down) ≡ false)
    × ((b.just_held && (b.release || b.short_press)) ≡ false)
one_report = reports_exclusive true 7 ((false, 1000) ∷ (false, 1060) ∷ [])

short_press_needs_tap_example :
    (releasing.pressed ≡ true)
    × (releasing.held ≡ false)
    × ((loop releasing true 60).release ≡ true)
unfolding loop
short_press_needs_tap_example = short_press_needs_tap releasing true 60 refl

held_from_press :
    ((pressing.held ≡ false)
      ⊎ ((pressing.stable_down ≡ false) × ((loop pressing false 300).stable_down ≡ true)))
    × ((loop pressing false 300).held ≡ true)
    × (300 ≤ sub32 300 (loop pressing false 300).press_start_ms)
unfolding loop
held_from_press = just_held_once pressing false 300 refl

-- The clock wraps between the two readings of the glitch.
glitch_ignored_example :
    let c = run resting (rounds_at (word - 10) ((false, 0) ∷ (true, 20) ∷ (false, 40) ∷ [])) in
    (c.stable_down ≡ false) × (c.pressed ≡ false) × (c.release ≡ false) × (c.short_press ≡ false)
glitch_ignored_example =
    glitch_ignored (word - 10) resting ((false, 0) ∷ (true, 20) ∷ (false, 40) ∷ []) (omega arith)
      refl (omega arith) refl refl

stable_taken_example :
    let c =
      loop (run (loop resting false (word - 10)) ((false, 5) ∷ [])) false (u32 (word - 10 + 50)) in
    (c.stable_down ≡ true) × (c.pressed ≡ true)
stable_taken_example =
    stable_taken false (word - 10) 50 resting ((false, 5) ∷ []) (omega arith) (omega arith)
      (omega arith) refl refl (refl, tt)

held_at_300 :
    let c = loop pressing false 300 in
    (c.held ≡ true) × (c.just_held ≡ true) × (c.short_press ≡ false) × (c.release ≡ false)
held_at_300 = hold_reported pressing 300 refl refl refl refl (omega arith)
