-- ===== src/Button.antt =====
-- firmware/tinyvoice/src/button.cpp: debouncing of the button, short presses and holds.
-- The level of the pin and `millis()` are arguments of the call that reads them; the clock is a
-- 32-bit word and wraps.
pub mod Invariant
pub mod Debounce
pub mod Stable
mod Tests
use tiny_voice.Prelude.{
  ℕ, Bool, true, false, not, ◌&&◌, List, [], ◌∷◌, leb, if◌then◌else◌, differ, sub32,
}

-- The fields of `Button`.
pub record Button : Type 0 where
  pub pressed : Bool
  pub held : Bool
  pub just_held : Bool
  pub short_press : Bool
  pub release : Bool
  pub stable_down : Bool
  pub raw_down : Bool
  pub press_start_ms : ℕ
  pub last_change_ms : ℕ

abbrev pub debounce_ms : ℕ
debounce_ms = 50

abbrev pub hold_threshold_ms : ℕ
hold_threshold_ms = 300

-- The button pulls its pin low: the argument is the level, `true` for HIGH.
abbrev pub is_down : Bool → Bool
is_down level = not level

unfoldable pub begin : Bool → ℕ → Button
begin level now = record {
  pressed = false;
  held = false;
  just_held = false;
  short_press = false;
  release = false;
  stable_down = is_down level;
  raw_down = is_down level;
  press_start_ms = 0;
  last_change_ms = now;
}

-- The start of `Button::loop`: the reports of the last round are cleared.
unfoldable pub clear_reports : Button → Button
clear_reports b = record b { short_press = false; release = false; just_held = false }

-- An edge of the raw reading restarts the stability window.
unfoldable pub track_raw : Button → Bool → ℕ → Button
track_raw b reading now =
    if differ reading b.raw_down then record b { raw_down = reading; last_change_ms = now } else b

-- What the `if (_stableDown)` does once the new level is taken.
unfoldable pub on_edge : Button → ℕ → Button
on_edge b now =
    if b.stable_down
    then record b { pressed = true; held = false; press_start_ms = now }
    else (let b' = record b {
      short_press = (if b.pressed && not b.held then true else b.short_press);
    } in
        record b' { pressed = false; held = false; release = true })

-- A level that has been stable for the debounce time is taken.
unfoldable pub accept_edge : Button → ℕ → Button
unfolding on_edge
accept_edge b now =
    if differ b.raw_down b.stable_down && leb debounce_ms (sub32 now b.last_change_ms)
    then on_edge (record b { stable_down = b.raw_down }) now
    else b

unfoldable pub detect_hold : Button → ℕ → Button
detect_hold b now =
    if b.pressed
      && not b.held
      && b.stable_down
      && leb hold_threshold_ms (sub32 now b.press_start_ms)
    then record b { held = true; just_held = true }
    else b

unfoldable pub loop : Button → Bool → ℕ → Button
unfolding clear_reports track_raw accept_edge detect_hold
loop b level now =
    detect_hold (accept_edge (track_raw (clear_reports b) (is_down level) now) now) now

-- `wasJustHeld` reports a hold once: it clears the flag that it returns.
unfoldable pub was_just_held : Button → Bool × Button
was_just_held b = if b.just_held then (true, record b { just_held = false }) else (false, b)

-- A run of the main loop's calls: each reads a level at a time.
unfoldable pub run : Button → List (Bool × ℕ) → Button
run b [] = b
run b ((level, now) ∷ rest) = run (loop b level now) rest
