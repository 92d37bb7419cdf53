-- ===== src/Led/Tests.antt =====
-- The LEDs on concrete calls.
use tiny_voice.Prelude.{ℕ, ◌≡◌, refl, true, false, some, List, [], ◌∷◌}
use tiny_voice.StateMachine.{idle, recording}
use tiny_voice.Led.{
  Led, wifi_phase_ms, begin, owns_leds, wifi_pattern_active, Call, show_state, apply_outputs,
  update, set_wifi_connected, wifi_step, loop, do_call, do_calls, update_called,
  wifi_connected_called, loop_called,
}
use mathlib.Core.Option
use tiny_voice.Led.Pattern.{InRange, wifi_pattern-InRange, pins, owned_state_shown}

-- A duty that stands for the breathing.
abbrev flat : ℕ → ℕ
flat now = 100

-- Wi-Fi is lost while the device is idle, and two phases pass.
abbrev lost : List (ℕ × Call)
lost =
    (10, update_called idle false)
    ∷ (20, wifi_connected_called false)
    ∷ (200, loop_called)
    ∷ (400, loop_called)
    ∷ []

lost_phase : Option.map (λ (l : Led). l.wifi_phase) (do_calls flat lost begin) ≡ some 2
unfolding begin do_calls do_call loop wifi_step wifi_phase_ms apply_outputs wifi_pattern_active
    owns_leds update set_wifi_connected show_state
lost_phase = refl

wifi_pattern-InRange_example : InRange flat (do_calls flat lost begin)
wifi_pattern-InRange_example = wifi_pattern-InRange flat lost

owner_forgets_wifi :
    pins flat (update flat 5 recording true (record (begin) { wifi_connected = false }))
    ≡ pins flat (update flat 5 recording true begin)
unfolding owns_leds
owner_forgets_wifi = owned_state_shown flat 5 recording true false begin refl
