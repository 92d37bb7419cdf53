-- ===== src/StateMachine/Tests.antt =====
-- Runs of the state machine, and its theorems at inputs that meet their hypotheses.
use mathlib.Core.List.{Memᴰ}
use tiny_voice.Prelude.{◌≡◌, refl, true, false, List, [], ◌∷◌, length, c_string}
use tiny_voice.StateMachine.{
  initial, set_error, Event, step, run, boot, connecting_wifi, processing, playing, error,
  boot_complete, wifi_connected, wifi_failed, button_hold_start, button_release, button_short_press,
  poll_start, poll_complete,
}
use tiny_voice.StateMachine.Errors.{set_error_lem}
use tiny_voice.StateMachine.Graph.{Edge, step-Edge}
use tiny_voice.StateMachine.Traces.{
  take_needs_hold, playing_needs_poll, IsTerminated, last_error-IsTerminated,
}

abbrev starting : List Event
starting = boot_complete ∷ wifi_connected ∷ []

abbrev taking : List Event
taking = boot_complete ∷ wifi_connected ∷ button_hold_start ∷ button_release ∷ []

abbrev listening : List Event
listening =
    boot_complete ∷ wifi_connected ∷ poll_start ∷ poll_complete true ∷ button_short_press ∷ []

taking_processes : (run initial taking).state ≡ processing
unfolding run step initial
taking_processes = refl

-- A hold while a message plays is ignored.
hold_ignored : (step (run initial listening) button_hold_start).state ≡ playing
unfolding run step initial
hold_ignored = refl

error_cut_at_64 :
    let m = set_error initial (b'n' ∷ b'o' ∷ []) in
    (m.state ≡ error)
    × (m.has_pending_message ≡ false)
    × (length m.last_error ≡ 64)
    × (c_string m.last_error ≡ b'n' ∷ b'o' ∷ [])
unfolding initial
error_cut_at_64 = set_error_lem initial (b'n' ∷ b'o' ∷ [])

step-Edge_example : Edge false boot connecting_wifi
unfolding initial step
step-Edge_example = step-Edge initial boot_complete

take_needs_hold_example : Memᴰ button_hold_start taking
unfolding run step initial
take_needs_hold_example = take_needs_hold taking refl

playing_needs_poll_example : Memᴰ (poll_complete true) listening
unfolding run step initial
playing_needs_poll_example = playing_needs_poll listening refl

last_error-IsTerminated_example : IsTerminated (run initial (wifi_failed ∷ []))
last_error-IsTerminated_example = last_error-IsTerminated (wifi_failed ∷ [])
