-- ===== src/MainLoop/Press.antt =====
-- The three outcomes of a press that may play the pending message.
use tiny_voice.Prelude.{Bool, not, ◌&&◌, ◌||◌, if-both}
use tiny_voice.StateMachine.{is, on_button_short_press, downloading, playing}
use tiny_voice.MainLoop.{Device, with_machine, play_cached_inbound}
use tiny_voice.MainLoop.Turns.{press_to_play}

abbrev pub pressed : Device → Device
pressed d = with_machine d (on_button_short_press d.machine)

-- What holds before, after the press, and after the playback, holds of `press_to_play`.
pub press_to_play_cases :
    (P : Device → Type 0) (reported played : Bool) (d : Device)
    → P d
    → P (pressed d)
    → P (play_cached_inbound played (pressed d))
    → P (press_to_play reported played d)
unfolding press_to_play
press_to_play_cases P reported played d h h1 h2 =
    if-both P (not (d.machine.has_pending_message && reported)) h (
      if-both P (is d.machine.state downloading || is d.machine.state playing) h (
        if-both P (not d.inbound_ready) h (if-both P (is (pressed d).machine.state playing) h2 h1)))
