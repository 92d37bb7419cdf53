-- ===== src/StateMachine.antt =====
-- firmware/tinyvoice/src/state_machine.cpp and include/state_machine.h: the state of the device,
-- the pending-message flag and the text of the last error. Each method is a function to the new
-- machine; `step` is a call of the public method that an event names.
pub mod Errors
pub mod Graph
pub mod Traces
mod Tests
use tiny_voice.Prelude.{
  ℕ, ◌-◌, Bool, false, ◌&&◌, ◌||◌, List, [], ◌∷◌, ◌++◌, ◌==◌, if◌then◌else◌, replicate, strncpy,
}

pub data DeviceState : Type 0 where
  boot connecting_wifi idle recording processing uploading : DeviceState
  checking_messages downloading playing error : DeviceState

-- The value of an enumerator, by which `==` compares two states.
abbrev pub ordinal : DeviceState → ℕ
ordinal boot = 0
ordinal connecting_wifi = 1
ordinal idle = 2
ordinal recording = 3
ordinal processing = 4
ordinal uploading = 5
ordinal checking_messages = 6
ordinal downloading = 7
ordinal playing = 8
ordinal error = 9

abbrev pub is : DeviceState → DeviceState → Bool
is a b = ordinal a == ordinal b

-- `last_error` is the array `_lastError`, 64 bytes once an error is set.
pub record StateMachine : Type 0 where
  pub state : DeviceState
  pub has_pending_message : Bool
  pub last_error : List ℕ

abbrev pub error_size : ℕ
error_size = 64

-- The constructor writes byte 0 alone; the other bytes, which nothing reads, are left as zeros.
unfoldable pub initial : StateMachine
initial = record { state = boot; has_pending_message = false; last_error = replicate error_size 0 }

abbrev pub transition : StateMachine → DeviceState → StateMachine
transition m next = record m { state = next }

-- `strncpy` of at most 63 bytes, then byte 63 is set to 0.
unfoldable pub set_error : StateMachine → List ℕ → StateMachine
set_error m reason =
    transition (record m { last_error = strncpy (error_size - 1) reason ++ (0 ∷ []) }) error

-- "wifi_failed"
abbrev pub wifi_failed_text : List ℕ
wifi_failed_text = b'w' ∷ b'i' ∷ b'f' ∷ b'i' ∷ b'_' ∷ b'f' ∷ b'a' ∷ b'i' ∷ b'l' ∷ b'e' ∷ b'd' ∷ []

unfoldable pub on_boot_complete : StateMachine → StateMachine
on_boot_complete m = transition m connecting_wifi

unfoldable pub on_wifi_connected : StateMachine → StateMachine
on_wifi_connected m = transition m idle

unfoldable pub on_wifi_failed : StateMachine → StateMachine
unfolding set_error
on_wifi_failed m = set_error m wifi_failed_text

unfoldable pub on_button_hold_start : StateMachine → StateMachine
on_button_hold_start m =
    if is m.state idle || is m.state checking_messages || is m.state error
    then transition m recording
    else m

unfoldable pub on_button_release : StateMachine → StateMachine
on_button_release m = if is m.state recording then transition m processing else m

unfoldable pub on_upload_start : StateMachine → StateMachine
on_upload_start m = if is m.state idle || is m.state processing then transition m uploading else m

unfoldable pub on_button_short_press : StateMachine → StateMachine
on_button_short_press m =
    if m.has_pending_message && (is m.state idle || is m.state checking_messages)
    then transition m playing
    else m

unfoldable pub on_download_start : StateMachine → StateMachine
on_download_start m =
    if is m.state idle || is m.state checking_messages then transition m downloading else m

unfoldable pub on_poll_start : StateMachine → StateMachine
on_poll_start m = if is m.state idle then transition m checking_messages else m

unfoldable pub on_poll_complete : StateMachine → Bool → StateMachine
on_poll_complete m message_available =
    let m' = record m { has_pending_message = message_available } in
    if is m'.state checking_messages then transition m' idle else m'

unfoldable pub on_upload_success : StateMachine → StateMachine
on_upload_success m = transition m idle

unfoldable pub on_upload_failed : StateMachine → StateMachine
on_upload_failed m = transition m idle

unfoldable pub on_download_complete : StateMachine → StateMachine
on_download_complete m = if is m.state downloading then transition m idle else m

unfoldable pub on_download_failed : StateMachine → StateMachine
on_download_failed m = if is m.state downloading then transition m idle else m

unfoldable pub on_playback_complete : StateMachine → StateMachine
on_playback_complete m = transition (record m { has_pending_message = false }) idle

unfoldable pub on_recording_cancelled : StateMachine → StateMachine
on_recording_cancelled m = transition m idle

unfoldable pub on_error : StateMachine → List ℕ → StateMachine
unfolding set_error
on_error m reason = set_error m reason

-- A call of a public method that changes the machine.
pub data Event : Type 0 where
  boot_complete wifi_connected wifi_failed button_hold_start button_release : Event
  upload_start button_short_press poll_start upload_success upload_failed : Event
  download_start download_complete download_failed playback_complete : Event
  recording_cancelled : Event
  poll_complete : Bool → Event
  on_error_called : List ℕ → Event

unfoldable pub step : StateMachine → Event → StateMachine
unfolding on_boot_complete on_wifi_connected on_wifi_failed on_button_hold_start on_button_release
    on_upload_start on_button_short_press on_poll_start on_upload_success on_upload_failed
    on_download_start on_download_complete on_download_failed on_playback_complete
    on_recording_cancelled on_poll_complete on_error
step m boot_complete = on_boot_complete m
step m wifi_connected = on_wifi_connected m
step m wifi_failed = on_wifi_failed m
step m button_hold_start = on_button_hold_start m
step m button_release = on_button_release m
step m upload_start = on_upload_start m
step m button_short_press = on_button_short_press m
step m poll_start = on_poll_start m
step m upload_success = on_upload_success m
step m upload_failed = on_upload_failed m
step m download_start = on_download_start m
step m download_complete = on_download_complete m
step m download_failed = on_download_failed m
step m playback_complete = on_playback_complete m
step m recording_cancelled = on_recording_cancelled m
step m (poll_complete available) = on_poll_complete m available
step m (on_error_called reason) = on_error m reason

unfoldable pub run : StateMachine → List Event → StateMachine
run m [] = m
run m (e ∷ es) = run (step m e) es
