-- ===== src/MainLoop/Stuck.antt =====
-- States that the device does not leave again: a recorder that records outside RECORDING, and a
-- cached message that is not pending.
use tiny_voice.Prelude.{ℕ, ◌≡◌, refl, Bool, true, false, List, [], ◌∷◌, arith, if-both}
use tiny_voice.StateMachine.{
  is, set_error, on_wifi_connected, on_wifi_failed, on_upload_start, on_button_short_press,
  on_download_start, on_poll_complete, on_upload_success, on_upload_failed, on_download_complete,
  on_download_failed, on_playback_complete, recording,
}
use tiny_voice.MainLoop.{
  NetJob, Device, note_api_success, note_api_failure, request_upload, request_net_job,
  start_net_worker, Answer, perform, worker_turn, play_cached_inbound, start_inbound_download,
  no_job, poll, download, mark_played, heartbeat,
}
use tiny_voice.MainLoop.Press.{pressed, press_to_play_cases}
use tiny_voice.MainLoop.Turns.{
  watch_wifi, press_to_play, can_arm_record, hold_to_record, handle_uploading, settle_download,
  poll_played, poll_found, poll_nothing, settle_poll, settle_heartbeat, request_heartbeat,
  request_poll, prefetch, upload_pending_recording, retry_upload,
}
use tiny_voice.MainLoop.Steps.{
  Turn, turn, run_turns, worker_moves, worker_wanted, wifi_watched, press_seen, hold_seen,
  recording_fails, recording_finished, upload_handled, download_settled, poll_settled,
  heartbeat_settled, heartbeat_due, poll_due, prefetch_due, retry_due,
}

-- The recorder records while the device is not in RECORDING.
abbrev pub RecordsAside : Device → Type 0
RecordsAside d = (d.recorder_recording ≡ true) × (is d.machine.state recording ≡ false)

perform-RecordsAside :
    (job : NetJob) (a : Answer) (d : Device) → RecordsAside d → RecordsAside (perform job a d)
unfolding perform
perform-RecordsAside no_job a d h = h
perform-RecordsAside poll a d h = h
perform-RecordsAside heartbeat a d h = h
perform-RecordsAside mark_played a d h = h
perform-RecordsAside download a d h = h

play_cached_inbound-RecordsAside :
    (played : Bool) (d : Device) → RecordsAside d → RecordsAside (play_cached_inbound played d)
unfolding play_cached_inbound request_net_job on_playback_complete
play_cached_inbound-RecordsAside played d h = ground arith

press_to_play-RecordsAside :
    (reported played : Bool) (d : Device)
    → RecordsAside d
    → RecordsAside (press_to_play reported played d)
press_to_play-RecordsAside reported played d h =
    press_to_play_cases RecordsAside reported played d h same
      (play_cached_inbound-RecordsAside played (pressed d) same)
  where
    same : RecordsAside (pressed d)
    same = unfold on_button_short_press in ground arith

start_inbound_download-RecordsAside :
    (d : Device) → RecordsAside d → RecordsAside (start_inbound_download d).1
unfolding start_inbound_download request_net_job on_download_start on_download_failed
start_inbound_download-RecordsAside d h = ground arith

settle_poll-RecordsAside :
    (now : ℕ) (d : Device) → RecordsAside d → RecordsAside (settle_poll now d)
unfolding settle_poll poll_nothing poll_played poll_found note_api_failure note_api_success
    request_net_job on_poll_complete
settle_poll-RecordsAside now d h = ground arith

turn-RecordsAside : (d : Device) (t : Turn) → RecordsAside d → RecordsAside (turn d t)
unfolding turn
turn-RecordsAside d (worker_moves a) h =
    unfold worker_turn in if-both RecordsAside d.performed h (perform-RecordsAside d.net_job a d h)
turn-RecordsAside d (worker_wanted now created) h = unfold start_net_worker in ground arith
turn-RecordsAside d (wifi_watched connected) h =
    unfold watch_wifi on_wifi_connected on_wifi_failed set_error in ground arith
turn-RecordsAside d (press_seen reported played) h = press_to_play-RecordsAside reported played d h
turn-RecordsAside d (hold_seen held connected started cleaned) h =
    unfold hold_to_record can_arm_record in ground arith
turn-RecordsAside d recording_fails h = ground arith
turn-RecordsAside d (recording_finished pcm_bytes file_len chunks) h = rw (h.1) h
turn-RecordsAside d (upload_handled now ok) h =
    unfold handle_uploading on_upload_success on_upload_failed in ground arith
turn-RecordsAside d download_settled h =
    unfold settle_download on_download_complete on_download_failed in ground arith
turn-RecordsAside d (poll_settled now) h = settle_poll-RecordsAside now d h
turn-RecordsAside d (heartbeat_settled now) h =
    unfold settle_heartbeat note_api_success note_api_failure in ground arith
turn-RecordsAside d (heartbeat_due now connected active) h =
    unfold request_heartbeat request_net_job in ground arith
turn-RecordsAside d (poll_due now connected active) h =
    unfold request_poll request_net_job in ground arith
turn-RecordsAside d (prefetch_due now connected active) h =
    unfold prefetch in if-both RecordsAside _ (start_inbound_download-RecordsAside d h) h
turn-RecordsAside d (retry_due now connected active) h =
    unfold retry_upload upload_pending_recording request_upload on_upload_start in ground arith

run_turns-RecordsAside :
    (d : Device) (turns : List Turn) → RecordsAside d → RecordsAside (run_turns d turns)
unfolding run_turns
run_turns-RecordsAside d [] h = h
run_turns-RecordsAside d (t ∷ turns) h =
    run_turns-RecordsAside (turn d t) turns (turn-RecordsAside d t h)

-- Wi-Fi that goes away during a take ends all recording: where the device is in RECORDING with the
-- recorder recording, and the loop then sees Wi-Fi down, no later phases or worker turns bring the
-- device to RECORDING again, and the recorder is never stopped.
pub wifi_loss_ends_recording :
    (d : Device) (turns : List Turn)
    → d.machine.state ≡ recording
    → d.recorder_recording ≡ true
    → RecordsAside (run_turns (turn d (wifi_watched false)) turns)
wifi_loss_ends_recording d turns hs hr =
    run_turns-RecordsAside (turn d (wifi_watched false)) turns (left hs hr)
  where
    left :
        d.machine.state ≡ recording
        → d.recorder_recording ≡ true
        → RecordsAside (turn d (wifi_watched false))
    left hs hr = unfold turn watch_wifi on_wifi_failed set_error in rw hs (hr, refl)
