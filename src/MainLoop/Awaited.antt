-- ===== src/MainLoop/Awaited.antt =====
-- A download that the device waits for always ends: DOWNLOADING is left when its answer is handled.
use tiny_voice.Prelude.{
  ℕ, ◌≡◌, refl, ap, inl, inr, Bool, true, false, not, ◌&&◌, List, [], ◌∷◌, arith, if◌then◌else◌,
  Bool-cases, if-both,
}
use tiny_voice.StateMachine.{
  is, set_error, on_wifi_connected, on_wifi_failed, on_button_hold_start, on_button_release,
  on_upload_start, on_button_short_press, on_download_start, on_poll_complete, on_upload_success,
  on_upload_failed, on_download_complete, on_download_failed, on_playback_complete,
  on_recording_cancelled, recording, downloading,
}
use tiny_voice.MainLoop.{
  NetJob, is_no_job, Device, with_machine, note_api_success, note_api_failure, request_upload,
  request_net_job, start_net_worker, Answer, perform, worker_turn, play_cached_inbound,
  start_inbound_download, no_job, poll, download, mark_played, heartbeat,
}
use tiny_voice.MainLoop.Press.{pressed, press_to_play_cases}
use tiny_voice.MainLoop.Turns.{
  watch_wifi, press_to_play, can_arm_record, hold_to_record, finish_recording, handle_uploading,
  settle_download, poll_played, poll_found, poll_nothing, settle_poll, settle_heartbeat, is_quiet,
  request_heartbeat, request_poll, prefetch, upload_pending_recording, retry_upload,
}
use tiny_voice.MainLoop.Worker.{IsOrderly, turn-IsOrderly, setup-IsOrderly}
use tiny_voice.MainLoop.Steps.{
  setup, Turn, turn, run_turns, worker_moves, worker_wanted, wifi_watched, press_seen, hold_seen,
  recording_fails, recording_finished, upload_handled, download_settled, poll_settled,
  heartbeat_settled, heartbeat_due, poll_due, prefetch_due, retry_due,
}

abbrev pub is_download : NetJob → Bool
is_download no_job = false
is_download poll = false
is_download download = true
is_download mark_played = false
is_download heartbeat = false

-- Where the device is in DOWNLOADING, the answer of a download is there or will still be given.
abbrev pub Waits : Device → Type 0
Waits d =
    is d.machine.state downloading ≡ true
    → d.download_task_done ≡ false
    → (is_download d.net_job ≡ true) × (d.performed ≡ false)

job_known : (job : NetJob) → is_download job ≡ true → is_no_job job ≡ false
job_known no_job h = ground arith
job_known poll h = ground arith
job_known download h = refl
job_known mark_played h = ground arith
job_known heartbeat h = ground arith

perform-Waits :
    (job : NetJob) (a : Answer) (d : Device)
    → d.net_job ≡ job
    → d.performed ≡ false
    → Waits d
    → Waits (perform job a d)
unfolding perform
perform-Waits no_job a d hj hp h = h
perform-Waits poll a d hj hp h = let known = ap is_download hj in ground (arith, known)
perform-Waits heartbeat a d hj hp h = let known = ap is_download hj in ground (arith, known)
perform-Waits mark_played a d hj hp h = let known = ap is_download hj in ground (arith, known)
perform-Waits download a d hj hp h = ground arith

worker_turn-Waits : (a : Answer) (d : Device) → Waits d → Waits (worker_turn a d)
unfolding worker_turn
worker_turn-Waits a d h = elim (Bool-cases d.performed) [
  | inl past ↦ simp past (ground arith)
  | inr calling ↦ simp calling (perform-Waits d.net_job a d refl calling h)
]

play_cached_inbound-Waits :
    (played : Bool) (d : Device) → Waits d → Waits (play_cached_inbound played d)
unfolding play_cached_inbound request_net_job on_playback_complete
play_cached_inbound-Waits played d h = ground arith

press_to_play-Waits :
    (reported played : Bool) (d : Device) → Waits d → Waits (press_to_play reported played d)
press_to_play-Waits reported played d h =
    press_to_play_cases Waits reported played d h same
      (play_cached_inbound-Waits played (pressed d) same)
  where
    same : Waits (pressed d)
    same = unfold on_button_short_press in ground arith

start_inbound_download-Waits :
    (d : Device) → IsOrderly d → Waits d → Waits (start_inbound_download d).1
unfolding start_inbound_download request_net_job on_download_start on_download_failed
start_inbound_download-Waits d o h = ground arith

settle_poll-Waits : (now : ℕ) (d : Device) → IsOrderly d → Waits d → Waits (settle_poll now d)
unfolding settle_poll poll_nothing poll_played poll_found note_api_failure note_api_success
    request_net_job on_poll_complete
settle_poll-Waits now d o h = let known = job_known d.net_job in ground (arith, known)

-- The globals after a hold, and whether files were deleted.
abbrev held_device : Bool → Device → Device
held_device cleaned d =
    let d1 = with_machine d (on_button_hold_start d.machine) in
    if cleaned then record d1 { play_file = false; take_bytes = 0; take_chunks = 0 } else d1

on_recording_cancelled-Waits :
    (d : Device) → Waits (with_machine d (on_recording_cancelled d.machine))
unfolding on_recording_cancelled
on_recording_cancelled-Waits d = ground arith

hold_to_record-Waits :
    (held can_arm started cleaned : Bool) (d : Device)
    → Waits d
    → Waits (hold_to_record held can_arm started cleaned d)
unfolding hold_to_record
hold_to_record-Waits held can_arm started cleaned d h = if-both Waits (not (held && can_arm)) h (
    if-both Waits (not (is (on_button_hold_start d.machine).state recording)) armed (
      if-both Waits started (if-both Waits cleaned armed armed)
        (on_recording_cancelled-Waits (held_device cleaned d))))
  where
    armed : Waits (with_machine d (on_button_hold_start d.machine))
    armed = unfold on_button_hold_start in ground arith

turn-Waits : (d : Device) (t : Turn) → IsOrderly d → Waits d → Waits (turn d t)
unfolding turn
turn-Waits d (worker_moves a) o h = worker_turn-Waits a d h
turn-Waits d (worker_wanted now created) o h = unfold start_net_worker in ground arith
turn-Waits d (wifi_watched connected) o h =
    unfold watch_wifi on_wifi_connected on_wifi_failed set_error in ground arith
turn-Waits d (press_seen reported played) o h = press_to_play-Waits reported played d h
turn-Waits d (hold_seen held connected started cleaned) o h =
    hold_to_record-Waits held (can_arm_record connected d) started cleaned d h
turn-Waits d recording_fails o h = ground arith
turn-Waits d (recording_finished pcm_bytes file_len chunks) o h =
    unfold finish_recording request_upload on_button_release on_recording_cancelled
      on_upload_start in
    ground arith
turn-Waits d (upload_handled now ok) o h =
    unfold handle_uploading on_upload_success on_upload_failed in ground arith
turn-Waits d download_settled o h =
    unfold settle_download on_download_complete on_download_failed in ground arith
turn-Waits d (poll_settled now) o h = settle_poll-Waits now d o h
turn-Waits d (heartbeat_settled now) o h =
    unfold settle_heartbeat note_api_success note_api_failure in ground arith
turn-Waits d (heartbeat_due now connected active) o h =
    unfold request_heartbeat request_net_job is_quiet in ground arith
turn-Waits d (poll_due now connected active) o h =
    unfold request_poll request_net_job in ground arith
turn-Waits d (prefetch_due now connected active) o h =
    let p = start_inbound_download-Waits d o h in unfold prefetch in ground (arith, p)
turn-Waits d (retry_due now connected active) o h =
    unfold retry_upload upload_pending_recording request_upload on_upload_start in ground arith

run_turns-Waits :
    (d : Device) (turns : List Turn)
    → IsOrderly d
    → Waits d
    → IsOrderly (run_turns d turns) × Waits (run_turns d turns)
unfolding run_turns
run_turns-Waits d [] o h = (o, h)
run_turns-Waits d (t ∷ turns) o h =
    run_turns-Waits (turn d t) turns (turn-IsOrderly d t o) (turn-Waits d t o h)

setup-Waits :
    (now : ℕ) (audio_ok connected created : Bool) → Waits (setup now audio_ok connected created)
unfolding setup start_net_worker on_wifi_connected on_wifi_failed set_error
setup-Waits now audio_ok connected created = ground arith

Answered : Device → Type 0
Answered d = is d.machine.state downloading ≡ true → d.download_task_done ≡ true

perform-Answered :
    (job : NetJob) (a : Answer) (d : Device)
    → d.net_job ≡ job
    → Waits d
    → Answered (perform job a d)
unfolding perform Answered
perform-Answered no_job a d hj h = let known = ap is_download hj in ground (arith, known)
perform-Answered poll a d hj h = let known = ap is_download hj in ground (arith, known)
perform-Answered heartbeat a d hj h = let known = ap is_download hj in ground (arith, known)
perform-Answered mark_played a d hj h = let known = ap is_download hj in ground (arith, known)
perform-Answered download a d hj h = ground arith

worker_turn-Answered : (a : Answer) (d : Device) → Waits d → Answered (worker_turn a d)
unfolding worker_turn Answered
worker_turn-Answered a d h = elim (Bool-cases d.performed) [
  | inl past ↦ simp past (ground arith)
  | inr calling ↦ simp calling (perform-Answered d.net_job a d refl h)
]

settle_download-ends :
    (d : Device) → Answered d → is (settle_download d).machine.state downloading ≡ false
unfolding Answered settle_download on_download_complete on_download_failed
settle_download-ends d h = ground arith

-- The device never hangs in DOWNLOADING: after `setup` and any phases and worker turns, one more
-- turn of the worker, with any answer, and the handling of a download's answer leave DOWNLOADING.
pub download_ends :
    (now : ℕ) (audio_ok connected created : Bool) (turns : List Turn) (a : Answer)
    → let d = run_turns (setup now audio_ok connected created) turns in
      is (settle_download (worker_turn a d)).machine.state downloading ≡ false
download_ends now audio_ok connected created turns a =
    let start = setup now audio_ok connected created in
    let d = run_turns start turns in
    let waits =
      run_turns-Waits start turns (setup-IsOrderly now audio_ok connected created)
        (setup-Waits now audio_ok connected created) in
    settle_download-ends (worker_turn a d) (worker_turn-Answered a d waits.1)
