-- ===== src/MainLoop/Steps.antt =====
-- The runs of the device: `setup` of firmware/tinyvoice/src/main.cpp, and then the phases of `loop`
-- and the turns of the worker, one at a time. The order of the phases is left open, and the worker
-- moves between any two of them; a phase itself is one step.
use tiny_voice.Prelude.{ℕ, Bool, false, List, [], ◌∷◌, if◌then◌else◌, replicate, sub32}
use tiny_voice.StateMachine.{
  is, initial, on_boot_complete, on_wifi_connected, on_wifi_failed, on_error, recording,
}
use tiny_voice.MainLoop.{
  Device, poll_interval_ms, with_machine, start_net_worker, Answer, worker_turn, no_job,
}
use tiny_voice.MainLoop.Turns.{
  watch_wifi, press_to_play, can_arm_record, hold_to_record, finish_recording, handle_uploading,
  settle_download, settle_poll, settle_heartbeat, request_heartbeat, request_poll, prefetch,
  retry_upload,
}

-- The globals as they are initialised.
abbrev pub zeroed : Device
zeroed = record {
  machine = initial;
  last_poll_ms = 0;
  last_heartbeat_ms = 0;
  pending_id = [];
  announced_id = [];
  played_id = [];
  upload_job = record { wav_header = replicate 44 0; pcm_bytes = 0; chunk_count = 0 };
  upload_requested = false;
  upload_retry_after = 0;
  api_backoff_until = 0;
  api_fail_streak = 0;
  download_task_done = false;
  inbound_ready = false;
  inbound_trimmed = false;
  download_ok = false;
  download_id = [];
  has_worker = false;
  worker_retry_after = 0;
  net_job = no_job;
  net_busy = false;
  performed = false;
  poll_task_done = false;
  poll_ok = false;
  poll_available = false;
  poll_id = [];
  heartbeat_task_done = false;
  heartbeat_ok = false;
  play_file = false;
  recorder_recording = false;
  take_bytes = 0;
  take_chunks = 0;
}

-- "audio_init_failed"
abbrev pub audio_init_failed_text : List ℕ
audio_init_failed_text =
    b'a' ∷ b'u' ∷ b'd' ∷ b'i' ∷ b'o' ∷ b'_' ∷ b'i' ∷ b'n' ∷ b'i' ∷ b't' ∷ b'_' ∷ b'f' ∷ b'a' ∷ b'i'
    ∷ b'l' ∷ b'e' ∷ b'd' ∷ []

-- `setup`, with whether the recorder could begin, Wi-Fi connected and the worker be created.
unfoldable pub setup : ℕ → Bool → Bool → Bool → Device
setup now audio_ok connected created =
    let booted = on_boot_complete initial in
    let heard = if audio_ok then booted else on_error booted audio_init_failed_text in
    let d = start_net_worker now created (with_machine zeroed (on_wifi_connected heard)) in
    if connected
    then record d { last_poll_ms = sub32 now poll_interval_ms; last_heartbeat_ms = now }
    else with_machine zeroed (on_wifi_failed heard)

pub data Turn : Type 0 where
  worker_moves : Answer → Turn
  worker_wanted : ℕ → Bool → Turn
  wifi_watched : Bool → Turn
  press_seen : Bool → Bool → Turn
  hold_seen : Bool → Bool → Bool → Bool → Turn
  recording_fails : Turn
  recording_finished : ℕ → ℕ → ℕ → Turn
  upload_handled : ℕ → Bool → Turn
  download_settled : Turn
  poll_settled : ℕ → Turn
  heartbeat_settled : ℕ → Turn
  heartbeat_due : ℕ → Bool → Bool → Turn
  poll_due : ℕ → Bool → Bool → Turn
  prefetch_due : ℕ → Bool → Bool → Turn
  retry_due : ℕ → Bool → Bool → Turn

-- `recording_fails` is `audioRecorder.loop` where the flash limit ends the take. A phase that is not
-- reached in the current state leaves the globals as they are.
unfoldable pub turn : Device → Turn → Device
turn d (worker_moves a) = worker_turn a d
turn d (worker_wanted now created) = start_net_worker now created d
turn d (wifi_watched connected) = watch_wifi connected d
turn d (press_seen reported played) = press_to_play reported played d
turn d (hold_seen held connected started cleaned) =
    hold_to_record held (can_arm_record connected d) started cleaned d
turn d recording_fails =
    if is d.machine.state recording then record d { recorder_recording = false } else d
turn d (recording_finished pcm_bytes file_len chunks) =
    if is d.machine.state recording then finish_recording pcm_bytes file_len chunks d else d
turn d (upload_handled now ok) = handle_uploading now ok d
turn d download_settled = settle_download d
turn d (poll_settled now) = settle_poll now d
turn d (heartbeat_settled now) = settle_heartbeat now d
turn d (heartbeat_due now connected active) = request_heartbeat now connected active d
turn d (poll_due now connected active) = request_poll now connected active d
turn d (prefetch_due now connected active) = prefetch now connected active d
turn d (retry_due now connected active) = retry_upload now connected active d

unfoldable pub run_turns : Device → List Turn → Device
run_turns d [] = d
run_turns d (t ∷ turns) = run_turns (turn d t) turns
