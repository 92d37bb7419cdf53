-- ===== src/MainLoop/Worker.antt =====
-- The worker's protocol: one job at a time, and a download that is waited for is on its way.
use tiny_voice.Prelude.{
  ℕ, ◌≡◌, refl, ap, inl, inr, Bool, true, false, List, [], ◌∷◌, arith, Bool-cases,
}
use tiny_voice.MainLoop.{
  NetJob, is_no_job, Device, note_api_success, note_api_failure, request_upload, request_net_job,
  start_net_worker, Answer, perform, worker_turn, play_cached_inbound, start_inbound_download,
  no_job, poll, download, mark_played, heartbeat,
}
use tiny_voice.MainLoop.Press.{pressed, press_to_play_cases}
use tiny_voice.MainLoop.Turns.{
  watch_wifi, press_to_play, hold_to_record, finish_recording, handle_uploading, settle_download,
  poll_played, poll_found, poll_nothing, settle_poll, settle_heartbeat, request_heartbeat,
  request_poll, prefetch, upload_pending_recording, retry_upload,
}
use tiny_voice.MainLoop.Steps.{
  setup, Turn, turn, run_turns, worker_moves, worker_wanted, wifi_watched, press_seen, hold_seen,
  recording_fails, recording_finished, upload_handled, download_settled, poll_settled,
  heartbeat_settled, heartbeat_due, poll_due, prefetch_due, retry_due,
}

-- The worker has a job just while it is busy, and is past its call only then.
pub record IsOrderly (d : Device) : Type 0 where
  pub idle_free : d.net_busy ≡ false → is_no_job d.net_job ≡ true
  pub idle_fresh : d.net_busy ≡ false → d.performed ≡ false
  pub busy_job : d.net_busy ≡ true → is_no_job d.net_job ≡ false
  pub busy_worker : d.net_busy ≡ true → d.has_worker ≡ true

request_net_job-IsOrderly :
    (job : NetJob) (d : Device)
    → is_no_job job ≡ false
    → IsOrderly d
    → IsOrderly (request_net_job job d).1
unfolding request_net_job
request_net_job-IsOrderly job d hj h = ground arith

perform-IsOrderly :
    (job : NetJob) (a : Answer) (d : Device)
    → d.net_job ≡ job
    → IsOrderly d
    → IsOrderly (perform job a d)
unfolding perform
perform-IsOrderly no_job a d hj h = h
perform-IsOrderly poll a d hj h = let known = ap is_no_job hj in ground (arith, known)
perform-IsOrderly heartbeat a d hj h = let known = ap is_no_job hj in ground (arith, known)
perform-IsOrderly mark_played a d hj h = let known = ap is_no_job hj in ground (arith, known)
perform-IsOrderly download a d hj h = let known = ap is_no_job hj in ground (arith, known)

pub worker_turn-IsOrderly : (a : Answer) (d : Device) → IsOrderly d → IsOrderly (worker_turn a d)
unfolding worker_turn
worker_turn-IsOrderly a d h = elim (Bool-cases d.performed) [
  | inl past ↦ rw past (record {
    idle_free = λ e. refl;
    idle_fresh = λ e. refl;
    busy_job = λ e. ground arith;
    busy_worker = λ e. ground arith;
  })
  | inr calling ↦ simp calling (perform-IsOrderly d.net_job a d refl h)
]

play_cached_inbound-IsOrderly :
    (played : Bool) (d : Device) → IsOrderly d → IsOrderly (play_cached_inbound played d)
unfolding play_cached_inbound request_net_job
play_cached_inbound-IsOrderly played d h = ground arith

start_inbound_download-IsOrderly :
    (d : Device) → IsOrderly d → IsOrderly (start_inbound_download d).1
unfolding start_inbound_download request_net_job
start_inbound_download-IsOrderly d h = ground arith

settle_poll-IsOrderly : (now : ℕ) (d : Device) → IsOrderly d → IsOrderly (settle_poll now d)
unfolding settle_poll poll_nothing poll_played poll_found note_api_failure note_api_success
    request_net_job
settle_poll-IsOrderly now d h = ground arith

press_to_play-IsOrderly :
    (reported played : Bool) (d : Device)
    → IsOrderly d
    → IsOrderly (press_to_play reported played d)
press_to_play-IsOrderly reported played d h =
    press_to_play_cases IsOrderly reported played d h same
      (play_cached_inbound-IsOrderly played (pressed d) same)
  where
    same : IsOrderly (pressed d)
    same = ground arith

pub turn-IsOrderly : (d : Device) (t : Turn) → IsOrderly d → IsOrderly (turn d t)
unfolding turn
turn-IsOrderly d (worker_moves a) h = worker_turn-IsOrderly a d h
turn-IsOrderly d (worker_wanted now created) h = unfold start_net_worker in ground arith
turn-IsOrderly d (wifi_watched connected) h = unfold watch_wifi in ground arith
turn-IsOrderly d (press_seen reported played) h = press_to_play-IsOrderly reported played d h
turn-IsOrderly d (hold_seen held connected started cleaned) h =
    unfold hold_to_record in ground arith
turn-IsOrderly d recording_fails h = ground arith
turn-IsOrderly d (recording_finished pcm_bytes file_len chunks) h =
    unfold finish_recording request_upload in ground arith
turn-IsOrderly d (upload_handled now ok) h = unfold handle_uploading in ground arith
turn-IsOrderly d download_settled h = unfold settle_download in ground arith
turn-IsOrderly d (poll_settled now) h = settle_poll-IsOrderly now d h
turn-IsOrderly d (heartbeat_settled now) h =
    unfold settle_heartbeat note_api_success note_api_failure in ground arith
turn-IsOrderly d (heartbeat_due now connected active) h =
    unfold request_heartbeat request_net_job in ground arith
turn-IsOrderly d (poll_due now connected active) h =
    unfold request_poll request_net_job in ground arith
turn-IsOrderly d (prefetch_due now connected active) h =
    let p = start_inbound_download-IsOrderly d h in unfold prefetch in ground (arith, p)
turn-IsOrderly d (retry_due now connected active) h =
    unfold retry_upload upload_pending_recording request_upload in ground arith

pub run_turns-IsOrderly :
    (d : Device) (turns : List Turn) → IsOrderly d → IsOrderly (run_turns d turns)
unfolding run_turns
run_turns-IsOrderly d [] h = h
run_turns-IsOrderly d (t ∷ turns) h = run_turns-IsOrderly (turn d t) turns (turn-IsOrderly d t h)

pub setup-IsOrderly :
    (now : ℕ) (audio_ok connected created : Bool) → IsOrderly (setup now audio_ok connected created)
unfolding setup start_net_worker
setup-IsOrderly now audio_ok connected created = ground arith

-- After `setup` and any phases and worker turns, the worker is busy just where it has a job, exists
-- where it is busy, and is past its call only while it is busy.
pub worker-IsOrderly :
    (now : ℕ) (audio_ok connected created : Bool) (turns : List Turn)
    → IsOrderly (run_turns (setup now audio_ok connected created) turns)
worker-IsOrderly now audio_ok connected created turns =
    run_turns-IsOrderly (setup now audio_ok connected created) turns
      (setup-IsOrderly now audio_ok connected created)
