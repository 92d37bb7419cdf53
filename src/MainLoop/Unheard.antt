-- ===== src/MainLoop/Unheard.antt =====
-- A message that is cached but no longer pending, which a poll that races a download can leave.
use tiny_voice.Prelude.{◌≡◌, refl, ap, Bool, true, false, List, [], ◌∷◌, arith, if-both}
use tiny_voice.StateMachine.{
  set_error, on_wifi_connected, on_wifi_failed, on_button_hold_start, on_button_release,
  on_upload_start, on_upload_success, on_upload_failed, on_recording_cancelled,
}
use tiny_voice.MainLoop.{
  NetJob, Device, note_api_success, note_api_failure, request_upload, request_net_job,
  start_net_worker, Answer, perform, worker_turn, no_job, poll, download, mark_played, heartbeat,
}
use tiny_voice.MainLoop.Turns.{
  watch_wifi, press_to_play, can_arm_record, hold_to_record, finish_recording, handle_uploading,
  settle_download, settle_poll, settle_heartbeat, request_heartbeat, request_poll, prefetch,
  upload_pending_recording, retry_upload,
}
use tiny_voice.MainLoop.Steps.{
  Turn, turn, run_turns, worker_moves, worker_wanted, wifi_watched, press_seen, hold_seen,
  recording_fails, recording_finished, upload_handled, download_settled, poll_settled,
  heartbeat_settled, heartbeat_due, poll_due, prefetch_due, retry_due,
}

-- The jobs that bring no message.
abbrev pub brings_none : NetJob → Bool
brings_none no_job = true
brings_none poll = false
brings_none download = false
brings_none mark_played = true
brings_none heartbeat = true

-- A message is cached but not pending, and the worker neither polls nor downloads.
pub record CachedAside (d : Device) : Type 0 where
  pub ready : d.inbound_ready ≡ true
  pub unannounced : d.machine.has_pending_message ≡ false
  pub no_download : d.download_task_done ≡ false
  pub no_poll : d.poll_task_done ≡ false
  pub other_job : brings_none d.net_job ≡ true

perform-CachedAside :
    (job : NetJob) (a : Answer) (d : Device)
    → d.net_job ≡ job
    → CachedAside d
    → CachedAside (perform job a d)
unfolding perform
perform-CachedAside no_job a d hj h = h
perform-CachedAside poll a d hj h = let known = ap brings_none hj in ground (arith, known)
perform-CachedAside heartbeat a d hj h = ground arith
perform-CachedAside mark_played a d hj h = ground arith
perform-CachedAside download a d hj h = let known = ap brings_none hj in ground (arith, known)

hold_to_record-CachedAside :
    (held can_arm started cleaned : Bool) (d : Device)
    → CachedAside d
    → CachedAside (hold_to_record held can_arm started cleaned d)
unfolding hold_to_record on_button_hold_start on_recording_cancelled
hold_to_record-CachedAside held can_arm started cleaned d h = ground arith

turn-CachedAside : (d : Device) (t : Turn) → CachedAside d → CachedAside (turn d t)
unfolding turn
turn-CachedAside d (worker_moves a) h =
    unfold worker_turn in
    if-both CachedAside d.performed (released h) (perform-CachedAside d.net_job a d refl h)
  where
    released :
        CachedAside d
        → CachedAside (record d { performed = false; net_job = no_job; net_busy = false })
    released h = record {
      ready = h.ready;
      unannounced = h.unannounced;
      no_download = h.no_download;
      no_poll = h.no_poll;
      other_job = refl;
    }
turn-CachedAside d (worker_wanted now created) h = unfold start_net_worker in ground arith
turn-CachedAside d (wifi_watched connected) h =
    unfold watch_wifi on_wifi_connected on_wifi_failed set_error in ground arith
turn-CachedAside d (press_seen reported played) h = unfold press_to_play in simp h.unannounced h
turn-CachedAside d (hold_seen held connected started cleaned) h =
    hold_to_record-CachedAside held (can_arm_record connected d) started cleaned d h
turn-CachedAside d recording_fails h = ground arith
turn-CachedAside d (recording_finished pcm_bytes file_len chunks) h =
    unfold finish_recording request_upload on_button_release on_recording_cancelled
      on_upload_start in
    ground arith
turn-CachedAside d (upload_handled now ok) h =
    unfold handle_uploading on_upload_success on_upload_failed in ground arith
turn-CachedAside d download_settled h = unfold settle_download in simp (h.no_download) h
turn-CachedAside d (poll_settled now) h = unfold settle_poll in simp (h.no_poll) h
turn-CachedAside d (heartbeat_settled now) h =
    unfold settle_heartbeat note_api_success note_api_failure in ground arith
turn-CachedAside d (heartbeat_due now connected active) h =
    unfold request_heartbeat request_net_job in ground arith
turn-CachedAside d (poll_due now connected active) h =
    unfold request_poll request_net_job in ground arith
turn-CachedAside d (prefetch_due now connected active) h = unfold prefetch in ground arith
turn-CachedAside d (retry_due now connected active) h =
    unfold retry_upload upload_pending_recording request_upload on_upload_start in ground arith

-- Once a message is cached but not pending, with no poll and no download on its way or to be
-- handled, this stays so in all later phases and worker turns: no poll is ever asked for again.
pub cached_message_ends_polling :
    (d : Device) (turns : List Turn) → CachedAside d → CachedAside (run_turns d turns)
unfolding run_turns
cached_message_ends_polling d [] h = h
cached_message_ends_polling d (t ∷ turns) h =
    cached_message_ends_polling (turn d t) turns (turn-CachedAside d t h)
