-- ===== src/MainLoop/Turns.antt =====
-- The phases of `loop` in firmware/tinyvoice/src/main.cpp, each a function to the new globals. The
-- names `connected` and `active` are those of the source: Wi-Fi, and the button pressed or held.
-- `cleanupRecording` is taken to get the mutex of the file system here, so that it drops the take.
use tiny_voice.Prelude.{
  ℕ, ◌+◌, ◌*◌, ◌/◌, Bool, true, false, not, ◌&&◌, ◌||◌, [], ltb, leb, if◌then◌else◌, u32, sub32,
}
use tiny_voice.StateMachine.{
  DeviceState, is, on_wifi_connected, on_wifi_failed, on_button_hold_start, on_button_release,
  on_upload_start, on_button_short_press, on_poll_complete, on_upload_success, on_upload_failed,
  on_download_complete, on_download_failed, on_recording_cancelled, idle, recording, processing,
  uploading, checking_messages, downloading, playing, error,
}
use tiny_voice.Wav.{build_wav_header}
use tiny_voice.MainLoop.{
  Device, poll_interval_ms, min_recording_ms, id_copy, same_id, is_empty_id, with_machine,
  note_api_success, note_api_failure, api_calls_allowed, request_upload, request_net_job,
  play_cached_inbound, start_inbound_download, poll, mark_played, heartbeat,
}

-- Out of an error once Wi-Fi is back, and into one while it is away.
unfoldable pub watch_wifi : Bool → Device → Device
watch_wifi connected d =
    if is d.machine.state error && connected
    then with_machine d (on_wifi_connected d.machine)
    else (if not connected && not (is d.machine.state error)
        then with_machine d (on_wifi_failed d.machine)
        else d)

-- A reported press or hold plays the pending message, with whether the playback succeeded.
unfoldable pub press_to_play : Bool → Bool → Device → Device
press_to_play reported played d =
    let d1 = with_machine d (on_button_short_press d.machine) in
    if not (d.machine.has_pending_message && reported)
    then d
    else (if is d.machine.state downloading || is d.machine.state playing
        then d
        else (if not d.inbound_ready
            then d
            else (if is d1.machine.state playing then play_cached_inbound played d1 else d1)))

unfoldable pub can_arm_record : Bool → Device → Bool
can_arm_record connected d =
    connected
    && not d.machine.has_pending_message
    && not d.recorder_recording
    && (is d.machine.state idle || is d.machine.state checking_messages || is d.machine.state error)

-- A hold starts a take. The recorder says whether it started, and whether it came as far as the
-- deletions, which drop the kept take and the cached message.
unfoldable pub hold_to_record : Bool → Bool → Bool → Bool → Device → Device
hold_to_record held can_arm started cleaned d =
    let d1 = with_machine d (on_button_hold_start d.machine) in
    let d2 =
      if cleaned then record d1 { play_file = false; take_bytes = 0; take_chunks = 0 } else d1 in
    if not (held && can_arm)
    then d
    else (if not (is d1.machine.state recording)
        then d1
        else (if started
            then record d2 { recorder_recording = true }
            else with_machine d2 (on_recording_cancelled d2.machine)))

-- The milliseconds of a take.
abbrev pub duration_ms : ℕ → ℕ
duration_ms pcm_bytes = u32 (pcm_bytes / 2 * 1000) / 16000

-- The end of a take in `handleRecording`, with the bytes, the length of the file and the chunks
-- that `stop` leaves.
unfoldable pub finish_recording : ℕ → ℕ → ℕ → Device → Device
finish_recording pcm_bytes file_len chunks d =
    let d1 = record d { machine = on_button_release d.machine; recorder_recording = false } in
    let cancelled = record d1 {
      take_bytes = 0;
      take_chunks = 0;
      machine = on_recording_cancelled d1.machine;
    } in
    let kept = record d1 { take_bytes = pcm_bytes; take_chunks = chunks } in
    if ltb 0 pcm_bytes && ltb 0 file_len && leb min_recording_ms (duration_ms pcm_bytes)
    then with_machine (request_upload (build_wav_header pcm_bytes) pcm_bytes chunks kept)
        (on_upload_start kept.machine)
    else cancelled

-- `handleUploading`, with the time when the upload ends and whether it succeeded.
unfoldable pub handle_uploading : ℕ → Bool → Device → Device
handle_uploading now ok d =
    if not (is d.machine.state uploading && d.upload_requested)
    then d
    else (if ok
        then record d {
          upload_requested = false;
          upload_retry_after = 0;
          machine = on_upload_success d.machine;
          take_bytes = 0;
          take_chunks = 0;
        }
        else record d {
          upload_requested = false;
          upload_retry_after = u32 (now + 30000);
          machine = on_upload_failed d.machine;
        })

-- The answer of a download.
unfoldable pub settle_download : Device → Device
settle_download d =
    if not d.download_task_done
    then d
    else (if d.download_ok
        then record d {
          download_task_done = false;
          machine = on_download_complete d.machine;
          inbound_ready = true;
          announced_id =
              (if same_id d.announced_id d.download_id
                then d.announced_id
                else id_copy d.download_id);
        }
        else record d {
          download_task_done = false;
          machine = on_download_failed d.machine;
          inbound_ready = false;
        })

-- A poll that found the message that was played last: the acknowledgement is tried again.
unfoldable pub poll_played : Device → Device
poll_played d =
    let d1 = record d {
      download_id = (if is_empty_id d.download_id then id_copy d.poll_id else d.download_id);
    } in
    let d2 = (request_net_job mark_played d1).1 in
    with_machine d2 (on_poll_complete d2.machine false)

-- A poll that found a message to play: another message drops the cached one.
unfoldable pub poll_found : Device → Device
poll_found d =
    let dropped = not (same_id d.pending_id d.poll_id) && d.inbound_ready in
    record d {
      pending_id = id_copy d.poll_id;
      play_file = d.play_file && not dropped;
      inbound_ready = d.inbound_ready && not dropped;
      announced_id = (if dropped then [] else d.announced_id);
      machine = on_poll_complete d.machine true;
    }

unfoldable pub poll_nothing : Device → Device
poll_nothing d = record d {
  play_file = d.play_file && not d.inbound_ready;
  inbound_ready = false;
  pending_id = [];
  machine = on_poll_complete d.machine false;
}

-- The answer of a poll.
unfoldable pub settle_poll : ℕ → Device → Device
settle_poll now d =
    let d1 = record d { poll_task_done = false } in
    let failed = note_api_failure now d1 in
    let d2 = note_api_success d1 in
    if not d.poll_task_done
    then d
    else (if not d.poll_ok
        then with_machine failed
            (on_poll_complete failed.machine failed.machine.has_pending_message)
        else (if not d.poll_available
            then poll_nothing d2
            else (if not (is_empty_id d.played_id) && same_id d.played_id d.poll_id
                then poll_played d2
                else poll_found d2)))

-- The answer of a heartbeat.
unfoldable pub settle_heartbeat : ℕ → Device → Device
settle_heartbeat now d =
    let d1 = record d { heartbeat_task_done = false } in
    if not d.heartbeat_task_done
    then d
    else (if d.heartbeat_ok then note_api_success d1 else note_api_failure now d1)

unfoldable pub is_quiet : DeviceState → Bool
is_quiet state =
    not (is state uploading)
    && not (is state downloading)
    && not (is state playing)
    && not (is state recording)
    && not (is state processing)

unfoldable pub request_heartbeat : ℕ → Bool → Bool → Device → Device
request_heartbeat now connected active d =
    let d1 = record d { last_heartbeat_ms = now; heartbeat_task_done = false } in
    if api_calls_allowed now d
      && connected
      && is_quiet d.machine.state
      && not active
      && not d.net_busy
      && ltb 60000 (sub32 now d.last_heartbeat_ms)
    then (request_net_job heartbeat d1).1
    else d

unfoldable pub request_poll : ℕ → Bool → Bool → Device → Device
request_poll now connected active d =
    let d1 = record d { last_poll_ms = now; poll_task_done = false } in
    if api_calls_allowed now d
      && not active
      && connected
      && is d.machine.state idle
      && not d.upload_requested
      && not d.net_busy
      && not d.inbound_ready
      && ltb poll_interval_ms (sub32 now d.last_poll_ms)
      && leb d.upload_retry_after now
    then (request_net_job poll d1).1
    else d

-- The download that follows a poll which reported a message.
unfoldable pub prefetch : ℕ → Bool → Bool → Device → Device
prefetch now connected active d =
    if not active
      && d.machine.has_pending_message
      && not d.inbound_ready
      && is d.machine.state idle
      && connected
      && api_calls_allowed now d
      && not d.upload_requested
      && not d.net_busy
    then (start_inbound_download d).1
    else d

-- `uploadPendingRecording`
unfoldable pub upload_pending_recording : ℕ → Device → Bool × Device
upload_pending_recording now d =
    let d1 = request_upload (build_wav_header d.take_bytes) d.take_bytes d.take_chunks d in
    if not (api_calls_allowed now d) || ltb now d.upload_retry_after
    then (false, d)
    else (if d.upload_requested
        then (false, d)
        else (if not (ltb 0 d.take_chunks && ltb 0 d.take_bytes)
            then (false, d)
            else (true, with_machine d1 (on_upload_start d1.machine))))

-- The upload that was left over; `processQueue` changes no global.
unfoldable pub retry_upload : ℕ → Bool → Bool → Device → Device
retry_upload now connected active d =
    if not active
      && is d.machine.state idle
      && connected
      && not d.upload_requested
      && not d.net_busy
      && not d.machine.has_pending_message
    then (upload_pending_recording now d).1
    else d
