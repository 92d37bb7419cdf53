-- ===== src/MainLoop.antt =====
-- firmware/tinyvoice/src/main.cpp: the globals of the main loop, the worker that owns every
-- background TLS call, and the phases of `loop` that handle its answers and give it new jobs.
-- What the phases read from elsewhere (clock, Wi-Fi, button, playback) is an argument; an id is the
-- bytes before its NUL. A phase is one step, and the worker moves between any two phases.
pub mod Turns
pub mod Steps
pub mod Backoff
pub mod Press
pub mod Worker
pub mod Awaited
pub mod Stuck
pub mod Unheard
mod Tests
use tiny_voice.Prelude.{
  ℕ, ◌+◌, Bool, true, false, not, ◌&&◌, ◌||◌, Option, none, some, List, [], ◌∷◌, ltb, leb, ◌==◌,
  if◌then◌else◌, take, u32,
}
use tiny_voice.StateMachine.{
  is, StateMachine, on_download_start, on_download_failed, on_playback_complete, downloading,
}

pub data NetJob : Type 0 where
  no_job poll download mark_played heartbeat : NetJob

abbrev pub is_no_job : NetJob → Bool
is_no_job no_job = true
is_no_job poll = false
is_no_job download = false
is_no_job mark_played = false
is_no_job heartbeat = false

-- `UploadJob`
pub record UploadJob : Type 0 where
  pub wav_header : List ℕ
  pub pcm_bytes : ℕ
  pub chunk_count : ℕ

-- The globals. `performed` is the place of the worker: after the call, before it clears its job.
-- `play_file` says whether a message that was fetched is in /play.wav, and
-- `recorder_recording` whether the recorder records; the take that the recorder keeps is its bytes
-- and its chunks, which `hasPendingRecording` reads.
pub record Device : Type 0 where
  pub machine : StateMachine
  pub last_poll_ms : ℕ
  pub last_heartbeat_ms : ℕ
  pub pending_id : List ℕ
  pub announced_id : List ℕ
  pub played_id : List ℕ
  pub upload_job : UploadJob
  pub upload_requested : Bool
  pub upload_retry_after : ℕ
  pub api_backoff_until : ℕ
  pub api_fail_streak : ℕ
  pub download_task_done : Bool
  pub inbound_ready : Bool
  pub inbound_trimmed : Bool
  pub download_ok : Bool
  pub download_id : List ℕ
  pub has_worker : Bool
  pub worker_retry_after : ℕ
  pub net_job : NetJob
  pub net_busy : Bool
  pub performed : Bool
  pub poll_task_done : Bool
  pub poll_ok : Bool
  pub poll_available : Bool
  pub poll_id : List ℕ
  pub heartbeat_task_done : Bool
  pub heartbeat_ok : Bool
  pub play_file : Bool
  pub recorder_recording : Bool
  pub take_bytes : ℕ
  pub take_chunks : ℕ

abbrev pub poll_interval_ms : ℕ
poll_interval_ms = 5000

abbrev pub min_recording_ms : ℕ
min_recording_ms = 500

-- `strlcpy` into the 40 bytes of an id.
abbrev pub id_copy : List ℕ → List ℕ
id_copy id = take 39 id

-- Whether `strcmp` is 0.
unfoldable pub same_id : List ℕ → List ℕ → Bool
same_id [] [] = true
same_id [] (y ∷ ys) = false
same_id (x ∷ xs) [] = false
same_id (x ∷ xs) (y ∷ ys) = x == y && same_id xs ys

abbrev pub is_empty_id : List ℕ → Bool
is_empty_id [] = true
is_empty_id (x ∷ xs) = false

abbrev pub with_machine : Device → StateMachine → Device
with_machine d m = record d { machine = m }

unfoldable pub note_api_success : Device → Device
note_api_success d = record d { api_fail_streak = 0; api_backoff_until = 0 }

unfoldable pub note_api_failure : ℕ → Device → Device
note_api_failure now d =
    if leb 6 (d.api_fail_streak + 1)
    then record d { api_backoff_until = u32 (now + 15000); api_fail_streak = 0 }
    else record d { api_fail_streak = d.api_fail_streak + 1 }

unfoldable pub api_calls_allowed : ℕ → Device → Bool
api_calls_allowed now d = leb d.api_backoff_until now

unfoldable pub request_upload : List ℕ → ℕ → ℕ → Device → Device
request_upload header bytes chunks d = record d {
  upload_job = record { wav_header = take 44 header; pcm_bytes = bytes; chunk_count = chunks };
  upload_requested = true;
}

unfoldable pub request_net_job : NetJob → Device → Bool × Device
request_net_job job d =
    if not d.has_worker || d.net_busy
    then (false, d)
    else (true, record d { net_busy = true; net_job = job })

-- `startNetWorker`, with whether the task could be created.
unfoldable pub start_net_worker : ℕ → Bool → Device → Device
start_net_worker now created d =
    if d.has_worker || ltb now d.worker_retry_after
    then d
    else record d { worker_retry_after = u32 (now + 5000); has_worker = created }

-- What the calls of the worker answer: whether they succeeded, the next message of a poll, and
-- whether a download was trimmed.
pub record Answer : Type 0 where
  pub ok : Bool
  pub message : Option (List ℕ)
  pub trimmed : Bool

abbrev is_some_id : Option (List ℕ) → Bool
is_some_id none = false
is_some_id (some id) = true

abbrev copied_id : Option (List ℕ) → List ℕ → List ℕ
copied_id none old = old
copied_id (some id) old = id_copy id

-- `netTaskEntry` up to the end of the call; a download that fails leaves no file worth playing.
unfoldable pub perform : NetJob → Answer → Device → Device
perform no_job a d = d
perform poll a d = record d {
  performed = true;
  poll_ok = a.ok;
  poll_available = (if a.ok then is_some_id a.message else d.poll_available);
  poll_id = (if a.ok then copied_id a.message d.poll_id else d.poll_id);
  poll_task_done = true;
}
perform heartbeat a d = record d {
  performed = true;
  heartbeat_ok = a.ok;
  heartbeat_task_done = true;
}
perform mark_played a d = record d {
  performed = true;
  download_id = (if a.ok then [] else d.download_id);
}
perform download a d = record d {
  performed = true;
  inbound_trimmed = a.trimmed;
  download_ok = a.ok;
  play_file = a.ok;
  download_task_done = true;
}

-- A turn of the worker between its stores: it calls, then it is done with the job.
unfoldable pub worker_turn : Answer → Device → Device
worker_turn a d =
    if d.performed
    then record d { performed = false; net_job = no_job; net_busy = false }
    else perform d.net_job a d

-- `playCachedInbound`, with whether the playback succeeded.
unfoldable pub play_cached_inbound : Bool → Device → Device
play_cached_inbound played d =
    if not d.inbound_ready
    then d
    else (let d1 = record d {
      inbound_ready = false;
      played_id =
          (if played && not (is_empty_id d.download_id)
            then id_copy d.download_id
            else d.played_id);
      announced_id =
          (if played && not (is_empty_id d.download_id)
            then id_copy d.download_id
            else d.announced_id);
      play_file = false;
      pending_id = [];
      inbound_trimmed = false;
      machine = on_playback_complete d.machine;
    } in
        (request_net_job mark_played d1).1)

-- `startInboundDownload`
unfoldable pub start_inbound_download : Device → Bool × Device
start_inbound_download d =
    let d1 = record d {
      download_id = id_copy d.pending_id;
      machine = on_download_start d.machine;
    } in
    let (accepted, d2) =
      request_net_job download (record d1 { download_task_done = false; download_ok = false }) in
    if is_empty_id d.pending_id
    then (false, d)
    else (if d.inbound_ready
        then (true, d)
        else (if d.net_busy || is d.machine.state downloading
            then (false, d)
            else (if not (is d1.machine.state downloading)
                then (false, d1)
                else (if accepted
                    then (true, d2)
                    else (false, with_machine d2 (on_download_failed d2.machine))))))
