-- ===== src/MainLoop/Tests.antt =====
-- The main loop on concrete runs.
use tiny_voice.Prelude.{ℕ, ◌+◌, ◌≡◌, refl, true, false, none, some, List, [], ◌∷◌, arith, leb}
use tiny_voice.StateMachine.{
  is, initial, on_boot_complete, on_wifi_connected, on_download_start, on_poll_complete,
  on_download_complete, on_download_failed, recording, downloading,
}
use tiny_voice.MainLoop.{
  Device, same_id, note_api_success, note_api_failure, api_calls_allowed, request_net_job,
  start_net_worker, Answer, perform, worker_turn, start_inbound_download,
}
use tiny_voice.MainLoop.Turns.{
  settle_download, poll_found, poll_nothing, settle_poll, request_poll, prefetch,
}
use tiny_voice.MainLoop.Worker.{IsOrderly, worker-IsOrderly}
use tiny_voice.MainLoop.Awaited.{download_ends}
use tiny_voice.MainLoop.Backoff.{fail_all, six_failures_back_off}
use tiny_voice.MainLoop.Unheard.{CachedAside, cached_message_ends_polling}
use tiny_voice.MainLoop.Stuck.{RecordsAside, wifi_loss_ends_recording}
use tiny_voice.MainLoop.Steps.{
  zeroed, setup, Turn, turn, run_turns, worker_moves, wifi_watched, hold_seen, download_settled,
  poll_settled, poll_due, prefetch_due,
}

abbrev message_id : List ℕ
message_id = 55 ∷ 66 ∷ []

abbrev found : Answer
found = record { ok = true; message = some message_id; trimmed = false }

-- A poll finds a message, and its download is asked for.
abbrev morning : List Turn
morning =
    poll_due 20000 true false
    ∷ worker_moves found
    ∷ worker_moves found
    ∷ poll_settled 20100
    ∷ prefetch_due 20110 true false
    ∷ []

morning_downloads : (run_turns (setup 10000 true true true) morning).machine.state ≡ downloading
unfolding run_turns setup turn start_net_worker request_poll worker_turn perform settle_poll
    poll_found note_api_success prefetch start_inbound_download request_net_job on_boot_complete
    on_wifi_connected on_poll_complete on_download_start api_calls_allowed same_id initial
morning_downloads = refl

worker-IsOrderly_example : IsOrderly (run_turns (setup 10000 true true true) morning)
worker-IsOrderly_example = worker-IsOrderly 10000 true true true morning

download_ends_example :
    is
      (settle_download
        (worker_turn found (run_turns (setup 10000 true true true) morning))).machine.state
      downloading
    ≡ false
download_ends_example = download_ends 10000 true true true morning found

-- A take is being recorded.
abbrev taking : Device
taking = record (zeroed) {
  machine = record (initial) { state = recording };
  recorder_recording = true;
}

abbrev afterwards : List Turn
afterwards = wifi_watched true ∷ hold_seen true true true true ∷ []

wifi_loss_ends_recording_example :
    RecordsAside (run_turns (turn taking (wifi_watched false)) afterwards)
wifi_loss_ends_recording_example = wifi_loss_ends_recording taking afterwards refl refl

sixth_failure_counts :
    let five = fail_all (1 ∷ 2 ∷ 3 ∷ 4 ∷ 5 ∷ []) (note_api_success zeroed) in
    let six = note_api_failure 6 five in
    (api_calls_allowed 7 five ≡ true)
    × (api_calls_allowed 7 six ≡ leb (6 + 15000) 7)
    × (api_calls_allowed 7 (note_api_success six) ≡ true)
sixth_failure_counts = six_failures_back_off zeroed 1 2 3 4 5 6 7 (omega arith)

abbrev nothing : Answer
nothing = record { ok = true; message = none; trimmed = false }

abbrev no_answer : Answer
no_answer = record { ok = false; message = none; trimmed = false }

-- The first download fails; the next poll ends between the handling of a poll's answer and the
-- prefetch, and says that no message waits.
abbrev race : List Turn
race =
    worker_moves no_answer
    ∷ worker_moves no_answer
    ∷ download_settled
    ∷ poll_due 30000 true false
    ∷ poll_settled 30010
    ∷ worker_moves nothing
    ∷ worker_moves nothing
    ∷ prefetch_due 30020 true false
    ∷ download_settled
    ∷ poll_settled 30030
    ∷ worker_moves found
    ∷ worker_moves found
    ∷ download_settled
    ∷ []

abbrev raced : Device
raced = run_turns (run_turns (setup 10000 true true true) morning) race

raced-CachedAside : CachedAside raced
unfolding run_turns setup turn start_net_worker request_poll worker_turn perform settle_poll
    poll_found poll_nothing settle_download on_download_complete on_download_failed note_api_success
    prefetch start_inbound_download request_net_job on_boot_complete on_wifi_connected
    on_poll_complete on_download_start api_calls_allowed same_id initial
raced-CachedAside = record {
  ready = refl;
  unannounced = refl;
  no_download = refl;
  no_poll = refl;
  other_job = refl;
}

cached_message_ends_polling_example : CachedAside (run_turns raced (poll_due 90000 true false ∷ []))
cached_message_ends_polling_example =
    cached_message_ends_polling raced (poll_due 90000 true false ∷ []) raced-CachedAside
