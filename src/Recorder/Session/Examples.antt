-- ===== src/Recorder/Session/Examples.antt =====
-- The start of a take on the scripted disk.
use tiny_voice.Ring.{make_room, append, push_ring, pop_ring}
use tiny_voice.Recorder.Session.Rounds.{take_rounds}
use tiny_voice.Recorder.Session.Whole.{record_take}
use tiny_voice.Ring.Bounds
use tiny_voice.Prelude.{ℕ, ◌/◌, ◌≤◌, ◌≡◌, refl, true, false, Option, none, some, List, [], ◌∷◌}
use tiny_voice.Platform.Script.{scripted, scripted-IsSteady}
use tiny_voice.Take.{
  close_take_fd, open_take_fd, write_fd, write_piece, write_loop, write_chunk_to_disk,
}
use tiny_voice.Storage.{storage_free_bytes, storage_prune_for_recording, storage_reclaim_for_take}
use tiny_voice.Recorder.{
  chunk_bytes, bytes_per_second, compute_max_pcm_bytes, has_space_for_chunk, copy, chunk_written,
  write_chunk_sync, end_round, copy_round, write_round, write_samples_loop, write_samples,
}
use tiny_voice.Recorder.Chunks.{stream, IsValid}
use tiny_voice.Recorder.Session.{
  Session, arm, disarm, capture, drain, loop, allocate_staging, cleanup_recording, set_budget,
  open_empty, prepare_take, begin_take, drain_twice, start, drain_all, settle_size, finish_take,
  stop,
}
use tiny_voice.Recorder.Session.Lifecycle.{begin_take-IsValid}

abbrev waiting : Session scripted
waiting = record {
  capturing = true;
  ring = record {
    attached = true;
    buf = 0 ∷ 0 ∷ 0 ∷ 0 ∷ [];
    cap = 4;
    write = 0;
    read = 0;
    count = 0;
    dropped = 0;
  };
  peak = 0;
  active_slot = some 0;
  slot_free = [];
  core = (
    record {
      recording = false;
      disk_full = false;
      start_ms = 0;
      max_pcm_bytes = 0;
      staging = [];
      staging_size = chunk_bytes;
      pcm_total = 0;
      next_chunk_index = 0;
      chunk_count = 0;
    },
    (none, (1 ∷ 2 ∷ [], [])),
  );
}

prepared : (prepare_take scripted waiting.core).0 ≡ true
unfolding prepare_take set_budget cleanup_recording storage_prune_for_recording storage_free_bytes
    storage_reclaim_for_take open_empty open_take_fd close_take_fd compute_max_pcm_bytes
prepared = refl

begin_take-IsValid_example :
    let c =
      (begin_take scripted 7
        (record (waiting) { core = (prepare_take scripted waiting.core).1 })).core in
    IsValid scripted scripted-IsSteady c
    × (stream scripted scripted-IsSteady c ≡ [])
    × (bytes_per_second / 2 ≤ c.0.max_pcm_bytes)
    × (c.0.recording ≡ true)
begin_take-IsValid_example = begin_take-IsValid scripted scripted-IsSteady 7 waiting refl prepared

abbrev heard_late : List (List ℕ)
heard_late = (7 ∷ []) ∷ ((8 ∷ 300 ∷ []) ∷ [])

-- A sample during the preparation, three in two rounds, and one that `stop` overtakes: 10 bytes, 54
-- with the header.
abbrev sizes : Option (Option (ℕ × ℕ × Session scripted × List (List ℕ) × ℕ)) → ℕ × ℕ
sizes none = (0, 0)
sizes (some none) = (0, 0)
sizes (some (some (pcm, len, s, left, room))) = (pcm, len)

five_samples : sizes (record_take scripted 5 2 (4 ∷ []) heard_late (6 ∷ []) waiting) ≡ (10, 54)
unfolding record_take take_rounds start allocate_staging arm prepare_take set_budget
    cleanup_recording storage_prune_for_recording storage_free_bytes storage_reclaim_for_take
    open_empty open_take_fd close_take_fd compute_max_pcm_bytes begin_take drain_twice loop drain
    capture push_ring pop_ring write_samples stop drain_all write_chunk_sync settle_size finish_take
    disarm write_chunk_to_disk append make_room write_samples_loop write_round copy_round end_round
    copy has_space_for_chunk write_loop write_piece write_fd chunk_written
five_samples = refl
