-- ===== src/Recorder/Tests.antt =====
-- A take on the scripted disk.
use tiny_voice.Prelude.{refl, true, false, some, [], ◌∷◌, arith}
use tiny_voice.Platform.Script.{scripted, scripted-IsSteady}
use tiny_voice.Take.{TakeState}
use tiny_voice.Recorder.{chunk_bytes, Recorder, write_chunk_sync, write_samples}
use tiny_voice.Recorder.Chunks.{IsValid, Flushed, write_chunk_sync_lem}
use tiny_voice.Recorder.Samples.{Wrote}
use tiny_voice.Recorder.Writing.{write_samples_lem}

-- Two samples are waiting, and the budget has room for one more.
abbrev taking : Recorder
taking = record {
  recording = true;
  disk_full = false;
  start_ms = 0;
  max_pcm_bytes = 6;
  staging = 1 ∷ 0 ∷ 2 ∷ 0 ∷ [];
  staging_size = chunk_bytes;
  pcm_total = 0;
  next_chunk_index = 0;
  chunk_count = 0;
}

abbrev opened : TakeState scripted
opened = (some 3, ([], []))

taking-IsValid : IsValid scripted scripted-IsSteady (taking, opened)
taking-IsValid = record {
  buffer = refl;
  fits = omega arith;
  budget = omega arith;
  small = omega arith;
  even_staging = refl;
  even_total = refl;
  even_budget = refl;
  open_take = refl;
  counted = refl;
  has_fd = refl;
}

write_chunk_sync_lem_example :
    Flushed scripted scripted-IsSteady (taking, opened) (write_chunk_sync scripted (taking, opened))
write_chunk_sync_lem_example =
    write_chunk_sync_lem scripted scripted-IsSteady taking opened taking-IsValid

write_samples_lem_example :
    Wrote scripted scripted-IsSteady
      (taking, opened)
      (3 ∷ 4 ∷ [])
      (write_samples scripted (taking, opened) (3 ∷ 4 ∷ []))
write_samples_lem_example =
    write_samples_lem scripted scripted-IsSteady taking opened (3 ∷ 4 ∷ []) taking-IsValid
