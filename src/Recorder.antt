-- ===== src/Recorder.antt =====
-- `AudioRecorder` of firmware/tinyvoice/src/audio_recorder.cpp: samples go from the ring through
-- the staging buffer, a chunk at a time, to the take file. This file has the state and the path of
-- the samples; `Session` has the calls of the main loop.
pub mod Session
pub mod Chunks
pub mod Samples
pub mod Writing
pub mod Flags
mod Tests
use mathlib.Core.Option
use tiny_voice.Prelude.{
  ℕ, zero, suc, ◌+◌, ◌-◌, ◌*◌, ◌/◌, ◌%◌, Bool, true, false, not, ◌||◌, Option, none, some, List, [],
  ◌∷◌, ◌++◌, ltb, leb, ◌==◌, if◌then◌else◌, length, take, drop, u32, sub32,
}
use tiny_voice.Take.{TakeState, write_chunk_to_disk}
use tiny_voice.Platform.{Platform}

abbrev pub chunk_bytes : ℕ
chunk_bytes = 16384

-- SAMPLE_RATE * sizeof(int16_t)
abbrev pub bytes_per_second : ℕ
bytes_per_second = 32000

abbrev pub max_recording_seconds : ℕ
max_recording_seconds = 60

abbrev pub fs_write_margin : ℕ
fs_write_margin = 8192

abbrev pub fs_upload_safe_bytes : ℕ
fs_upload_safe_bytes = 24576

-- `computeMaxPcmBytes`, of what `storageFreeBytes` returns.
unfoldable pub compute_max_pcm_bytes : ℕ → ℕ
compute_max_pcm_bytes free_bytes =
    let usable =
      (free_bytes - fs_upload_safe_bytes - fs_write_margin) / chunk_bytes * chunk_bytes in
    let cap = max_recording_seconds * bytes_per_second in
    if leb free_bytes (fs_upload_safe_bytes + fs_write_margin)
    then 0
    else (if ltb cap usable then cap else usable)

-- The fields of the recorder on the way from a sample to the file; the ring and the flags of the
-- capture task are in `Session`. `staging` is what stands in the live slot below `_writePos`;
-- `staging_size` is 0 while no slot is held. `s_takeFd` and the file are in the `TakeState`.
pub record Recorder : Type 0 where
  pub recording : Bool
  pub disk_full : Bool
  pub start_ms : ℕ
  pub max_pcm_bytes : ℕ
  pub staging : List ℕ
  pub staging_size : ℕ
  pub pcm_total : ℕ
  pub next_chunk_index : ℕ
  pub chunk_count : ℕ

-- `_writePos`
abbrev pub write_pos : Recorder → ℕ
write_pos r = length r.staging

unfoldable pub has_space_for_chunk : Recorder → ℕ → Bool
has_space_for_chunk r bytes = leb (u32 (r.pcm_total + bytes)) r.max_pcm_bytes

unfoldable pub mark_flash_limit : Recorder → Recorder
mark_flash_limit r = if r.disk_full then r else record r { disk_full = true; recording = false }

-- A sample in memory: two bytes, the lower first.
abbrev pub encode : List ℕ → List ℕ
encode [] = []
encode (x ∷ xs) = x % 256 ∷ x / 256 % 256 ∷ encode xs

-- How many samples of `count` and how many bytes go into the space, within the budget.
abbrev pub clamp_chunk : ℕ → ℕ → ℕ → ℕ × ℕ
clamp_chunk count space remaining =
    let chunk = if ltb space count then space else count in
    if ltb remaining (chunk * 2) then (remaining / 2, remaining) else (chunk, chunk * 2)

abbrev pub space_samples : Recorder → ℕ
space_samples r = sub32 r.staging_size (write_pos r) / 2

abbrev pub remaining_pcm : Recorder → ℕ
remaining_pcm r = sub32 r.max_pcm_bytes (u32 (r.pcm_total + write_pos r))

-- The `memcpy` of a number of bytes, and `_writePos` moved behind them.
unfoldable pub copy : Recorder → List ℕ → ℕ → Recorder
copy r samples bytes = record r { staging = r.staging ++ take bytes (encode samples) }

module _ (p : Platform) where
  abbrev pub State : Type 0
  State = Recorder × TakeState p

  -- What `writeChunkSync` does after the write.
  unfoldable pub chunk_written : Recorder → Bool × TakeState p → Bool × State
  chunk_written r (false, t) = (false, (mark_flash_limit r, t))
  chunk_written r (true, t) = (
    true,
    (
      record r {
        pcm_total = u32 (r.pcm_total + write_pos r);
        staging = [];
        next_chunk_index = r.next_chunk_index + 1;
        chunk_count = r.chunk_count + 1;
      },
      t,
    ),
  )

  -- `queueChunkFlush` is this call. `none` is the fuel of the write, which does not run out.
  unfoldable pub write_chunk_sync : State → Option (Bool × State)
  write_chunk_sync (r, t) =
      if write_pos r == 0 || r.disk_full
      then some (true, (r, t))
      else (if not (has_space_for_chunk r (write_pos r))
          then some (false, (mark_flash_limit r, t))
          else Option.map (chunk_written r) (write_chunk_to_disk p r.staging t))

  -- A flush that is made only in one case; without it the code goes on.
  abbrev pub flush_if : Bool → State → Option (Bool × State)
  flush_if due s = if due then write_chunk_sync s else some (true, s)

  -- A round ends the call (none), or leaves samples for another.
  abbrev pub Round : Type 0
  Round = State × Option (List ℕ)

  -- The end of a round: a full buffer is flushed, whatever comes of it.
  unfoldable pub end_round : State → List ℕ → Option Round
  end_round (r, t) left =
      Option.map (λ (f : Bool × State). (f.1, some left))
        (flush_if (leb r.staging_size (write_pos r)) (r, t))

  -- The rest of a round, from the result of the flush at its start and the space that there is.
  unfoldable pub copy_round : List ℕ → ℕ → Bool × State → Option Round
  copy_round samples space (ok, (r, t)) =
      let (chunk, bytes) = clamp_chunk (length samples) space (remaining_pcm r) in
      if not ok
      then some ((r, t), none)
      else (if remaining_pcm r == 0
          then some ((record r { recording = false }, t), none)
          else end_round (copy r samples bytes, t) (drop chunk samples))

  -- The body of the loop of `writeSamples`.
  unfoldable pub write_round : State → List ℕ → Option Round
  write_round (r, t) samples =
      let full = space_samples r == 0 in
      let space = if full then r.staging_size / 2 else space_samples r in
      elim (flush_if full (r, t)) [ none ↦ none | some f ↦ copy_round samples space f ]

  -- The loop, over the samples that are left. `none` says that the fuel ran out.
  unfoldable pub write_samples_loop : ℕ → State → List ℕ → Option State
  write_samples_loop zero s samples = none
  write_samples_loop (suc fuel) (r, t) samples =
      if length samples == 0 || r.disk_full || r.staging_size == 0
      then some (r, t)
      else elim (write_round (r, t) samples) [
        | none ↦ none
        | some (s', left) ↦ elim left [ none ↦ some s' | some xs ↦ write_samples_loop fuel s' xs ]
      ]

  -- A round for each sample and one more are enough.
  unfoldable pub write_samples : State → List ℕ → Option State
  write_samples s samples = write_samples_loop (suc (length samples)) s samples
