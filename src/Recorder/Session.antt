-- ===== src/Recorder/Session.antt =====
-- A take as the main loop drives it: `arm`, `disarm`, `start`, `loop`, `stop` and the capture task
-- of firmware/tinyvoice/src/audio_recorder.cpp. The capture task runs beside `loop`: the samples
-- that it pushes before each `popRing` are an argument of the loop.
pub mod Lifecycle
pub mod Content
pub mod Popped
pub mod During
pub mod Drained
pub mod Drains
pub mod Ending
pub mod Settle
pub mod Stop
pub mod Rounds
pub mod Start
pub mod Whole
pub mod Begin
mod Examples
use mathlib.Core.Option
use tiny_voice.Prelude.{
  ℕ, zero, suc, ◌+◌, ◌/◌, Bool, true, false, not, ◌&&◌, ◌||◌, Option, none, some, List, [], ◌∷◌,
  ltb, leb, ◌==◌, if◌then◌else◌, length, u32,
}
use tiny_voice.Ring.{Ring, clear, push_ring, pop_ring}
use tiny_voice.Platform.{Platform, accepted}
use tiny_voice.Storage.{
  storage_lock, storage_unlock, storage_free_bytes, storage_prune_for_recording,
  storage_reclaim_for_take,
}
use tiny_voice.Take.{is_open, TakeState, close_take_fd, open_take_fd}
use tiny_voice.Recorder.{
  chunk_bytes, bytes_per_second, compute_max_pcm_bytes, write_pos, State, write_chunk_sync,
  write_samples,
}

abbrev pub i2s_read_samples : ℕ
i2s_read_samples = 256

-- The slots of the flush worker, true where free. No chunk is handed to the worker any more, so a
-- slot that is not free at the first look stays so until the time-out.
unfoldable pub acquire_flush_slot : List Bool → Option (ℕ × List Bool)
acquire_flush_slot [] = none
acquire_flush_slot (true ∷ slots) = some (0, false ∷ slots)
acquire_flush_slot (false ∷ slots) =
    Option.map (λ (s : ℕ × List Bool). (suc s.0, false ∷ s.1)) (acquire_flush_slot slots)

-- What the capture task pushes before the next `popRing`.
abbrev pub arriving : List (List ℕ) → List ℕ
arriving [] = []
arriving (a ∷ arrivals) = a

abbrev pub later : List (List ℕ) → List (List ℕ)
later [] = []
later (a ∷ arrivals) = arrivals

module _ (p : Platform) where
  pub record Session : Type 0 where
    pub capturing : Bool
    pub ring : Ring
    pub peak : ℕ
    pub active_slot : Option ℕ
    pub slot_free : List Bool
    pub core : State p

  abbrev with_core : Session → State p → Session
  with_core s c = record s { core = c }

  unfoldable pub arm : Session → Session
  arm s =
      if s.core.0.recording || s.capturing
      then s
      else record s { ring = clear s.ring; peak = 0; capturing = true }

  unfoldable pub disarm : Session → Session
  disarm s = if s.core.0.recording then s else record s { capturing = false; ring = clear s.ring }

  unfoldable pub is_armed : Session → Bool
  is_armed s = s.capturing && not s.core.0.recording

  -- `maxDurationReached`
  unfoldable pub max_duration_reached : Session → Bool
  max_duration_reached s =
      s.core.0.recording
      && leb s.core.0.max_pcm_bytes (u32 (s.core.0.pcm_total + write_pos s.core.0))

  unfoldable pub has_pending_recording : Session → Bool
  has_pending_recording s = ltb 0 s.core.0.chunk_count && ltb 0 s.core.0.pcm_total

  -- `captureTaskLoop`: samples that it reads while it is wanted go into the ring. A read that `stop`
  -- overtakes is an argument of `stop`.
  unfoldable pub capture : Session → List ℕ → Session
  capture s samples =
      if not s.capturing && not s.core.0.recording
      then s
      else record s { ring = push_ring s.core.0.recording s.ring samples }

  -- The `while` loop of `loop`; `none` says that the fuel ran out.
  unfoldable pub drain : ℕ → ℕ → ℕ → List (List ℕ) → Session → Option (Session × List (List ℕ))
  drain zero budget drained arrivals s = none
  drain (suc fuel) budget drained arrivals s =
      let s1 = capture s (arriving arrivals) in
      let (chunk, ring) = pop_ring s1.ring i2s_read_samples in
      let s2 = record s1 { ring = ring } in
      if leb budget drained
      then some (s, arrivals)
      else (if length chunk == 0
          then some (s2, later arrivals)
          else elim (write_samples p s.core chunk) [
            | none ↦ none
            | some c ↦ drain fuel budget (drained + length chunk) (later arrivals) (with_core s2 c)
          ])

  -- `loop`: a round takes at least one sample, so the budget and one more rounds are enough.
  unfoldable pub loop : List (List ℕ) → Session → Option (Session × List (List ℕ))
  loop arrivals s =
      let budget = s.ring.cap / 2 in
      if not (is_open s.core.1.0) || s.ring.count == 0
      then some (s, arrivals)
      else drain (suc budget) budget 0 arrivals s

  unfoldable pub allocate_staging : Session → Bool × Session
  allocate_staging s =
      let (r, t) = s.core in
      elim s.active_slot [
        | some slot ↦ (true, with_core s (record r { staging_size = chunk_bytes }, t))
        | none ↦ elim (acquire_flush_slot s.slot_free) [
          | none ↦ (false, with_core s (record r { staging_size = 0 }, t))
          | some (slot, slots) ↦ (
            true,
            record s {
              active_slot = some slot;
              slot_free = slots;
              core = (record r { staging_size = chunk_bytes }, t);
            },
          )
        ]
      ]

  -- `cleanupRecording`; the wait for the flush worker finds nothing to wait for.
  unfoldable pub cleanup_recording : State p → State p
  cleanup_recording (r, t) =
      let (fd, w) = close_take_fd p t in
      let (locked, w1) = storage_lock p w in
      if locked
      then (
        record r { chunk_count = 0; next_chunk_index = 0; pcm_total = 0; staging = [] },
        (fd, storage_unlock p (p.remove_takes w1)),
      )
      else (r, (fd, w1))

  -- The flash work of `start`: old files go, and what is free then is the budget.
  unfoldable pub set_budget : State p → State p
  set_budget (r, (fd, w)) =
      let (r1, (fd1, w1)) = cleanup_recording (r, (fd, storage_prune_for_recording p w)) in
      let w2 = storage_reclaim_for_take p w1 in
      (record r1 { max_pcm_bytes = compute_max_pcm_bytes (storage_free_bytes p w2) }, (fd1, w2))

  -- The directory, the mutex and the empty take file: whether all three were had.
  unfoldable pub open_empty : TakeState p → Bool × TakeState p
  open_empty (fd, w) =
      let (has_dir, w1) = p.ensure_dir w in
      let (locked, w2) = storage_lock p w1 in
      let (opened, (fd1, w3)) = open_take_fd p false (fd, w2) in
      if not has_dir
      then (false, (fd, w1))
      else (if not locked then (false, (fd, w2)) else (opened, (fd1, storage_unlock p w3)))

  -- The file work of `start`: whether there is a budget, and the take is open and empty.
  unfoldable pub prepare_take : State p → Bool × State p
  prepare_take c =
      let (r, t) = set_budget c in
      let (ready, t1) = open_empty t in
      if ltb r.max_pcm_bytes (bytes_per_second / 2) then (false, (r, t)) else (ready, (r, t1))

  -- What `start` sets once the take is open; it keeps the pre-roll in the ring.
  unfoldable pub begin_take : ℕ → Session → Session
  begin_take now s =
      let (r, t) = s.core in
      record s {
        ring = record (s.ring) { dropped = 0 };
        core = (
          record r {
            staging = [];
            pcm_total = 0;
            next_chunk_index = 0;
            chunk_count = 0;
            disk_full = false;
            start_ms = now;
            recording = true;
          },
          t,
        );
      }

  -- The two drains at the end of `start`.
  unfoldable pub drain_twice : List (List ℕ) → Session → Option (Session × List (List ℕ))
  drain_twice arrivals s = elim (loop arrivals s) [
    | none ↦ none
    | some (s', arrivals') ↦ loop arrivals' s'
  ]

  -- `start`: whether a take was begun, and what the capture task pushes after it. While `start`
  -- prepares the take, the task pushes `meanwhile`, not yet recording. Every refusal disarms.
  unfoldable pub start :
      ℕ → List ℕ → List (List ℕ) → Session → Option (Bool × Session × List (List ℕ))
  start now meanwhile arrivals s =
      let (allocated, s0) = allocate_staging (if s.capturing then s else arm s) in
      let s1 = capture s0 meanwhile in
      let (ready, core) = prepare_take s1.core in
      let s2 = with_core s1 core in
      let begun = drain_twice arrivals (begin_take now s2) in
      if s.core.0.recording
      then some (false, s, arrivals)
      else (if not allocated
          then some (false, disarm s1, arrivals)
          else (if not ready
              then some (false, disarm s2, arrivals)
              else Option.map (λ (b : Session × List (List ℕ)). (true, b.0, b.1)) begun))

  -- The first loop of `stop`: at most so many drains, until the ring is empty.
  unfoldable pub drain_all : ℕ → Session → Option Session
  drain_all zero s = some s
  drain_all (suc rounds) s = elim (loop [] s) [
    | none ↦ none
    | some (s', _) ↦ elim (s'.ring.count == 0) [ true ↦ some s' | false ↦ drain_all rounds s' ]
  ]

  -- What `stop` does after the last chunk: it closes the take and believes the file's size.
  unfoldable pub settle_size : State p → State p
  settle_size (r, t) =
      let (locked, w1) = storage_lock p t.1 in
      let (fd, w2) = close_take_fd p (t.0, w1) in
      let w3 = if locked then storage_unlock p w2 else w2 in
      let (locked', w4) = storage_lock p w3 in
      let size = accepted (p.file_size w4) in
      let r' =
        if ltb 0 size && not (size == r.pcm_total) then record r { pcm_total = size } else r in
      if locked' then (r', (fd, storage_unlock p w4)) else (r, (fd, w4))

  -- The end of `stop`: a take without a byte is deleted.
  unfoldable pub finish_take : Session → State p → ℕ × ℕ × Session
  finish_take s c =
      if c.0.pcm_total == 0
      then (0, 0, with_core s (cleanup_recording c))
      else (c.0.pcm_total, 44 + c.0.pcm_total, with_core s c)

  -- `stop`: the bytes of the take, the length of the file that is to be uploaded, and the recorder.
  -- The read of the capture task that was under way is pushed after the flags are cleared.
  unfoldable pub stop : List ℕ → Session → Option (ℕ × ℕ × Session)
  stop late s =
      let (r, t) = s.core in
      let quiet = record s {
        capturing = false;
        ring = push_ring false s.ring late;
        core = (record r { recording = false }, t);
      } in
      elim (drain_all 100 quiet) [
        | none ↦ none
        | some s1 ↦ elim (write_chunk_sync p s1.core) [
          | none ↦ none
          | some (_, c) ↦ some (finish_take s1 (settle_size c))
        ]
      ]
