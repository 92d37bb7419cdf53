-- ===== src/Recorder/Chunks.antt =====
-- `writeChunkSync`: a chunk goes to the file whole, or the take is closed at what the file holds.
use mathlib.Core.Option
use tiny_voice.Prelude.{
  ℕ, ◌+◌, ◌*◌, ◌%◌, ◌≤◌, ◌≡◌, refl, sym, ap, ◌∙◌, inl, inr, Bool, true, false, ◌||◌, Option, none,
  some, List, ◌++◌, append-nil, arith, ◌==◌, Bool-cases, length, take, length-append,
  take-append_right,
}
use tiny_voice.Platform.{Platform, IsSteady}
use tiny_voice.Take.Open.{StaysOpen, write_chunk_to_disk-StaysOpen}
use tiny_voice.Take.{is_open, TakeState, write_chunk_to_disk}
use tiny_voice.Take.Write.{on_file, Returns, write_chunk_to_disk_lem}
use tiny_voice.Recorder.{
  chunk_bytes, bytes_per_second, max_recording_seconds, Recorder, write_pos, has_space_for_chunk,
  mark_flash_limit, State, chunk_written, write_chunk_sync,
}

module _ (p : Platform) (law : IsSteady p) where
  -- What was captured so far: the bytes in the file and, behind them, those in the buffer.
  abbrev pub stream : State p → List ℕ
  stream (r, t) = on_file p law t ++ r.staging

  -- The recorder inside a take: whole samples, counted bytes, and a budget that nothing exceeds.
  pub record IsValid (s : State p) : Type 0 where
    pub buffer : s.0.staging_size ≡ chunk_bytes
    pub fits : write_pos s.0 ≤ chunk_bytes
    pub budget : s.0.pcm_total + write_pos s.0 ≤ s.0.max_pcm_bytes
    pub small : s.0.max_pcm_bytes ≤ max_recording_seconds * bytes_per_second
    pub even_staging : write_pos s.0 % 2 ≡ 0
    pub even_total : s.0.pcm_total % 2 ≡ 0
    pub even_budget : s.0.max_pcm_bytes % 2 ≡ 0
    pub open_take : s.0.disk_full ≡ false
    pub counted : length (on_file p law s.1) ≡ s.0.pcm_total
    pub has_fd : is_open s.1.0 ≡ true

  -- A take that was closed by a full or failing file: the file holds a prefix of the bytes.
  pub record IsClosed (bytes : List ℕ) (s : State p) : Type 0 where
    pub closed : s.0.disk_full ≡ true
    pub not_recording : s.0.recording ≡ false
    pub kept : ℕ
    pub within : kept ≤ s.0.max_pcm_bytes
    pub prefix : on_file p law s.1 ≡ take kept bytes

  -- The calls of a take keep the budget and what is written or waits.
  pub record Keeps (s s' : State p) : Type 0 where
    pub still_valid : IsValid s'
    pub same_stream : stream s' ≡ stream s
    pub same_budget : s'.0.max_pcm_bytes ≡ s.0.max_pcm_bytes

  abbrev pub Flushed : State p → Option (Bool × State p) → Type 0
  Flushed s none = ⊥
  Flushed s (some (true, s')) = Keeps s s' × (write_pos s'.0 ≡ 0)
  Flushed s (some (false, s')) = IsClosed (stream s) s'

  chunk_written_lem :
      (r : Recorder) (t : TakeState p) (w : Option (Bool × TakeState p))
      → IsValid (r, t)
      → Returns p law r.staging t w
      → StaysOpen p law w
      → Flushed (r, t) (Option.map (chunk_written p r) w)
  unfolding chunk_written
  chunk_written_lem r t none v h o = h
  chunk_written_lem r t (some (true, t')) v h o = (
    record {
      still_valid = valid;
      same_stream = append-nil (on_file p law t') ∙ h;
      same_budget = refl;
    },
    refl,
  )
    where
      sizes : length (on_file p law t') ≡ r.pcm_total + write_pos r
      sizes = omega (arith, ap length h, length-append (on_file p law t) r.staging, v.counted)

      valid : IsValid (chunk_written p r (true, t')).1
      valid = unfold chunk_written in ground (arith, v, sizes)
  chunk_written_lem r t (some (false, t')) v (k, hk, h) o = record {
    closed = unfold mark_flash_limit in rw (v.open_take);
    not_recording = unfold mark_flash_limit in rw (v.open_take);
    kept = length (on_file p law t) + k;
    within = unfold mark_flash_limit in rw (v.open_take) (omega (arith, v, hk));
    prefix =
        h
        ∙ sym (
            take-append_right (length (on_file p law t) + k) (on_file p law t) r.staging
              (omega arith)
            ∙ ap (λ n. on_file p law t ++ take n r.staging) (omega arith));
  }

  -- `writeChunkSync` in a take ends; on success the bytes are all in the file and the buffer is
  -- empty, and on failure the take is closed and the file holds a prefix of them. On a flash where no
  -- write takes a part of its data and leaves `EBADF` in `errno`.
  pub write_chunk_sync_lem :
      (r : Recorder) (t : TakeState p) → IsValid (r, t) → Flushed (r, t) (write_chunk_sync p (r, t))
  unfolding write_chunk_sync
  write_chunk_sync_lem r t v = elim (Bool-cases (write_pos r == 0)) [
    | inl empty ↦
        rw empty (record { still_valid = v; same_stream = refl; same_budget = refl }, ground arith)
    | inr filled ↦
        rw (guard filled, room)
          (chunk_written_lem r t (write_chunk_to_disk p r.staging t) v
            (write_chunk_to_disk_lem p law r.staging t)
            (write_chunk_to_disk-StaysOpen p law r.staging t v.has_fd))
  ]
    where
      guard : (write_pos r == 0) ≡ false → (write_pos r == 0 || r.disk_full) ≡ false
      guard filled = ground (arith, v)

      room : has_space_for_chunk r (write_pos r) ≡ true
      room = unfold has_space_for_chunk in ground (arith, v)
