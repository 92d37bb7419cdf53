-- ===== src/Recorder/Session/Begin.antt =====
-- `begin` and `releaseMemoryForNetwork` of firmware/tinyvoice/src/audio_recorder.cpp: the recorder
use tiny_voice.Ring.Window.{contents}
-- that the first take starts from.
use tiny_voice.Prelude.{
  ℕ, ◌+◌, ◌*◌, ◌≤◌, ◌<◌, ◌≡◌, refl, sym, ap, ◌∙◌, subst, inl, inr, Bool, true, false, not, ◌||◌,
  List, [], arith, if◌then◌else◌, Option-cases, length, word,
}
use tiny_voice.Platform.{Platform, IsSteady}
use tiny_voice.Ring.{Ring, ring_sample_count, init}
use tiny_voice.Ring.Bounds
use tiny_voice.Recorder.{bytes_per_second, max_recording_seconds}
use tiny_voice.Recorder.Session.{acquire_flush_slot, Session, allocate_staging}
use tiny_voice.Recorder.Session.During.{flat}
use tiny_voice.Recorder.Session.Start.{pre_roll, held}
use tiny_voice.Recorder.Session.Whole.{record_take, Recorded, record_take-Recorded}

module _ (p : Platform) where
  -- The fields that `begin` sets before it allocates the buffer.
  unfoldable pub reset : List ℕ → Session p → Session p
  reset s_ring_buffer s =
      let (r, t) = s.core in
      record s {
        capturing = false;
        ring = init s_ring_buffer;
        core = (
          record r {
            recording = false;
            disk_full = false;
            max_pcm_bytes = bytes_per_second * max_recording_seconds;
            staging = [];
            staging_size = 0;
            pcm_total = 0;
            next_chunk_index = 0;
            chunk_count = 0;
          },
          t,
        );
      }

  -- `begin`, given whether the I2S driver was installed and its pins set; the creation of the tasks
  -- is left out.
  unfoldable pub begin : Bool → Bool → List ℕ → Session p → Bool × Session p
  begin installed pinned s_ring_buffer s =
      if not installed || not pinned then (false, s) else allocate_staging p (reset s_ring_buffer s)

  -- The wait for the flush worker finds nothing to wait for.
  unfoldable pub release_memory_for_network : Session p → Session p
  release_memory_for_network s =
      let (r, t) = s.core in
      if r.recording then s else record s { core = (record r { staging = [] }, t) }

module _ (p : Platform) (law : IsSteady p) where
  allocate_staging-idle :
      (s : Session p)
      → ((allocate_staging p s).1.ring ≡ s.ring)
        × ((allocate_staging p s).1.capturing ≡ s.capturing)
        × ((allocate_staging p s).1.core.0.recording ≡ s.core.0.recording)
  unfolding allocate_staging
  allocate_staging-idle s = elim (Option-cases s.active_slot) [
    | inr (slot, held) ↦ rw (held, allocate_staging) (refl, refl, refl)
    | inl unheld ↦ elim (Option-cases (acquire_flush_slot s.slot_free)) [
      | inl busy ↦ rw (unheld, busy, allocate_staging) (refl, refl, refl)
      | inr ((slot, slots), free) ↦ rw (unheld, free, allocate_staging) (refl, refl, refl)
    ]
  ]

  -- After `begin` the recorder is idle, and its ring is valid and empty.
  pub begin-IsValid :
      (s_ring_buffer : List ℕ) (s : Session p)
      → length s_ring_buffer ≡ ring_sample_count
      → let s' = (begin p true true s_ring_buffer s).1 in
        Bounds.IsValid s'.ring
        × (2 ≤ s'.ring.cap)
        × (s'.ring.cap ≡ ring_sample_count)
        × (s'.capturing ≡ false)
        × (s'.core.0.recording ≡ false)
  unfolding begin
  begin-IsValid s_ring_buffer s size =
      let (ring, capturing, recording) = allocate_staging-idle (reset p s_ring_buffer s) in
      let cap : (init s_ring_buffer).cap ≡ ring_sample_count = unfold init in refl in
      let same : (allocate_staging p (reset p s_ring_buffer s)).1.ring ≡ init s_ring_buffer =
        ring ∙ (unfold reset in refl) in
      (
        subst Bounds.IsValid (sym same) (Bounds.init-IsValid s_ring_buffer size),
        omega (arith, ap (λ (r : Ring). r.cap) same, cap),
        ap (λ (r : Ring). r.cap) same ∙ cap,
        capturing ∙ (unfold reset in refl),
        recording ∙ (unfold reset in refl),
      )

  -- The first take after `begin`, as `record_take` describes it; there is no pre-roll.
  pub first_take :
      (now rounds : ℕ) (meanwhile : List ℕ) (arrivals : List (List ℕ)) (late s_ring_buffer : List ℕ)
      (s : Session p)
      → length s_ring_buffer ≡ ring_sample_count
      → ring_sample_count + length (flat arrivals) + length late < word
      → let s' = (begin p true true s_ring_buffer s).1 in
        (pre_roll p law s' ≡ [])
        × Recorded p law s' meanwhile arrivals late
            (record_take p now rounds meanwhile arrivals late s')
  first_take now rounds meanwhile arrivals late s_ring_buffer s size small =
      let (valid, roomy, cap, off, idle) = begin-IsValid s_ring_buffer s size in
      (
        ap (λ b. if b then contents (begin p true true s_ring_buffer s).1.ring else []) off,
        record_take-Recorded p law now rounds meanwhile arrivals late
            (begin p true true s_ring_buffer s).1 valid roomy idle (omega (arith, cap, small)),
      )
