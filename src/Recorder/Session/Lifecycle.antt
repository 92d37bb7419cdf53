-- ===== src/Recorder/Session/Lifecycle.antt =====
-- How a take begins and ends: its budget, the empty file that it starts with, and the size that is
-- believed in the end.
use tiny_voice.Prelude.{
  ℕ, ◌+◌, ◌-◌, ◌*◌, ◌/◌, ◌%◌, ◌≤◌, ◌≡◌, refl, ap, ◌∙◌, inl, inr, true, false, none, some, [], ◌++◌,
  arith, Bool-cases, Option-cases, length,
}
use tiny_voice.Platform.{Platform, IsSteady}
use tiny_voice.Take.{is_open, TakeState, close_take_fd, open_take_fd}
use tiny_voice.Take.Write.{on_file}
use tiny_voice.Take.Open.{open_take_fd-open}
use tiny_voice.Storage.{storage_free_bytes, storage_prune_for_recording, storage_reclaim_for_take}
use tiny_voice.Recorder.Chunks.{stream, IsValid}
use tiny_voice.Recorder.{
  chunk_bytes, bytes_per_second, max_recording_seconds, fs_write_margin, fs_upload_safe_bytes,
  compute_max_pcm_bytes, Recorder, State,
}
use tiny_voice.Recorder.Session.{
  Session, cleanup_recording, set_budget, open_empty, prepare_take, begin_take,
}

-- The budget of a take is whole samples, at most 60 seconds, and leaves the flash that is kept for
-- metadata and the upload: it is 0 where less than that is free.
pub compute_max_pcm_bytes_bounds :
    (free : ℕ)
    → (compute_max_pcm_bytes free % 2 ≡ 0)
      × (compute_max_pcm_bytes free ≤ max_recording_seconds * bytes_per_second)
      × (compute_max_pcm_bytes free ≤ free - (fs_upload_safe_bytes + fs_write_margin))
unfolding compute_max_pcm_bytes
compute_max_pcm_bytes_bounds free = ground arith

module _ (p : Platform) (law : IsSteady p) where
  open_take_fd_trunc :
      (s : TakeState p)
      → (open_take_fd p false s).0 ≡ true
      → on_file p law (open_take_fd p false s).1 ≡ []
  unfolding open_take_fd
  open_take_fd_trunc s h = elim (Option-cases (p.open_take false (close_take_fd p s).1).0) [
    | inl e ↦ absurd (closed e)
    | inr (fd, e) ↦
        ap p.take_bytes (world fd e)
        ∙ law.posix.take_bytes-open_trunc (close_take_fd p s).1 (λ n. cc)
  ]
    where
      closed : (p.open_take false (close_take_fd p s).1).0 ≡ none → ⊥
      closed e = ground (arith, e)

      world :
          (fd : ℕ)
          → (p.open_take false (close_take_fd p s).1).0 ≡ some fd
          → (open_take_fd p false s).1.1 ≡ (p.open_take false (close_take_fd p s).1).1
      world fd e = rw (e, open_take_fd)

  open_empty_lem :
      (s : TakeState p) → (open_empty p s).0 ≡ true → on_file p law (open_empty p s).1 ≡ []
  unfolding open_empty
  open_empty_lem (fd, w) h = elim (Bool-cases (p.ensure_dir w).0) [
    | inr nodir ↦ absurd (never nodir)
    | inl dir ↦ elim (Bool-cases (p.mutex_take (p.ensure_dir w).1).0) [
      | inr timeout ↦ absurd (never_locked dir timeout)
      | inl locked ↦
          rw (dir, locked)
            (law.posix.take_bytes-mutex_give
                (open_take_fd p false (fd, (p.mutex_take (p.ensure_dir w).1).1)).1.1
              ∙ open_take_fd_trunc (fd, (p.mutex_take (p.ensure_dir w).1).1) (ground arith))
    ]
  ]
    where
      never : (p.ensure_dir w).0 ≡ false → ⊥
      never e = ground arith

      never_locked : (p.ensure_dir w).0 ≡ true → (p.mutex_take (p.ensure_dir w).1).0 ≡ false → ⊥
      never_locked d e = ground arith

  open_empty-open :
      (s : TakeState p) → (open_empty p s).0 ≡ true → is_open (open_empty p s).1.0 ≡ true
  unfolding open_empty
  open_empty-open (fd, w) h =
      let t : TakeState p = (fd, (p.mutex_take (p.ensure_dir w).1).1) in
      ground (arith, open_take_fd-open p law false t)

  cleanup_recording_size : (c : State p) → (cleanup_recording p c).0.staging_size ≡ c.0.staging_size
  unfolding cleanup_recording
  cleanup_recording_size (r, t) = ground arith

  set_budget_size : (c : State p) → (set_budget p c).0.staging_size ≡ c.0.staging_size
  unfolding set_budget
  set_budget_size (r, (fd, w)) = cleanup_recording_size (r, (fd, storage_prune_for_recording p w))

  prepare_take-budget :
      (c : State p)
      → (prepare_take p c).0 ≡ true
      → (bytes_per_second / 2 ≤ (set_budget p c).0.max_pcm_bytes)
        × ((open_empty p (set_budget p c).1).0 ≡ true)
        × ((prepare_take p c).1.1 ≡ (open_empty p (set_budget p c).1).1)
        × ((prepare_take p c).1.0 ≡ (set_budget p c).0)
  unfolding prepare_take
  prepare_take-budget c h = ground arith

  set_budget-bounds :
      (c : State p)
      → ((set_budget p c).0.max_pcm_bytes % 2 ≡ 0)
        × ((set_budget p c).0.max_pcm_bytes ≤ max_recording_seconds * bytes_per_second)
  unfolding set_budget
  set_budget-bounds (r, (fd, w)) =
      let bounds = compute_max_pcm_bytes_bounds (
        storage_free_bytes p (
          storage_reclaim_for_take p
            (cleanup_recording p (r, (fd, storage_prune_for_recording p w))).1.1)) in
      (bounds.0, bounds.1)

  -- A take that `start` has prepared, with a slot for its chunks, begins valid: the file and the
  -- buffer are empty, and the budget is at least half a second.
  pub begin_take-IsValid :
      (now : ℕ) (s : Session p)
      → s.core.0.staging_size ≡ chunk_bytes
      → (prepare_take p s.core).0 ≡ true
      → let c = (begin_take p now (record s { core = (prepare_take p s.core).1 })).core in
        IsValid p law c
        × (stream p law c ≡ [])
        × (bytes_per_second / 2 ≤ c.0.max_pcm_bytes)
        × (c.0.recording ≡ true)
  unfolding begin_take
  begin_take-IsValid now s hs h = (
    record {
      buffer = ap (λ (r : Recorder). r.staging_size) (known.3) ∙ set_budget_size s.core ∙ hs;
      fits = omega arith;
      budget = omega arith;
      small =
          omega
            (arith, ap (λ (r : Recorder). r.max_pcm_bytes) known.3, (set_budget-bounds s.core).1);
      even_staging = refl;
      even_total = refl;
      even_budget =
          ap (λ (r : Recorder). r.max_pcm_bytes % 2) known.3 ∙ (set_budget-bounds s.core).0;
      open_take = refl;
      counted = ap length empty;
      has_fd =
          ap (λ (t : TakeState p). is_open t.0) known.2
          ∙ open_empty-open (set_budget p s.core).1 known.1;
    },
    ap (λ bs. bs ++ []) empty,
    omega (arith, ap (λ (r : Recorder). r.max_pcm_bytes) known.3, known.0),
    refl,
  )
    where
      known :
          (bytes_per_second / 2 ≤ (set_budget p s.core).0.max_pcm_bytes)
          × ((open_empty p (set_budget p s.core).1).0 ≡ true)
          × ((prepare_take p s.core).1.1 ≡ (open_empty p (set_budget p s.core).1).1)
          × ((prepare_take p s.core).1.0 ≡ (set_budget p s.core).0)
      known = prepare_take-budget s.core h

      empty : on_file p law (prepare_take p s.core).1.1 ≡ []
      empty = ap (on_file p law) (known.2) ∙ open_empty_lem (set_budget p s.core).1 known.1
