-- ===== src/Recorder/Session/Settle.antt =====
-- The last chunk of a take, and the size that `stop` believes: the take is in its file.
use tiny_voice.Prelude.{
  ℕ, ◌<◌, ◌≡◌, refl, sym, ap, ◌∙◌, subst, ◌⊎◌, inl, inr, Bool, true, false, ◌||◌, Option, none,
  some, List, ◌++◌, append-nil, arith, ◌==◌, if◌then◌else◌, Bool-cases, Option-cases, if-both,
  length, take, take-all, nil_of_length,
}
use tiny_voice.Platform.{Platform, accepted, IsSteady}
use tiny_voice.Ring.Window.{contents}
use tiny_voice.Ring.Refine.{length-contents}
use tiny_voice.Take.{is_open, TakeState, close_take_fd}
use tiny_voice.Take.Write.{on_file, close_take_fd_lem}
use tiny_voice.Storage.{storage_unlock}
use tiny_voice.Recorder.{write_pos, encode, State, write_chunk_sync}
use tiny_voice.Recorder.Chunks.{stream, IsClosed, Flushed, write_chunk_sync_lem}
use tiny_voice.Recorder.Samples.{length-stream}
use tiny_voice.Recorder.Session.{Session, settle_size}
use tiny_voice.Recorder.Session.Content.{Content, Closed-take}
use tiny_voice.Recorder.Session.During.{During}

module _ (p : Platform) (law : IsSteady p) where
  -- The world after the two looks of `stop` at the file system, and what the file holds there.
  abbrev given_back : Bool → p.World → p.World
  given_back locked w = if locked then storage_unlock p w else w

  given_back_file :
      (locked : Bool) (w : p.World) → p.take_bytes (given_back locked w) ≡ p.take_bytes w
  given_back_file locked w =
      if-both (λ w'. p.take_bytes w' ≡ p.take_bytes w) locked {x = storage_unlock p w} {y = w}
        (law.posix.take_bytes-mutex_give w) refl

  abbrev looked : TakeState p → p.World
  looked (fd, w) =
      (p.mutex_take (given_back (p.mutex_take w).0 (close_take_fd p (fd, (p.mutex_take w).1)).1)).1

  looked_file : (t : TakeState p) → p.take_bytes (looked t) ≡ on_file p law t
  looked_file (fd, w) =
      law.posix.take_bytes-mutex_take
        (given_back (p.mutex_take w).0 (close_take_fd p (fd, (p.mutex_take w).1)).1)
      ∙ given_back_file (p.mutex_take w).0 (close_take_fd p (fd, (p.mutex_take w).1)).1
      ∙ close_take_fd_lem p law (fd, (p.mutex_take w).1)
      ∙ law.posix.take_bytes-mutex_take w

  settle_size_file : (c : State p) → on_file p law (settle_size p c).1 ≡ on_file p law c.1
  unfolding settle_size
  settle_size_file (r, (fd, w)) = elim (Bool-cases (p.mutex_take w3).0) [
    | inl locked ↦
        rw locked (law.posix.take_bytes-mutex_give (looked (fd, w)) ∙ looked_file (fd, w))
    | inr timeout ↦ rw timeout (looked_file (fd, w))
  ]
    where
      w3 : p.World
      w3 = given_back (p.mutex_take w).0 (close_take_fd p (fd, (p.mutex_take w).1)).1

  settle_size_flags :
      (c : State p)
      → ((settle_size p c).0.disk_full ≡ c.0.disk_full)
        × ((settle_size p c).0.max_pcm_bytes ≡ c.0.max_pcm_bytes)
  unfolding settle_size
  settle_size_flags (r, t) = ground arith

  size_of_file :
      (w : p.World)
      → (accepted (p.file_size w) ≡ 0) ⊎ (accepted (p.file_size w) ≡ length (p.take_bytes w))
  size_of_file w = elim (Option-cases (p.file_size w)) [
    | inl missing ↦ inl (ap accepted missing)
    | inr (n, e) ↦ inr (ap accepted e ∙ law.posix.file_size_lem w e)
  ]

  -- A count that agrees with the file still does.
  settle_size_total :
      (c : State p)
      → c.0.pcm_total ≡ length (on_file p law c.1)
      → (settle_size p c).0.pcm_total ≡ length (on_file p law c.1)
  unfolding settle_size
  settle_size_total (r, (fd, w)) h =
      let size = size_of_file (looked (fd, w)) in
      let same = ap length (looked_file (fd, w)) in ground arith

  -- The take in its file, once nothing waits any more.
  abbrev pub Settled : List ℕ → ℕ → ℕ → State p → Type 0
  Settled heard most dropped c =
      (0 < dropped)
      ⊎ (((on_file p law c.1 ≡ take most (encode heard))
            × (c.0.pcm_total ≡ length (on_file p law c.1))
            × (c.0.disk_full ≡ false))
          ⊎ ((kept : ℕ) × (on_file p law c.1 ≡ take kept (encode heard)) × (c.0.disk_full ≡ true)))

  pub Settled-settle_size :
      (heard : List ℕ) (most dropped : ℕ) (c : State p)
      → Settled heard most dropped c
      → Settled heard most dropped (settle_size p c)
  Settled-settle_size heard most dropped c (inl lost) = inl lost
  Settled-settle_size heard most dropped c (inr (inl (file, total, full))) = inr (
      inl (
        settle_size_file c ∙ file,
        settle_size_total c total ∙ ap length (sym (settle_size_file c)),
        (settle_size_flags c).0 ∙ full,
      ))
  Settled-settle_size heard most dropped c (inr (inr (kept, file, full))) =
      inr (inr (kept, settle_size_file c ∙ file, (settle_size_flags c).0 ∙ full))

  -- The last chunk.
  abbrev pub Finished : List ℕ → ℕ → ℕ → Option (Bool × State p) → Type 0
  Finished heard most dropped none = ⊥
  Finished heard most dropped (some (done, c)) = Settled heard most dropped c

  Closed-Settled :
      (heard : List ℕ) (most dropped : ℕ) (c : State p)
      → IsClosed p law (encode heard) c
      → Settled heard most dropped c
  Closed-Settled heard most dropped c h = inr (inr (h.kept, h.prefix, h.closed))

  Flushed-Settled :
      (heard : List ℕ) (most dropped : ℕ) (c : State p) (o : Option (Bool × State p))
      → stream p law c ≡ take most (encode heard)
      → Flushed p law c o
      → Finished heard most dropped o
  Flushed-Settled heard most dropped c none e h = h
  Flushed-Settled heard most dropped c (some (true, c')) e (k, empty) =
      inr (inl (whole ∙ k.same_stream ∙ e, sym k.still_valid.counted, k.still_valid.open_take))
    where
      whole : on_file p law c'.1 ≡ stream p law c'
      whole = sym (
          ap (λ b. on_file p law c'.1 ++ b) (nil_of_length c'.0.staging empty)
          ∙ append-nil (on_file p law c'.1))
  Flushed-Settled heard most dropped c (some (false, c')) e closed =
      Closed-Settled heard most dropped c'
        (Closed-take p law most (encode heard) c' (subst (λ b. IsClosed p law b c') e closed))

  write_chunk_sync_closed :
      (c : State p) → c.0.disk_full ≡ true → write_chunk_sync p c ≡ some (true, c)
  unfolding write_chunk_sync
  write_chunk_sync_closed (r, t) closed = rw (guard)
    where
      guard : (write_pos r == 0 || r.disk_full) ≡ true
      guard = ground (arith, closed)

  pub last_chunk_Finished :
      (heard : List ℕ) (most : ℕ) (s : Session p)
      → During p law most heard s
      → (is_open s.core.1.0 ≡ true → s.ring.count ≡ 0)
      → Finished heard most s.ring.dropped (write_chunk_sync p s.core)
  last_chunk_Finished heard most s d empty = by_content d.content
    where
      closed_take :
          s.core.0.disk_full ≡ true
          → Settled heard most s.ring.dropped s.core
          → Finished heard most s.ring.dropped (write_chunk_sync p s.core)
      closed_take closed h =
          subst (Finished heard most s.ring.dropped) (sym (write_chunk_sync_closed s.core closed)) h

      lossy :
          (o : Option (Bool × State p))
          → 0 < s.ring.dropped
          → Flushed p law s.core o
          → Finished heard most s.ring.dropped o
      lossy none lost h = h
      lossy (some (true, c)) lost h = inl lost
      lossy (some (false, c)) lost h = inl lost

      exact :
          (drained : List ℕ)
          → heard ≡ drained ++ contents s.ring
          → is_open s.core.1.0 ≡ true
          → heard ≡ drained
      exact drained all on =
          all
          ∙ ap (λ t. drained ++ t)
              (nil_of_length (contents s.ring) (length-contents s.ring ∙ empty on))
          ∙ append-nil drained

      by_content :
          Content p law heard s → Finished heard most s.ring.dropped (write_chunk_sync p s.core)
      by_content (inl (drained, all, v, e, awake)) =
          Flushed-Settled heard most s.ring.dropped s.core (write_chunk_sync p s.core)
            (whole
              ∙ sym (
                  take-all most (encode heard) (
                    omega (
                      arith,
                      ap length whole,
                      length-stream p law s.core v,
                      v.budget,
                      d.same_budget,
                    ))))
            (write_chunk_sync_lem p law s.core.0 s.core.1 v)
        where
          whole : stream p law s.core ≡ encode heard
          whole = e ∙ ap encode (sym (exact drained all v.has_fd))
      by_content (inr (inl (v, e, n))) =
          Flushed-Settled heard most s.ring.dropped s.core (write_chunk_sync p s.core)
            (e ∙ ap (λ n. take n (encode heard)) d.same_budget)
            (write_chunk_sync_lem p law s.core.0 s.core.1 v)
      by_content (inr (inr (inl closed))) =
          closed_take closed.closed (Closed-Settled heard most s.ring.dropped s.core closed)
      by_content (inr (inr (inr (lost, inl v)))) =
          lossy (write_chunk_sync p s.core) lost (write_chunk_sync_lem p law s.core.0 s.core.1 v)
      by_content (inr (inr (inr (lost, inr closed)))) = closed_take closed (inl lost)
