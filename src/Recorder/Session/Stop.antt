-- ===== src/Recorder/Session/Stop.antt =====
-- What `stop` leaves in the take file, and the sizes that it returns.
use tiny_voice.Ring.Drops.{push_ring-count, push_ring-uncounted}
use tiny_voice.Ring.Refine.{last_of, length-contents, last_of_fits, push_ring_refines}
use tiny_voice.Ring.Window.{contents}
use tiny_voice.Ring.{push_ring}
use tiny_voice.Prelude.{
  ℕ, ◌+◌, ◌≤◌, ◌<◌, ◌≡◌, refl, sym, ap, ◌∙◌, ◌⊎◌, inl, inr, Bool, true, false, Option, none, some,
  List, ◌++◌, append_assoc, arith, ◌==◌, if◌then◌else◌, Bool-cases, lt_or_le, length, take,
  length-append, word,
}
use tiny_voice.Platform.{Platform, IsSteady}
use tiny_voice.Take.Write.{on_file}
use tiny_voice.Recorder.{encode, State, write_chunk_sync}
use tiny_voice.Recorder.Chunks.{stream, IsValid}
use tiny_voice.Recorder.Session.{
  Session, cleanup_recording, drain_all, settle_size, finish_take, stop,
}
use tiny_voice.Recorder.Session.Content.{Content, Full-more, Closed-more}
use tiny_voice.Recorder.Session.During.{During}
use tiny_voice.Recorder.Session.Ending.{Emptied, drain_all-Emptied}
use tiny_voice.Recorder.Session.Settle.{Settled, Settled-settle_size, Finished, last_chunk_Finished}

module _ (p : Platform) (law : IsSteady p) where
  -- The take as `stop` returns it: `pcm` bytes, a file of `len` with its header, and the recorder.
  abbrev pub Outcome : List ℕ → ℕ → ℕ → Session p → Type 0
  Outcome heard most pcm s =
      (0 < s.ring.dropped)
      ⊎ (((pcm ≡ length (take most (encode heard)))
            × (s.core.0.disk_full ≡ false)
            × ((pcm ≡ 0) ⊎ (on_file p law s.core.1 ≡ take most (encode heard))))
          ⊎ ((kept : ℕ) × ((pcm ≡ 0) ⊎ (on_file p law s.core.1 ≡ take kept (encode heard)))
              × (s.core.0.disk_full ≡ true)))

  abbrev pub Ended : List ℕ → ℕ → Option (ℕ × ℕ × Session p) → Type 0
  Ended heard most none = ⊥
  Ended heard most (some (pcm, len, s)) =
      (len ≡ (if pcm == 0 then 0 else 44 + pcm)) × Outcome heard most pcm s

  cleanup_recording_full : (c : State p) → (cleanup_recording p c).0.disk_full ≡ c.0.disk_full
  unfolding cleanup_recording
  cleanup_recording_full (r, t) = ground arith

  Outcome-keep :
      (heard : List ℕ) (most : ℕ) (s : Session p) (c : State p)
      → Settled p law heard most s.ring.dropped c
      → Outcome heard most c.0.pcm_total (record s { core = c })
  Outcome-keep heard most s c (inl lost) = inl lost
  Outcome-keep heard most s c (inr (inl (file, total, full))) =
      inr (inl (total ∙ ap length file, full, inr file))
  Outcome-keep heard most s c (inr (inr (kept, file, full))) = inr (inr (kept, inr file, full))

  Outcome-clean :
      (heard : List ℕ) (most : ℕ) (s : Session p) (c : State p)
      → c.0.pcm_total ≡ 0
      → Settled p law heard most s.ring.dropped c
      → Outcome heard most 0 (record s { core = cleanup_recording p c })
  Outcome-clean heard most s c none_kept (inl lost) = inl lost
  Outcome-clean heard most s c none_kept (inr (inl (file, total, full))) =
      inr (inl (sym none_kept ∙ total ∙ ap length file, cleanup_recording_full c ∙ full, inl refl))
  Outcome-clean heard most s c none_kept (inr (inr (kept, file, full))) =
      inr (inr (kept, inl refl, cleanup_recording_full c ∙ full))

  finish_take-Ended :
      (heard : List ℕ) (most : ℕ) (s : Session p) (c : State p)
      → Settled p law heard most s.ring.dropped c
      → Ended heard most (some (finish_take p s c))
  unfolding finish_take
  finish_take-Ended heard most s c h = elim (Bool-cases (c.0.pcm_total == 0)) [
    | inl nothing ↦ rw nothing (refl, Outcome-clean heard most s c (ground (arith, nothing)) h)
    | inr more ↦ rw more (rw more, Outcome-keep heard most s c h)
  ]

  -- `stop` first ends the capture.
  abbrev quiet : Session p → Session p
  quiet s = record s {
    capturing = false;
    core = (record (s.core.0) { recording = false }, s.core.1);
  }

  quiet-IsValid : (s : Session p) → IsValid p law s.core → IsValid p law (quiet s).core
  quiet-IsValid s v = record {
    buffer = v.buffer;
    fits = v.fits;
    budget = v.budget;
    small = v.small;
    even_staging = v.even_staging;
    even_total = v.even_total;
    even_budget = v.even_budget;
    open_take = v.open_take;
    counted = v.counted;
    has_fd = v.has_fd;
  }

  quiet-Content :
      (heard : List ℕ) (s : Session p) → Content p law heard s → Content p law heard (quiet s)
  quiet-Content heard s (inl (drained, all, v, e, awake)) =
      inl (drained, all, quiet-IsValid s v, e, λ on. absurd (ground (arith, on)))
  quiet-Content heard s (inr (inl (v, e, n))) = inr (inl (quiet-IsValid s v, e, n))
  quiet-Content heard s (inr (inr (inl closed))) = inr (
      inr (
        inl (record {
          closed = closed.closed;
          not_recording = refl;
          kept = closed.kept;
          within = closed.within;
          prefix = closed.prefix;
        })))
  quiet-Content heard s (inr (inr (inr (lost, inl v)))) =
      inr (inr (inr (lost, inl (quiet-IsValid s v))))
  quiet-Content heard s (inr (inr (inr (lost, inr closed)))) = inr (inr (inr (lost, inr closed)))

  -- The read that `stop` overtakes goes into the ring behind what waits there.
  abbrev overtaken : List ℕ → Session p → Session p
  overtaken late s = record (quiet s) { ring = push_ring false s.ring late }

  -- What is kept of what was heard: all with that read, unless it overruns the ring.
  record Late (heard late : List ℕ) (most : ℕ) (s : Session p) : Type 0 where
    kept : List ℕ
    during : During p law most kept (overtaken late s)
    bounded : length kept ≤ length heard + length late
    all_kept : (kept ≡ heard ++ late) ⊎ (s.ring.cap < s.ring.count + length late)

  Late-Content :
      (heard late kept : List ℕ) (most : ℕ) (s : Session p)
      → During p law most heard s
      → length kept ≤ length heard + length late
      → (kept ≡ heard ++ late) ⊎ (s.ring.cap < s.ring.count + length late)
      → Content p law kept (overtaken late s)
      → Late heard late most s
  Late-Content heard late kept most s d bounded all c = record {
    kept = kept;
    during = record {
      ring_valid = (push_ring_refines false {r = s.ring} late d.ring_valid).1;
      counted = inr refl;
      content = c;
      same_budget = d.same_budget;
    };
    bounded = bounded;
    all_kept = all;
  }

  Late_lem :
      (heard late : List ℕ) (most : ℕ) (s : Session p)
      → During p law most heard s
      → Late heard late most s
  Late_lem heard late most s d = by_content (quiet-Content heard s d.content)
    where
      newest : contents (push_ring false s.ring late) ≡ last_of s.ring.cap (contents s.ring ++ late)
      newest = (push_ring_refines false {r = s.ring} late d.ring_valid).0

      more : Content p law (heard ++ late) (overtaken late s) → Late heard late most s
      more c =
          Late-Content heard late (heard ++ late) most s d (omega (arith, length-append heard late))
            (inl refl) c

      exact :
          (drained kept : List ℕ)
          → kept ≡ drained ++ contents (push_ring false s.ring late)
          → IsValid p law (quiet s).core
          → stream p law (quiet s).core ≡ encode drained
          → Content p law kept (overtaken late s)
      exact drained kept all v e = inl (drained, all, v, e, λ on. absurd (ground (arith, on)))

      by_content : Content p law heard (quiet s) → Late heard late most s
      by_content (inl (drained, all, v, e, awake)) =
          elim (lt_or_le s.ring.cap (s.ring.count + length late)) [
            | inr fits ↦ more (
                exact drained (heard ++ late)
                  (ap (λ h. h ++ late) all
                    ∙ append_assoc drained (contents s.ring) late
                    ∙ ap (λ t. drained ++ t)
                        (sym (
                          newest
                          ∙ last_of_fits s.ring.cap (contents s.ring ++ late) (
                              omega (
                                arith,
                                length-append (contents s.ring) late,
                                length-contents s.ring,
                                fits,
                              )))))
                  v e)
            | inl over ↦
                Late-Content heard late (drained ++ contents (push_ring false s.ring late)) most s d
                  (omega (
                    arith,
                    ap length all,
                    length-append drained (contents s.ring),
                    length-append drained (contents (push_ring false s.ring late)),
                    length-contents s.ring,
                    length-contents (push_ring false s.ring late),
                    push_ring-count false {r = s.ring} late d.ring_valid,
                  ))
                  (inr over)
                  (exact drained (drained ++ contents (push_ring false s.ring late)) refl v e)
          ]
      by_content (inr (inl full)) = more (inr (inl (Full-more p law heard late (quiet s) full)))
      by_content (inr (inr (inl closed))) =
          more (inr (inr (inl (Closed-more p law heard late (quiet s).core closed))))
      by_content (inr (inr (inr (lost, alive)))) =
          more (inr (inr (inr (omega (arith, lost, push_ring-uncounted s.ring late), alive))))

  -- The result of `stop`, with what is kept of what was heard.
  abbrev pub Stopped : List ℕ → List ℕ → ℕ → Session p → Option (ℕ × ℕ × Session p) → Type 0
  Stopped heard late most s none = ⊥
  Stopped heard late most s (some (pcm, len, s')) =
      (kept : List ℕ) × ((kept ≡ heard ++ late) ⊎ (s.ring.cap < s.ring.count + length late))
      × (len ≡ (if pcm == 0 then 0 else 44 + pcm))
      × Outcome kept most pcm s'

  pub stop-Stopped :
      (heard late : List ℕ) (most : ℕ) (s : Session p)
      → During p law most heard s
      → length heard + length late < word
      → 2 ≤ s.ring.cap
      → Stopped heard late most s (stop p late s)
  unfolding stop
  stop-Stopped heard late most s d small roomy = by_drain (drain_all p 100 (overtaken late s)) (
      drain_all-Emptied p law most 100 l.kept (overtaken late s) l.during
        (omega (arith, l.bounded, small))
        (λ on. omega (
          arith,
          l.during.ring_valid,
          (push_ring_refines false {r = s.ring} late d.ring_valid).2,
          roomy,
        )))
    where
      l : Late heard late most s
      l = Late_lem heard late most s d

      by_chunk :
          (s1 : Session p) (o : Option (Bool × State p))
          → Finished p law l.kept most s1.ring.dropped o
          → Stopped heard late most s
              (elim o [ none ↦ none | some (done, c) ↦ some (finish_take p s1 (settle_size p c)) ])
      by_chunk s1 none h = h
      by_chunk s1 (some (done, c)) h =
          let (sizes, outcome) =
            finish_take-Ended l.kept most s1 (settle_size p c)
              (Settled-settle_size p law l.kept most s1.ring.dropped c h) in
          (l.kept, l.all_kept, sizes, outcome)

      by_drain :
          (o : Option (Session p))
          → Emptied p law most l.kept (overtaken late s) o
          → Stopped heard late most s (elim o [
            | none ↦ none
            | some s1 ↦ elim (write_chunk_sync p s1.core) [
              | none ↦ none
              | some (done, c) ↦ some (finish_take p s1 (settle_size p c))
            ]
          ])
      by_drain none h = h
      by_drain (some s1) (d', empty) =
          by_chunk s1 (write_chunk_sync p s1.core)
            (last_chunk_Finished p law l.kept most s1 d' (λ on. (empty on).1))
