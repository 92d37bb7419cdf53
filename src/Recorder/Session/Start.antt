-- ===== src/Recorder/Session/Start.antt =====
-- `start`: the take begins empty, with what the armed recorder has heard in the ring.
use tiny_voice.Ring.Refine.{last_of, push_ring_refines}
use tiny_voice.Ring.Bounds.{IsValid, clear-IsValid}
use tiny_voice.Prelude.{
  ℕ, ◌+◌, ◌-◌, ◌/◌, ◌≤◌, ◌<◌, ◌≡◌, refl, sym, ap, ap₂, ◌∙◌, subst, inl, inr, Bool, true, false, not,
  Option, none, some, List, [], ◌++◌, append_assoc, arith, if◌then◌else◌, Bool-cases, Option-cases,
  if-cases, length, length-drop, word,
}
use tiny_voice.Platform.{Platform, IsSteady}
use tiny_voice.Ring.{Ring, clear, push_ring}
use tiny_voice.Ring.Window.{contents}
use tiny_voice.Recorder.{chunk_bytes, bytes_per_second, State}
use tiny_voice.Recorder.Session.{
  acquire_flush_slot, Session, arm, disarm, capture, allocate_staging, prepare_take, begin_take,
  drain_twice, start,
}
use tiny_voice.Recorder.Session.Lifecycle.{begin_take-IsValid}
use tiny_voice.Recorder.Session.During.{flat, During}
use tiny_voice.Recorder.Session.Rounds.{Continues, drain_twice-Continues}
use tiny_voice.Ring.Bounds
use mathlib.Core.Option

module _ (p : Platform) where
  -- What `start` works on: a recorder that is not armed is armed first.
  abbrev pub armed : Session p → Session p
  armed s = if s.capturing then s else arm p s

  -- The budget that `start` finds.
  abbrev pub budget_of_start : Session p → ℕ
  budget_of_start s = (prepare_take p (allocate_staging p (armed s)).1.core).1.0.max_pcm_bytes

module _ (p : Platform) (law : IsSteady p) where
  armed-ring :
      (s : Session p)
      → Bounds.IsValid s.ring
      → s.core.0.recording ≡ false
      → Bounds.IsValid (armed p s).ring
        × ((armed p s).ring.cap ≡ s.ring.cap)
        × ((armed p s).capturing ≡ true)
        × (contents (armed p s).ring ≡ (if s.capturing then contents s.ring else []))
  unfolding arm clear
  armed-ring s v idle = elim (Bool-cases s.capturing) [
    | inl on ↦ rw on (v, refl, refl, refl)
    | inr off ↦ rw (off, idle) (clear-IsValid v, refl, refl, refl)
  ]

  allocate_staging-keeps :
      (s : Session p)
      → (allocate_staging p s).0 ≡ true
      → ((allocate_staging p s).1.ring ≡ s.ring)
        × ((allocate_staging p s).1.capturing ≡ s.capturing)
        × ((allocate_staging p s).1.core.0.staging_size ≡ chunk_bytes)
  unfolding allocate_staging
  allocate_staging-keeps s ok = elim (Option-cases s.active_slot) [
    | inr (slot, held) ↦ rw (held, allocate_staging) (refl, refl, refl)
    | inl unheld ↦ elim (Option-cases (acquire_flush_slot s.slot_free)) [
      | inl busy ↦ absurd (refused unheld busy)
      | inr ((slot, slots), free) ↦ rw (unheld, free, allocate_staging) (refl, refl, refl)
    ]
  ]
    where
      refused : s.active_slot ≡ none → acquire_flush_slot s.slot_free ≡ none → ⊥
      refused unheld busy = ground arith

  -- The take as it begins: nothing is written, and what waits in the ring is heard.
  begin_take-During :
      (now : ℕ) (s : Session p)
      → Bounds.IsValid s.ring
      → s.core.0.staging_size ≡ chunk_bytes
      → (prepare_take p s.core).0 ≡ true
      → During p law
          (prepare_take p s.core).1.0.max_pcm_bytes
          (contents s.ring)
          (begin_take p now (record s { core = (prepare_take p s.core).1 }))
  begin_take-During now s v size ready =
      let (valid, empty, room, on) = begin_take-IsValid p law now s size ready in
      record {
        ring_valid = unfold begin_take in ground (arith, v);
        counted = inl (unfold begin_take in omega arith);
        content = inl ([], (unfold begin_take in refl), valid, empty, λ awake. on);
        same_budget = unfold begin_take in refl;
      }

  -- The samples heard before the take: those that an armed recorder holds.
  abbrev pub pre_roll : Session p → List ℕ
  pre_roll s = if s.capturing then contents s.ring else []

  -- What the ring holds when the take begins: the newest samples of the pre-roll and of those that
  -- arrived while the take was prepared.
  abbrev pub held : Session p → List ℕ → List ℕ
  held s meanwhile = last_of s.ring.cap (pre_roll s ++ meanwhile)

  pub length-held : (s : Session p) (meanwhile : List ℕ) → length (held s meanwhile) ≤ s.ring.cap
  length-held s meanwhile =
      omega (
        arith,
        length-drop (length (pre_roll s ++ meanwhile) - s.ring.cap) (pre_roll s ++ meanwhile),
      )

  -- `capture` in an armed recorder.
  capture-armed :
      (s : Session p) (meanwhile : List ℕ)
      → s.capturing ≡ true
      → Bounds.IsValid s.ring
      → Bounds.IsValid (capture p s meanwhile).ring
        × (contents (capture p s meanwhile).ring
            ≡ last_of s.ring.cap (contents s.ring ++ meanwhile))
        × ((capture p s meanwhile).ring.cap ≡ s.ring.cap)
        × ((capture p s meanwhile).capturing ≡ true)
        × ((capture p s meanwhile).core ≡ s.core)
  capture-armed s meanwhile on v =
      let (newest, valid, cap) = push_ring_refines s.core.0.recording {r = s.ring} meanwhile v in
      subst
        (λ (s' : Session p).
          Bounds.IsValid s'.ring
          × (contents s'.ring ≡ last_of s.ring.cap (contents s.ring ++ meanwhile))
          × (s'.ring.cap ≡ s.ring.cap)
          × (s'.capturing ≡ true)
          × (s'.core ≡ s.core))
        (sym pushed) (valid, newest, cap, on, refl)
    where
      pushed :
          capture p s meanwhile ≡ record s { ring = push_ring s.core.0.recording s.ring meanwhile }
      pushed = unfold capture in rw on

  -- `start` with what it has heard when it returns.
  abbrev pub Begun :
      Session p → List ℕ → List (List ℕ) → Option (Bool × Session p × List (List ℕ)) → Type 0
  Begun s meanwhile arrivals none = ⊥
  Begun s meanwhile arrivals (some (false, s', left)) = Unit
  Begun s meanwhile arrivals (some (true, s', left)) =
      (heard : List ℕ) × (heard ++ flat left ≡ held s meanwhile ++ flat arrivals)
      × During p law (budget_of_start p s) heard s'
      × (s'.capturing ≡ true)
      × (s'.ring.cap ≡ s.ring.cap)
      × (bytes_per_second / 2 ≤ budget_of_start p s)

  begin_take-keeps :
      (now : ℕ) (s : Session p)
      → ((begin_take p now s).capturing ≡ s.capturing)
        × ((begin_take p now s).ring.cap ≡ s.ring.cap)
        × ((begin_take p now s).core.0.max_pcm_bytes ≡ s.core.0.max_pcm_bytes)
  unfolding begin_take
  begin_take-keeps now s = (refl, refl, refl)

  -- The two drains, from a take that has begun in `s1`.
  drained-Begun :
      (s s1 : Session p) (meanwhile : List ℕ) (arrivals : List (List ℕ))
      (o : Option (Session p × List (List ℕ)))
      → s1.capturing ≡ true
      → s1.ring.cap ≡ s.ring.cap
      → bytes_per_second / 2 ≤ budget_of_start p s
      → Continues p law (budget_of_start p s) (held s meanwhile) arrivals s1 o
      → Begun s meanwhile arrivals
          (Option.map (λ (b : Session p × List (List ℕ)). (true, b.0, b.1)) o)
  drained-Begun s s1 meanwhile arrivals none on cap room h = h
  drained-Begun s s1 meanwhile arrivals (some (s', left)) on same room h = (
    held s meanwhile ++ h.used,
    append_assoc (held s meanwhile) h.used (flat left)
        ∙ ap (λ t. held s meanwhile ++ t) (sym h.split),
    h.during,
    h.same_capturing ∙ on,
    h.same_cap ∙ same,
    room,
  )

  pub start-Begun :
      (now : ℕ) (meanwhile : List ℕ) (arrivals : List (List ℕ)) (s : Session p)
      → Bounds.IsValid s.ring
      → s.core.0.recording ≡ false
      → s.ring.cap + length (flat arrivals) < word
      → Begun s meanwhile arrivals (start p now meanwhile arrivals s)
  unfolding start
  start-Begun now meanwhile arrivals s v idle small =
      if-cases (Begun s meanwhile arrivals) s.core.0.recording {x = some (false, s, arrivals)}
        (λ busy. tt)
        (λ free.
          if-cases (Begun s meanwhile arrivals) (not (allocate_staging p (armed p s)).0)
            {x = some (false, disarm p s1, arrivals)} (λ refused. tt)
            (λ allocated.
              if-cases (Begun s meanwhile arrivals) (not (prepare_take p s1.core).0)
                {x = some (false, disarm p s2, arrivals)} (λ refused. tt)
                (λ ready. begins (ground (arith, allocated)) (ground (arith, ready)))))
    where
      s0 : Session p
      s0 = (allocate_staging p (armed p s)).1

      s1 : Session p
      s1 = capture p s0 meanwhile

      s2 : Session p
      s2 = record (s1) { core = (prepare_take p s1.core).1 }

      begins :
          (allocate_staging p (armed p s)).0 ≡ true
          → (prepare_take p s1.core).0 ≡ true
          → Begun s meanwhile arrivals (
              Option.map
                (λ (b : Session p × List (List ℕ)). (true, b.0, b.1))
                (drain_twice p arrivals (begin_take p now s2)))
      begins allocated ready =
          let (v', cap, on, heard) = armed-ring s v idle in
          let (ring, capturing, size) = allocate_staging-keeps (armed p s) allocated in
          let (valid, newest, cap1, on1, core) =
            capture-armed s0 meanwhile (capturing ∙ on) (subst Bounds.IsValid (sym ring) v') in
          let size1 : s1.core.0.staging_size ≡ chunk_bytes =
            ap (λ (c : State p). c.0.staging_size) core ∙ size in
          let cap0 : s0.ring.cap ≡ s.ring.cap = ap (λ (r : Ring). r.cap) ring ∙ cap in
          let d = begin_take-During now s1 valid size1 ready in
          let same : contents s1.ring ≡ held s meanwhile =
            newest ∙ ap₂ (λ c q. last_of c (q ++ meanwhile)) cap0 (ap contents ring ∙ heard) in
          let most : (prepare_take p s1.core).1.0.max_pcm_bytes ≡ budget_of_start p s =
            ap (λ c. (prepare_take p c).1.0.max_pcm_bytes) core in
          let d' =
            subst (λ m. During p law m (held s meanwhile) (begin_take p now s2)) most
              (subst
                (λ h.
                  During p law (prepare_take p s1.core).1.0.max_pcm_bytes h (begin_take p now s2))
                same d) in
          let (keeps, keeps_cap, keeps_budget) = begin_take-keeps now s2 in
          drained-Begun s (begin_take p now s2) meanwhile arrivals
            (drain_twice p arrivals (begin_take p now s2)) (keeps ∙ on1) (keeps_cap ∙ cap1 ∙ cap0)
            (omega (arith, (begin_take-IsValid p law now s1 size1 ready).2, keeps_budget, most))
            (drain_twice-Continues p law (budget_of_start p s) arrivals (held s meanwhile)
              (begin_take p now s2) d' (keeps ∙ on1)
              (omega (arith, length-held s meanwhile, small)))
