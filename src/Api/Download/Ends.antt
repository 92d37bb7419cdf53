-- ===== src/Api/Download/Ends.antt =====
-- The loop of a download ends, and so does the download.
use mathlib.Core.Option
use tiny_voice.Api.Download.Saved.{SavedOk, SavedOkOr, download_audio_to_file-SavedOkOr}
use mathlib.Core.Option
use tiny_voice.Prelude.{
  ℕ, ◌+◌, ◌-◌, ◌*◌, ◌≤◌, ◌<◌, min, ◌≡◌, refl, ap, ◌∙◌, ◌≢◌, Bool, true, false, not, ◌&&◌, ◌||◌,
  Option, none, some, List, [], ◌∷◌, arith, ltb, leb, ◌==◌, if◌then◌else◌, if-both, if-cases,
  length, u32, sub32, sub32-u32,
}
use tiny_voice.Api.Download.{
  flash_margin, min_bytes, Expected, expects_more, download_cap, Read, Progress, given, goes_on,
  data_round, quiet_round, download_round, download_loop, settle, Request, started, run_loop,
  download_audio_to_file,
}

module _ (cap : ℕ) (expected : Expected) where
  -- The rounds show a clock that wraps: each starts at the true time `soonest` or within a minute of
  -- it, and 2 ms later than one that found nothing, by its `delay`.
  abbrev pub Paced : ℕ → Progress → List Read → Type 0
  Paced soonest d [] = Unit
  Paced soonest d (r ∷ reads) =
      (t : ℕ) × (soonest ≤ t)
      × (t ≤ soonest + 60000)
      × (r.now ≡ u32 t)
      × Paced (if ltb 0 (given cap expected r d) then t else t + 2)
          (download_round cap expected r d).1 reads

  -- The budget of rounds, the last byte having come at the true time `t0`.
  abbrev Budget : ℕ → ℕ → Progress → List Read → Type 0
  Budget soonest t0 d reads =
      (cap - d.received) * 25010 + (25006 - (soonest - t0)) ≤ 2 * length reads

  abbrev Moves : Read → Progress → Bool × Progress → Type 0
  Moves r d out =
      out.0 ≡ false
      → (out.1.received ≡ d.received + given cap expected r d) × (out.1.last_data ≡ r.now)

  data_round-Moves : (r : Read) (d : Progress) → Moves r d (data_round cap expected r d)
  unfolding data_round
  data_round-Moves r d =
      if-both (Moves r d) (not (min r.stored (given cap expected r d) == given cap expected r d))
        (λ e. cc)
        (if-both (Moves r d)
          (leb d.next_log (d.received + given cap expected r d) && ltb r.flash_free flash_margin)
          (λ e. cc)
          (if-both (Moves r d)
            (leb cap (d.received + given cap expected r d)
              && expects_more (d.received + given cap expected r d) expected)
            (λ e. cc) (λ e. (refl, refl))))

  download_round-Moves :
      (r : Read) (d : Progress)
      → ltb 0 (given cap expected r d) ≡ true
      → Moves r d (download_round cap expected r d)
  unfolding download_round
  download_round-Moves r d some_data =
      if-cases (Moves r d) (ltb 0 (given cap expected r d)) (λ e. data_round-Moves r d) (λ e. cc)

  download_round-waits :
      (r : Read) (d : Progress)
      → ltb 0 (given cap expected r d) ≡ false
      → (download_round cap expected r d).0 ≡ false
      → ((download_round cap expected r d).1 ≡ d) × (sub32 r.now d.last_data ≤ 25000)
  unfolding download_round quiet_round
  download_round-waits r d no_data =
      if-cases
        (λ (out : Bool × Progress). out.0 ≡ false → (out.1 ≡ d) × (sub32 r.now d.last_data ≤ 25000))
        (ltb 0 (given cap expected r d)) (λ e. cc) (λ e on. (refl, ground (arith, on)))

  -- What the loop goes on with after a round.
  abbrev Next : Progress → List Read → Type 0
  Next d reads =
      (soonest : ℕ) × (t0 : ℕ) × Paced soonest d reads
      × (d.last_data ≡ u32 t0)
      × (t0 ≤ soonest)
      × (soonest ≤ t0 + 25002)
      × Budget soonest t0 d reads

  round-Next :
      (r : Read) (reads : List Read) (soonest t0 t : ℕ) (d : Progress)
      → d.received < cap
      → soonest ≤ t
      → t ≤ soonest + 60000
      → r.now ≡ u32 t
      → Paced
          (if ltb 0 (given cap expected r d) then t else t + 2)
          (download_round cap expected r d).1
          reads
      → d.last_data ≡ u32 t0
      → t0 ≤ soonest
      → soonest ≤ t0 + 25002
      → Budget soonest t0 d (r ∷ reads)
      → (download_round cap expected r d).0 ≡ false
      → Next (download_round cap expected r d).1 reads
  round-Next r reads soonest t0 t d more le near now tick last lo hi enough on =
      by_data (ltb 0 (given cap expected r d)) refl tick
    where
      by_data :
          (b : Bool)
          → ltb 0 (given cap expected r d) ≡ b
          → Paced (if b then t else t + 2) (download_round cap expected r d).1 reads
          → Next (download_round cap expected r d).1 reads
      by_data true e tick =
          let m = download_round-Moves r d e on in
          (t, t, tick, m.1 ∙ now, omega arith, omega arith, grind (arith, m.0, e))
      by_data false e tick =
          let w = download_round-waits r d e on in
          let same : sub32 r.now d.last_data ≡ t - t0 =
            rw (now, last) (sub32-u32 t0 t (omega arith) (omega arith)) in
          (
            t + 2,
            t0,
            tick,
            ap (λ (x : Progress). x.last_data) w.0 ∙ last,
            omega arith,
            omega (arith, w.1, same),
            omega (arith, ap (λ (x : Progress). x.received) w.0, same, w.1),
          )

  download_loop-ends :
      (reads : List Read) (soonest t0 : ℕ) (d : Progress)
      → Paced soonest d reads
      → d.last_data ≡ u32 t0
      → t0 ≤ soonest
      → soonest ≤ t0 + 25002
      → Budget soonest t0 d reads
      → download_loop cap expected reads d ≢ none
  unfolding download_loop
  download_loop-ends [] soonest t0 d tick last lo hi enough =
      if-cases (λ o. o ≢ none) (goes_on cap expected d) (λ go. absurd (ground (arith, go, enough)))
        (λ e. λ h. cc)
  download_loop-ends (r ∷ reads) soonest t0 d (t, le, near, now, tick) last lo hi enough =
      if-cases (λ o. o ≢ none) (goes_on cap expected d)
        (λ go.
          if-cases (λ o. o ≢ none) (download_round cap expected r d).0 (λ e. λ h. cc)
            (λ on.
              let (soonest', t0', tick', last', lo', hi', enough') =
                round-Next r reads soonest t0 t d (ground (arith, go)) le near now tick last lo hi
                  enough on in
              download_loop-ends reads soonest' t0' (download_round cap expected r d).1 tick' last'
                lo' hi' enough'))
        (λ e. λ h. cc)

-- Rounds that are enough for a download from its start on.
abbrev pub Lasts : Request → Type 0
Lasts q =
    (t : ℕ) × (q.start_ms ≡ u32 t)
    × Paced (download_cap q.free_bytes q.expected) q.expected t (started q) q.reads
    × (download_cap q.free_bytes q.expected * 25010 + 25006 ≤ 2 * length q.reads)

abbrev pub Saves : List ℕ → ℕ → Expected → Option (Bool × Bool × Option (List ℕ)) → Type 0
Saves body free expected none = ⊥
Saves body free expected (some r) = SavedOk body free expected r

run_loop-ends : (q : Request) → Lasts q → run_loop q ≢ none
unfolding run_loop started
run_loop-ends q (t, start, paced, enough) =
    by_loop (download_loop (download_cap q.free_bytes q.expected) q.expected q.reads (started q)) (
      download_loop-ends (download_cap q.free_bytes q.expected) q.expected q.reads t t (started q)
        paced start (omega arith) (omega arith) (omega arith))
  where
    by_loop :
        (r : Option Progress)
        → r ≢ none
        → Option.map {B = Bool × Bool × Option (List ℕ)}
            (settle (download_cap q.free_bytes q.expected) q.expected)
            r
          ≢ none
    by_loop none h = absurd (h refl)
    by_loop (some d) h = λ e. cc

download_audio_to_file-ends :
    (q : Request) (old : Option (List ℕ)) → Lasts q → download_audio_to_file q old ≢ none
unfolding download_audio_to_file
download_audio_to_file-ends q old lasts =
    if-both (λ o. o ≢ none) (not q.is_held || not q.begins || not (q.code == 200)) (λ e. cc)
      (if-both (λ o. o ≢ none) (leb q.free_bytes (flash_margin + min_bytes) || not q.opens)
        (λ e. cc) (run_loop-ends q lasts))

-- A download ends, and where it says that it succeeded it did, whatever the TLS client, the flash
-- and the server do: the file is the front of the response, leaves 128 KB of flash, is longer than a
-- WAV header, is whole where the length is known and no trimming is reported, and of half a second
-- at least where it is. The clock may wrap; a round takes a minute at most, and one that finds
-- nothing 2 ms at least.
pub download_audio_to_file-Saves :
    (q : Request) (old : Option (List ℕ))
    → Lasts q
    → Saves q.response q.free_bytes q.expected (download_audio_to_file q old)
download_audio_to_file-Saves q old lasts =
    by_result (download_audio_to_file q old) (download_audio_to_file-ends q old lasts)
      (download_audio_to_file-SavedOkOr q old)
  where
    by_result :
        (o : Option (Bool × Bool × Option (List ℕ)))
        → o ≢ none
        → SavedOkOr q.response q.free_bytes q.expected o
        → Saves q.response q.free_bytes q.expected o
    by_result none h s = h refl
    by_result (some r) h s = s
