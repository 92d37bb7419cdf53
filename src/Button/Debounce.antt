-- ===== src/Button/Debounce.antt =====
-- The debouncing: a glitch shorter than the window is ignored, a stable level is taken.
use tiny_voice.Prelude.{
  ℕ, ◌+◌, ◌≤◌, ◌<◌, ◌≡◌, refl, ◌⊎◌, inl, Bool, false, not, List, [], ◌∷◌, arith, word, u32, sub32,
}
use tiny_voice.Button.{
  Button, debounce_ms, clear_reports, track_raw, accept_edge, detect_hold, loop, run,
}

-- The rounds at the given offsets from a time `t0`, on the wrapping clock.
abbrev pub rounds_at : ℕ → List (Bool × ℕ) → List (Bool × ℕ)
rounds_at t0 [] = []
rounds_at t0 ((level, d) ∷ rest) = (level, u32 (t0 + d)) ∷ rounds_at t0 rest

-- Offsets that do not fall, from `lo` on and below `hi`.
abbrev pub Within : ℕ → ℕ → List (Bool × ℕ) → Type 0
Within lo hi [] = Unit
Within lo hi ((level, d) ∷ rest) = (lo ≤ d) × (d < hi) × Within d hi rest

-- No edge waits to be taken, or the raw edge that waits was seen at an offset of at most `lo`.
abbrev Fresh : ℕ → ℕ → Button → Type 0
Fresh t0 lo b =
    (b.raw_down ≡ b.stable_down) ⊎ ((sub32 b.last_change_ms t0 ≤ lo) × (b.last_change_ms < word))

-- Inside the window the time since an edge is short.
window_short :
    (t0 lo d last : ℕ)
    → t0 < word
    → lo ≤ d
    → d < debounce_ms
    → last < word
    → sub32 last t0 ≤ lo
    → sub32 (u32 (t0 + d)) last < debounce_ms
window_short t0 lo d last h0 hl hd hw h = omega arith

-- A round with no long-stable edge takes none.
accept_edge_quiet :
    (b : Button) (now : ℕ)
    → (b.raw_down ≡ b.stable_down) ⊎ (sub32 now b.last_change_ms < debounce_ms)
    → accept_edge b now ≡ b
unfolding accept_edge
accept_edge_quiet b now h = ground arith

track_raw-Fresh :
    (t0 lo d : ℕ) (b : Button) (reading : Bool)
    → t0 < word
    → lo ≤ d
    → d < debounce_ms
    → Fresh t0 lo b
    → Fresh t0 d (track_raw b reading (u32 (t0 + d)))
unfolding track_raw
track_raw-Fresh t0 lo d b reading h0 hl hd f = ground arith

detect_hold_quiet :
    (b : Button) (now : ℕ)
    → ((detect_hold b now).stable_down ≡ b.stable_down)
      × ((detect_hold b now).raw_down ≡ b.raw_down)
      × ((detect_hold b now).pressed ≡ b.pressed)
      × ((detect_hold b now).release ≡ b.release)
      × ((detect_hold b now).short_press ≡ b.short_press)
      × ((detect_hold b now).last_change_ms ≡ b.last_change_ms)
unfolding detect_hold
detect_hold_quiet b now = ground arith

-- What a round leaves alone when it takes no edge.
record Kept (b c : Button) : Type 0 where
  kept_stable : c.stable_down ≡ b.stable_down
  kept_pressed : c.pressed ≡ b.pressed
  no_release : c.release ≡ false
  no_short : c.short_press ≡ false

track_raw-Kept :
    (b : Button) (reading : Bool) (now : ℕ) → Kept b (track_raw (clear_reports b) reading now)
unfolding track_raw clear_reports
track_raw-Kept b reading now = ground arith

-- A round inside the window takes no edge.
loop-Fresh :
    (t0 lo d : ℕ) (b : Button) (level : Bool)
    → t0 < word
    → lo ≤ d
    → d < debounce_ms
    → Fresh t0 lo b
    → Fresh t0 d (loop b level (u32 (t0 + d))) × Kept b (loop b level (u32 (t0 + d)))
unfolding loop
loop-Fresh t0 lo d b level h0 hl hd f =
    let now = u32 (t0 + d) in
    let c = track_raw (clear_reports b) (not level) now in
    let fc : Fresh t0 d c =
      track_raw-Fresh t0 lo d (clear_reports b) (not level) h0 hl hd (unfold clear_reports in f) in
    let same : accept_edge c now ≡ c = accept_edge_quiet c now (short c fc) in
    rw same (ground (arith, detect_hold_quiet c now, track_raw-Kept b (not level) now, fc))
  where
    short :
        (c : Button)
        → Fresh t0 d c
        → (c.raw_down ≡ c.stable_down) ⊎ (sub32 (u32 (t0 + d)) c.last_change_ms < debounce_ms)
    short c fc = ground (arith, window_short t0 d d c.last_change_ms)

run-Fresh :
    (t0 lo : ℕ) (b : Button) (rounds : List (Bool × ℕ))
    → t0 < word
    → Fresh t0 lo b
    → Within lo debounce_ms rounds
    → b.release ≡ false
    → b.short_press ≡ false
    → Kept b (run b (rounds_at t0 rounds))
unfolding run
run-Fresh t0 lo b [] h0 f w hr hs = record {
  kept_stable = refl;
  kept_pressed = refl;
  no_release = hr;
  no_short = hs;
}
run-Fresh t0 lo b ((level, d) ∷ rest) h0 f w hr hs =
    let (f', k) = loop-Fresh t0 lo d b level h0 w.0 w.1 f in
    let ih = run-Fresh t0 d (loop b level (u32 (t0 + d))) rest h0 f' w.2 k.no_release k.no_short in
    ground (arith, ih, k)

-- A glitch is ignored: whatever is read in rounds that span less than the debounce time, a button
-- whose raw and stable levels agree keeps its stable level and its pressed flag, and the last of
-- the rounds, so each of them, reports no release and no short press. The clock may wrap.
pub glitch_ignored :
    (t0 : ℕ) (b : Button) (rounds : List (Bool × ℕ))
    → t0 < word
    → b.raw_down ≡ b.stable_down
    → Within 0 debounce_ms rounds
    → b.release ≡ false
    → b.short_press ≡ false
    → let c = run b (rounds_at t0 rounds) in
      (c.stable_down ≡ b.stable_down)
      × (c.pressed ≡ b.pressed)
      × (c.release ≡ false)
      × (c.short_press ≡ false)
glitch_ignored t0 b rounds h0 e w hr hs =
    let k = run-Fresh t0 0 b rounds h0 (inl e) w hr hs in
    (k.kept_stable, k.kept_pressed, k.no_release, k.no_short)
