-- ===== src/Wifi/Attempts.antt =====
-- How far apart the attempts to reconnect are.
use tiny_voice.Prelude.{
  ℕ, ◌+◌, ◌≤◌, ◌≡◌, refl, Bool, true, false, List, [], ◌∷◌, arith, ltb, if-both, if-cases, u32,
  sub32,
}
use tiny_voice.Wifi.{retry_ms, reconnect, starts}

-- The turns of the loop, in the order of time.
abbrev pub InOrder : ℕ → List (Bool × ℕ) → Type 0
InOrder t [] = Unit
InOrder t ((connected, t') ∷ turns) = (t ≤ t') × InOrder t' turns

-- Each attempt is 5 s after the one before; `t0` is the time of the last.
abbrev pub Apart : ℕ → List ℕ → Type 0
Apart t0 [] = Unit
Apart t0 (t ∷ times) = (t0 + retry_ms ≤ t) × Apart t times

InOrder-later : (t0 t : ℕ) (turns : List (Bool × ℕ)) → t0 ≤ t → InOrder t turns → InOrder t0 turns
InOrder-later t0 t [] h o = tt
InOrder-later t0 t ((connected, t') ∷ turns) h (le, o) = (omega arith, o)

-- What a turn at the true time `t` leaves.
abbrev Turn : ℕ → ℕ → Bool × ℕ → Type 0
Turn t0 t r = (r.0 ≡ true → (t0 + retry_ms ≤ t) × (r.1 ≡ u32 t)) × (r.0 ≡ false → r.1 ≡ u32 t0)

reconnect-Turn :
    (connected : Bool) (t0 t : ℕ) → t0 ≤ t → Turn t0 t (reconnect connected (u32 t) (u32 t0))
unfolding reconnect
reconnect-Turn connected t0 t le =
    if-both (Turn t0 t) connected ((λ e. cc), (λ e. refl))
      (if-cases (Turn t0 t) (ltb (sub32 (u32 t) (u32 t0)) retry_ms) (λ e. ((λ h. cc), (λ h. refl)))
        (λ e. ((λ h. (ground (arith, e, le), refl)), (λ h. cc))))

-- Attempts to reconnect are 5 s apart, also where the clock wraps, if Wi-Fi was last started at the
-- true time `t0` and the turns of the loop come in the order of time.
pub starts-Apart :
    (turns : List (Bool × ℕ)) (t0 : ℕ) → InOrder t0 turns → Apart t0 (starts turns (u32 t0))
unfolding starts
starts-Apart [] t0 order = tt
starts-Apart ((connected, t) ∷ turns) t0 (le, order) =
    let turn = reconnect-Turn connected t0 t le in
    if-cases (Apart t0) (reconnect connected (u32 t) (u32 t0)).0
      (λ e. ((turn.0 e).0, rw ((turn.0 e).1) (starts-Apart turns t order)))
      (λ e. rw (turn.1 e) (starts-Apart turns t0 (InOrder-later t0 t turns le order)))
