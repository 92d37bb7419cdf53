-- ===== src/StateMachine/Traces.antt =====
-- What holds after any sequence of calls, from power-on.
use mathlib.Core.List.{Memᴰ}
use tiny_voice.Prelude.{
  ℕ, ◌≤◌, ◌≡◌, refl, sym, ap, ◌⊎◌, inl, inr, Bool, true, false, List, [], ◌∷◌, arith, length,
  length-take, c_string,
}
use tiny_voice.StateMachine.{
  DeviceState, recording, processing, playing, StateMachine, initial, Event, button_hold_start,
  poll_complete, set_error, step, run, wifi_failed, wifi_failed_text, error_size, on_error_called,
}
use tiny_voice.StateMachine.Errors.{set_error_lem}

-- A recording is being taken or closed.
abbrev pub in_take : DeviceState → Bool
in_take recording = true
in_take processing = true
in_take _ = false

abbrev pub is_playing : DeviceState → Bool
is_playing playing = true
is_playing _ = false

step-in_take :
    (m : StateMachine) (e : Event)
    → in_take m.state ≡ false
    → (e ≡ button_hold_start) ⊎ (in_take (step m e).state ≡ false)
unfolding step
step-in_take m e h = ground arith

run-in_take :
    (m : StateMachine) (es : List Event)
    → in_take m.state ≡ false
    → in_take (run m es).state ≡ true
    → Memᴰ button_hold_start es
unfolding run
run-in_take m [] h l = cc
run-in_take m (e ∷ es) h l = elim (step-in_take m e h) [
  | inl p ↦ Memᴰ.head (sym p)
  | inr q ↦ Memᴰ.tail (run-in_take (step m e) es q l)
]

-- The device is in RECORDING or PROCESSING only if a button hold was reported since power-on.
pub take_needs_hold :
    (es : List Event) → in_take (run initial es).state ≡ true → Memᴰ button_hold_start es
unfolding initial
take_needs_hold es h = run-in_take initial es refl h

-- No message is pending, and none is being played.
abbrev IsQuiet : StateMachine → Type 0
IsQuiet m = (m.has_pending_message ≡ false) × (is_playing m.state ≡ false)

step-IsQuiet :
    (m : StateMachine) (e : Event) → IsQuiet m → (e ≡ poll_complete true) ⊎ IsQuiet (step m e)
unfolding step
step-IsQuiet m e h = ground arith

run-is_playing :
    (m : StateMachine) (es : List Event)
    → IsQuiet m
    → is_playing (run m es).state ≡ true
    → Memᴰ (poll_complete true) es
unfolding run
run-is_playing m [] h l = cc (h.1)
run-is_playing m (e ∷ es) h l = elim (step-IsQuiet m e h) [
  | inl p ↦ Memᴰ.head (sym p)
  | inr q ↦ Memᴰ.tail (run-is_playing (step m e) es q l)
]

-- The device is in PLAYING only if a poll has reported a message since power-on.
pub playing_needs_poll :
    (es : List Event) → is_playing (run initial es).state ≡ true → Memᴰ (poll_complete true) es
unfolding initial
playing_needs_poll es h = run-is_playing initial es (refl, refl) h

-- `_lastError` holds 64 bytes, and a string of at most 63.
abbrev pub IsTerminated : StateMachine → Type 0
IsTerminated m = (length m.last_error ≡ error_size) × (length (c_string m.last_error) ≤ 63)

set_error-IsTerminated : (m : StateMachine) (reason : List ℕ) → IsTerminated (set_error m reason)
set_error-IsTerminated m reason =
    let (_, _, size, text) = set_error_lem m reason in
    (size, omega (arith, ap length text, length-take 63 (c_string reason)))

step-IsTerminated : (m : StateMachine) (e : Event) → IsTerminated m → IsTerminated (step m e)
unfolding step
step-IsTerminated m (on_error_called reason) h = unfold set_error in set_error-IsTerminated m reason
step-IsTerminated m wifi_failed h = set_error-IsTerminated m wifi_failed_text
step-IsTerminated m _ h = ground arith

run-IsTerminated : (m : StateMachine) (es : List Event) → IsTerminated m → IsTerminated (run m es)
unfolding run
run-IsTerminated m [] h = h
run-IsTerminated m (e ∷ es) h = run-IsTerminated (step m e) es (step-IsTerminated m e h)

-- After any calls with any reasons, the error text ends inside its 64 bytes.
pub last_error-IsTerminated : (es : List Event) → IsTerminated (run initial es)
unfolding initial
last_error-IsTerminated es = run-IsTerminated initial es (refl, omega arith)
