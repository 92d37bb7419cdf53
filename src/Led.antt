-- ===== src/Led.antt =====
-- firmware/tinyvoice/src/led.cpp: the device's state on the LEDs. The pins are fields of the record;
-- `breatheDuty`, which computes in floating point, is a parameter.
pub mod Pattern
mod Tests
use tiny_voice.Prelude.{
  ℕ, ◌+◌, ◌%◌, Bool, true, false, not, ◌||◌, Option, none, some, List, [], ◌∷◌, ltb, leb, ◌==◌,
  if◌then◌else◌, differ, u8, sub32,
}
use tiny_voice.StateMachine.{
  DeviceState, is, boot, connecting_wifi, idle, recording, processing, uploading, checking_messages,
  downloading, playing, error, wifi_connected,
}
use mathlib.Core.Option

-- The fields of `Led`, and what was last written to its pins.
pub record Led : Type 0 where
  pub last_blink_ms : ℕ
  pub wifi_pattern_ms : ℕ
  pub wifi_phase : ℕ
  pub pulse_phase : ℕ
  pub blink_on : Bool
  pub wifi_connected : Bool
  pub current_state : DeviceState
  pub has_pending : Bool
  pub pressed_hint : Bool
  pub trim_hint : Bool
  pub green : ℕ
  pub red : Bool
  pub blue : Bool

-- `WIFI_PHASE_MS`; outside the table is `none`.
unfoldable pub wifi_phase_ms : ℕ → Option ℕ
wifi_phase_ms n = if ltb n 3 then some 150 else (if n == 3 then some 700 else none)

unfoldable pub upload_on_ms : ℕ → ℕ
upload_on_ms n = if n == 0 then 100 else (if n == 1 then 300 else 600)

unfoldable pub download_on_ms : ℕ → ℕ
download_on_ms n = if n == 0 then 600 else (if n == 1 then 300 else 100)

abbrev pub pulse_off_ms : ℕ
pulse_off_ms = 180

abbrev pub fast_pulse_ms : ℕ
fast_pulse_ms = 50

abbrev pub trim_blink_ms : ℕ
trim_blink_ms = 400

unfoldable pub begin : Led
begin = record {
  last_blink_ms = 0;
  wifi_pattern_ms = 0;
  wifi_phase = 0;
  pulse_phase = 0;
  blink_on = false;
  wifi_connected = true;
  current_state = boot;
  has_pending = false;
  pressed_hint = false;
  trim_hint = false;
  green = 0;
  red = false;
  blue = false;
}

-- The states that own the LEDs while Wi-Fi is down.
unfoldable pub owns_leds : DeviceState → Bool
owns_leds boot = true
owns_leds connecting_wifi = true
owns_leds recording = true
owns_leds processing = true
owns_leds uploading = true
owns_leds playing = true
owns_leds downloading = true
owns_leds idle = false
owns_leds checking_messages = false
owns_leds error = false

unfoldable pub wifi_pattern_active : Led → Bool
wifi_pattern_active l = if l.wifi_connected then false else not (owns_leds l.current_state)

unfoldable pub needs_breathe : Led → Bool
needs_breathe l =
    if wifi_pattern_active l || not l.has_pending
    then false
    else is l.current_state idle || is l.current_state checking_messages

unfoldable pub pulse_step_ms : Led → ℕ
pulse_step_ms l = elim l.current_state [
  | processing ↦ fast_pulse_ms
  | uploading ↦ if l.blink_on then upload_on_ms (l.pulse_phase % 3) else pulse_off_ms
  | downloading ↦ if l.blink_on then download_on_ms (l.pulse_phase % 3) else pulse_off_ms
  | playing ↦ if l.trim_hint then trim_blink_ms else 0
  | boot ↦ 0
  | connecting_wifi ↦ 0
  | recording ↦ 0
  | idle ↦ 0
  | checking_messages ↦ 0
  | error ↦ 0
]

abbrev pub write_green : ℕ → Led → Led
write_green duty l = record l { green = duty }

abbrev pub write_rgb : Bool → Bool → Led → Led
write_rgb r b l = record l { red = r; blue = b }

-- A call of a public method at a time.
pub data Call : Type 0 where
  update_called : DeviceState → Bool → Call
  pressed_hint_called wifi_connected_called trim_hint_called : Bool → Call
  loop_called : Call

module _ (breathe_duty : ℕ → ℕ) where
  -- The `switch` of `applyOutputs`, on pins that are off.
  unfoldable pub show_state : ℕ → DeviceState → Led → Led
  show_state now boot l = write_rgb true true (write_green 255 l)
  show_state now connecting_wifi l = write_rgb true false (write_green 255 l)
  show_state now recording l = write_rgb false true (write_green 255 l)
  show_state now processing l = if l.blink_on then write_green 255 l else l
  show_state now uploading l = if l.blink_on then write_green 255 l else l
  show_state now downloading l = if l.blink_on then write_rgb false true (write_green 255 l) else l
  show_state now playing l =
      if l.trim_hint then (if l.blink_on then write_green 255 l else l) else write_green 255 l
  show_state now error l = write_rgb true false l
  show_state now idle l =
      if l.has_pending
      then write_green (breathe_duty now) l
      else (if l.pressed_hint then write_green 255 l else l)
  show_state now checking_messages l =
      if l.has_pending
      then write_green (breathe_duty now) l
      else (if l.pressed_hint then write_green 255 l else l)

  unfoldable pub apply_outputs : ℕ → Led → Led
  apply_outputs now l =
      let off = write_green 0 (write_rgb false false l) in
      if wifi_pattern_active l
      then (if l.wifi_phase == 0 || l.wifi_phase == 2
          then write_rgb true false (write_green 255 off)
          else off)
      else show_state now l.current_state off

  unfoldable pub update : ℕ → DeviceState → Bool → Led → Led
  update now state has_pending_message l =
      let l1 =
        if not (is state l.current_state)
        then record l { last_blink_ms = now; pulse_phase = 0; blink_on = not (is state processing) }
        else l in
      apply_outputs now (record l1 { current_state = state; has_pending = has_pending_message })

  unfoldable pub set_pressed_hint : ℕ → Bool → Led → Led
  set_pressed_hint now pressed l = apply_outputs now (record l { pressed_hint = pressed })

  unfoldable pub set_wifi_connected : ℕ → Bool → Led → Led
  set_wifi_connected now connected l =
      if differ l.wifi_connected connected
      then apply_outputs now
          (record l { wifi_connected = connected; wifi_phase = 0; wifi_pattern_ms = now })
      else l

  unfoldable pub set_trim_hint : ℕ → Bool → Led → Led
  set_trim_hint now trimmed l =
      if differ l.trim_hint trimmed
      then apply_outputs now
          (record l { trim_hint = trimmed; last_blink_ms = now; blink_on = true })
      else l

  -- A step of the pulse: `_pulsePhase` counts the flashes that have ended.
  unfoldable pub pulse : ℕ → Led → Led
  pulse now l = apply_outputs now (record l {
    last_blink_ms = now;
    pulse_phase = (if l.blink_on then u8 (l.pulse_phase + 1) else l.pulse_phase);
    blink_on = not l.blink_on;
  })

  -- A step of the Wi-Fi pattern, once its phase is over.
  unfoldable pub wifi_step : ℕ → Led → ℕ → Led
  wifi_step now l wait =
      if leb wait (sub32 now l.wifi_pattern_ms)
      then apply_outputs now
          (record l { wifi_pattern_ms = now; wifi_phase = (l.wifi_phase + 1) % 4 })
      else l

  -- `loop`; `none` is a read outside `WIFI_PHASE_MS`.
  unfoldable pub loop : ℕ → Led → Option Led
  loop now l =
      if wifi_pattern_active l
      then Option.map (wifi_step now l) (wifi_phase_ms l.wifi_phase)
      else (if needs_breathe l
          then some (apply_outputs now l)
          else (if pulse_step_ms l == 0 || ltb (sub32 now l.last_blink_ms) (pulse_step_ms l)
              then some l
              else some (pulse now l)))

  unfoldable pub do_call : ℕ → Call → Led → Option Led
  unfolding loop
  do_call now (update_called state pending) l = some (update now state pending l)
  do_call now (pressed_hint_called pressed) l = some (set_pressed_hint now pressed l)
  do_call now (wifi_connected_called connected) l = some (set_wifi_connected now connected l)
  do_call now (trim_hint_called trimmed) l = some (set_trim_hint now trimmed l)
  do_call now loop_called l = loop now l

  unfoldable pub do_calls : List (ℕ × Call) → Led → Option Led
  do_calls [] l = some l
  do_calls ((now, call) ∷ calls) l = elim (do_call now call l) [
    | none ↦ none
    | some l' ↦ do_calls calls l'
  ]
