-- ===== src/Led/Pattern.antt =====
-- What the LEDs show: the blink tables are read in range, and a state is shown at once.
use tiny_voice.Prelude.{
  ℕ, ◌<◌, ◌≡◌, refl, sym, ◌∙◌, inl, inr, Bool, true, false, not, ◌||◌, Option, none, some, List, [],
  ◌∷◌, arith, ltb, leb, ◌==◌, differ, Bool-cases, sub32,
}
use tiny_voice.StateMachine.{
  DeviceState, is, boot, connecting_wifi, idle, recording, processing, uploading, checking_messages,
  downloading, playing, error,
}
use tiny_voice.Led.{
  Led, wifi_phase_ms, begin, owns_leds, wifi_pattern_active, needs_breathe, pulse_step_ms,
  write_green, write_rgb, Call, show_state, apply_outputs, update, set_pressed_hint,
  set_wifi_connected, set_trim_hint, pulse, wifi_step, loop, do_call, do_calls, update_called,
  pressed_hint_called, wifi_connected_called, trim_hint_called, loop_called,
}
use mathlib.Core.Option

module _ (breathe_duty : ℕ → ℕ) where
  show_state-wifi_phase :
      (now : ℕ) (state : DeviceState) (l : Led)
      → (show_state breathe_duty now state l).wifi_phase ≡ l.wifi_phase
  unfolding show_state
  show_state-wifi_phase now boot l = refl
  show_state-wifi_phase now connecting_wifi l = refl
  show_state-wifi_phase now recording l = refl
  show_state-wifi_phase now processing l = ground arith
  show_state-wifi_phase now uploading l = ground arith
  show_state-wifi_phase now downloading l = ground arith
  show_state-wifi_phase now playing l = ground arith
  show_state-wifi_phase now error l = refl
  show_state-wifi_phase now idle l = ground arith
  show_state-wifi_phase now checking_messages l = ground arith

  apply_outputs-wifi_phase :
      (now : ℕ) (l : Led) → (apply_outputs breathe_duty now l).wifi_phase ≡ l.wifi_phase
  unfolding apply_outputs
  apply_outputs-wifi_phase now l =
      let shown =
        show_state-wifi_phase now l.current_state (write_green 0 (write_rgb false false l)) in
      ground (arith, shown)

  -- No read was outside the table, and the phase of the Wi-Fi pattern is below four.
  abbrev pub InRange : Option Led → Type 0
  InRange none = ⊥
  InRange (some l) = l.wifi_phase < 4

  wifi_step-InRange :
      (now : ℕ) (l : Led) (wait : ℕ)
      → l.wifi_phase < 4
      → (wifi_step breathe_duty now l wait).wifi_phase < 4
  unfolding wifi_step
  wifi_step-InRange now l wait h = elim (Bool-cases (leb wait (sub32 now l.wifi_pattern_ms))) [
    | inl over ↦ rw (over, apply_outputs-wifi_phase) (omega arith)
    | inr waits ↦ rw waits h
  ]

  wifi_round-InRange :
      (now : ℕ) (l : Led)
      → l.wifi_phase < 4
      → InRange (Option.map (wifi_step breathe_duty now l) (wifi_phase_ms l.wifi_phase))
  unfolding wifi_phase_ms
  wifi_round-InRange now l h = elim (Bool-cases (ltb l.wifi_phase 3)) [
    | inl low ↦ rw low (wifi_step-InRange now l 150 h)
    | inr last ↦ rw (last, is_last last) (wifi_step-InRange now l 700 h)
  ]
    where
      is_last : ltb l.wifi_phase 3 ≡ false → (l.wifi_phase == 3) ≡ true
      is_last last = ground arith

  pulse-InRange : (now : ℕ) (l : Led) → l.wifi_phase < 4 → (pulse breathe_duty now l).wifi_phase < 4
  unfolding pulse
  pulse-InRange now l h = rw apply_outputs-wifi_phase h

  loop-InRange : (now : ℕ) (l : Led) → l.wifi_phase < 4 → InRange (loop breathe_duty now l)
  unfolding loop
  loop-InRange now l h = elim (Bool-cases (wifi_pattern_active l)) [
    | inl on ↦ rw on (wifi_round-InRange now l h)
    | inr off ↦ elim (Bool-cases (needs_breathe l)) [
      | inl breathes ↦ rw (off, breathes) (rw apply_outputs-wifi_phase h)
      | inr still ↦
          elim (Bool-cases
            (pulse_step_ms l == 0 || ltb (sub32 now l.last_blink_ms) (pulse_step_ms l))) [
              | inl waits ↦ rw (off, still, waits) h
              | inr due ↦ rw (off, still, due) (pulse-InRange now l h)
            ]
    ]
  ]

  update-wifi_phase :
      (now : ℕ) (state : DeviceState) (pending : Bool) (l : Led)
      → (update breathe_duty now state pending l).wifi_phase ≡ l.wifi_phase
  unfolding update
  update-wifi_phase now state pending l = rw apply_outputs-wifi_phase (ground arith)

  do_call-InRange :
      (now : ℕ) (c : Call) (l : Led) → l.wifi_phase < 4 → InRange (do_call breathe_duty now c l)
  unfolding do_call set_pressed_hint set_wifi_connected set_trim_hint
  do_call-InRange now (update_called state pending) l h = rw update-wifi_phase h
  do_call-InRange now (pressed_hint_called b) l h = rw apply_outputs-wifi_phase h
  do_call-InRange now (wifi_connected_called b) l h =
      elim (Bool-cases (differ l.wifi_connected b)) [
        | inl new ↦ rw (new, apply_outputs-wifi_phase) (omega arith)
        | inr same ↦ rw same h
      ]
  do_call-InRange now (trim_hint_called b) l h = elim (Bool-cases (differ l.trim_hint b)) [
    | inl new ↦ rw (new, apply_outputs-wifi_phase) h
    | inr same ↦ rw same h
  ]
  do_call-InRange now loop_called l h = loop-InRange now l h

  chain :
      (o : Option Led) (f : Led → Option Led)
      → InRange o
      → ((l : Led) → l.wifi_phase < 4 → InRange (f l))
      → InRange (elim o [ none ↦ none | some l ↦ f l ])
  chain none f h k = h
  chain (some l) f h k = k l h

  do_calls-InRange :
      (calls : List (ℕ × Call)) (l : Led)
      → l.wifi_phase < 4
      → InRange (do_calls breathe_duty calls l)
  unfolding do_calls
  do_calls-InRange [] l h = h
  do_calls-InRange ((now, call) ∷ calls) l h =
      chain (do_call breathe_duty now call l) (do_calls breathe_duty calls)
        (do_call-InRange now call l h) (do_calls-InRange calls)

  -- Whatever is called on the LEDs after `begin`, at any times, in any order and number, no call
  -- reads outside the table of the Wi-Fi pattern, and the phase stays below four.
  pub wifi_pattern-InRange : (calls : List (ℕ × Call)) → InRange (do_calls breathe_duty calls begin)
  wifi_pattern-InRange calls = do_calls-InRange calls begin (unfold begin in omega arith)

  abbrev pub pins : Led → ℕ × Bool × Bool
  pins l = (l.green, l.red, l.blue)

  show_state-wifi :
      (now : ℕ) (state : DeviceState) (up : Bool) (l : Led)
      → pins (show_state breathe_duty now state (record l { wifi_connected = up }))
        ≡ pins (show_state breathe_duty now state l)
  unfolding show_state
  show_state-wifi now boot up l = refl
  show_state-wifi now connecting_wifi up l = refl
  show_state-wifi now recording up l = refl
  show_state-wifi now processing up l = ground arith
  show_state-wifi now uploading up l = ground arith
  show_state-wifi now downloading up l = ground arith
  show_state-wifi now playing up l = ground arith
  show_state-wifi now error up l = refl
  show_state-wifi now idle up l = ground arith
  show_state-wifi now checking_messages up l = ground arith

  apply_outputs-owned :
      (now : ℕ) (up : Bool) (l : Led)
      → owns_leds l.current_state ≡ true
      → pins (apply_outputs breathe_duty now (record l { wifi_connected = up }))
        ≡ pins
            (show_state breathe_duty now l.current_state (write_green 0 (write_rgb false false l)))
  unfolding apply_outputs
  apply_outputs-owned now up l h =
      rw inactive (show_state-wifi now l.current_state up (write_green 0 (write_rgb false false l)))
    where
      inactive : wifi_pattern_active (record l { wifi_connected = up }) ≡ false
      inactive = unfold wifi_pattern_active in ground arith

  -- A state that owns the LEDs is shown the same whether Wi-Fi is up or down: updating to it gives
  -- the same pins for either value of the Wi-Fi flag.
  pub owned_state_shown :
      (now : ℕ) (state : DeviceState) (pending up : Bool) (l : Led)
      → owns_leds state ≡ true
      → pins (update breathe_duty now state pending (record l { wifi_connected = up }))
        ≡ pins (update breathe_duty now state pending l)
  unfolding update
  owned_state_shown now state pending up l h = elim (Bool-cases (is state l.current_state)) [
    | inl same ↦ rw same (alike (record l { current_state = state; has_pending = pending }) h)
    | inr new ↦ rw new (
        alike
          (record l {
            last_blink_ms = now;
            pulse_phase = 0;
            blink_on = not (is state processing);
            current_state = state;
            has_pending = pending;
          })
          h)
  ]
    where
      alike :
          (l' : Led)
          → owns_leds l'.current_state ≡ true
          → pins (apply_outputs breathe_duty now (record l' { wifi_connected = up }))
            ≡ pins (apply_outputs breathe_duty now l')
      alike l' h' =
          apply_outputs-owned now up l' h' ∙ sym (apply_outputs-owned now l'.wifi_connected l' h')
