-- ===== src/Volume.antt =====
-- firmware/tinyvoice/src/volume.cpp: the gain that the potentiometer sets. The floating point of the
-- compiler is a record of operations; the readings of the pin and the clock are arguments.
pub mod Range
mod Tests
use tiny_voice.Prelude.{
  ℕ, ◌+◌, ◌/◌, Bool, true, false, not, ◌&&◌, ◌||◌, List, [], ◌∷◌, ltb, ◌==◌, if◌then◌else◌, u32,
  sub32,
}

-- `float`, as far as the gain uses it, with the two gains of config.h.
pub record Floats : Type 1 where
  pub F : Type 0
  pub lt : F → F → Bool
  pub of_int : ℕ → F
  pub add : F → F → F
  pub sub : F → F → F
  pub mul : F → F → F
  pub div : F → F → F
  pub volume_min_gain : F
  pub volume_max_gain : F

abbrev pub adc_max : ℕ
adc_max = 4095

abbrev pub floating_spread : ℕ
floating_spread = 400

abbrev pub volume_poll_interval_ms : ℕ
volume_poll_interval_ms = 25

-- The sum of `readAveraged`, a `uint32_t`.
sum_from : ℕ → List ℕ → ℕ
sum_from sum [] = sum
sum_from sum (v ∷ readings) = sum_from (u32 (sum + v)) readings

-- `readAveraged` over its eight readings.
unfoldable pub read_averaged : List ℕ → ℕ
unfolding sum_from
read_averaged readings = sum_from 0 readings / 8

-- `lo` and `hi` after the readings of `begin`.
lowest : ℕ → List ℕ → ℕ
lowest lo [] = lo
lowest lo (v ∷ readings) = lowest (if ltb v lo then v else lo) readings

highest : ℕ → List ℕ → ℕ
highest hi [] = hi
highest hi (v ∷ readings) = highest (if ltb hi v then v else hi) readings

-- Whether the readings spread as those of an open pin do.
unfoldable pub is_floating : List ℕ → Bool
unfolding lowest highest
is_floating readings = ltb (lowest adc_max readings + floating_spread) (highest 0 readings)

module _ (fl : Floats) where
  unfoldable pub clampf : fl.F → fl.F → fl.F → fl.F
  clampf v lo hi = if fl.lt v lo then lo else (if fl.lt hi v then hi else v)

  -- `gainFromAdc`
  unfoldable pub gain_from_adc : ℕ → fl.F
  unfolding clampf
  gain_from_adc raw =
      let t = clampf (fl.div (fl.of_int raw) (fl.of_int adc_max)) (fl.of_int 0) (fl.of_int 1) in
      fl.add fl.volume_min_gain (fl.mul (fl.sub fl.volume_max_gain fl.volume_min_gain) (fl.mul t t))

  pub record VolumeControl : Type 0 where
    pub ready : Bool
    pub present : Bool
    pub gain : fl.F
    pub last_read_ms : ℕ

  -- `refresh`; the percentage that it logs is left out.
  unfoldable pub refresh : List ℕ → VolumeControl → VolumeControl
  unfolding clampf gain_from_adc
  refresh readings v = record v {
    gain = clampf (gain_from_adc (read_averaged readings)) fl.volume_min_gain fl.volume_max_gain;
  }

  -- `begin`, with VOLUME_POT_ENABLED, its 24 readings, and the 8 of its `refresh`.
  unfoldable pub begin : Bool → List ℕ → List ℕ → VolumeControl
  unfolding refresh
  begin pot_enabled probes readings =
      let off : VolumeControl = record {
        ready = false;
        present = false;
        gain = fl.volume_max_gain;
        last_read_ms = 0;
      } in
      if not pot_enabled
      then record off { ready = true }
      else (if is_floating probes
          then record off { ready = true }
          else record (refresh readings (record off { present = true })) { ready = true })

  unfoldable pub poll : ℕ → List ℕ → VolumeControl → VolumeControl
  unfolding refresh
  poll now readings v =
      if not v.ready || not v.present
      then v
      else (if not (v.last_read_ms == 0) && ltb (sub32 now v.last_read_ms) volume_poll_interval_ms
          then v
          else refresh readings (record v { last_read_ms = now }))

  -- Calls of `poll` in order, each with the time and the readings that it would take.
  unfoldable pub polls : List (ℕ × List ℕ) → VolumeControl → VolumeControl
  unfolding poll
  polls [] v = v
  polls ((now, readings) ∷ calls) v = polls calls (poll now readings v)
