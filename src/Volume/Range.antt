-- ===== src/Volume/Range.antt =====
-- The gain stays in its range, and is the largest where there is no potentiometer.
use tiny_voice.Prelude.{
  ℕ, ◌≡◌, refl, ◌⊎◌, inl, inr, Bool, true, false, not, ◌&&◌, ◌||◌, List, [], ◌∷◌, arith, ltb, ◌==◌,
  if-both, if-cases, sub32,
}
use tiny_voice.Volume.{
  Floats, volume_poll_interval_ms, read_averaged, is_floating, clampf, gain_from_adc, VolumeControl,
  refresh, begin, poll, polls,
}

-- What the comparison of floats does at the two gains of the configuration, which are no NaN.
pub record IsOrdered (fl : Floats) : Type 0 where
  pub min-irrefl : fl.lt fl.volume_min_gain fl.volume_min_gain ≡ false
  pub max-irrefl : fl.lt fl.volume_max_gain fl.volume_max_gain ≡ false
  pub min-max : fl.lt fl.volume_max_gain fl.volume_min_gain ≡ false

module _ (fl : Floats) (law : IsOrdered fl) where
  -- Not below the smallest gain, not above the largest, and the largest where no pot is present.
  abbrev pub InRange : VolumeControl fl → Type 0
  InRange v =
      (fl.lt v.gain fl.volume_min_gain ≡ false)
      × (fl.lt fl.volume_max_gain v.gain ≡ false)
      × ((v.present ≡ true) ⊎ (v.gain ≡ fl.volume_max_gain))

  abbrev Between : fl.F → Type 0
  Between y = (fl.lt y fl.volume_min_gain ≡ false) × (fl.lt fl.volume_max_gain y ≡ false)

  clampf-Between : (x : fl.F) → Between (clampf fl x fl.volume_min_gain fl.volume_max_gain)
  unfolding clampf
  clampf-Between x =
      if-cases Between (fl.lt x fl.volume_min_gain) {x = fl.volume_min_gain}
        (λ below. (law.min-irrefl, law.min-max))
        (λ above.
          if-cases Between (fl.lt fl.volume_max_gain x) {x = fl.volume_max_gain} {y = x}
            (λ over. (law.min-max, law.max-irrefl)) (λ under. (above, under)))

  refresh-InRange :
      (readings : List ℕ) (v : VolumeControl fl)
      → v.present ≡ true
      → InRange (refresh fl readings v)
  unfolding refresh
  refresh-InRange readings v on =
      let (low, high) = clampf-Between (gain_from_adc fl (read_averaged readings)) in
      (low, high, inl on)

  poll-InRange :
      (now : ℕ) (readings : List ℕ) (v : VolumeControl fl)
      → InRange v
      → InRange (poll fl now readings v)
  unfolding poll
  poll-InRange now readings v h =
      if-cases InRange (not v.ready || not v.present) {x = v} (λ idle. h)
        (λ going.
          if-cases InRange
            (not (v.last_read_ms == 0) && ltb (sub32 now v.last_read_ms) volume_poll_interval_ms)
            {x = v} (λ early. h)
            (λ due.
              refresh-InRange readings (record v { last_read_ms = now }) (ground (arith, going))))

  polls-InRange :
      (calls : List (ℕ × List ℕ)) (v : VolumeControl fl) → InRange v → InRange (polls fl calls v)
  unfolding polls
  polls-InRange [] v h = h
  polls-InRange ((now, readings) ∷ calls) v h =
      polls-InRange calls (poll fl now readings v) (poll-InRange now readings v h)

  begin-InRange :
      (pot_enabled : Bool) (probes readings : List ℕ)
      → InRange (begin fl pot_enabled probes readings)
  unfolding begin
  begin-InRange pot_enabled probes readings =
      let off : VolumeControl fl = record {
        ready = false;
        present = false;
        gain = fl.volume_max_gain;
        last_read_ms = 0;
      } in
      if-both InRange (not pot_enabled) {x = record off { ready = true }}
        (law.min-max, law.max-irrefl, inr refl)
        (if-both InRange (is_floating probes) {x = record off { ready = true }}
          (law.min-max, law.max-irrefl, inr refl)
          (refresh-InRange readings (record off { present = true }) refl))

  -- Whatever `begin` and then any calls of `poll` read, the gain is neither below the smallest gain
  -- nor above the largest, and it is the largest where no potentiometer was found. The comparison of
  -- floats is taken to have each of these two gains not below itself, and the largest not below the
  -- smallest.
  pub gain-InRange :
      (pot_enabled : Bool) (probes readings : List ℕ) (calls : List (ℕ × List ℕ))
      → InRange (polls fl calls (begin fl pot_enabled probes readings))
  gain-InRange pot_enabled probes readings calls =
      polls-InRange calls (begin fl pot_enabled probes readings)
        (begin-InRange pot_enabled probes readings)
