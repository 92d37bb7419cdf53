-- ===== src/Volume/Tests.antt =====
-- The volume over whole hundredths in place of floats.
use tiny_voice.Prelude.{ℕ, ◌+◌, ◌-◌, ◌*◌, ◌/◌, ◌≡◌, refl, true, false, [], ◌∷◌, ltb}
use tiny_voice.Volume.{
  Floats, read_averaged, is_floating, clampf, gain_from_adc, refresh, begin, polls,
}
use tiny_voice.Volume.Range.{IsOrdered, InRange, gain-InRange}

abbrev hundredths : Floats
hundredths = record {
  F = ℕ;
  lt = ltb;
  of_int = λ n. n * 100;
  add = λ a b. a + b;
  sub = λ a b. a - b;
  mul = λ a b. a * b / 100;
  div = λ a b. a * 100 / b;
  volume_min_gain = 18;
  volume_max_gain = 100;
}

hundredths-IsOrdered : IsOrdered hundredths
hundredths-IsOrdered = record { min-irrefl = refl; max-irrefl = refl; min-max = refl }

middle :
    (begin hundredths true
      (2000 ∷ 2010 ∷ [])
      (2047 ∷ (2047 ∷ (2047 ∷ (2047 ∷ (2048 ∷ (2048 ∷ (2048 ∷ 2048 ∷ [])))))))).gain
    ≡ 37
unfolding begin refresh read_averaged is_floating gain_from_adc clampf
middle = refl

open_pin : (begin hundredths true (10 ∷ 3000 ∷ []) []).present ≡ false
unfolding begin is_floating
open_pin = refl

gain-InRange_example :
    InRange hundredths hundredths-IsOrdered
      (polls hundredths ((30, 4095 ∷ []) ∷ []) (begin hundredths true (2000 ∷ 2010 ∷ []) []))
gain-InRange_example =
    gain-InRange hundredths hundredths-IsOrdered true (2000 ∷ 2010 ∷ []) [] ((30, 4095 ∷ []) ∷ [])
