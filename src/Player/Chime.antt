-- ===== src/Player/Chime.antt =====
-- `playBootChime` and `playRingtone` of firmware/tinyvoice/src/audio_player.cpp: tones in a row. The
-- delays between them are left out, and `_playing`, which is set only until they return.
use mathlib.Core.Option
use tiny_voice.Prelude.{
  ℕ, ◌+◌, ◌-◌, ◌*◌, ◌/◌, ◌^◌, ◌<◌, ◌≡◌, refl, sym, ap, ap₂, ◌∙◌, Bool, true, false, not, Option,
  none, some, List, [], ◌∷◌, ◌++◌, append_assoc, arith, if◌then◌else◌,
}
use tiny_voice.Player.Tone.{
  sample_rate, ToneFloats, play_tone, tone_from, joined, Fits, IsTone, play_tone-IsTone,
}

module _ (fl : ToneFloats) where
  -- Each note with its duration, and the gain by the number of the note and of the block.
  unfoldable pub play_notes : Bool → List (fl.F × ℕ) → (ℕ → ℕ → fl.F) → ℕ → Option (List (List ℕ))
  play_notes ready [] gains k = some []
  play_notes ready ((hz, duration_ms) ∷ notes) gains k =
      let rest = play_notes ready notes gains (k + 1) in
      elim (play_tone fl ready hz duration_ms (gains k)) [
        | none ↦ none
        | some blocks ↦ Option.map (λ more. blocks ++ more) rest
      ]

  abbrev pub boot_notes : List (fl.F × ℕ)
  boot_notes =
      (fl.of_hundredths 52325, 130)
      ∷ ((fl.of_hundredths 65925, 130) ∷ ((fl.of_hundredths 78399, 130) ∷ []))

  abbrev pub ring_notes : List (fl.F × ℕ)
  ring_notes =
      (fl.of_hundredths 88000, 160)
      ∷ ((fl.of_hundredths 117466, 240)
          ∷ ((fl.of_hundredths 88000, 160) ∷ ((fl.of_hundredths 117466, 240) ∷ [])))

  unfoldable pub play_boot_chime : Bool → (ℕ → ℕ → fl.F) → Option (List (List ℕ))
  play_boot_chime ready gains = if not ready then some [] else play_notes ready boot_notes gains 0

  unfoldable pub play_ringtone : Bool → (ℕ → ℕ → fl.F) → Option (List (List ℕ))
  play_ringtone ready gains = if not ready then some [] else play_notes ready ring_notes gains 0

  abbrev pub Positive : List (fl.F × ℕ) → Type 0
  Positive [] = Unit
  Positive ((hz, duration_ms) ∷ notes) = (fl.le hz (fl.of_int 0) ≡ false) × Positive notes

  abbrev pub Sounding : List (fl.F × ℕ) → Type 0
  Sounding [] = Unit
  Sounding ((hz, duration_ms) ∷ notes) =
      (0 < duration_ms) × (sample_rate * duration_ms < 2 ^ 31) × Sounding notes

  -- The samples of notes in a row.
  abbrev pub chime_from : List (fl.F × ℕ) → (ℕ → ℕ → fl.F) → ℕ → List ℕ
  chime_from [] gains k = []
  chime_from ((hz, duration_ms) ∷ notes) gains k =
      let total = sample_rate * duration_ms / 1000 in
      tone_from fl hz total (gains k) 0 (total - 0) ++ chime_from notes gains (k + 1)

  abbrev pub IsChime : List (fl.F × ℕ) → (ℕ → ℕ → fl.F) → ℕ → Option (List (List ℕ)) → Type 0
  IsChime notes gains k none = ⊥
  IsChime notes gains k (some blocks) =
      (joined fl blocks ≡ chime_from notes gains k) × Fits fl blocks

  joined-append : (a b : List (List ℕ)) → joined fl (a ++ b) ≡ joined fl a ++ joined fl b
  joined-append [] b = refl
  joined-append (x ∷ a) b =
      ap (λ t. x ++ t) (joined-append a b) ∙ sym (append_assoc x (joined fl a) (joined fl b))

  Fits-append : (a b : List (List ℕ)) → Fits fl a → Fits fl b → Fits fl (a ++ b)
  Fits-append [] b h h' = h'
  Fits-append (x ∷ a) b (short, h) h' = (short, Fits-append a b h h')

  play_notes-IsChime :
      (notes : List (fl.F × ℕ)) (gains : ℕ → ℕ → fl.F) (k : ℕ)
      → Positive notes
      → Sounding notes
      → IsChime notes gains k (play_notes true notes gains k)
  unfolding play_notes
  play_notes-IsChime [] gains k high long = (refl, tt)
  play_notes-IsChime ((hz, duration_ms) ∷ notes) gains k (high, higher) (long, short, longer) =
      both (play_tone fl true hz duration_ms (gains k)) (play_notes true notes gains (k + 1))
        (play_tone-IsTone fl hz duration_ms (gains k) high long short)
        (play_notes-IsChime notes gains (k + 1) higher longer)
    where
      total : ℕ
      total = sample_rate * duration_ms / 1000

      both :
          (o rest : Option (List (List ℕ)))
          → IsTone fl hz total (gains k) 0 o
          → IsChime notes gains (k + 1) rest
          → IsChime
              ((hz, duration_ms) ∷ notes)
              gains
              k
              (elim o [ none ↦ none | some blocks ↦ Option.map (λ more. blocks ++ more) rest ])
      both none rest h h' = h
      both (some blocks) none h h' = h'
      both (some blocks) (some more) (e, fits) (e', fits') =
          (joined-append blocks more ∙ ap₂ (λ a b. a ++ b) e e', Fits-append blocks more fits fits')

  -- The ringtone of a ready player ends, and is the samples of its four notes, one note after the
  -- other, in blocks that the buffer holds. The pitches are taken to compare as positive.
  pub ringtone-IsChime :
      (gains : ℕ → ℕ → fl.F)
      → Positive ring_notes
      → IsChime ring_notes gains 0 (play_ringtone true gains)
  unfolding play_ringtone
  ringtone-IsChime gains high = play_notes-IsChime ring_notes gains 0 high (
    omega arith,
    omega arith,
    (omega arith, omega arith, (omega arith, omega arith, (omega arith, omega arith, tt))),
  )

  -- And so is the chime at the start, with its three.
  pub boot_notes-IsChime :
      (gains : ℕ → ℕ → fl.F)
      → Positive boot_notes
      → IsChime boot_notes gains 0 (play_boot_chime true gains)
  unfolding play_boot_chime
  boot_notes-IsChime gains high =
      play_notes-IsChime boot_notes gains 0 high
        (omega arith, omega arith, (omega arith, omega arith, (omega arith, omega arith, tt)))
