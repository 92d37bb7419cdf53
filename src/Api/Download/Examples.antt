-- ===== src/Api/Download/Examples.antt =====
-- A download of 46 bytes whose second half comes after a silence.
use tiny_voice.Api.Download.Ends.{Paced, Lasts, Saves, download_audio_to_file-Saves}
use tiny_voice.Prelude.{
  ℕ, zero, suc, ◌+◌, ◌≡◌, refl, ap, true, false, none, some, List, [], ◌∷◌, arith, ltb, length, u32,
  codes,
}
use tiny_voice.Api.Download.{
  Expected, download_cap, Read, Progress, given, download_round, download_loop, settle, Request,
  started, download_audio_to_file,
}

abbrev message : List ℕ
message = codes "RIFF....WAVEfmt ................data....abcdef"

abbrev data_at : ℕ → ℕ → Read
data_at n now = record { count = n; stored = n; flash_free = 900000; is_open = true; now = now }

abbrev silence_at : ℕ → Read
silence_at now = record { count = 0; stored = 0; flash_free = 900000; is_open = true; now = now }

-- Silence, every 2 ms.
silences : ℕ → ℕ → List Read
silences soonest zero = []
silences soonest (suc n) = silence_at (u32 soonest) ∷ silences (soonest + 2) n

length-silences : (soonest n : ℕ) → length (silences soonest n) ≡ n
unfolding silences
length-silences soonest zero = refl
length-silences soonest (suc n) = ap suc (length-silences (soonest + 2) n)

silences-Paced :
    (cap : ℕ) (expected : Expected) (soonest n : ℕ) (d : Progress)
    → Paced cap expected soonest d (silences soonest n)
unfolding silences
silences-Paced cap expected soonest zero d = tt
silences-Paced cap expected soonest (suc n) d = (
  soonest,
  omega arith,
  omega arith,
  refl,
  rw (nothing) (
      silences-Paced cap expected (soonest + 2) n
        (download_round cap expected (silence_at (u32 soonest)) d).1),
)
  where
    nothing : ltb 0 (given cap expected (silence_at (u32 soonest)) d) ≡ false
    nothing = ground arith

abbrev reads : List Read
reads = data_at 20 5 ∷ silence_at 6 ∷ data_at 26 8 ∷ []

abbrev request : Request
request = record {
  is_held = true;
  begins = true;
  code = 200;
  expected = some 46;
  free_bytes = 400000;
  opens = true;
  start_ms = 4;
  response = message;
  reads = reads;
}

saved : download_audio_to_file request none ≡ some (true, false, some message)
unfolding download_audio_to_file started download_cap download_loop settle
saved = refl

-- After the message, silence for as long as may be asked.
abbrev long_request : Request
long_request = record request {
  reads = data_at 20 5 ∷ silence_at 6 ∷ data_at 26 8 ∷ silences 8 600000;
}

long_request-Lasts : Lasts long_request
unfolding download_cap started download_round
long_request-Lasts = (
  4,
  refl,
  (
    5,
    omega arith,
    omega arith,
    refl,
    (
      6,
      omega arith,
      omega arith,
      refl,
      (8, omega arith, omega arith, refl, silences-Paced 46 (some 46) 8 600000 _),
    ),
  ),
  omega (arith, length-silences 8 600000),
)

download_audio_to_file-Saves_example :
    Saves message 400000 (some 46) (download_audio_to_file long_request none)
download_audio_to_file-Saves_example =
    download_audio_to_file-Saves long_request none long_request-Lasts
