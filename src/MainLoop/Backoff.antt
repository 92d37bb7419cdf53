-- ===== src/MainLoop/Backoff.antt =====
-- The back-off of the API calls.
use tiny_voice.Prelude.{ℕ, ◌+◌, ◌<◌, ◌≡◌, true, List, [], ◌∷◌, arith, leb, word}
use tiny_voice.MainLoop.{Device, note_api_success, note_api_failure, api_calls_allowed}

-- Failed calls at these times, one after the other.
pub fail_all : List ℕ → Device → Device
fail_all [] d = d
fail_all (now ∷ times) d = fail_all times (note_api_failure now d)

-- Six failures after a success, and no fewer, close the API: up to the fifth, calls stay allowed at
-- every time; from the sixth, at a time 15 s before the clock wraps or earlier, they are refused
-- for 15 s, then allowed; and a success at any time allows them again.
pub six_failures_back_off :
    (d : Device) (t1 t2 t3 t4 t5 t6 : ℕ) (later : ℕ)
    → t6 + 15000 < word
    → let start = note_api_success d in
      let five = fail_all (t1 ∷ t2 ∷ t3 ∷ t4 ∷ t5 ∷ []) start in
      let six = note_api_failure t6 five in
      (api_calls_allowed later five ≡ true)
      × (api_calls_allowed later six ≡ leb (t6 + 15000) later)
      × (api_calls_allowed later (note_api_success six) ≡ true)
unfolding fail_all note_api_success note_api_failure api_calls_allowed
six_failures_back_off d t1 t2 t3 t4 t5 t6 later h = ground arith
