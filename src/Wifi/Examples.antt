-- ===== src/Wifi/Examples.antt =====
-- A connection that does not come, and attempts around the wrap of the clock.
use tiny_voice.Wifi.Attempts.{Apart, starts-Apart}
use tiny_voice.Prelude.{
  ℕ, zero, suc, ◌+◌, ◌≡◌, refl, ap, Bool, true, false, some, List, [], ◌∷◌, arith, length, u32,
}
use tiny_voice.Wifi.{Test, connect, reconnect, starts}
use tiny_voice.Wifi.Connect.{Delayed, connect_lem}

turns : List (Bool × ℕ)
turns =
    (false, 4294960000)
    ∷ (false, 4294965000)
    ∷ (false, 4294969000)
    ∷ (true, 4294970000)
    ∷ (false, 4294970001)
    ∷ []

starts-Apart_example : Apart 4294960000 (starts turns 4294960000)
unfolding turns
starts-Apart_example =
    starts-Apart turns 4294960000
      (omega arith, (omega arith, (omega arith, (omega arith, (omega arith, tt)))))

-- Two attempts, the second after the wrap.
attempted : starts turns 4294960000 ≡ 4294965000 ∷ 4294970001 ∷ []
unfolding turns starts reconnect
attempted = refl

-- Never connected, every 250 ms.
failing : ℕ → ℕ → List Test
failing t zero = []
failing t (suc n) = (false, u32 t) ∷ failing (t + 250) n

length-failing : (t n : ℕ) → length (failing t n) ≡ n
unfolding failing
length-failing t zero = refl
length-failing t (suc n) = ap suc (length-failing (t + 250) n)

failing-Delayed : (t n : ℕ) → Delayed t (failing t n)
unfolding failing
failing-Delayed t zero = tt
failing-Delayed t (suc n) = (t, omega arith, omega arith, refl, failing-Delayed (t + 250) n)

connect_lem_example : connect false (failing 7 70) 7 false ≡ some (true, false)
connect_lem_example =
    connect_lem false false (failing 7 70) 7 (failing-Delayed 7 70)
      (omega (arith, length-failing 7 70))
