-- ===== src/Wifi.antt =====
-- `WiFiManager` of firmware/tinyvoice/src/wifi_manager.cpp: the first connection and the attempts to
-- get it back. What the Wi-Fi library and the clock answer is an argument; `none` says that the
-- answers ran out.
pub mod Attempts
pub mod Connect
mod Examples
use mathlib.Core.Option
use tiny_voice.Prelude.{
  ℕ, Bool, true, false, not, ◌&&◌, Option, none, some, List, [], ◌∷◌, ltb, if◌then◌else◌, u32,
  sub32,
}

abbrev pub connect_ms : ℕ
connect_ms = 15000

abbrev pub retry_ms : ℕ
retry_ms = 5000

-- A test of the loop in `connect`: whether Wi-Fi is connected, and the clock.
abbrev pub Test : Type 0
Test = Bool × ℕ

-- The loop, and the status after it.
unfoldable pub connect_loop : List Test → ℕ → Bool → Option Bool
connect_loop [] start after = none
connect_loop ((connected, now) ∷ tests) start after =
    let rest = connect_loop tests start after in
    if not connected && ltb (sub32 now start) connect_ms then rest else some after

-- `connect`, to whether it started a connection, and its result.
unfoldable pub connect : Bool → List Test → ℕ → Bool → Option (Bool × Bool)
connect was_connected tests start after =
    if was_connected
    then some (false, true)
    else Option.map {B = Bool × Bool} (λ ok. (true, ok)) (connect_loop tests start after)

-- `reconnect`, with `s_lastReconnectMs`: whether it starts a connection, and the new time of that.
unfoldable pub reconnect : Bool → ℕ → ℕ → Bool × ℕ
reconnect connected now last =
    if connected
    then (false, last)
    else (if ltb (sub32 now last) retry_ms then (false, last) else (true, now))

-- `loop` at these true times: when it started a connection.
unfoldable pub starts : List (Bool × ℕ) → ℕ → List ℕ
starts [] last = []
starts ((connected, t) ∷ turns) last =
    let (begins, last') = reconnect connected (u32 t) last in
    let rest = starts turns last' in if begins then t ∷ rest else rest
