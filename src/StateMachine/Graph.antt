-- ===== src/StateMachine/Graph.antt =====
-- The transition diagram of the device: which state a call can lead to from which.
use tiny_voice.Prelude.{Bool, true, arith}
use tiny_voice.StateMachine.{
  DeviceState, connecting_wifi, idle, recording, processing, uploading, checking_messages,
  downloading, playing, error, StateMachine, step, Event,
}

-- The states that a button hold can start a recording from.
pub data CanRecord : DeviceState → Type 0 where
  from_idle : CanRecord idle
  from_checking : CanRecord checking_messages
  from_error : CanRecord error

-- The states in which the device waits for the user or a message.
pub data IsWaiting : DeviceState → Type 0 where
  waits_idle : IsWaiting idle
  waits_checking : IsWaiting checking_messages

-- The edges; the flag says whether a message is pending before the call.
pub data Edge : Bool → DeviceState → DeviceState → Type 0 where
  stay : {p : Bool} {s : DeviceState} → Edge p s s
  connect : {p : Bool} {s : DeviceState} → Edge p s connecting_wifi
  fail : {p : Bool} {s : DeviceState} → Edge p s error
  settle : {p : Bool} {s : DeviceState} → Edge p s idle
  record_take : {p : Bool} {s : DeviceState} → CanRecord s → Edge p s recording
  process : {p : Bool} → Edge p recording processing
  retry_upload : {p : Bool} → Edge p idle uploading
  upload_take : {p : Bool} → Edge p processing uploading
  poll : {p : Bool} → Edge p idle checking_messages
  fetch : {p : Bool} {s : DeviceState} → IsWaiting s → Edge p s downloading
  play : {s : DeviceState} → IsWaiting s → Edge true s playing

ruleset edges = (
  stay, connect, fail, settle, record_take, process, retry_upload, upload_take, poll, fetch, play,
  from_idle, from_checking, from_error, waits_idle, waits_checking,
)

-- Every call of a method follows an edge of the diagram.
pub step-Edge : (m : StateMachine) (e : Event) → Edge m.has_pending_message m.state (step m e).state
unfolding step
step-Edge m e = grind (arith, edges)
