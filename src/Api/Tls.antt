-- ===== src/Api/Tls.antt =====
-- Writing and reading over TLS, in firmware/tinyvoice/src/api_client.cpp: `waitWritable`,
-- `tlsWriteAll`, `writeBodyFromFile` and `readHttpStatus`. A loop takes what the socket, the TLS
-- client, the file and the clock answer in a round from a list; `none` says that the answers ran
-- out while the loop was still going.
pub mod Rounds
pub mod Writes
pub mod Status
mod Examples
use mathlib.Core.Option
use tiny_voice.Prelude.{
  ℕ, zero, suc, ◌+◌, ◌-◌, min, Bool, true, false, not, ◌&&◌, ◌||◌, Option, none, some, List, [],
  ◌∷◌, ◌++◌, ltb, leb, ◌==◌, if◌then◌else◌, length, take, drop, word, sub32, before, from_first,
  atoi,
}

-- What `select` answers: the socket takes data, nothing yet or an interrupt, or an error.
pub data Select : Type 0 where
  ready waiting failed : Select

-- A round of `waitWritable`: the answer, and the clock at the end of the round.
pub record Poll : Type 0 where
  pub answer : Select
  pub now : ℕ

unfoldable pub wait_writable : ℕ → ℕ → List Poll → Option Bool
wait_writable timeout start [] = none
wait_writable timeout start (p ∷ polls) =
    let rest = wait_writable timeout start polls in
    elim p.answer [
      | ready ↦ some true
      | failed ↦ some false
      | waiting ↦ if ltb (sub32 p.now start) timeout then rest else some false
    ]

-- A round of `tlsWriteAll`: the descriptor, the wait, the bytes that `write` accepts, whether the
-- session is open after that, and the clock.
pub record Round : Type 0 where
  pub has_fd : Bool
  pub wait_start : ℕ
  pub polls : List Poll
  pub accepted : ℕ
  pub connected : Bool
  pub now : ℕ

unfoldable pub writable : Round → Option Bool
unfolding wait_writable
writable r = if r.has_fd then wait_writable 15000 r.wait_start r.polls else some false

abbrev pub stall_ms : ℕ
stall_ms = 8000

-- What is accepted of the bytes that are left: `write` accepts no more than it is given.
abbrev pub accepts : Round → List ℕ → ℕ
accepts r left = min r.accepted (length left)

-- How a round goes on: with no answer of the wait not at all, else by whether the socket takes data,
-- bytes moved, and the session is closed or stalled.
unfoldable pub after_round :
    Option Bool → Bool → Bool → List ℕ → Option (Bool × List ℕ) → Option (Bool × List ℕ)
after_round none moved gives_up sent rest = none
after_round (some false) moved gives_up sent rest = some (false, sent)
after_round (some true) moved gives_up sent rest =
    if moved then rest else (if gives_up then some (false, sent) else rest)

-- The loop of `tlsWriteAll`, with the bytes that the TLS client was handed so far.
unfoldable pub write_loop : List Round → List ℕ → ℕ → List ℕ → Option (Bool × List ℕ)
unfolding after_round
write_loop rounds [] last_moved sent = some (true, sent)
write_loop [] (x ∷ left) last_moved sent = none
write_loop (r ∷ rounds) (x ∷ left) last_moved sent =
    let n = accepts r (x ∷ left) in
    let moved_ms = if n == 0 then last_moved else r.now in
    let rest = write_loop rounds (drop n (x ∷ left)) moved_ms (sent ++ take n (x ∷ left)) in
    let gives_up = not r.connected || ltb stall_ms (sub32 r.now last_moved) in
    after_round (writable r) (ltb 0 n) gives_up sent rest

-- A call of `tlsWriteAll`: the clock at its start, and its rounds.
pub record Call : Type 0 where
  pub start_ms : ℕ
  pub rounds : List Round

-- A session: the bytes handed to it, and the calls that are still to come.
pub record Session : Type 0 where
  pub sent : List ℕ
  pub calls : List Call

unfoldable pub tls_write_all : List ℕ → Session → Option (Bool × Session)
unfolding write_loop
tls_write_all bytes s = elim s.calls [
  | [] ↦ none
  | c ∷ calls ↦
      Option.map (λ (r : Bool × List ℕ). (r.0, record s { sent = r.1; calls = calls }))
        (write_loop c.rounds bytes c.start_ms s.sent)
]

-- `a && b` of two steps of a session.
unfoldable pub and_then :
    Option (Bool × Session) → (Session → Option (Bool × Session)) → Option (Bool × Session)
and_then none next = none
and_then (some (false, s)) next = some (false, s)
and_then (some (true, s)) next = next s

abbrev pub body_buf_size : ℕ
body_buf_size = 4096

-- `writeBodyFromFile`, with the bytes from the file's position on, and how many each `read` gives
-- (0 for an error): none of the reads gives more than it is asked for or the file has.
unfoldable pub write_body_from_file : List ℕ → ℕ → List ℕ → Session → Option (Bool × Session)
write_body_from_file reads zero file s = some (true, s)
write_body_from_file [] (suc left) file s = none
write_body_from_file (count ∷ reads) (suc left) file s =
    let n = min (min count body_buf_size) (min (suc left) (length file)) in
    if n == 0
    then some (false, s)
    else and_then (tls_write_all (take n file) s)
        (write_body_from_file reads (suc left - n) (drop n file))

-- A round of `readHttpStatus`: the clock at its start, and the byte that was read, or whether more
-- can come.
pub data Arrival : Type 0 where
  byte_read : ℕ → Arrival
  silent : Bool → Arrival

abbrev pub line_size : ℕ
line_size = 64

-- A carriage return is skipped, and so is what no longer fits with the 0 at the end.
unfoldable pub keep_byte : ℕ → List ℕ → List ℕ
keep_byte c line =
    if not (c == 13) && ltb (length line + 1) line_size then line ++ (c ∷ []) else line

-- The loop of `readHttpStatus`, to the line without carriage returns, cut at 63 bytes.
unfoldable pub read_line : ℕ → ℕ → List (ℕ × Arrival) → List ℕ → Option (List ℕ)
read_line timeout start [] line = none
read_line timeout start ((now, byte_read c) ∷ arrivals) line =
    let rest = read_line timeout start arrivals (keep_byte c line) in
    if leb timeout (sub32 now start) || c == 10 then some line else rest
read_line timeout start ((now, silent more) ∷ arrivals) line =
    let rest = read_line timeout start arrivals line in
    if leb timeout (sub32 now start) || not more then some line else rest

-- The number behind the first blank of the line, as the bit pattern of an `int`: -1 without one.
abbrev pub minus_one : ℕ
minus_one = word - 1

unfoldable pub status_of : List ℕ → ℕ
status_of line = elim (from_first 32 (before 0 line)) [
  | none ↦ minus_one
  | some text ↦ atoi (drop 1 text)
]

unfoldable pub read_http_status : ℕ → ℕ → List (ℕ × Arrival) → Option ℕ
unfolding read_line status_of
read_http_status timeout start arrivals = Option.map status_of (read_line timeout start arrivals [])
