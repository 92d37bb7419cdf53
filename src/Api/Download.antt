-- ===== src/Api/Download.antt =====
-- `ApiClient::downloadAudioToFile` of firmware/tinyvoice/src/api_client.cpp: a message into a file,
-- within what the flash can hold. What the TLS client, the file system and the clock answer in each
-- round of the loop is a list; `none` says that it ran out.
pub mod Kept
pub mod Saved
pub mod Ends
mod Examples
use mathlib.Core.Option
use tiny_voice.Prelude.{
  ℕ, ◌+◌, ◌-◌, ◌*◌, ◌/◌, ◌%◌, min, Bool, true, false, not, ◌&&◌, ◌||◌, Option, none, some, List, [],
  ◌∷◌, ◌++◌, ltb, leb, ◌==◌, if◌then◌else◌, length, take, drop, sub32,
}

abbrev pub flash_block : ℕ
flash_block = 4096

abbrev pub flash_margin : ℕ
flash_margin = 131072

-- Half a second of samples and the header.
abbrev pub min_bytes : ℕ
min_bytes = 16044

abbrev pub read_size : ℕ
read_size = 4096

abbrev pub log_step : ℕ
log_step = 32768

-- The expected length: `http.getSize()` where it is above 0.
abbrev pub Expected : Type 0
Expected = Option ℕ

abbrev pub is_below : ℕ → Expected → Bool
is_below n none = false
is_below n (some len) = ltb n len

-- Whether more is expected, which it always is where the length is not known.
abbrev pub expects_more : ℕ → Expected → Bool
expects_more n none = true
expects_more n (some len) = ltb n len

-- The bytes that the flash can hold: whole blocks without their overhead, kept even.
unfoldable pub flash_cap : ℕ → ℕ
flash_cap free =
    let whole = (free - flash_margin) / flash_block * (flash_block - 8) in whole - whole % 2

unfoldable pub download_cap : ℕ → Expected → ℕ
unfolding flash_cap
download_cap free none = flash_cap free
download_cap free (some len) = if ltb len (flash_cap free) then len else flash_cap free

-- A round: how many bytes the TLS client can give (0 for nothing yet or a fault), how many of them
-- the file stores, the free flash after that, whether more can come, and the clock.
pub record Read : Type 0 where
  pub count : ℕ
  pub stored : ℕ
  pub flash_free : ℕ
  pub is_open : Bool
  pub now : ℕ

-- The variables of the loop, the response that is not read yet, and the file.
pub record Progress : Type 0 where
  pub incoming : List ℕ
  pub saved : List ℕ
  pub received : ℕ
  pub last_data : ℕ
  pub next_log : ℕ
  pub is_trimmed : Bool

module _ (cap : ℕ) (expected : Expected) where
  abbrev pub wanted : Progress → ℕ
  wanted d = min read_size (cap - d.received)

  abbrev pub given : Read → Progress → ℕ
  given r d = min r.count (min (wanted d) (length d.incoming))

  abbrev pub goes_on : Progress → Bool
  goes_on d = ltb d.received cap && expects_more d.received expected

  -- A round that found data: whether the loop breaks, and what it leaves.
  unfoldable pub data_round : Read → Progress → Bool × Progress
  data_round r d =
      let n = given r d in
      let stored = min r.stored n in
      let received = d.received + n in
      let logs = leb d.next_log received in
      let d1 = record d {
        incoming = drop n d.incoming;
        saved = d.saved ++ take n d.incoming;
        received = received;
        last_data = r.now;
        next_log = (if logs then d.next_log + log_step else d.next_log);
      } in
      if not (stored == n)
      then (
        true,
        record d {
          incoming = drop n d.incoming;
          saved = d.saved ++ take stored d.incoming;
          is_trimmed = d.is_trimmed || leb min_bytes d.received;
        },
      )
      else (if logs && ltb r.flash_free flash_margin
          then (true, record d1 { is_trimmed = true })
          else (if leb cap received && expects_more received expected
              then (true, record d1 { is_trimmed = true })
              else (false, d1)))

  -- A round that found none: the loop breaks where the peer closed or nothing came for 25 s.
  unfoldable pub quiet_round : Read → Progress → Bool × Progress
  quiet_round r d = (not r.is_open || ltb 25000 (sub32 r.now d.last_data), d)

  unfoldable pub download_round : Read → Progress → Bool × Progress
  unfolding data_round quiet_round
  download_round r d = if ltb 0 (given r d) then data_round r d else quiet_round r d

  unfoldable pub download_loop : List Read → Progress → Option Progress
  unfolding download_round
  download_loop [] d = if goes_on d then none else some d
  download_loop (r ∷ reads) d =
      let (stops, d') = download_round r d in
      let rest = download_loop reads d' in
      if goes_on d then (if stops then some d' else rest) else some d

  -- The end of the function: whether it succeeded, `*trimmedOut`, and the file, none if it is removed.
  unfoldable pub settle : Progress → Bool × Bool × Option (List ℕ)
  settle d =
      if d.is_trimmed || (is_below d.received expected && leb cap d.received)
      then (leb min_bytes d.received, true, some d.saved)
      else elim expected [
        | none ↦ (ltb 44 d.received, false, some d.saved)
        | some len ↦
            if not (d.received == len)
            then (false, false, none)
            else (ltb 44 d.received, false, some d.saved)
      ]

-- Up to the loop: the mutex, the request, its status and length, the free flash and the file are
-- asked for in this order; the old file is gone once the answer is there.
pub record Request : Type 0 where
  pub is_held : Bool
  pub begins : Bool
  pub code : ℕ
  pub expected : Expected
  pub free_bytes : ℕ
  pub opens : Bool
  pub start_ms : ℕ
  pub response : List ℕ
  pub reads : List Read

unfoldable pub started : Request → Progress
started q = record {
  incoming = q.response;
  saved = [];
  received = 0;
  last_data = q.start_ms;
  next_log = log_step;
  is_trimmed = false;
}

unfoldable pub run_loop : Request → Option (Bool × Bool × Option (List ℕ))
unfolding started
run_loop q =
    let cap = download_cap q.free_bytes q.expected in
    Option.map {B = Bool × Bool × Option (List ℕ)} (settle cap q.expected)
      (download_loop cap q.expected q.reads (started q))

-- The result, `*trimmedOut`, and the file that there is then.
unfoldable pub download_audio_to_file :
    Request → Option (List ℕ) → Option (Bool × Bool × Option (List ℕ))
unfolding run_loop
download_audio_to_file q old =
    if not q.is_held || not q.begins || not (q.code == 200)
    then some (false, false, old)
    else (if leb q.free_bytes (flash_margin + min_bytes) || not q.opens
        then some (false, false, none)
        else run_loop q)
