-- ===== src/Take.antt =====
-- The take file of firmware/tinyvoice/src/audio_recorder.cpp: `closeTakeFd`, `openTakeFd` and
-- `writeChunkToDisk`. `s_takeFd` is an option, none for -1.
pub mod Write
pub mod Open
pub mod Laid
pub mod Torn
mod Tests
use tiny_voice.Prelude.{
  ℕ, zero, suc, Bool, true, false, not, ◌&&◌, Option, none, some, List, ◌==◌, if◌then◌else◌, length,
  take, drop,
}
use mathlib.Core.Option
use tiny_voice.Platform.{Platform, accepted}

abbrev pub piece_size : ℕ
piece_size = 4096

-- `s_takeFd >= 0`
abbrev pub is_open : Option ℕ → Bool
is_open none = false
is_open (some fd) = true

module _ (p : Platform) where
  -- `s_takeFd` and the world outside.
  abbrev pub TakeState : Type 0
  TakeState = Option ℕ × p.World

  unfoldable pub close_take_fd : TakeState → TakeState
  close_take_fd (none, w) = (none, w)
  close_take_fd (some fd, w) = (none, p.close fd w)

  -- Whether the file could be opened, to append or to truncate it.
  unfoldable pub open_take_fd : Bool → TakeState → Bool × TakeState
  unfolding close_take_fd
  open_take_fd append s =
      let (fd, w) = p.open_take append (close_take_fd s).1 in
      elim fd [ none ↦ (false, (none, w)) | some n ↦ (true, (some n, w)) ]

  -- One call of `write` on the open file: the count that it accepted, the flag for EBADF.
  unfoldable pub write_fd : List ℕ → TakeState → (ℕ × Bool) × TakeState
  write_fd piece (none, w) = ((0, true), (none, w))
  write_fd piece (some fd, w) =
      let ((n, ebadf), w') = p.write fd piece w in ((accepted n, ebadf), (some fd, w'))

  -- A piece of the chunk: a descriptor that was lost is opened again, and the piece is retried.
  unfoldable pub write_piece : List ℕ → TakeState → ℕ × TakeState
  write_piece piece s =
      let ((n, ebadf), s1) = write_fd piece s in
      let (opened, s2) = open_take_fd true s1 in
      let ((n', _), s3) = write_fd piece s2 in
      if not (n == length piece) && ebadf then (if opened then (n', s3) else (n, s2)) else (n, s1)

  -- The `while` loop over what is left of the chunk; `none` says that the fuel ran out.
  unfoldable pub write_loop : ℕ → List ℕ → TakeState → Option (Bool × TakeState)
  write_loop zero left s = none
  write_loop (suc fuel) left s =
      let (n, s') = write_piece (take piece_size left) s in
      let rest = write_loop fuel (drop n left) s' in
      if length left == 0 then some (true, s) else (if n == 0 then some (false, s') else rest)

  -- The result of a loop that held the mutex.
  abbrev pub unlock : Bool × TakeState → Bool × TakeState
  unlock (ok, (fd, w)) = (ok, (fd, p.mutex_give w))

  -- The mutex is given back on every path that took it. The loop needs a round for each byte at
  -- most.
  unfoldable pub write_chunk_to_disk : List ℕ → TakeState → Option (Bool × TakeState)
  write_chunk_to_disk chunk s =
      let (locked, w) = p.mutex_take s.1 in
      let written = write_loop (suc (length chunk)) chunk (s.0, w) in
      if length chunk == 0
      then some (true, s)
      else (if not (is_open s.0)
          then some (false, s)
          else (if not locked then some (false, (s.0, w)) else Option.map unlock written))
