-- ===== src/Take/Laid.antt =====
-- What `writeChunkToDisk` leaves in the file whatever `errno` holds: `errno` keeps its value over a
-- write that succeeds, so the test for EBADF may meet an older one.
use mathlib.Core.Option
use tiny_voice.Prelude.{
  ℕ, ◌≤◌, ◌<◌, ◌≡◌, Bool, true, false, Option, none, some, List, [], ◌++◌, length, drop,
}
use tiny_voice.Platform.{Platform, IsPosix}
use tiny_voice.Take.Torn.{Head}
use tiny_voice.Take.{piece_size, TakeState}

module _ (p : Platform) where
  -- How the bytes of `left` came to the file: front after front, each behind the last; on success
  -- nothing is left.
  pub data Laid : List ℕ → Bool → List ℕ → Type 0 where
    whole : Laid [] true []
    stopped : (left head : List ℕ) → 0 < length left → Head p left 0 head → Laid left false head
    front :
        (left head out : List ℕ) (ok : Bool) (n : ℕ)
        → 0 < n
        → n ≤ length left
        → n ≤ piece_size
        → Head p left n head
        → Laid (drop n left) ok out
        → Laid left ok (head ++ out)

module _ (p : Platform) (law : IsPosix p) where
  -- A result was given, and the file got the bytes in that way.
  abbrev pub Lays : List ℕ → p.World → Option (Bool × TakeState p) → Type 0
  Lays left w none = ⊥
  Lays left w (some (ok, s')) =
      (out : List ℕ) × (p.take_bytes s'.1 ≡ p.take_bytes w ++ out) × Laid p left ok out
