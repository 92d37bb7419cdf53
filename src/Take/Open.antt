-- ===== src/Take/Open.antt =====
-- A chunk that is written leaves the take open.
use tiny_voice.Take.{
  piece_size, is_open, TakeState, close_take_fd, open_take_fd, write_fd, write_piece, write_loop,
  unlock, write_chunk_to_disk,
}
use tiny_voice.Prelude.{
  ℕ, zero, suc, ◌<◌, ◌≡◌, refl, inl, inr, Bool, true, false, not, ◌&&◌, Option, none, some, List,
  arith, ◌==◌, Option-cases, if-both, if-cases, length, take, drop,
}
use tiny_voice.Take.Write.{is_lost-nothing}
use tiny_voice.Platform.{Platform, IsSteady}
use mathlib.Core.Option

module _ (p : Platform) (law : IsSteady p) where
  write_fd-open :
      (piece : List ℕ) (s : TakeState p)
      → is_open s.0 ≡ true
      → is_open (write_fd p piece s).1.0 ≡ true
  unfolding write_fd
  write_fd-open piece (none, w) h = h
  write_fd-open piece (some fd, w) h = refl

  pub open_take_fd-open :
      (append : Bool) (s : TakeState p)
      → (open_take_fd p append s).0 ≡ true
      → is_open (open_take_fd p append s).1.0 ≡ true
  unfolding open_take_fd
  open_take_fd-open append s h = elim (Option-cases (p.open_take append (close_take_fd p s).1).0) [
    | inl e ↦ absurd (ground (arith, e, h))
    | inr (fd, e) ↦ ground (arith, e)
  ]

  abbrev OpenIfAny : ℕ × TakeState p → Type 0
  OpenIfAny r = 0 < r.0 → is_open r.1.0 ≡ true

  write_piece-open :
      (piece : List ℕ) (s : TakeState p)
      → is_open s.0 ≡ true
      → 0 < (write_piece p piece s).0
      → is_open (write_piece p piece s).1.0 ≡ true
  unfolding write_piece
  write_piece-open piece s h =
      let s1 = (write_fd p piece s).1 in
      if-cases OpenIfAny
        (not ((write_fd p piece s).0.0 == length piece) && (write_fd p piece s).0.1)
        (λ lost.
          if-cases OpenIfAny (open_take_fd p true s1).0
            (λ opened n.
              write_fd-open piece (open_take_fd p true s1).1 (open_take_fd-open true s1 opened))
            (λ closed n. absurd (omega (arith, is_lost-nothing p law piece s lost))))
        (λ whole n. write_fd-open piece s h)

  -- The take is open after a success.
  abbrev pub StaysOpen : Option (Bool × TakeState p) → Type 0
  StaysOpen none = Unit
  StaysOpen (some (false, s)) = Unit
  StaysOpen (some (true, s)) = is_open s.0 ≡ true

  write_loop-StaysOpen :
      (fuel : ℕ) (left : List ℕ) (s : TakeState p)
      → is_open s.0 ≡ true
      → StaysOpen (write_loop p fuel left s)
  unfolding write_loop
  write_loop-StaysOpen zero left s h = tt
  write_loop-StaysOpen (suc fuel) left s h =
      let (n, s') = write_piece p (take piece_size left) s in
      if-both StaysOpen (length left == 0) h (
        if-cases StaysOpen (n == 0) {x = some (false, s')} (λ e. tt)
          (λ e.
            write_loop-StaysOpen fuel (drop n left) s'
              (write_piece-open (take piece_size left) s h (ground (arith, e)))))

  unlock-StaysOpen :
      (r : Option (Bool × TakeState p)) → StaysOpen r → StaysOpen (Option.map (unlock p) r)
  unlock-StaysOpen none h = tt
  unlock-StaysOpen (some (false, s)) h = tt
  unlock-StaysOpen (some (true, s)) h = h

  pub write_chunk_to_disk-StaysOpen :
      (chunk : List ℕ) (s : TakeState p)
      → is_open s.0 ≡ true
      → StaysOpen (write_chunk_to_disk p chunk s)
  unfolding write_chunk_to_disk
  write_chunk_to_disk-StaysOpen chunk s h = if-both StaysOpen (length chunk == 0) h (
      if-both StaysOpen (not (is_open s.0)) {x = some (false, s)} tt (
        if-both StaysOpen (not (p.mutex_take s.1).0) {x = some (false, (s.0, (p.mutex_take s.1).1))}
          tt
          (unlock-StaysOpen (write_loop p (suc (length chunk)) chunk (s.0, (p.mutex_take s.1).1))
            (write_loop-StaysOpen (suc (length chunk)) chunk (s.0, (p.mutex_take s.1).1) h))))
