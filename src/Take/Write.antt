-- ===== src/Take/Write.antt =====
-- What `writeChunkToDisk` leaves in the file, whatever the calls of the platform return.
use mathlib.Core.Option
use tiny_voice.Prelude.{
  ℕ, zero, suc, ◌+◌, ◌≤◌, ◌<◌, ◌≡◌, refl, sym, ap, ◌∙◌, inl, inr, Bool, true, false, not, ◌&&◌,
  Option, none, some, List, [], ◌∷◌, ◌++◌, append-nil, append_assoc, arith, ◌==◌, Bool-cases,
  Option-cases, lt_or_le, length, take, drop, length-take, length-drop, take-append-drop, take-add,
  take-take,
}
use tiny_voice.Platform.{Platform, accepted, IsSteady}
use tiny_voice.Take.{
  piece_size, TakeState, close_take_fd, open_take_fd, write_fd, write_piece, write_loop, unlock,
  write_chunk_to_disk,
}

module _ (p : Platform) (law : IsSteady p) where
  open law.posix use {
    accepted-le, take_bytes-write, take_bytes-open_append, take_bytes-open_trunc, take_bytes-close,
    take_bytes-mutex_take, take_bytes-mutex_give,
  }

  -- The bytes in the file.
  abbrev pub on_file : TakeState p → List ℕ
  on_file s = p.take_bytes s.1

  -- A call appended the first `n` bytes of the piece.
  record Appended (piece : List ℕ) (s : TakeState p) (n : ℕ) (s' : TakeState p) : Type 0 where
    count : n ≤ length piece
    bytes : on_file s' ≡ on_file s ++ take n piece

  write_fd_lem :
      (piece : List ℕ) (s : TakeState p)
      → Appended piece s (write_fd p piece s).0.0 (write_fd p piece s).1
  unfolding write_fd
  write_fd_lem piece (none, w) = record { count = omega arith; bytes = sym (append-nil _) }
  write_fd_lem piece (some fd, w) = record {
    count = accepted-le fd piece w;
    bytes = take_bytes-write fd piece w;
  }

  -- The code's test for a lost descriptor, after the first write of a piece.
  abbrev pub is_lost : List ℕ → TakeState p → Bool
  is_lost piece s = not ((write_fd p piece s).0.0 == length piece) && (write_fd p piece s).0.1

  -- Where it succeeds, nothing was written.
  pub is_lost-nothing :
      (piece : List ℕ) (s : TakeState p) → is_lost piece s ≡ true → (write_fd p piece s).0.0 ≡ 0
  unfolding write_fd
  is_lost-nothing piece (none, w) h = refl
  is_lost-nothing piece (some fd, w) h = elim (lt_or_le 0 (accepted (p.write fd piece w).0.0)) [
    | inr nothing ↦ omega (arith, nothing)
    | inl moved ↦
        let calm = law.short_write fd piece w moved (ground (arith, accepted-le fd piece w, h)) in
        absurd (ground (arith, h, calm))
  ]

  pub close_take_fd_lem : (s : TakeState p) → on_file (close_take_fd p s) ≡ on_file s
  unfolding close_take_fd
  close_take_fd_lem (none, w) = refl
  close_take_fd_lem (some fd, w) = take_bytes-close fd w

  -- What opening leaves outside does not depend on its success.
  open_take_fd_world :
      (append : Bool) (s : TakeState p)
      → (open_take_fd p append s).1.1 ≡ (p.open_take append (close_take_fd p s).1).1
  unfolding open_take_fd
  open_take_fd_world append s = elim (Option-cases (p.open_take append (close_take_fd p s).1).0) [
    | inl e ↦ rw (e, open_take_fd)
    | inr (fd, e) ↦ rw (e, open_take_fd)
  ]

  pub open_take_fd_append : (s : TakeState p) → on_file (open_take_fd p true s).1 ≡ on_file s
  open_take_fd_append s =
      ap p.take_bytes (open_take_fd_world true s)
      ∙ take_bytes-open_append (close_take_fd p s).1
      ∙ close_take_fd_lem s

  retried :
      (piece : List ℕ) (s : TakeState p)
      → is_lost piece s ≡ true
      → on_file (open_take_fd p true (write_fd p piece s).1).1 ≡ on_file s
  retried piece s lost =
      open_take_fd_append (write_fd p piece s).1
      ∙ (write_fd_lem piece s).bytes
      ∙ ap (λ n. on_file s ++ take n piece) {y = 0} (is_lost-nothing piece s lost)
      ∙ append-nil (on_file s)

  -- A piece appends what its result says, also where the descriptor was lost and opened again.
  write_piece_lem :
      (piece : List ℕ) (s : TakeState p)
      → Appended piece s (write_piece p piece s).0 (write_piece p piece s).1
  unfolding write_piece
  write_piece_lem piece s = elim (Bool-cases (is_lost piece s)) [
    | inr fine ↦ rw fine (write_fd_lem piece s)
    | inl lost ↦ rw lost (elim (Bool-cases (open_take_fd p true (write_fd p piece s).1).0) [
      | inl opened ↦ rw opened (record {
        count = (write_fd_lem piece (open_take_fd p true (write_fd p piece s).1).1).count;
        bytes =
            (write_fd_lem piece (open_take_fd p true (write_fd p piece s).1).1).bytes
            ∙ ap
                (λ b.
                  b
                  ++ take (write_fd p piece (open_take_fd p true (write_fd p piece s).1).1).0.0
                      piece)
                (retried piece s lost);
      })
      | inr closed ↦ rw closed (record {
        count = (write_fd_lem piece s).count;
        bytes = open_take_fd_append (write_fd p piece s).1 ∙ (write_fd_lem piece s).bytes;
      })
    ])
  ]

  -- What the file holds after a write that ended in `s'`: all of the data, or a proper prefix of it.
  abbrev pub Written : List ℕ → TakeState p → Bool → TakeState p → Type 0
  Written left s true s' = on_file s' ≡ on_file s ++ left
  Written left s false s' = (k : ℕ) × (k < length left) × (on_file s' ≡ on_file s ++ take k left)

  -- A result was given (the fuel did not run out), and the file is as it says.
  abbrev pub Returns : List ℕ → TakeState p → Option (Bool × TakeState p) → Type 0
  Returns left s none = ⊥
  Returns left s (some (ok, s')) = Written left s ok s'

  -- What is written after the first `n` bytes is written in all.
  join_piece :
      (left : List ℕ) (s s' : TakeState p) (n : ℕ) (r : Option (Bool × TakeState p))
      → n ≤ length left
      → on_file s' ≡ on_file s ++ take n left
      → Returns (drop n left) s' r
      → Returns left s r
  join_piece left s s' n none hn e h = h
  join_piece left s s' n (some (true, t)) hn e h =
      h
      ∙ ap (λ b. b ++ drop n left) e
      ∙ append_assoc (on_file s) (take n left) (drop n left)
      ∙ ap (λ b. on_file s ++ b) (take-append-drop n left)
  join_piece left s s' n (some (false, t)) hn e (k, hk, h) = (
    n + k,
    omega (arith, length-drop n left),
    h
        ∙ ap (λ b. b ++ take k (drop n left)) e
        ∙ append_assoc (on_file s) (take n left) (take k (drop n left))
        ∙ ap (λ b. on_file s ++ b) (sym (take-add n k (n + k) left refl)),
  )

  write_loop_lem :
      (fuel : ℕ) (left : List ℕ) (s : TakeState p)
      → length left < fuel
      → Returns left s (write_loop p fuel left s)
  unfolding write_loop
  write_loop_lem zero left s h = elim h [ ]
  write_loop_lem (suc fuel) [] s h = sym (append-nil (on_file s))
  write_loop_lem (suc fuel) (x ∷ xs) s h = elim (Bool-cases (n == 0)) [
    | inl stuck ↦
        rw (nonempty, stuck)
          (0, omega arith, first ∙ ap (λ k. on_file s ++ take k left) {y = 0} (ground arith))
    | inr moved ↦
        rw (nonempty, moved)
          (join_piece left s s' n (write_loop p fuel (drop n left) s') (omega (arith, piece_bound))
            first
            (write_loop_lem fuel (drop n left) s'
              (ground (arith, length-drop n left, piece_bound))))
  ]
    where
      left : List ℕ
      left = x ∷ xs

      n : ℕ
      n = (write_piece p (take piece_size left) s).0

      s' : TakeState p
      s' = (write_piece p (take piece_size left) s).1

      nonempty : (length left == 0) ≡ false
      nonempty = ground arith

      piece_bound : (n ≤ piece_size) × (n ≤ length left)
      piece_bound =
          omega
            (arith, (write_piece_lem (take piece_size left) s).count, length-take piece_size left)

      first : on_file s' ≡ on_file s ++ take n left
      first =
          (write_piece_lem (take piece_size left) s).bytes
          ∙ ap (λ b. on_file s ++ b) (take-take n piece_size left (piece_bound.0))

  unlock-Returns :
      (chunk : List ℕ) (s : TakeState p) (r : Option (Bool × TakeState p))
      → Returns chunk s r
      → Returns chunk s (Option.map (unlock p) r)
  unlock-Returns chunk s none h = h
  unlock-Returns chunk s (some (true, (fd, w))) h = take_bytes-mutex_give w ∙ h
  unlock-Returns chunk s (some (false, (fd, w))) (k, hk, h) = (k, hk, take_bytes-mutex_give w ∙ h)

  -- `writeChunkToDisk` ends, and says what it did: on success all of the chunk was appended to the
  -- file, on failure a proper prefix of it. On a flash where no write takes a part of its data and
  -- leaves `EBADF` in `errno`; what each call of `write` accepts, the descriptors that are lost and a
  -- mutex that times out are the platform's choice.
  pub write_chunk_to_disk_lem :
      (chunk : List ℕ) (s : TakeState p) → Returns chunk s (write_chunk_to_disk p chunk s)
  unfolding write_chunk_to_disk
  write_chunk_to_disk_lem [] s = sym (append-nil (on_file s))
  write_chunk_to_disk_lem (x ∷ xs) (none, w) =
      rw nonempty (0, omega arith, sym (append-nil (p.take_bytes w)))
    where
      nonempty : (length (x ∷ xs) == 0) ≡ false
      nonempty = ground arith
  write_chunk_to_disk_lem (x ∷ xs) (some fd, w) = elim (Bool-cases (p.mutex_take w).0) [
    | inr timeout ↦ rw (nonempty, timeout) (0, omega arith, same)
    | inl locked ↦
        rw (nonempty, locked)
          (join_piece chunk (some fd, w) s' 0 _ (omega arith) same
            (unlock-Returns chunk s' (write_loop p (suc (length chunk)) chunk s')
              (write_loop_lem (suc (length chunk)) chunk s' (omega arith))))
  ]
    where
      chunk : List ℕ
      chunk = x ∷ xs

      s' : TakeState p
      s' = (some fd, (p.mutex_take w).1)

      nonempty : (length (x ∷ xs) == 0) ≡ false
      nonempty = ground arith

      same : on_file s' ≡ p.take_bytes w ++ []
      same = take_bytes-mutex_take w ∙ sym (append-nil (p.take_bytes w))
