-- ===== src/Take/Torn.antt =====
-- What a piece that `writeChunkToDisk` writes leaves in the file: it may be torn, since `errno` keeps
-- its value over a write that succeeds.
use tiny_voice.Prelude.{
  ℕ, ◌≤◌, ◌<◌, ◌≡◌, refl, sym, ap, ap₂, ◌∙◌, ◌⊎◌, inl, inr, Bool, true, not, ◌&&◌, none, some, List,
  ◌++◌, append-nil, append_assoc, arith, ◌==◌, if◌then◌else◌, Option-cases, if-cases, length, take,
  length-take, take-take,
}
use tiny_voice.Platform.{Platform, accepted, IsPosix}
use tiny_voice.Take.{piece_size, TakeState, close_take_fd, open_take_fd, write_fd, write_piece}

module _ (p : Platform) where
  -- The first write of the next piece took `m` bytes, not all, and `errno` was EBADF after it.
  pub record IsTorn (left : List ℕ) (m : ℕ) : Type 0 where
    pub fd : ℕ
    pub w : p.World
    pub taken : accepted (p.write fd (take piece_size left) w).0.0 ≡ m
    pub short : m < length (take piece_size left)
    pub stale : (p.write fd (take piece_size left) w).0.1 ≡ true

  -- What the next `n` bytes of `left` leave in the file: themselves, behind the front of them that
  -- was torn, if one was.
  pub data Head (left : List ℕ) (n : ℕ) : List ℕ → Type 0 where
    once : Head left n (take n left)
    twice : (m : ℕ) → IsTorn left m → Head left n (take m left ++ take n left)

module _ (p : Platform) (law : IsPosix p) where
  -- The result of a piece of `left`.
  pub record Piece (left : List ℕ) (s : TakeState p) (n : ℕ) (s' : TakeState p) : Type 0 where
    pub in_left : n ≤ length left
    pub in_piece : n ≤ piece_size
    pub added :
        (head : List ℕ) × Head p left n head × (p.take_bytes s'.1 ≡ p.take_bytes s.1 ++ head)

  close-keeps : (s : TakeState p) → p.take_bytes (close_take_fd p s).1 ≡ p.take_bytes s.1
  unfolding close_take_fd
  close-keeps (none, w) = refl
  close-keeps (some fd, w) = law.take_bytes-close fd w

  reopen-keeps : (s : TakeState p) → p.take_bytes (open_take_fd p true s).1.1 ≡ p.take_bytes s.1
  unfolding open_take_fd
  reopen-keeps s = elim (Option-cases (p.open_take true (close_take_fd p s).1).0) [
    | inl e ↦
        rw (e, open_take_fd) (law.take_bytes-open_append (close_take_fd p s).1 ∙ close-keeps s)
    | inr (fd, e) ↦
        rw (e, open_take_fd) (law.take_bytes-open_append (close_take_fd p s).1 ∙ close-keeps s)
  ]

  write_fd-adds :
      (piece : List ℕ) (s : TakeState p)
      → (p.take_bytes (write_fd p piece s).1.1
          ≡ p.take_bytes s.1 ++ take (write_fd p piece s).0.0 piece)
        × ((write_fd p piece s).0.0 ≤ length piece)
  unfolding write_fd
  write_fd-adds piece (none, w) = (sym (append-nil (p.take_bytes w)), omega arith)
  write_fd-adds piece (some fd, w) = (law.take_bytes-write fd piece w, law.accepted-le fd piece w)

  -- A short first write with EBADF was torn, or took nothing.
  write_fd-IsTorn :
      (left : List ℕ) (s : TakeState p)
      → (not ((write_fd p (take piece_size left) s).0.0 == length (take piece_size left))
          && (write_fd p (take piece_size left) s).0.1)
        ≡ true
      → ((write_fd p (take piece_size left) s).0.0 ≡ 0)
        ⊎ IsTorn p left (write_fd p (take piece_size left) s).0.0
  unfolding write_fd
  write_fd-IsTorn left (none, w) h = inl refl
  write_fd-IsTorn left (some fd, w) h = inr (record {
    fd = fd;
    w = w;
    taken = refl;
    short = ground (arith, law.accepted-le fd (take piece_size left) w, h);
    stale = ground (arith, h);
  })

  in_front :
      (n : ℕ) (left : List ℕ)
      → n ≤ length (take piece_size left)
      → (n ≤ length left) × (n ≤ piece_size) × (take n (take piece_size left) ≡ take n left)
  in_front n left h =
      let sizes = length-take piece_size left in
      (
        omega (arith, h, sizes),
        omega (arith, h, sizes),
        take-take n piece_size left (omega (arith, h, sizes)),
      )

  pub write_piece-Piece :
      (left : List ℕ) (s : TakeState p)
      → Piece left s
          (write_piece p (take piece_size left) s).0
          (write_piece p (take piece_size left) s).1
  unfolding write_piece
  write_piece-Piece left s =
      if-cases (λ (r : ℕ × TakeState p). Piece left s r.0 r.1) (not (n == length piece) && flag)
        {x = if reopened then (n', s3) else (n, s2)} {y = (n, s1)}
        (λ lost.
          if-cases (λ (r : ℕ × TakeState p). Piece left s r.0 r.1) reopened {x = (n', s3)}
            {y = (n, s2)}
            (λ opened. record {
              in_left = fit'.0;
              in_piece = fit'.1;
              added = retried (write_fd-IsTorn left s lost);
            })
            (λ closed. record {
              in_left = fit.0;
              in_piece = fit.1;
              added = (take n left, once, same2 ∙ first);
            }))
        (λ fine. record { in_left = fit.0; in_piece = fit.1; added = (take n left, once, first) })
    where
      piece : List ℕ
      piece = take piece_size left

      n : ℕ
      n = (write_fd p piece s).0.0

      flag : Bool
      flag = (write_fd p piece s).0.1

      s1 : TakeState p
      s1 = (write_fd p piece s).1

      reopened : Bool
      reopened = (open_take_fd p true s1).0

      s2 : TakeState p
      s2 = (open_take_fd p true s1).1

      n' : ℕ
      n' = (write_fd p piece s2).0.0

      s3 : TakeState p
      s3 = (write_fd p piece s2).1

      fit : (n ≤ length left) × (n ≤ piece_size) × (take n piece ≡ take n left)
      fit = in_front n left (write_fd-adds piece s).1

      fit' : (n' ≤ length left) × (n' ≤ piece_size) × (take n' piece ≡ take n' left)
      fit' = in_front n' left (write_fd-adds piece s2).1

      first : p.take_bytes s1.1 ≡ p.take_bytes s.1 ++ take n left
      first = (write_fd-adds piece s).0 ∙ ap (λ b. p.take_bytes s.1 ++ b) fit.2

      same2 : p.take_bytes s2.1 ≡ p.take_bytes s1.1
      same2 = reopen-keeps s1

      second : p.take_bytes s3.1 ≡ (p.take_bytes s.1 ++ take n left) ++ take n' left
      second = (write_fd-adds piece s2).0 ∙ ap₂ (λ a b. a ++ b) (same2 ∙ first) fit'.2

      retried :
          (n ≡ 0) ⊎ IsTorn p left n
          → (head : List ℕ) × Head p left n' head × (p.take_bytes s3.1 ≡ p.take_bytes s.1 ++ head)
      retried (inl nothing) = (
        take n' left,
        once,
        second
            ∙ ap (λ k. (p.take_bytes s.1 ++ take k left) ++ take n' left) {y = 0} nothing
            ∙ ap (λ b. b ++ take n' left) (append-nil (p.take_bytes s.1)),
      )
      retried (inr torn) = (
        take n left ++ take n' left,
        twice n torn,
        second ∙ append_assoc (p.take_bytes s.1) (take n left) (take n' left),
      )
