-- ===== src/Api/Tls/Examples.antt =====
-- Writing and reading over TLS on short inputs.
use tiny_voice.Prelude.{
  ℕ, zero, suc, ◌+◌, ◌*◌, ◌≡◌, refl, ap, true, some, List, [], ◌∷◌, arith, length, u32,
}
use tiny_voice.Api.Tls.{
  Round, writable, Call, tls_write_all, Arrival, minus_one, status_of, read_http_status, ready,
  byte_read, silent,
}
use tiny_voice.Api.Tls.Rounds.{Ticking}
use tiny_voice.Api.Tls.Writes.{at_calls, Delivered, Serves, tls_write_all_lem}
use tiny_voice.Api.Tls.Status.{read_http_status_code}

-- A round in which the socket takes data at once.
abbrev round_at : ℕ → ℕ → Round
round_at accepted now = record {
  has_fd = true;
  wait_start = 0;
  polls = record { answer = ready; now = 0 } ∷ [];
  accepted = accepted;
  connected = true;
  now = now;
}

-- A client that takes nothing, every 5 ms.
idle : ℕ → ℕ → List Round
idle t zero = []
idle t (suc n) = round_at 0 (u32 (t + 5)) ∷ idle (t + 5) n

length-idle : (t n : ℕ) → length (idle t n) ≡ n
unfolding idle
length-idle t zero = refl
length-idle t (suc n) = ap suc (length-idle (t + 5) n)

idle-Ticking : (t n : ℕ) → Ticking t (idle t n)
unfolding idle writable
idle-Ticking t zero = tt
idle-Ticking t (suc n) =
    (t + 5, omega arith, (λ e. omega arith), omega arith, refl, (λ e. cc), idle-Ticking (t + 5) n)

-- Two bytes are taken, then one is, then none.
abbrev call : Call
call = record { start_ms = 4; rounds = round_at 2 6 ∷ round_at 1 7 ∷ idle 7 8000 }

call-Serves : Serves call (1 ∷ 2 ∷ 3 ∷ [])
unfolding writable
call-Serves = (
  4,
  refl,
  (
    6,
    omega arith,
    (λ e. absurd (omega arith)),
    omega arith,
    refl,
    (λ e. cc),
    (
      7,
      omega arith,
      (λ e. absurd (omega arith)),
      omega arith,
      refl,
      (λ e. cc),
      idle-Ticking 7 8000,
    ),
  ),
  omega (arith, length-idle 7 8000),
)

tls_write_all_lem_example :
    Delivered
      (at_calls (9 ∷ []) (call ∷ []))
      (1 ∷ 2 ∷ 3 ∷ [])
      []
      (tls_write_all (1 ∷ 2 ∷ 3 ∷ []) (at_calls (9 ∷ []) (call ∷ [])))
tls_write_all_lem_example = tls_write_all_lem (9 ∷ []) call [] (1 ∷ 2 ∷ 3 ∷ []) call-Serves

handed_over :
    tls_write_all (1 ∷ 2 ∷ 3 ∷ []) (at_calls (9 ∷ []) (call ∷ []))
    ≡ some (true, at_calls (9 ∷ 1 ∷ 2 ∷ 3 ∷ []) [])
unfolding tls_write_all writable
handed_over = refl

-- `H 201` and a line break, with a silence in between, then more.
abbrev arrivals : List (ℕ × Arrival)
arrivals =
    (10, byte_read b'H')
    ∷ (10, byte_read 32)
    ∷ (10, byte_read b'2')
    ∷ (11, silent true)
    ∷ (12, byte_read b'0')
    ∷ (12, byte_read b'1')
    ∷ (12, byte_read 13)
    ∷ (12, byte_read 10)
    ∷ (13, byte_read b'D')
    ∷ []

read_http_status_code_example : read_http_status 60000 9 arrivals ≡ some (2 * 100 + 0 * 10 + 1)
read_http_status_code_example =
    read_http_status_code 60000 9 arrivals (b'H' ∷ []) (13 ∷ []) (b'D' ∷ []) 2 0 1
      (
        omega arith,
        (
          omega arith,
          (
            omega arith,
            (
              omega arith,
              refl,
              (omega arith, (omega arith, (omega arith, (omega arith, (omega arith, tt))))),
            ),
          ),
        ),
      )
      refl (refl, tt) (refl, tt) (refl, tt) (refl, tt) (omega arith) (omega arith) (omega arith)
      (omega arith) (refl, tt) tt

-- A NUL ends the line for the search of the space.
cut_at_nul : status_of (0 ∷ 32 ∷ b'2' ∷ b'0' ∷ b'0' ∷ []) ≡ minus_one
unfolding status_of
cut_at_nul = refl
