-- ===== src/Api/Tls/Writes.antt =====
-- `tlsWriteAll` ends, and hands over all of its bytes or says that it did not.
use tiny_voice.Prelude.{
  ℕ, ◌+◌, ◌-◌, ◌*◌, ◌≤◌, ◌<◌, ◌≡◌, refl, sym, ap, ◌∙◌, subst, Bool, true, false, not, ◌||◌, Option,
  none, some, List, [], ◌∷◌, ◌++◌, append-nil, arith, ltb, ◌==◌, if◌then◌else◌, ltb→lt, length,
  take, drop, length-drop, u32, sub32, sub32-u32,
}
use tiny_voice.Api.Tls.{
  Round, writable, stall_ms, accepts, after_round, write_loop, Call, Session, tls_write_all,
}
use tiny_voice.Api.Tls.Rounds.{WroteOr, Wrote, Ticking, Enough, Wrote-step}
use mathlib.Core.Option

-- The budget of rounds at the true time `t`, the last byte having moved at `t0`.
abbrev Budget : List ℕ → ℕ → ℕ → List Round → Type 0
Budget left t t0 rounds = length left * 8010 + (8005 - (t - t0)) ≤ 5 * length rounds

after_round-Wrote :
    (N : Type 0) (w : Option Bool) (moved gives_up : Bool) (sent left : List ℕ)
    (rest : Option (Bool × List ℕ))
    → (w ≡ none → N)
    → 0 < length left
    → (moved ≡ true → WroteOr N sent left rest)
    → (moved ≡ false → gives_up ≡ false → WroteOr N sent left rest)
    → WroteOr N sent left (after_round w moved gives_up sent rest)
unfolding after_round
after_round-Wrote N none moved gives_up sent left rest answered some_left h k = answered refl
after_round-Wrote N (some false) moved gives_up sent left rest answered some_left h k =
    (0, some_left, sym (append-nil sent))
after_round-Wrote N (some true) true gives_up sent left rest answered some_left h k = h refl
after_round-Wrote N (some true) false true sent left rest answered some_left h k =
    (0, some_left, sym (append-nil sent))
after_round-Wrote N (some true) false false sent left rest answered some_left h k = k refl refl

-- Whatever the rounds are: if they are enough, the bytes are handed over or a proper prefix is.
pub write_loop-WroteOr :
    (rounds : List Round) (left : List ℕ) (last_moved : ℕ) (sent : List ℕ)
    → WroteOr (Unit {0}) sent left (write_loop rounds left last_moved sent)
unfolding write_loop
write_loop-WroteOr rounds [] last_moved sent = sym (append-nil sent)
write_loop-WroteOr [] (x ∷ left) last_moved sent = tt
write_loop-WroteOr (r ∷ rounds) (x ∷ left) last_moved sent =
    let n = accepts r (x ∷ left) in
    let moved_ms = if n == 0 then last_moved else r.now in
    let rest =
      Wrote-step (Unit {0}) n sent (x ∷ left)
        (write_loop rounds (drop n (x ∷ left)) moved_ms (sent ++ take n (x ∷ left))) (omega arith)
        (write_loop-WroteOr rounds (drop n (x ∷ left)) moved_ms (sent ++ take n (x ∷ left))) in
    after_round-Wrote (Unit {0}) (writable r) (ltb 0 n)
      (not r.connected || ltb stall_ms (sub32 r.now last_moved)) sent (x ∷ left) _ (λ e. tt)
      (omega arith) (λ moves. rest) (λ still go. rest)

write_loop_lem :
    (rounds : List Round) (left : List ℕ) (t t0 : ℕ) (sent : List ℕ)
    → Ticking t rounds
    → t0 ≤ t
    → t ≤ t0 + stall_ms
    → Budget left t t0 rounds
    → Wrote sent left (write_loop rounds left (u32 t0) sent)
unfolding write_loop
write_loop_lem rounds [] t t0 sent tick lo hi enough = sym (append-nil sent)
write_loop_lem [] (x ∷ left) t t0 sent tick lo hi enough = absurd (omega arith)
write_loop_lem (r ∷ rounds) (x ∷ left) t t0 sent (t', le, idle, near, now, answered, tick) lo hi
      enough =
    let n = accepts r (x ∷ left) in
    let ih =
      λ (u : ℕ). write_loop_lem rounds (drop n (x ∷ left)) t' u (sent ++ take n (x ∷ left)) tick in
    after_round-Wrote ⊥ (writable r) (ltb 0 n)
      (not r.connected || ltb stall_ms (sub32 r.now (u32 t0))) sent (x ∷ left) _ answered
      (omega arith)
      (λ moves. Wrote-step ⊥ n sent (x ∷ left) _ (omega arith) (
        let e = moved_at moves in
        rw e (
          ih t' (omega arith) (omega arith)
            (omega (arith, length-drop n (x ∷ left), ltb→lt 0 n moves)))))
      (λ still go. Wrote-step ⊥ n sent (x ∷ left) _ (omega arith) (
        let e = stays still in
        rw e (
          ih t0 (omega arith) (short go)
            (omega (arith, length-drop n (x ∷ left), idle (nothing still), nothing still)))))
  where
    moved_at :
        ltb 0 (accepts r (x ∷ left)) ≡ true
        → (if accepts r (x ∷ left) == 0 then u32 t0 else r.now) ≡ u32 t'
    moved_at moves = ground arith

    stays :
        ltb 0 (accepts r (x ∷ left)) ≡ false
        → (if accepts r (x ∷ left) == 0 then u32 t0 else r.now) ≡ u32 t0
    stays still = ground arith

    nothing : ltb 0 (accepts r (x ∷ left)) ≡ false → r.accepted ≡ 0
    nothing still = ground arith

    short : (not r.connected || ltb stall_ms (sub32 r.now (u32 t0))) ≡ false → t' ≤ t0 + stall_ms
    short go =
        let e : sub32 r.now (u32 t0) ≡ t' - t0 =
          ap (λ w. sub32 w (u32 t0)) now ∙ sub32-u32 t0 t' (omega arith) (omega arith) in
        ground (arith, e)

abbrev pub at_calls : List ℕ → List Call → Session
at_calls sent calls = record { sent = sent; calls = calls }

-- A step of a session that hands over these bytes with one call.
abbrev pub Delivered : Session → List ℕ → List Call → Option (Bool × Session) → Type 0
Delivered s bytes calls none = ⊥
Delivered s bytes calls (some (ok, s')) =
    Wrote s.sent bytes (some (ok, s'.sent)) × (s'.calls ≡ calls)

-- A call whose rounds tick from its start and are enough for these bytes.
abbrev pub Serves : Call → List ℕ → Type 0
Serves c bytes = (t : ℕ) × (c.start_ms ≡ u32 t) × Ticking t c.rounds × Enough bytes c.rounds

Wrote-Delivered :
    (s : Session) (calls : List Call) (bytes : List ℕ) (o : Option (Bool × List ℕ))
    → Wrote s.sent bytes o
    → Delivered s bytes calls
        (Option.map (λ (r : Bool × List ℕ). (r.0, record s { sent = r.1; calls = calls })) o)
Wrote-Delivered s calls bytes none w = w
Wrote-Delivered s calls bytes (some (ok, out)) w = (w, refl)

-- `tlsWriteAll` ends, whatever the TLS client accepts in each round: it hands over all bytes in
-- order, or fails with a proper prefix of them handed over. The clock may wrap; each wait is
-- answered, a round takes a minute at most, and one that moves nothing 5 ms at least.
pub tls_write_all_lem :
    (sent : List ℕ) (c : Call) (calls : List Call) (bytes : List ℕ)
    → Serves c bytes
    → Delivered
        (at_calls sent (c ∷ calls))
        bytes
        calls
        (tls_write_all bytes (at_calls sent (c ∷ calls)))
unfolding tls_write_all
tls_write_all_lem sent c calls bytes (t, start, tick, enough) =
    Wrote-Delivered (at_calls sent (c ∷ calls)) calls bytes _ (
      subst (λ w. Wrote sent bytes (write_loop c.rounds bytes w sent)) (sym start)
        (write_loop_lem c.rounds bytes t t sent tick (omega arith) (omega arith) (omega arith)))
