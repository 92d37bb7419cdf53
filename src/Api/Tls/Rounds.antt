-- ===== src/Api/Tls/Rounds.antt =====
-- What a round of `tlsWriteAll` adds, and the clock that the rounds show.
use tiny_voice.Prelude.{
  ℕ, ◌+◌, ◌*◌, ◌≤◌, ◌<◌, ◌≡◌, refl, sym, ap, ◌∙◌, ◌≢◌, Bool, true, false, Option, none, some, List,
  [], ◌∷◌, ◌++◌, append_assoc, arith, length, take, drop, length-drop, take-append-drop, take-add,
  u32,
}
use tiny_voice.Api.Tls.{Round, writable}

-- The bytes were handed over after those sent before: all of them, or on failure a proper prefix.
-- `N` is what holds where the answers run out.
abbrev pub WroteOr : Type 0 → List ℕ → List ℕ → Option (Bool × List ℕ) → Type 0
WroteOr N sent bytes none = N
WroteOr N sent bytes (some (true, out)) = out ≡ sent ++ bytes
WroteOr N sent bytes (some (false, out)) =
    (k : ℕ) × (k < length bytes) × (out ≡ sent ++ take k bytes)

abbrev pub Wrote : List ℕ → List ℕ → Option (Bool × List ℕ) → Type 0
Wrote sent bytes o = WroteOr ⊥ sent bytes o

-- The rounds show a clock that wraps, from the true time `t` on: the wait of each round is answered
-- within a minute, and a round that moves nothing lasts 5 ms at least, by its `delay`.
abbrev pub Ticking : ℕ → List Round → Type 0
Ticking t [] = Unit
Ticking t (r ∷ rounds) =
    (t' : ℕ) × (t ≤ t')
    × (r.accepted ≡ 0 → t + 5 ≤ t')
    × (t' ≤ t + 60000)
    × (r.now ≡ u32 t')
    × (writable r ≢ none)
    × Ticking t' rounds

-- Rounds enough: a byte may take the 8 s until a stall is noted, in steps of 5 ms.
abbrev pub Enough : List ℕ → List Round → Type 0
Enough bytes rounds = (length bytes + 1) * 8010 ≤ 5 * length rounds

pub Wrote-step :
    (N : Type 0) (n : ℕ) (sent left : List ℕ) (o : Option (Bool × List ℕ))
    → n ≤ length left
    → WroteOr N (sent ++ take n left) (drop n left) o
    → WroteOr N sent left o
Wrote-step N n sent left none h w = w
Wrote-step N n sent left (some (true, out)) h w =
    w
    ∙ append_assoc sent (take n left) (drop n left)
    ∙ ap (λ t. sent ++ t) (take-append-drop n left)
Wrote-step N n sent left (some (false, out)) h (k, hk, e) = (
  n + k,
  omega (arith, length-drop n left),
  e
      ∙ append_assoc sent (take n left) (take k (drop n left))
      ∙ ap (λ t. sent ++ t) (sym (take-add n k (n + k) left refl)),
)
