-- ===== src/Ring/Window.antt =====
-- The samples that a ring holds, oldest first, as a window that goes round the buffer.
use tiny_voice.Prelude.{
  ℕ, zero, suc, ◌+◌, ◌-◌, ◌%◌, ◌<◌, ◌≡◌, refl, sym, ap, ap₂, ◌∙◌, ◌≢◌, inl, inr, List, [], ◌∷◌,
  ◌++◌, mod-eq_of_lt, mod-eq-sub-mod, mod-lt, arith, lt_or_le, length, get_or, set, get_or-set_ne,
}
use tiny_voice.Ring.{Ring}
use tiny_voice.Ring.Bounds.{mod_shift}

module _ (buf : List ℕ) (cap : ℕ) where
  -- The `n` samples from index `h` on.
  abbrev pub window : ℕ → ℕ → List ℕ
  window h zero = []
  window h (suc n) = get_or buf h 0 ∷ window ((h + 1) % cap) n

  pub length-window : (h n : ℕ) → length (window h n) ≡ n
  length-window h zero = refl
  length-window h (suc n) = ap suc (length-window ((h + 1) % cap) n)

  -- The code tests the count, the window matches on it.
  pub window_of_pos :
      (h n : ℕ) → 0 < n → window h n ≡ get_or buf h 0 ∷ window ((h + 1) % cap) (n - 1)
  window_of_pos h zero p = absurd (omega arith)
  window_of_pos h (suc n) p = ap (λ k. window h (suc k)) (omega arith)

  -- The newest sample of a window stands at its end.
  pub window_last :
      (h n i : ℕ)
      → h < cap
      → i ≡ (h + n) % cap
      → window h (suc n) ≡ window h n ++ (get_or buf i 0 ∷ [])
  window_last h zero i lt e = let at : h ≡ i = grind arith in ap (λ k. get_or buf k 0 ∷ []) at
  window_last h (suc n) i lt e =
      ap (λ t. get_or buf h 0 ∷ t)
        (window_last ((h + 1) % cap) n i (mod-lt (h + 1) (omega arith))
          (e ∙ sym (mod_shift cap h n)))

-- Fewer than `cap` steps do not lead back.
no_return : (cap h n : ℕ) → h < cap → suc n < cap → h ≢ (h + suc n) % cap
no_return cap h n lt ln e = elim (lt_or_le (h + suc n) cap) [
  | inl p ↦ omega (arith, mod-eq_of_lt p)
  | inr q ↦
      omega (arith, mod-eq-sub-mod q, mod-eq_of_lt {n = h + suc n - cap} {m = cap} (omega arith))
]

-- A write just past a window leaves it alone.
pub window-set :
    (buf : List ℕ) (cap h n i x : ℕ)
    → h < cap
    → n < cap
    → i ≡ (h + n) % cap
    → window (set buf i x) cap h n ≡ window buf cap h n
window-set buf cap h zero i x lt ln e = refl
window-set buf cap h (suc n) i x lt ln e =
    ap₂ ◌∷◌ (get_or-set_ne buf x 0 (λ same. no_return cap h n lt ln (sym same ∙ e))) (
      window-set buf cap ((h + 1) % cap) n i x (mod-lt (h + 1) (omega arith)) (omega arith)
        (e ∙ sym (mod_shift cap h n)))

abbrev pub contents : Ring → List ℕ
contents r = window r.buf r.cap r.read r.count
