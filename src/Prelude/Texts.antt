-- ===== src/Prelude/Texts.antt =====
-- Texts as lists of their codes, with what the code uses of C strings and of Arduino's `String`.
use Prim.Native.Nat.{min, ◌<◌, ℕ, ◌+◌, ◌-◌, ◌*◌, ◌%◌, ◌^◌}
use Prim.Native.Char.{code}
use Prim.Native.String.{String}
use mathlib.Core.Path.{ap, ◌≡◌, refl}
use mathlib.Core.Bool.{Bool, true, false, ◌&&◌, ◌||◌}
use mathlib.Core.Logic.{◌⊎◌}
use mathlib.Core.Option.{Option, none, some}
use mathlib.Core.List.{List, [], ◌∷◌, ◌++◌}
use native.Mathlib.Omega.{arith}
use tiny_voice.Prelude.Tests.{leb, ◌==◌, if◌then◌else◌}

abbrev pub codes : String → List ℕ
codes String.[] = []
codes (String.◌∷◌ c s) = code c ∷ codes s

-- Whether the text starts with this one.
abbrev pub starts_with : List ℕ → List ℕ → Bool
starts_with [] text = true
starts_with (p ∷ prefix) [] = false
starts_with (p ∷ prefix) (c ∷ text) = p == c && starts_with prefix text

-- The text before the first `c`, and the text from there on: `none` where there is no `c`.
abbrev pub before : ℕ → List ℕ → List ℕ
before c [] = []
before c (x ∷ xs) = if x == c then [] else x ∷ before c xs

abbrev pub from_first : ℕ → List ℕ → Option (List ℕ)
from_first c [] = none
from_first c (x ∷ xs) = if x == c then some (x ∷ xs) else from_first c xs

abbrev pub ends_with : ℕ → List ℕ → Bool
ends_with c [] = false
ends_with c (x ∷ []) = x == c
ends_with c (x ∷ y ∷ xs) = ends_with c (y ∷ xs)

-- No byte of the text is `c`.
abbrev pub Lacks : ℕ → List ℕ → Type 0
Lacks c [] = Unit
Lacks c (x ∷ xs) = ((x == c) ≡ false) × Lacks c xs

pub before-Lacks_cons : (c : ℕ) (xs ys : List ℕ) → Lacks c xs → before c (xs ++ (c ∷ ys)) ≡ xs
before-Lacks_cons c [] ys h = ground arith
before-Lacks_cons c (x ∷ xs) ys h = ground (arith, before-Lacks_cons c xs ys h.1)

pub before-Lacks : (c : ℕ) (xs : List ℕ) → Lacks c xs → before c xs ≡ xs
before-Lacks c [] h = refl
before-Lacks c (x ∷ xs) h = ground (arith, before-Lacks c xs h.1)

pub from_first-Lacks_cons :
    (c : ℕ) (xs ys : List ℕ) → Lacks c xs → from_first c (xs ++ (c ∷ ys)) ≡ some (c ∷ ys)
from_first-Lacks_cons c [] ys h = ground arith
from_first-Lacks_cons c (x ∷ xs) ys h = ground (arith, from_first-Lacks_cons c xs ys h.1)

pub from_first-Lacks : (c : ℕ) (xs : List ℕ) → Lacks c xs → from_first c xs ≡ none
from_first-Lacks c [] h = refl
from_first-Lacks c (x ∷ xs) h = ground (arith, from_first-Lacks c xs h.1)

pub Lacks-append : (c : ℕ) (xs ys : List ℕ) → Lacks c xs → Lacks c ys → Lacks c (xs ++ ys)
Lacks-append c [] ys h k = k
Lacks-append c (x ∷ xs) ys h k = (h.0, Lacks-append c xs ys h.1 k)

-- `atoi`, to the bit pattern of its `int`: blanks, a sign, and the digits up to another byte, where
-- a number that is too large stops at the end of the range.
abbrev is_digit : ℕ → Bool
is_digit c = leb b'0' c && leb c b'9'

abbrev is_blank : ℕ → Bool
is_blank c = c == 32 || (leb 9 c && leb c 13)

unfoldable pub digits_value : ℕ → List ℕ → ℕ
digits_value value [] = value
digits_value value (c ∷ text) =
    if is_digit c then digits_value (value * 10 + (c - b'0')) text else value

unfoldable pub signed_value : List ℕ → ℕ
unfolding digits_value
signed_value [] = 0
signed_value (c ∷ text) =
    if c == b'-'
    then (2 ^ 32 - min (2 ^ 31) (digits_value 0 text)) % 2 ^ 32
    else min (2 ^ 31 - 1) (if c == b'+' then digits_value 0 text else digits_value 0 (c ∷ text))

unfoldable pub atoi : List ℕ → ℕ
unfolding signed_value
atoi [] = 0
atoi (c ∷ text) = if is_blank c then atoi text else signed_value (c ∷ text)

pub digits_value-digit :
    (value d : ℕ) (text : List ℕ)
    → d < 10
    → digits_value value ((b'0' + d) ∷ text) ≡ digits_value (value * 10 + d) text
unfolding digits_value
digits_value-digit value d text h =
    rw digit (ap (λ k. digits_value (value * 10 + k) text) (omega arith))
  where
    digit : is_digit (b'0' + d) ≡ true
    digit = ground arith

pub digits_value-nil : (value : ℕ) → digits_value value [] ≡ value
unfolding digits_value
digits_value-nil value = refl

-- The text does not go on with a digit.
abbrev pub Stops : List ℕ → Type 0
Stops [] = Unit
Stops (c ∷ text) = (c < b'0') ⊎ (b'9' < c)

pub digits_value-Stops : (value : ℕ) (text : List ℕ) → Stops text → digits_value value text ≡ value
unfolding digits_value
digits_value-Stops value [] h = refl
digits_value-Stops value (c ∷ text) h = ground (arith, h)

-- A text that starts with a digit is read from there on.
pub atoi-digit :
    (d : ℕ) (text : List ℕ)
    → d < 10
    → atoi ((b'0' + d) ∷ text) ≡ min (2 ^ 31 - 1) (digits_value d text)
unfolding atoi signed_value
atoi-digit d text h = ground (arith, digits_value-digit 0 d text h)
