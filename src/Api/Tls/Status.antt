-- ===== src/Api/Tls/Status.antt =====
-- The status line that `readHttpStatus` reads.
use tiny_voice.Prelude.{
  ℕ, zero, suc, ◌+◌, ◌-◌, ◌*◌, ◌^◌, ◌≤◌, ◌<◌, min, ◌≡◌, refl, sym, ap, ◌∙◌, subst, inl, inr, true,
  false, ◌||◌, some, List, [], ◌∷◌, ◌++◌, append-nil, append_assoc, arith, ltb, leb, ◌==◌,
  if◌then◌else◌, ltb→lt, Bool-cases, if-cases, length, get_or, take, drop, length-append,
  take-append_right, take-nil, sub32, before, from_first, Lacks, from_first-Lacks_cons,
  Lacks-append, atoi, digits_value-digit, Stops, digits_value-Stops, atoi-digit,
}
use tiny_voice.Api.Tls.{
  Arrival, line_size, keep_byte, read_line, status_of, read_http_status, byte_read, silent,
}

-- The bytes that arrive.
abbrev pub heard : List (ℕ × Arrival) → List ℕ
heard [] = []
heard ((now, byte_read c) ∷ arrivals) = c ∷ heard arrivals
heard ((now, silent more) ∷ arrivals) = heard arrivals

-- Every round starts before the time-out, and where nothing is there yet, more can come.
abbrev pub Timely : ℕ → ℕ → List (ℕ × Arrival) → Type 0
Timely timeout start [] = Unit
Timely timeout start ((now, byte_read c) ∷ arrivals) =
    (sub32 now start < timeout) × Timely timeout start arrivals
Timely timeout start ((now, silent more) ∷ arrivals) =
    (sub32 now start < timeout) × (more ≡ true) × Timely timeout start arrivals

-- The text without its carriage returns.
abbrev pub without_cr : List ℕ → List ℕ
without_cr [] = []
without_cr (c ∷ text) = if c == 13 then without_cr text else c ∷ without_cr text

abbrev room : List ℕ → ℕ
room line = line_size - 1 - length line

keep_byte-short :
    (c : ℕ) (line : List ℕ) → length line < line_size → length (keep_byte c line) < line_size
unfolding keep_byte
keep_byte-short c line h = let one = length-append line (c ∷ []) in ground (arith, one)

keep_byte-take :
    (c : ℕ) (line text : List ℕ)
    → length line < line_size
    → line ++ take (room line) (if c == 13 then text else c ∷ text)
      ≡ keep_byte c line ++ take (room (keep_byte c line)) text
unfolding keep_byte
keep_byte-take c line text h = elim (Bool-cases (c == 13)) [
  | inl cr ↦ rw cr refl
  | inr other ↦ elim (Bool-cases (ltb (length line + 1) line_size)) [
    | inl fits ↦
        rw (other, fits)
          (ap (λ n. line ++ take n (c ∷ text)) (more fits)
            ∙ sym (append_assoc line (c ∷ []) (take (room (line ++ (c ∷ []))) text)))
    | inr full ↦
        rw (other, full)
          (ap (λ n. line ++ take n (c ∷ text)) (none_left full)
            ∙ sym (ap (λ n. line ++ take n text) (none_left full)))
  ]
]
  where
    more : ltb (length line + 1) line_size ≡ true → room line ≡ suc (room (line ++ (c ∷ [])))
    more fits = omega (arith, length-append line (c ∷ []), ltb→lt (length line + 1) line_size fits)

    none_left : ltb (length line + 1) line_size ≡ false → room line ≡ 0
    none_left full = ground arith

read_line_lem :
    (timeout start : ℕ) (arrivals : List (ℕ × Arrival)) (text rest line : List ℕ)
    → Timely timeout start arrivals
    → heard arrivals ≡ text ++ (10 ∷ rest)
    → Lacks 10 text
    → length line < line_size
    → read_line timeout start arrivals line ≡ some (line ++ take (room line) (without_cr text))
unfolding read_line
read_line_lem timeout start [] text rest line timely e lacks short =
    absurd (omega (arith, ap length e, length-append text (10 ∷ rest)))
read_line_lem timeout start ((now, silent more) ∷ arrivals) text rest line
      (early, open_still, timely) e lacks short =
    let ih = read_line_lem timeout start arrivals text rest line timely e lacks short in
    ground (arith, ih)
read_line_lem timeout start ((now, byte_read c) ∷ arrivals) [] rest line (early, timely) e lacks
      short =
    let newline : c ≡ 10 = ap (λ l. get_or l 0 0) e in
    let none_left : line ++ take (room line) [] ≡ line =
      ap (λ t. line ++ t) (take-nil (room line)) ∙ append-nil line in
    ground (arith, newline, none_left)
read_line_lem timeout start ((now, byte_read c) ∷ arrivals) (x ∷ text) rest line (early, timely) e
      (not_nl, lacks) short =
    let same : c ≡ x = ap (λ l. get_or l 0 0) e in
    let others : heard arrivals ≡ text ++ (10 ∷ rest) = ap (drop 1) e in
    let ih =
      read_line_lem timeout start arrivals text rest (keep_byte c line) timely others lacks
        (keep_byte-short c line short) in
    rw (reads same) (
      ih
      ∙ ap some (
          sym (
            subst
              (λ y.
                line ++ take (room line) (if y == 13 then without_cr text else y ∷ without_cr text)
                ≡ keep_byte c line ++ take (room (keep_byte c line)) (without_cr text))
              same (keep_byte-take c line (without_cr text) short))))
  where
    reads : c ≡ x → (leb timeout (sub32 now start) || c == 10) ≡ false
    reads same = ground (arith, not_nl)

-- Where each round starts in time and the session stays open, the bytes that arrive up to the first
-- line feed are the line, without carriage returns and cut at 63 bytes, however they are cut up.
pub read_http_status_lem :
    (timeout start : ℕ) (arrivals : List (ℕ × Arrival)) (text rest : List ℕ)
    → Timely timeout start arrivals
    → heard arrivals ≡ text ++ (10 ∷ rest)
    → Lacks 10 text
    → read_http_status timeout start arrivals ≡ some (status_of (take 63 (without_cr text)))
unfolding read_http_status
read_http_status_lem timeout start arrivals text rest timely e lacks =
    rw (read_line_lem timeout start arrivals text rest [] timely e lacks (omega arith)) refl

without_cr-append : (a b : List ℕ) → Lacks 13 a → without_cr (a ++ b) ≡ a ++ without_cr b
without_cr-append [] b h = refl
without_cr-append (c ∷ a) b (other, h) = rw other (ap (λ t. c ∷ t) (without_cr-append a b h))

before-append : (c : ℕ) (a b : List ℕ) → Lacks c a → before c (a ++ b) ≡ a ++ before c b
before-append c [] b h = refl
before-append c (x ∷ a) b (other, h) = rw other (ap (λ t. x ∷ t) (before-append c a b h))

-- What is left of a text that stops does not go on with a digit either.
Stops-take : (n : ℕ) (text : List ℕ) → Stops text → Stops (before 0 (take n text))
Stops-take zero text h = tt
Stops-take (suc n) [] h = tt
Stops-take (suc n) (c ∷ text) h = if-cases Stops (c == 0) (λ e. tt) (λ e. h)

-- A space and three digits.
abbrev pub code_text : ℕ → ℕ → ℕ → List ℕ
code_text a b c = 32 ∷ (b'0' + a) ∷ (b'0' + b) ∷ (b'0' + c) ∷ []

code_text-Lacks : (byte a b c : ℕ) → byte < 32 → Lacks byte (code_text a b c)
code_text-Lacks byte a b c h =
    (ground (arith, h), (ground (arith, h), (ground (arith, h), (ground (arith, h), tt))))

status_of-space :
    (line text : List ℕ)
    → from_first 32 (before 0 line) ≡ some (32 ∷ text)
    → status_of line ≡ atoi text
unfolding status_of
status_of-space line text e = rw (e, status_of) refl

atoi-code :
    (a b c : ℕ) (text : List ℕ)
    → a < 10
    → b < 10
    → c < 10
    → Stops text
    → atoi ((b'0' + a) ∷ (b'0' + b) ∷ (b'0' + c) ∷ text) ≡ a * 100 + b * 10 + c
atoi-code a b c text ha hb hc stops =
    atoi-digit a ((b'0' + b) ∷ (b'0' + c) ∷ text) ha
    ∙ ap (min (2 ^ 31 - 1)) (
        digits_value-digit a b ((b'0' + c) ∷ text) hb
        ∙ digits_value-digit (a * 10 + b) c text hc
        ∙ digits_value-Stops ((a * 10 + b) * 10 + c) text stops)
    ∙ omega arith

-- The number in the text behind a version and a space.
status_of-code :
    (version text : List ℕ) (a b c : ℕ)
    → Lacks 32 version
    → Lacks 0 version
    → a < 10
    → b < 10
    → c < 10
    → Stops (before 0 text)
    → status_of ((version ++ code_text a b c) ++ text) ≡ a * 100 + b * 10 + c
status_of-code version text a b c space nul ha hb hc stops =
    status_of-space ((version ++ code_text a b c) ++ text)
      ((b'0' + a) ∷ (b'0' + b) ∷ (b'0' + c) ∷ before 0 text)
      (ap (from_first 32) (
          before-append 0 (version ++ code_text a b c) text
            (Lacks-append 0 version (code_text a b c) nul (code_text-Lacks 0 a b c (omega arith)))
          ∙ append_assoc version (code_text a b c) (before 0 text))
        ∙ from_first-Lacks_cons 32 version ((b'0' + a) ∷ (b'0' + b) ∷ (b'0' + c) ∷ before 0 text)
            space)
    ∙ atoi-code a b c (before 0 text) ha hb hc stops

-- The status is the code of the first line that the server sends, however the line is cut up: a
-- version without a space, a line feed, a carriage return or a NUL, a space, three digits, and what
-- does not go on with a digit. Each round starts in time, the session stays open, and the code ends
-- within the 63 bytes that are kept.
pub read_http_status_code :
    (timeout start : ℕ) (arrivals : List (ℕ × Arrival)) (version reason rest : List ℕ) (a b c : ℕ)
    → Timely timeout start arrivals
    → heard arrivals ≡ ((version ++ code_text a b c) ++ reason) ++ (10 ∷ rest)
    → Lacks 32 version
    → Lacks 10 version
    → Lacks 13 version
    → Lacks 0 version
    → length version ≤ 59
    → a < 10
    → b < 10
    → c < 10
    → Lacks 10 reason
    → Stops (without_cr reason)
    → read_http_status timeout start arrivals ≡ some (a * 100 + b * 10 + c)
read_http_status_code timeout start arrivals version reason rest a b c timely e space feed cr nul
      short ha hb hc lacks stops =
    read_http_status_lem timeout start arrivals (head ++ reason) rest timely e (
      Lacks-append 10 head reason
        (Lacks-append 10 version (code_text a b c) feed (code_text-Lacks 10 a b c (omega arith)))
        lacks)
    ∙ ap (λ t. some (status_of t)) kept
    ∙ ap some (
        status_of-code version (take (63 - length head) (without_cr reason)) a b c space nul ha hb
          hc (Stops-take (63 - length head) (without_cr reason) stops))
  where
    head : List ℕ
    head = version ++ code_text a b c

    kept :
        take 63 (without_cr (head ++ reason)) ≡ head ++ take (63 - length head) (without_cr reason)
    kept =
        ap (take 63) (
          without_cr-append head reason
            (Lacks-append 13 version (code_text a b c) cr (code_text-Lacks 13 a b c (omega arith))))
        ∙ take-append_right 63 head (without_cr reason)
            (omega (arith, length-append version (code_text a b c), short))
