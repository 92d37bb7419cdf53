-- ===== src/Api/Post/Length.antt =====
-- The length that the request announces.
use tiny_voice.Prelude.{
  ℕ, zero, suc, ◌+◌, ◌*◌, ◌/◌, ◌%◌, ◌^◌, ◌<◌, ◌≡◌, sym, ap, ◌∙◌, inl, inr, true, false, List, [],
  ◌∷◌, ◌++◌, append-nil, append_assoc, arith, ltb, ltb→lt, Bool-cases, length, length-append, word,
  u32, digits_value, digits_value-digit, digits_value-nil,
}
use tiny_voice.Api.Post.{head_text, tail_text, digits_of, decimal, content_length}
use tiny_voice.Api.Post.Body.{body}

one_digit :
    (fuel n : ℕ) (rest : List ℕ)
    → ltb n 10 ≡ true
    → digits_value 0 (digits_of (suc fuel) n ++ rest) ≡ digits_value n rest
unfolding digits_of
one_digit fuel n rest one = rw one (
    digits_value-digit 0 n rest (ltb→lt n 10 one)
    ∙ ap (λ k. digits_value k rest) {x = 0 * 10 + n} {y = n} (omega arith))

more_digits :
    (fuel n : ℕ) (rest : List ℕ)
    → ltb n 10 ≡ false
    → digits_of (suc fuel) n ++ rest ≡ digits_of fuel (n / 10) ++ ((b'0' + n % 10) ∷ rest)
unfolding digits_of
more_digits fuel n rest more =
    rw more (append_assoc (digits_of fuel (n / 10)) ((b'0' + n % 10) ∷ []) rest)

digits_of-value :
    (fuel n : ℕ) (rest : List ℕ)
    → n < 10 ^ suc fuel
    → n < 2 ^ 32
    → digits_value 0 (digits_of (suc fuel) n ++ rest) ≡ digits_value n rest
digits_of-value zero n rest h small = one_digit zero n rest (ground arith)
digits_of-value (suc fuel) n rest h small = elim (Bool-cases (ltb n 10)) [
  | inl one ↦ one_digit (suc fuel) n rest one
  | inr more ↦
      ap (digits_value 0) (more_digits (suc fuel) n rest more)
      ∙ digits_of-value fuel (n / 10) ((b'0' + n % 10) ∷ rest) (omega (arith, h)) (omega arith)
      ∙ digits_value-digit (n / 10) (n % 10) rest (omega arith)
      ∙ ap (λ k. digits_value k rest) {x = n / 10 * 10 + n % 10} {y = n} (omega arith)
]

decimal-value : (n : ℕ) → n < 2 ^ 32 → digits_value 0 (decimal n) ≡ n
unfolding decimal
decimal-value n h =
    ap (digits_value 0) (sym (append-nil (digits_of 10 n)))
    ∙ digits_of-value 9 n [] (omega arith) h
    ∙ digits_value-nil n

length-body :
    (wav_header pcm : List ℕ)
    → length (body wav_header pcm)
      ≡ length head_text + (length wav_header + (length pcm + length tail_text))
length-body wav_header pcm = omega (
  arith,
  length-append head_text (wav_header ++ (pcm ++ tail_text)),
  length-append wav_header (pcm ++ tail_text),
  length-append pcm tail_text,
)

-- The announced length is the length of the multipart body: the digits of `Content-Length`, read
-- back, give the count of the bytes from the head to the tail, for a WAV header of 44 bytes and a
-- body below 4 GiB.
pub content_length_lem :
    (wav_header pcm : List ℕ)
    → length wav_header ≡ 44
    → length (body wav_header pcm) < word
    → digits_value 0 (decimal (content_length (u32 (44 + length pcm))))
      ≡ length (body wav_header pcm)
content_length_lem wav_header pcm h small =
    ap (λ n. digits_value 0 (decimal n)) lengths
    ∙ decimal-value (length (body wav_header pcm)) small
  where
    lengths : content_length (u32 (44 + length pcm)) ≡ length (body wav_header pcm)
    lengths = unfold content_length in omega (arith, length-body wav_header pcm)
