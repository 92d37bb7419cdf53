-- ===== src/Api/Post/Ends.antt =====
-- An upload ends.
use mathlib.Core.Option
use tiny_voice.Api.Endpoint.{parse_endpoint}
use tiny_voice.Api.Post.{
  content_length, request_text, request_size, upload_path, Attempt, send_all, with_bytes, answered,
  post_take, post_recording, is_success, post_recording_with_retry, upload_recording_pcm,
}
use tiny_voice.Prelude.{
  ℕ, ◌+◌, ◌≤◌, ◌≡◌, refl, ◌≢◌, ◌⊎◌, inl, inr, Bool, true, false, not, ◌||◌, Option, none, some,
  List, [], ◌∷◌, arith, leb, ◌==◌, if◌then◌else◌, if-both, if-cases, length, u32, sub32,
}
use tiny_voice.Api.Tls.{
  Session, Arrival, keep_byte, read_line, minus_one, status_of, read_http_status, byte_read, silent,
}
use tiny_voice.Api.Post.Steps.{CallsFor, send_all-ends}

-- The answer comes to an end: a line feed, a closed session, or the timeout.
abbrev pub Answers : ℕ → ℕ → List (ℕ × Arrival) → Type 0
Answers timeout start [] = ⊥
Answers timeout start ((now, byte_read c) ∷ arrivals) =
    (timeout ≤ sub32 now start) ⊎ ((c ≡ 10) ⊎ Answers timeout start arrivals)
Answers timeout start ((now, silent more) ∷ arrivals) =
    (timeout ≤ sub32 now start) ⊎ ((more ≡ false) ⊎ Answers timeout start arrivals)

read_line-ends :
    (timeout start : ℕ) (arrivals : List (ℕ × Arrival)) (line : List ℕ)
    → Answers timeout start arrivals
    → read_line timeout start arrivals line ≢ none
unfolding read_line
read_line-ends timeout start [] line h = absurd h
read_line-ends timeout start ((now, byte_read c) ∷ arrivals) line (inl late) =
    if-cases (λ o. o ≢ none) (leb timeout (sub32 now start) || c == 10) (λ e. λ e'. cc)
      (λ on. absurd (ground (arith, on, late)))
read_line-ends timeout start ((now, byte_read c) ∷ arrivals) line (inr (inl newline)) =
    if-cases (λ o. o ≢ none) (leb timeout (sub32 now start) || c == 10) (λ e. λ e'. cc)
      (λ on. absurd (ground (arith, on, newline)))
read_line-ends timeout start ((now, byte_read c) ∷ arrivals) line (inr (inr later)) =
    if-both (λ o. o ≢ none) (leb timeout (sub32 now start) || c == 10) (λ e'. cc)
      (read_line-ends timeout start arrivals (keep_byte c line) later)
read_line-ends timeout start ((now, silent more) ∷ arrivals) line (inl late) =
    if-cases (λ o. o ≢ none) (leb timeout (sub32 now start) || not more) (λ e. λ e'. cc)
      (λ on. absurd (ground (arith, on, late)))
read_line-ends timeout start ((now, silent more) ∷ arrivals) line (inr (inl closed)) =
    if-cases (λ o. o ≢ none) (leb timeout (sub32 now start) || not more) (λ e. λ e'. cc)
      (λ on. absurd (ground (arith, on, closed)))
read_line-ends timeout start ((now, silent more) ∷ arrivals) line (inr (inr later)) =
    if-both (λ o. o ≢ none) (leb timeout (sub32 now start) || not more) (λ e'. cc)
      (read_line-ends timeout start arrivals line later)

Answers-sooner :
    (start : ℕ) (arrivals : List (ℕ × Arrival))
    → Answers 60000 start arrivals
    → Answers 2000 start arrivals
Answers-sooner start [] h = h
Answers-sooner start ((now, byte_read c) ∷ arrivals) (inl late) = inl (omega arith)
Answers-sooner start ((now, byte_read c) ∷ arrivals) (inr (inl newline)) = inr (inl newline)
Answers-sooner start ((now, byte_read c) ∷ arrivals) (inr (inr later)) =
    inr (inr (Answers-sooner start arrivals later))
Answers-sooner start ((now, silent more) ∷ arrivals) (inl late) = inl (omega arith)
Answers-sooner start ((now, silent more) ∷ arrivals) (inr (inl closed)) = inr (inl closed)
Answers-sooner start ((now, silent more) ∷ arrivals) (inr (inr later)) =
    inr (inr (Answers-sooner start arrivals later))

status-ends :
    (timeout start : ℕ) (arrivals : List (ℕ × Arrival)) (sent : List ℕ)
    → Answers timeout start arrivals
    → with_bytes sent (read_http_status timeout start arrivals) ≢ none
unfolding read_http_status
status-ends timeout start arrivals sent h =
    by_line (read_line timeout start arrivals []) (read_line-ends timeout start arrivals [] h)
  where
    by_line : (o : Option (List ℕ)) → o ≢ none → with_bytes sent (Option.map status_of o) ≢ none
    by_line none n = absurd (n refl)
    by_line (some line) n = λ e. cc

-- An attempt that, where it opens the take and connects, has calls for all steps and an answer that
-- comes to an end.
abbrev pub ReadyWith : List ℕ → List ℕ → List ℕ → Attempt → Bool → Option (List ℕ) → Type 0
ReadyWith base_url token wav_header a connects none = Unit
ReadyWith base_url token wav_header a false (some pcm) = Unit
ReadyWith base_url token wav_header a true (some pcm) =
    CallsFor
      (request_text (parse_endpoint base_url upload_path) token
        (content_length (u32 (44 + length pcm))))
      wav_header a.reads pcm a.calls
    × Answers 60000 a.answer_start a.answer

abbrev pub Ready : List ℕ → List ℕ → List ℕ → Attempt → Type 0
Ready base_url token wav_header a = ReadyWith base_url token wav_header a a.connects a.take_file

answered-ends :
    (a : Attempt) (o : Option (Bool × Session))
    → o ≢ none
    → Answers 60000 a.answer_start a.answer
    → answered a o ≢ none
unfolding answered
answered-ends a none n h = absurd (n refl)
answered-ends a (some (true, s)) n h = status-ends 60000 a.answer_start a.answer s.sent h
answered-ends a (some (false, s)) n h =
    if-both (λ o. o ≢ none) a.is_early
      (status-ends 2000 a.answer_start a.answer s.sent (Answers-sooner a.answer_start a.answer h))
      (λ e. cc)

post_take-ends :
    (base_url token wav_header pcm : List ℕ) (a : Attempt)
    → ReadyWith base_url token wav_header a a.connects (some pcm)
    → post_take base_url token wav_header a pcm ≢ none
unfolding post_take
post_take-ends base_url token wav_header pcm a h =
    if-both (λ (o : Option (ℕ × List ℕ)). o ≢ none) (length pcm == 0) (λ e. cc)
      (if-both (λ (o : Option (ℕ × List ℕ)). o ≢ none) (leb request_size (length request)) (λ e. cc)
        (by_connection a.connects h))
  where
    request : List ℕ
    request =
        request_text (parse_endpoint base_url upload_path) token
          (content_length (u32 (44 + length pcm)))

    by_connection :
        (connects : Bool)
        → ReadyWith base_url token wav_header a connects (some pcm)
        → (if not connects
            then some (minus_one, [])
            else answered a
                (send_all request wav_header a.reads pcm (record { sent = []; calls = a.calls })))
          ≢ none
    by_connection false k = λ e. cc
    by_connection true (calls, answer) =
        answered-ends a _ (send_all-ends request wav_header a.reads pcm a.calls calls) answer

post_recording-ends :
    (base_url token wav_header : List ℕ) (a : Attempt)
    → Ready base_url token wav_header a
    → post_recording base_url token wav_header a ≢ none
unfolding post_recording
post_recording-ends base_url token wav_header a can = by_file a.take_file can
  where
    by_file :
        (o : Option (List ℕ))
        → ReadyWith base_url token wav_header a a.connects o
        → ◌≢◌ {A = Option (ℕ × List ℕ)}
            (elim o [
              | none ↦ some (minus_one, [])
              | some pcm ↦ post_take base_url token wav_header a pcm
            ])
            none
    by_file none h = λ e. cc
    by_file (some pcm) h = post_take-ends base_url token wav_header pcm a h

pub upload_recording_pcm-ends :
    (held : Bool) (base_url token wav_header : List ℕ) (a1 a2 : Attempt)
    → Ready base_url token wav_header a1
    → Ready base_url token wav_header a2
    → upload_recording_pcm held base_url token wav_header a1 a2 ≢ none
unfolding upload_recording_pcm post_recording_with_retry
upload_recording_pcm-ends false base_url token wav_header a1 a2 can can' = λ e. cc
upload_recording_pcm-ends true base_url token wav_header a1 a2 can can' =
    by_first (post_recording base_url token wav_header a1)
      (post_recording-ends base_url token wav_header a1 can)
  where
    flagged : ℕ × List ℕ → Bool × List ℕ
    flagged r = (is_success r.0, r.1)

    kept : (o : Option (ℕ × List ℕ)) → o ≢ none → Option.map flagged o ≢ none
    kept none n = absurd (n refl)
    kept (some r) n = λ e. cc

    by_first :
        (o : Option (ℕ × List ℕ))
        → o ≢ none
        → Option.map flagged (elim o [
          | none ↦ none
          | some (code, sent) ↦
              if is_success code
              then some (code, sent)
              else post_recording base_url token wav_header a2
        ])
          ≢ none
    by_first none n = absurd (n refl)
    by_first (some (code, sent)) n =
        if-both (λ (o : Option (ℕ × List ℕ)). Option.map flagged o ≢ none) (is_success code)
          (λ e. cc)
          (kept (post_recording base_url token wav_header a2)
            (post_recording-ends base_url token wav_header a2 can'))
