-- ===== src/Api/Post/Body.antt =====
-- What `postRecording` hands to the TLS client.
use tiny_voice.Api.Endpoint.{parse_endpoint}
use tiny_voice.Api.Post.{head_text, tail_text, content_length, request_text, upload_path, send_all}
use tiny_voice.Prelude.{
  ℕ, zero, suc, ◌+◌, ◌-◌, ◌<◌, min, ◌≡◌, refl, sym, ap, ◌∙◌, subst, Bool, true, false, Option, none,
  some, List, [], ◌∷◌, ◌++◌, append-nil, append_assoc, arith, ◌==◌, if-both, length, take, drop,
  length-append, length-drop, take-append-drop, take-append_left, take-append_right, u32, before,
}
use tiny_voice.Api.Tls.{Call, Session, tls_write_all, and_then, body_buf_size, write_body_from_file}
use tiny_voice.Api.Tls.Rounds.{WroteOr}
use tiny_voice.Api.Tls.Writes.{write_loop-WroteOr}
use mathlib.Core.Option

-- A step that hands over these bytes, or on failure a proper prefix of them.
abbrev pub Sent : List ℕ → List ℕ → Option (Bool × Session) → Type 0
Sent before bytes none = Unit
Sent before bytes (some (true, s)) = s.sent ≡ before ++ bytes
Sent before bytes (some (false, s)) =
    (k : ℕ) × (k < length bytes) × (s.sent ≡ before ++ take k bytes)

and_then-Sent :
    (sent xs ys : List ℕ) (o : Option (Bool × Session)) (next : Session → Option (Bool × Session))
    → Sent sent xs o
    → ((s : Session) → Sent s.sent ys (next s))
    → Sent sent (xs ++ ys) (and_then o next)
unfolding and_then
and_then-Sent sent xs ys none next h k = tt
and_then-Sent sent xs ys (some (false, s)) next (n, short, e) k = (
  n,
  omega (arith, length-append xs ys),
  e ∙ ap (λ t. sent ++ t) (sym (take-append_left n xs ys (omega arith))),
)
and_then-Sent sent xs ys (some (true, s)) next h k = after (next s) (k s)
  where
    after : (o : Option (Bool × Session)) → Sent s.sent ys o → Sent sent (xs ++ ys) o
    after none j = tt
    after (some (true, s')) j = j ∙ ap (λ t. t ++ ys) h ∙ append_assoc sent xs ys
    after (some (false, s')) (n, short, e) = (
      length xs + n,
      omega (arith, length-append xs ys),
      e
          ∙ ap (λ t. t ++ take n ys) h
          ∙ append_assoc sent xs (take n ys)
          ∙ ap (λ t. sent ++ t)
              (sym (
                take-append_right (length xs + n) xs ys (omega arith)
                ∙ ap (λ m. xs ++ take m ys) (omega arith))),
    )

tls_write_all-Sent : (bytes : List ℕ) (s : Session) → Sent s.sent bytes (tls_write_all bytes s)
unfolding tls_write_all
tls_write_all-Sent bytes s = by_calls s.calls
  where
    given :
        (calls : List Call) (o : Option (Bool × List ℕ))
        → WroteOr (Unit {0}) s.sent bytes o
        → Sent s.sent bytes
            (Option.map (λ (r : Bool × List ℕ). (r.0, record s { sent = r.1; calls = calls })) o)
    given calls none w = tt
    given calls (some (true, out)) w = w
    given calls (some (false, out)) w = w

    by_calls :
        (calls : List Call) → Sent s.sent bytes (tls_write_all bytes (record s { calls = calls }))
    by_calls [] = tt
    by_calls (c ∷ calls) = given calls _ (write_loop-WroteOr c.rounds bytes c.start_ms s.sent)

write_body_from_file-Sent :
    (reads file : List ℕ) (left : ℕ) (s : Session)
    → left ≡ length file
    → Sent s.sent file (write_body_from_file reads left file s)
unfolding write_body_from_file
write_body_from_file-Sent reads [] zero s e = sym (append-nil s.sent)
write_body_from_file-Sent reads (x ∷ file) zero s e = absurd (omega arith)
write_body_from_file-Sent [] file (suc left) s e = tt
write_body_from_file-Sent (count ∷ reads) file (suc left) s e =
    let n = min (min count body_buf_size) (min (suc left) (length file)) in
    let whole =
      subst
        (λ t. Sent s.sent t (
          and_then (tls_write_all (take n file) s)
            (write_body_from_file reads (suc left - n) (drop n file))))
        (take-append-drop n file)
        (and_then-Sent s.sent (take n file) (drop n file) _
          (write_body_from_file reads (suc left - n) (drop n file))
          (tls_write_all-Sent (take n file) s)
          (λ s'.
            write_body_from_file-Sent reads (drop n file) (suc left - n) s'
              (omega (arith, length-drop n file)))) in
    if-both (Sent s.sent file) (n == 0) (0, omega arith, sym (append-nil s.sent)) whole

-- The whole upload: the request, the head, the WAV header, the samples, the tail.
abbrev pub body : List ℕ → List ℕ → List ℕ
body wav_header pcm = head_text ++ (wav_header ++ (pcm ++ tail_text))

abbrev pub message : List ℕ → List ℕ → List ℕ → List ℕ → List ℕ
message base_url token wav_header pcm =
    request_text (parse_endpoint base_url upload_path) token
      (content_length (u32 (44 + length pcm)))
    ++ body wav_header pcm

pub send_all-Sent :
    (request wav_header reads pcm : List ℕ) (s : Session)
    → Sent s.sent (request ++ body wav_header pcm) (send_all request wav_header reads pcm s)
unfolding send_all
send_all-Sent request wav_header reads pcm s =
    and_then-Sent s.sent request (body wav_header pcm) _ _ (tls_write_all-Sent request s) λ s1.
      and_then-Sent s1.sent head_text (wav_header ++ (pcm ++ tail_text)) _ _
        (tls_write_all-Sent head_text s1)
        λ s2.
          and_then-Sent s2.sent wav_header (pcm ++ tail_text) _ _ (tls_write_all-Sent wav_header s2)
            λ s3.
              and_then-Sent s3.sent pcm tail_text _ _
                (write_body_from_file-Sent reads pcm (length pcm) s3 refl)
                λ s4. tls_write_all-Sent tail_text s4
