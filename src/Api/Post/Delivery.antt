-- ===== src/Api/Post/Delivery.antt =====
-- What an accepted upload has sent.
use tiny_voice.Api.Endpoint.{parse_endpoint}
use tiny_voice.Api.Post.{
  content_length, request_text, request_size, upload_path, Attempt, with_bytes, answered, post_take,
  post_recording, is_success, post_recording_with_retry, upload_recording_pcm,
}
use tiny_voice.Prelude.{
  ℕ, ◌+◌, ◌<◌, ◌≡◌, refl, ap, subst, ◌≢◌, ◌⊎◌, inl, inr, Bool, true, false, not, Option, none, some,
  List, [], arith, leb, ◌==◌, if◌then◌else◌, if-both, if-cases, length, take, u32,
}
use tiny_voice.Api.Tls.{Session, minus_one, read_http_status}
use mathlib.Core.Option
use tiny_voice.Api.Post.Ends.{Ready, upload_recording_pcm-ends}
use tiny_voice.Api.Post.Body.{Sent, message, send_all-Sent}

-- An attempt that the server answered with success: the whole message of its take was sent, or
-- a proper prefix of it, after which an answer was already there.
abbrev pub Delivers : List ℕ → List ℕ → List ℕ → Attempt → List ℕ → Type 0
Delivers base_url token wav_header a sent =
    (pcm : List ℕ) × (a.take_file ≡ some pcm)
    × (0 < length pcm)
    × ((sent ≡ message base_url token wav_header pcm)
        ⊎ ((a.is_early ≡ true)
            × ((k : ℕ) × (k < length (message base_url token wav_header pcm))
                × (sent ≡ take k (message base_url token wav_header pcm)))))

-- What an attempt returns: a success is delivered.
abbrev Honest : List ℕ → List ℕ → List ℕ → Attempt → Option (ℕ × List ℕ) → Type 0
Honest base_url token wav_header a none = Unit
Honest base_url token wav_header a (some (code, sent)) =
    is_success code ≡ true → Delivers base_url token wav_header a sent

answered-Honest :
    (base_url token wav_header : List ℕ) (a : Attempt) (pcm : List ℕ) (o : Option (Bool × Session))
    → a.take_file ≡ some pcm
    → 0 < length pcm
    → Sent [] (message base_url token wav_header pcm) o
    → Honest base_url token wav_header a (answered a o)
unfolding answered
answered-Honest base_url token wav_header a pcm none e some_left h = tt
answered-Honest base_url token wav_header a pcm (some (true, s)) e some_left h =
    by_status (read_http_status 60000 a.answer_start a.answer)
  where
    by_status : (o : Option ℕ) → Honest base_url token wav_header a (with_bytes s.sent o)
    by_status none = tt
    by_status (some code) = λ success. (pcm, e, some_left, inl h)
answered-Honest base_url token wav_header a pcm (some (false, s)) e some_left h =
    by_early a.is_early refl
  where
    by_status :
        a.is_early ≡ true
        → (o : Option ℕ) → Honest base_url token wav_header a (with_bytes s.sent o)
    by_status early none = tt
    by_status early (some code) = λ success. (pcm, e, some_left, inr (early, h))

    by_early :
        (early : Bool)
        → a.is_early ≡ early
        → Honest base_url token wav_header a (
            if early
            then with_bytes s.sent (read_http_status 2000 a.answer_start a.answer)
            else some (minus_one, s.sent))
    by_early true early = by_status early (read_http_status 2000 a.answer_start a.answer)
    by_early false early = λ success. ground arith

rejected-Honest :
    (base_url token wav_header sent : List ℕ) (a : Attempt)
    → Honest base_url token wav_header a (some (minus_one, sent))
rejected-Honest base_url token wav_header sent a = λ success. cc

abbrev refused : Option (ℕ × List ℕ)
refused = some (minus_one, [])

post_take-Honest :
    (base_url token wav_header : List ℕ) (a : Attempt) (pcm : List ℕ)
    → a.take_file ≡ some pcm
    → Honest base_url token wav_header a (post_take base_url token wav_header a pcm)
unfolding post_take
post_take-Honest base_url token wav_header a pcm e =
    let request =
      request_text (parse_endpoint base_url upload_path) token
        (content_length (u32 (44 + length pcm))) in
    let rejected = rejected-Honest base_url token wav_header [] a in
    if-cases (Honest base_url token wav_header a) (length pcm == 0) {x = refused}
      (λ empty. rejected)
      λ some_left.
        if-both (Honest base_url token wav_header a) (leb request_size (length request))
          {x = refused} rejected
          (if-both (Honest base_url token wav_header a) (not a.connects) {x = refused} rejected (
            answered-Honest base_url token wav_header a pcm _ e (ground arith) (
              send_all-Sent request wav_header a.reads pcm
                (record { sent = []; calls = a.calls }))))

post_recording-Honest :
    (base_url token wav_header : List ℕ) (a : Attempt)
    → Honest base_url token wav_header a (post_recording base_url token wav_header a)
unfolding post_recording
post_recording-Honest base_url token wav_header a = by_file a.take_file refl
  where
    by_file :
        (f : Option (List ℕ))
        → a.take_file ≡ f
        → Honest base_url token wav_header a (elim f [
          | none ↦ some (minus_one, [])
          | some pcm ↦ post_take base_url token wav_header a pcm
        ])
    by_file none e = rejected-Honest base_url token wav_header [] a
    by_file (some pcm) e = post_take-Honest base_url token wav_header a pcm e

abbrev out_of : Option (Bool × List ℕ) → List ℕ
out_of none = []
out_of (some (flag, out)) = out

abbrev flag_of : Option (Bool × List ℕ) → Bool
flag_of none = false
flag_of (some (flag, out)) = flag

-- What the two attempts return: a success is delivered by one of them.
abbrev EitherDelivers : List ℕ → List ℕ → List ℕ → Attempt → Attempt → Option (ℕ × List ℕ) → Type 0
EitherDelivers base_url token wav_header a1 a2 none = Unit
EitherDelivers base_url token wav_header a1 a2 (some (code, sent)) =
    is_success code ≡ true
    → Delivers base_url token wav_header a1 sent ⊎ Delivers base_url token wav_header a2 sent

post_recording_with_retry-EitherDelivers :
    (base_url token wav_header : List ℕ) (a1 a2 : Attempt)
    → EitherDelivers base_url token wav_header a1 a2
        (post_recording_with_retry base_url token wav_header a1 a2)
unfolding post_recording_with_retry
post_recording_with_retry-EitherDelivers base_url token wav_header a1 a2 =
    by_first (post_recording base_url token wav_header a1)
      (post_recording-Honest base_url token wav_header a1)
  where
    second :
        (o : Option (ℕ × List ℕ))
        → Honest base_url token wav_header a2 o
        → EitherDelivers base_url token wav_header a1 a2 o
    second none h = tt
    second (some (code, sent)) h = λ success. inr (h success)

    by_first :
        (o : Option (ℕ × List ℕ))
        → Honest base_url token wav_header a1 o
        → EitherDelivers base_url token wav_header a1 a2 (elim o [
          | none ↦ none
          | some (code, sent) ↦
              if is_success code
              then some (code, sent)
              else post_recording base_url token wav_header a2
        ])
    by_first none h = tt
    by_first (some (code, sent)) h =
        if-both (EitherDelivers base_url token wav_header a1 a2) (is_success code)
          (λ success. inl (h success))
          (second (post_recording base_url token wav_header a2)
            (post_recording-Honest base_url token wav_header a2))

upload_recording_pcm-Delivers :
    (held : Bool) (base_url token wav_header sent : List ℕ) (a1 a2 : Attempt)
    → upload_recording_pcm held base_url token wav_header a1 a2 ≡ some (true, sent)
    → Delivers base_url token wav_header a1 sent ⊎ Delivers base_url token wav_header a2 sent
unfolding upload_recording_pcm
upload_recording_pcm-Delivers false base_url token wav_header sent a1 a2 e = cc
upload_recording_pcm-Delivers true base_url token wav_header sent a1 a2 e =
    by_result (post_recording_with_retry base_url token wav_header a1 a2)
      (post_recording_with_retry-EitherDelivers base_url token wav_header a1 a2) e
  where
    by_result :
        (o : Option (ℕ × List ℕ))
        → EitherDelivers base_url token wav_header a1 a2 o
        → Option.map {B = Bool × List ℕ} (λ (r : ℕ × List ℕ). (is_success r.0, r.1)) o
          ≡ some (true, sent)
        → Delivers base_url token wav_header a1 sent ⊎ Delivers base_url token wav_header a2 sent
    by_result none h e = cc
    by_result (some (code, out)) h e =
        subst
          (λ s. Delivers base_url token wav_header a1 s ⊎ Delivers base_url token wav_header a2 s)
          (ap out_of e) (h (ap flag_of e))

-- The result of an upload: a success is delivered by one of the attempts.
abbrev pub Uploaded : List ℕ → List ℕ → List ℕ → Attempt → Attempt → Option (Bool × List ℕ) → Type 0
Uploaded base_url token wav_header a1 a2 none = ⊥
Uploaded base_url token wav_header a1 a2 (some (false, sent)) = Unit
Uploaded base_url token wav_header a1 a2 (some (true, sent)) =
    Delivers base_url token wav_header a1 sent ⊎ Delivers base_url token wav_header a2 sent

-- An upload ends, and where it says that it succeeded the take was sent: one of the two attempts
-- could open it, it was not empty, and the request, the multipart head, the WAV header, every byte
-- of the take and the tail were handed over, in order; or a write failed after a front part of these
-- and bytes of an answer were there already. Where an attempt connects, the reads of the file and the
-- rounds of each call, on a clock that may wrap, are enough for their bytes, and the wait for the
-- answer ends by a line feed, a close or the timeout.
pub upload_recording_pcm_sends :
    (held : Bool) (base_url token wav_header : List ℕ) (a1 a2 : Attempt)
    → Ready base_url token wav_header a1
    → Ready base_url token wav_header a2
    → Uploaded base_url token wav_header a1 a2
        (upload_recording_pcm held base_url token wav_header a1 a2)
upload_recording_pcm_sends held base_url token wav_header a1 a2 can can' =
    by_result (upload_recording_pcm held base_url token wav_header a1 a2)
      (upload_recording_pcm-ends held base_url token wav_header a1 a2 can can')
      (λ sent e. upload_recording_pcm-Delivers held base_url token wav_header sent a1 a2 e)
  where
    by_result :
        (o : Option (Bool × List ℕ))
        → o ≢ none
        → ((sent : List ℕ)
            → o ≡ some (true, sent)
            → Delivers base_url token wav_header a1 sent
              ⊎ Delivers base_url token wav_header a2 sent)
        → Uploaded base_url token wav_header a1 a2 o
    by_result none n h = n refl
    by_result (some (false, sent)) n h = tt
    by_result (some (true, sent)) n h = h sent refl
