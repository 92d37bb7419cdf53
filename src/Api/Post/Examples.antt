-- ===== src/Api/Post/Examples.antt =====
-- An upload of a take of two bytes that connects at the second attempt.
use tiny_voice.Api.Endpoint.{split_scheme, port_of, join_uri, parse_endpoint}
use tiny_voice.Prelude.{
  ℕ, zero, suc, ◌+◌, ◌<◌, ◌≡◌, refl, ap, inl, inr, true, false, some, List, [], ◌∷◌, arith, length,
  u32, codes, digits_value, atoi,
}
use tiny_voice.Api.Tls.{
  Round, writable, Call, tls_write_all, and_then, write_body_from_file, Arrival, keep_byte,
  read_http_status, ready, byte_read, silent,
}
use tiny_voice.Api.Post.{
  head_text, tail_text, decimal, content_length, request_text, upload_path, Attempt, send_all,
  post_recording, post_recording_with_retry, upload_recording_pcm,
}
use tiny_voice.Api.Post.Ends.{Ready}
use tiny_voice.Api.Tls.Writes.{Serves}
use tiny_voice.Api.Tls.Rounds.{Ticking}
use tiny_voice.Api.Post.Body.{body, message}
use tiny_voice.Api.Post.Delivery.{Uploaded, upload_recording_pcm_sends}
use tiny_voice.Api.Post.Length.{content_length_lem}

abbrev header : List ℕ
header = codes "RIFF....WAVEfmt ....................data...."

abbrev round_at : ℕ → ℕ → Round
round_at accepted now = record {
  has_fd = true;
  wait_start = 0;
  polls = record { answer = ready; now = 0 } ∷ [];
  accepted = accepted;
  connected = true;
  now = now;
}

-- A client that takes nothing, every 5 ms.
idle : ℕ → ℕ → List Round
idle t zero = []
idle t (suc n) = round_at 0 (u32 (t + 5)) ∷ idle (t + 5) n

length-idle : (t n : ℕ) → length (idle t n) ≡ n
unfolding idle
length-idle t zero = refl
length-idle t (suc n) = ap suc (length-idle (t + 5) n)

idle-Ticking : (t n : ℕ) → Ticking t (idle t n)
unfolding idle writable
idle-Ticking t zero = tt
idle-Ticking t (suc n) =
    (t + 5, omega arith, (λ e. omega arith), omega arith, refl, (λ e. cc), idle-Ticking (t + 5) n)

-- The client takes what it is given.
abbrev call : Call
call = record { start_ms = 0; rounds = round_at 4000 1 ∷ idle 1 999999 }

call-Serves : (text : List ℕ) → length text < 500 → Serves call text
unfolding writable
call-Serves text h = (
  0,
  refl,
  (
    1,
    omega arith,
    (λ e. absurd (omega arith)),
    omega arith,
    refl,
    (λ e. cc),
    idle-Ticking 1 999999,
  ),
  omega (arith, length-idle 1 999999),
)

abbrev answer : List (ℕ × Arrival)
answer =
    (10, byte_read b'H')
    ∷ (10, byte_read 32)
    ∷ (11, silent true)
    ∷ (12, byte_read b'2')
    ∷ (12, byte_read b'0')
    ∷ (12, byte_read b'1')
    ∷ (12, byte_read 10)
    ∷ []

abbrev unreachable : Attempt
unreachable = record {
  take_file = some (1 ∷ 2 ∷ []);
  reads = [];
  connects = false;
  calls = [];
  is_early = false;
  answer_start = 0;
  answer = [];
}

abbrev answered_attempt : Attempt
answered_attempt = record {
  take_file = some (1 ∷ 2 ∷ []);
  reads = 2 ∷ [];
  connects = true;
  calls = call ∷ call ∷ call ∷ call ∷ call ∷ [];
  is_early = false;
  answer_start = 9;
  answer = answer;
}

abbrev pcm : List ℕ
pcm = 1 ∷ 2 ∷ []

abbrev url : List ℕ
url = codes "https://box"

abbrev device_token : List ℕ
device_token = codes "t"

uploaded :
    upload_recording_pcm true url device_token header unreachable answered_attempt
    ≡ some (true, message url device_token header pcm)
unfolding upload_recording_pcm post_recording_with_retry post_recording send_all request_text
    head_text tail_text decimal content_length write_body_from_file tls_write_all writable and_then
    read_http_status keep_byte atoi parse_endpoint join_uri port_of split_scheme
uploaded = refl

answered_attempt-Ready : Ready url device_token header answered_attempt
unfolding head_text tail_text request_text decimal content_length parse_endpoint join_uri port_of
    split_scheme
answered_attempt-Ready = (
  (
    call-Serves
        (request_text (parse_endpoint url upload_path) device_token
          (content_length (u32 (44 + length pcm))))
        (omega arith),
    (
      call-Serves head_text (omega arith),
      (
        call-Serves header (omega arith),
        (call-Serves pcm (omega arith), (call-Serves tail_text (omega arith), tt)),
      ),
    ),
  ),
  inr (inr (inr (inr (inr (inr (inr (inr (inr (inr (inr (inr (inr (inl refl))))))))))))),
)

upload_recording_pcm_sends_example :
    Uploaded url device_token header unreachable answered_attempt
      (upload_recording_pcm true url device_token header unreachable answered_attempt)
upload_recording_pcm_sends_example =
    upload_recording_pcm_sends true url device_token header unreachable answered_attempt tt
      answered_attempt-Ready

content_length_lem_example :
    digits_value 0 (decimal (content_length (u32 (44 + length pcm)))) ≡ length (body header pcm)
unfolding head_text tail_text
content_length_lem_example = content_length_lem header pcm refl (omega arith)
