-- ===== src/Api/Post.antt =====
-- The upload of a take in firmware/tinyvoice/src/api_client.cpp: `postRecording`,
-- `postRecordingWithRetry` and `ApiClient::uploadRecordingPcm`. The device's token and the base URL
-- are the configuration's.
pub mod Body
pub mod Steps
pub mod Ends
pub mod Delivery
pub mod Length
mod Examples
use mathlib.Core.Option
use tiny_voice.Prelude.{
  ℕ, zero, suc, ◌+◌, ◌/◌, ◌%◌, Bool, true, false, not, ◌||◌, Option, none, some, List, [], ◌∷◌,
  ◌++◌, ltb, leb, ◌==◌, if◌then◌else◌, length, u32, codes,
}
use tiny_voice.Api.Endpoint.{ApiEndpoint, parse_endpoint}
use tiny_voice.Api.Tls.{
  Call, Session, tls_write_all, and_then, write_body_from_file, Arrival, minus_one,
  read_http_status,
}

abbrev pub crlf : List ℕ
crlf = 13 ∷ 10 ∷ []

-- `MULTIPART_BOUNDARY`
abbrev pub boundary : List ℕ
boundary = codes "----TinyVoiceBoundary7MA4YWxk"

unfoldable pub head_text : List ℕ
head_text =
    codes "--"
    ++ (boundary
        ++ (crlf
            ++ (codes "Content-Disposition: form-data; name=\"audio\"; filename=\"recording.wav\""
                ++ (crlf ++ (codes "Content-Type: audio/wav" ++ (crlf ++ crlf))))))

unfoldable pub tail_text : List ℕ
tail_text = crlf ++ (codes "--" ++ (boundary ++ (codes "--" ++ crlf)))

-- `%u`: ten digits are enough for a word.
unfoldable pub digits_of : ℕ → ℕ → List ℕ
digits_of zero n = []
digits_of (suc fuel) n =
    let rest = digits_of fuel (n / 10) in
    if ltb n 10 then (b'0' + n) ∷ [] else rest ++ ((b'0' + n % 10) ∷ [])

unfoldable pub decimal : ℕ → List ℕ
unfolding digits_of
decimal n = digits_of 10 n

-- The bytes of the multipart body around a WAV file of this length.
unfoldable pub content_length : ℕ → ℕ
content_length wav_len = u32 (length head_text + wav_len + length tail_text)

unfoldable pub request_text : ApiEndpoint → List ℕ → ℕ → List ℕ
request_text ep token body_len =
    codes "POST "
    ++ (ep.uri
        ++ (codes " HTTP/1.1"
            ++ (crlf
                ++ (codes "Host: "
                    ++ (ep.host
                        ++ (crlf
                            ++ (codes "Authorization: Bearer "
                                ++ (token
                                    ++ (crlf
                                        ++ (codes "Content-Type: multipart/form-data; boundary="
                                            ++ (boundary
                                                ++ (crlf
                                                    ++ (codes "Content-Length: "
                                                        ++ (decimal body_len
                                                            ++ (crlf
                                                            ++ (codes "Connection: close"
                                                            ++ (crlf ++ crlf)))))))))))))))))

abbrev pub request_size : ℕ
request_size = 512

abbrev pub upload_path : List ℕ
upload_path = codes "/api/v1/device/messages"

-- What an attempt meets: the take (none where it cannot be opened), its reads, the connection, the
-- calls of `tlsWriteAll`, and the server's answer, early or after the body.
pub record Attempt : Type 0 where
  pub take_file : Option (List ℕ)
  pub reads : List ℕ
  pub connects : Bool
  pub calls : List Call
  pub is_early : Bool
  pub answer_start : ℕ
  pub answer : List (ℕ × Arrival)

-- The steps of the body, in order.
unfoldable pub send_all : List ℕ → List ℕ → List ℕ → List ℕ → Session → Option (Bool × Session)
send_all request wav_header reads pcm s = and_then (tls_write_all request s) (λ s1.
    and_then (tls_write_all head_text s1) (λ s2. and_then (tls_write_all wav_header s2) (λ s3.
      and_then (write_body_from_file reads (length pcm) pcm s3)
        (λ s4. tls_write_all tail_text s4))))

-- The status, and the bytes handed to the TLS client. After a failed write, an answer that is there
-- already gives the status.
abbrev pub with_bytes : List ℕ → Option ℕ → Option (ℕ × List ℕ)
with_bytes sent o = Option.map (λ (code : ℕ). (code, sent)) o

unfoldable pub answered : Attempt → Option (Bool × Session) → Option (ℕ × List ℕ)
answered a none = none
answered a (some (true, s)) = with_bytes s.sent (read_http_status 60000 a.answer_start a.answer)
answered a (some (false, s)) =
    if a.is_early
    then with_bytes s.sent (read_http_status 2000 a.answer_start a.answer)
    else some (minus_one, s.sent)

-- `postRecording` of a take that could be opened.
unfoldable pub post_take : List ℕ → List ℕ → List ℕ → Attempt → List ℕ → Option (ℕ × List ℕ)
unfolding answered
post_take base_url token wav_header a pcm =
    let ep = parse_endpoint base_url upload_path in
    let request = request_text ep token (content_length (u32 (44 + length pcm))) in
    if length pcm == 0
    then some (minus_one, [])
    else (if leb request_size (length request)
        then some (minus_one, [])
        else (if not a.connects
            then some (minus_one, [])
            else answered a
                (send_all request wav_header a.reads pcm (record { sent = []; calls = a.calls }))))

unfoldable pub post_recording : List ℕ → List ℕ → List ℕ → Attempt → Option (ℕ × List ℕ)
unfolding post_take
post_recording base_url token wav_header a = elim a.take_file [
  | none ↦ some (minus_one, [])
  | some pcm ↦ post_take base_url token wav_header a pcm
]

abbrev pub is_success : ℕ → Bool
is_success code = code == 200 || code == 201

-- `postRecordingWithRetry`: at most two attempts, to the last status and its bytes.
unfoldable pub post_recording_with_retry :
    List ℕ → List ℕ → List ℕ → Attempt → Attempt → Option (ℕ × List ℕ)
post_recording_with_retry base_url token wav_header a1 a2 =
    elim (post_recording base_url token wav_header a1) [
      | none ↦ none
      | some (code, sent) ↦
          if is_success code then some (code, sent) else post_recording base_url token wav_header a2
    ]

-- `ApiClient::uploadRecordingPcm`, with whether the API's mutex was had.
unfoldable pub upload_recording_pcm :
    Bool → List ℕ → List ℕ → List ℕ → Attempt → Attempt → Option (Bool × List ℕ)
upload_recording_pcm held base_url token wav_header a1 a2 =
    if not held
    then some (false, [])
    else Option.map (λ (r : ℕ × List ℕ). (is_success r.0, r.1))
        (post_recording_with_retry base_url token wav_header a1 a2)
