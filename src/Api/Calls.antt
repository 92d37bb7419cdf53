-- ===== src/Api/Calls.antt =====
-- The short calls and the uploads through the HTTP library, of firmware/tinyvoice/src/api_client.cpp:
-- `heartbeat`, `pollNext`, `markPlayed`, `uploadAudio`, `uploadAudioFile`, `uploadMultipartFile` and
-- `uploadMultipartRecording`. A call is its result and the request that it makes, none where it makes
-- none. The mutex, whether the library can begin, the status and the parsed answer are arguments;
-- the base URL, the token and the timeout of uploads are the configuration's.
pub mod Announce
mod Examples
use tiny_voice.Prelude.{
  ℕ, ◌+◌, ◌-◌, ◌/◌, Bool, true, false, not, ◌||◌, Option, none, some, List, [], ◌++◌, ltb, leb,
  ◌==◌, if◌then◌else◌, length, take, c_string, u32, codes,
}
use tiny_voice.Api.Endpoint.{ApiEndpoint, parse_endpoint}
use tiny_voice.Api.Post.{head_text, tail_text, upload_path, is_success}
use tiny_voice.Api.Multipart.{MemoryStream, FileStream, RecordingStream}
use tiny_voice.Api.Multipart.Agree.{memory_stream, file_stream, recording_stream}

pub data Method : Type 0 where
  get post : Method

pub record HttpSettings : Type 0 where
  pub connect_timeout : ℕ
  pub timeout : ℕ
  pub reuse : Bool

unfoldable pub configure_http : HttpSettings
configure_http = record { connect_timeout = 15000; timeout = 20000; reuse = false }

unfoldable pub configure_http_upload : ℕ → HttpSettings
configure_http_upload api_timeout = record {
  connect_timeout = 15000;
  timeout = api_timeout;
  reuse = false;
}

pub record HttpRequest : Type 0 where
  pub method : Method
  pub endpoint : ApiEndpoint
  pub settings : HttpSettings
  pub authorization : List ℕ

-- `setAuth`
unfoldable pub set_auth : List ℕ → List ℕ
set_auth token = codes "Bearer " ++ token

-- What a call meets.
pub record Meets : Type 0 where
  pub is_held : Bool
  pub begins : Bool
  pub code : ℕ

abbrev pub request_to : List ℕ → List ℕ → Method → List ℕ → HttpRequest
request_to base_url token method path = record {
  method = method;
  endpoint = parse_endpoint base_url path;
  settings = configure_http;
  authorization = set_auth token;
}

unfoldable pub heartbeat : List ℕ → List ℕ → Meets → Bool × Option HttpRequest
heartbeat base_url token m =
    if not m.is_held || not m.begins
    then (false, none)
    else (m.code == 200, some (request_to base_url token post (codes "/api/v1/device/heartbeat")))

unfoldable pub mark_played : List ℕ → List ℕ → List ℕ → Meets → Bool × Option HttpRequest
mark_played base_url token message_id m =
    let path = codes "/api/v1/device/messages/" ++ (message_id ++ codes "/played") in
    if not m.is_held || not m.begins
    then (false, none)
    else (m.code == 200, some (request_to base_url token post path))

-- `NextMessage`; the id is the string in its 40 bytes.
pub record NextMessage : Type 0 where
  pub available : Bool
  pub id : List ℕ
  pub duration_ms : ℕ
  pub size_bytes : ℕ

-- The fields of the answer, none where one is missing or of another type.
pub record NextDocument : Type 0 where
  pub available : Option Bool
  pub id : Option (List ℕ)
  pub duration_ms : Option ℕ
  pub size_bytes : Option ℕ

abbrev pub or_default {ℓ} : {A : Type ℓ} → A → Option A → A
or_default a none = a
or_default a (some b) = b

abbrev pub id_size : ℕ
id_size = 40

unfoldable pub read_document : NextDocument → NextMessage → NextMessage
read_document doc out =
    let out1 = record out { available = or_default false doc.available } in
    if not (or_default false doc.available) then out1 else record out1 {
      id = take (id_size - 1) (c_string (or_default [] doc.id));
      duration_ms = or_default 0 doc.duration_ms;
      size_bytes = or_default 0 doc.size_bytes;
    }

-- `pollNext`, with the answer's document, none where it is not JSON.
unfoldable pub poll_next :
    List ℕ
    → List ℕ
    → Option NextDocument
    → Meets
    → NextMessage
    → Bool × NextMessage × Option HttpRequest
poll_next base_url token doc m out =
    let request = request_to base_url token get (codes "/api/v1/device/messages/next") in
    if not m.is_held || not m.begins
    then (false, out, none)
    else (if not (m.code == 200) then (false, out, some request) else elim doc [
      | none ↦ (false, out, some request)
      | some d ↦ (true, read_document d out, some request)
    ])

-- An upload: the time it may take, the announced length, and the stream of the body.
pub record Upload (S : Type 0) : Type 0 where
  pub endpoint : ApiEndpoint
  pub settings : HttpSettings
  pub authorization : List ℕ
  pub total_len : ℕ
  pub stream : S

module _ (base_url token : List ℕ) (api_timeout : ℕ) where
  abbrev pub upload_of : {S : Type 0} → HttpSettings → ℕ → S → Upload S
  upload_of settings len stream = record {
    endpoint = parse_endpoint base_url upload_path;
    settings = settings;
    authorization = set_auth token;
    total_len = u32 (length head_text + len + length tail_text);
    stream = stream;
  }

  unfoldable pub upload_audio : List ℕ → Bool → ℕ → Bool × Option (Upload MemoryStream)
  upload_audio audio begins code = if not begins then (false, none) else (
    is_success code,
    some (
        upload_of (configure_http_upload api_timeout) (length audio)
          (memory_stream head_text audio tail_text)),
  )

  -- With the file, none where it does not open.
  unfoldable pub upload_audio_file : Option (List ℕ) → Bool → ℕ → Bool × Option (Upload FileStream)
  upload_audio_file none begins code = (false, none)
  upload_audio_file (some file) begins code =
      if leb (length file) 44 || not begins then (false, none) else (
        is_success code,
        some (
            upload_of (configure_http_upload api_timeout) (length file)
              (file_stream head_text file tail_text)),
      )

  -- A longer body may take longer, up to a limit.
  abbrev pub patient : ℕ → ℕ → HttpSettings
  patient limit len = record (configure_http_upload api_timeout) {
    timeout = (if ltb limit (60000 + len / 32) then limit else 60000 + len / 32);
  }

  unfoldable pub upload_multipart_file :
      Option (List ℕ) → Bool → ℕ → Bool × Option (Upload FileStream)
  upload_multipart_file none begins code = (false, none)
  upload_multipart_file (some file) begins code =
      if leb (length file) 44 || not begins then (false, none) else (
        is_success code,
        some (
            upload_of (patient 180000 (length file)) (length file)
              (file_stream head_text file tail_text)),
      )

  -- With the WAV header, none where there is none, and the chunk files.
  unfoldable pub upload_multipart_recording :
      Option (List ℕ)
      → ℕ
      → List (Option (List ℕ))
      → Bool
      → ℕ
      → Bool × Option (Upload RecordingStream)
  upload_multipart_recording none pcm_bytes files begins code = (false, none)
  upload_multipart_recording (some wav_header) pcm_bytes files begins code =
      if pcm_bytes == 0 || length files == 0 || not begins then (false, none) else (
        is_success code,
        some (
            upload_of (patient 300000 pcm_bytes) (44 + pcm_bytes)
              (recording_stream head_text wav_header files pcm_bytes tail_text)),
      )
