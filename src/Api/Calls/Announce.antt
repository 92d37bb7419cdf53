-- ===== src/Api/Calls/Announce.antt =====
-- What the uploads announce and what they stream.
use tiny_voice.Api.Multipart.Chunks.{flat, Present}
use tiny_voice.Api.Multipart.Rounds.{Progress}
use tiny_voice.Api.Multipart.Loop.{parts}
use tiny_voice.Api.Multipart.Agree.{memory_stream, file_stream, streams_agree}
use tiny_voice.Api.Post.{head_text, tail_text, answered}
use tiny_voice.Prelude.{
  ℕ, ◌+◌, ◌<◌, ◌≡◌, refl, ap, ◌∙◌, subst, Bool, true, false, not, ◌||◌, Option, none, some, List,
  [], ◌∷◌, ◌++◌, append-nil, arith, leb, ◌==◌, if-cases, length, length-append, take-all, word, u32,
}
use tiny_voice.Api.Calls.{
  Upload, upload_audio, upload_audio_file, upload_multipart_file, upload_multipart_recording,
}
use tiny_voice.Api.Multipart.{read_all, memory_round, file_round, recording_round}

-- An upload that is refused fails without a request; one that is not announces the length of these
-- bytes, streams them to a client that reads as many as are announced, and returns what is answered.
abbrev pub Sends :
    {S : Type 0}
    → (round : ℕ → S → Option (List ℕ) × S) (refused answered : Bool) (bytes : List ℕ)
    → Bool × Option (Upload S)
    → Type 0
Sends round refused answered bytes (ok, none) = (refused ≡ true) × (ok ≡ false)
Sends round refused answered bytes (ok, some u) =
    (refused ≡ false)
    × (ok ≡ answered)
    × (u.total_len ≡ length bytes)
    × (read_all round (u.total_len ∷ []) u.stream ≡ bytes ∷ [])

abbrev pub whole : List ℕ → List ℕ
whole audio = head_text ++ (audio ++ tail_text)

abbrev announced : ℕ → ℕ
announced len = u32 (length head_text + len + length tail_text)

whole-part :
    (audio : List ℕ) (len : ℕ)
    → len ≡ length audio
    → length (whole audio) < word
    → parts (announced len ∷ []) (whole audio) ≡ whole audio ∷ []
whole-part audio len e small =
    ap (λ b. b ∷ [])
      (take-all (announced len) (whole audio) (
        omega
          (arith, length-append head_text (audio ++ tail_text), length-append audio tail_text, e)))

announced-whole :
    (audio : List ℕ) (len : ℕ)
    → len ≡ length audio
    → length (whole audio) < word
    → announced len ≡ length (whole audio)
announced-whole audio len e small =
    omega (arith, length-append head_text (audio ++ tail_text), length-append audio tail_text, e)

module _ (gives : ℕ → ℕ → ℕ) (progress : Progress gives) where
  streams_whole :
      (audio : List ℕ)
      → length (whole audio) < word
      → (read_all memory_round
            (announced (length audio) ∷ [])
            (memory_stream head_text audio tail_text)
          ≡ whole audio ∷ [])
        × (read_all
              (file_round gives)
              (announced (length audio) ∷ [])
              (file_stream head_text audio tail_text)
            ≡ whole audio ∷ [])
  streams_whole audio small =
      let both =
        streams_agree gives (announced (length audio) ∷ []) head_text audio tail_text [] progress
          tt in
      let same = append-nil audio in
      let part = whole-part audio (length audio) refl small in
      (
        subst
              (λ a.
                read_all memory_round (announced (length audio) ∷ [])
                  (memory_stream head_text a tail_text)
                ≡ parts (announced (length audio) ∷ []) (whole a))
              same both.0
            ∙ part,
        subst
              (λ a.
                read_all (file_round gives) (announced (length audio) ∷ [])
                  (file_stream head_text a tail_text)
                ≡ parts (announced (length audio) ∷ []) (whole a))
              same both.1
            ∙ part,
      )

-- An upload is refused, without a request, where the library cannot begin; those from a file also
-- where it holds no more than a WAV header, and those from chunks where there is none or no sample.
-- Every other upload announces the length of exactly the body that it streams, from memory, from a
-- file by either way, or from a WAV header and its chunk files, and succeeds where the answer is 200
-- or 201. The bodies are below 4 GiB, the reads of the flash make progress, the chunks are there, not
-- empty, and of the stated length, and the mutex of the flash is had each time that one is opened.
pub uploads_announce :
    (base_url token wav_header file : List ℕ) (api_timeout code : ℕ) (begins : Bool)
    (gives : ℕ → ℕ → ℕ) (files : List (Option (List ℕ)))
    → Progress gives
    → Present files
    → length wav_header ≡ 44
    → length (whole file) < word
    → length (whole (wav_header ++ flat files)) < word
    → Sends memory_round
        (not begins)
        (code == 200 || code == 201)
        (whole file)
        (upload_audio base_url token api_timeout file begins code)
      × Sends
          (file_round gives)
          (leb (length file) 44 || not begins)
          (code == 200 || code == 201)
          (whole file)
          (upload_audio_file base_url token api_timeout (some file) begins code)
      × Sends
          (file_round gives)
          (leb (length file) 44 || not begins)
          (code == 200 || code == 201)
          (whole file)
          (upload_multipart_file base_url token api_timeout (some file) begins code)
      × Sends
          (recording_round gives (λ pos. true))
          (length (flat files) == 0 || length files == 0 || not begins)
          (code == 200 || code == 201)
          (whole (wav_header ++ flat files))
          (upload_multipart_recording base_url token api_timeout
            (some wav_header)
            (length (flat files))
            files
            begins
            code)
unfolding upload_audio upload_audio_file upload_multipart_file upload_multipart_recording
uploads_announce base_url token wav_header file api_timeout code begins gives files progress present
      header small small' =
    let both = streams_whole gives progress file small in
    let len = announced-whole file (length file) refl small in
    let answered = (code == 200 || code == 201) in
    let no_audio = (leb (length file) 44 || not begins) in
    let no_chunks = (length (flat files) == 0 || length files == 0 || not begins) in
    let joined : 44 + length (flat files) ≡ length (wav_header ++ flat files) =
      omega (arith, header, length-append wav_header (flat files)) in
    (
      if-cases (Sends memory_round (not begins) answered (whole file)) (not begins) (λ e. (e, refl))
          (λ e. (e, refl, len, both.0)),
      if-cases (Sends (file_round gives) no_audio answered (whole file)) no_audio (λ e. (e, refl))
          (λ e. (e, refl, len, both.1)),
      if-cases (Sends (file_round gives) no_audio answered (whole file)) no_audio (λ e. (e, refl))
          (λ e. (e, refl, len, both.1)),
      if-cases
          (Sends (recording_round gives (λ pos. true)) no_chunks answered
            (whole (wav_header ++ flat files)))
          no_chunks (λ e. (e, refl))
          (λ e. (
            e,
            refl,
            announced-whole (wav_header ++ flat files) (44 + length (flat files)) joined small',
            (streams_agree gives (announced (44 + length (flat files)) ∷ []) head_text wav_header
                  tail_text files progress present).2
                ∙ whole-part (wav_header ++ flat files) (44 + length (flat files)) joined small',
          )),
    )
