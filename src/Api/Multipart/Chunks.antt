-- ===== src/Api/Multipart/Chunks.antt =====
-- What is left to deliver of a stream over chunk files, and that its rounds deliver it.
use tiny_voice.Prelude.{
  ℕ, ◌+◌, ◌-◌, ◌≤◌, ◌<◌, min, ◌≡◌, refl, sym, ap, ◌∙◌, subst, Bool, true, not, Option, none, some,
  List, [], ◌∷◌, ◌++◌, append_assoc, arith, ltb, ◌==◌, if◌then◌else◌, ltb→lt, lt→ltb, if-cases,
  length, get_or, take, drop, length-append, length-take, length-drop, drop-all, take-append-drop,
  nil_of_length, drop-get_or,
}
use tiny_voice.Api.Multipart.{
  read_count, RecordingStream, pcm_start, recording_total, open_next_chunk, chunk_round,
  recording_round,
}
use tiny_voice.Api.Multipart.Loop.{Gives}
use tiny_voice.Api.Multipart.Rounds.{byte_of_part, Progress}

-- The bytes of the chunk files that can be opened.
abbrev pub flat : List (Option (List ℕ)) → List ℕ
flat [] = []
flat (none ∷ files) = flat files
flat (some bytes ∷ files) = bytes ++ flat files

-- Every chunk file is there, and none is empty.
abbrev pub Present : List (Option (List ℕ)) → Type 0
Present [] = Unit
Present (none ∷ files) = ⊥
Present (some bytes ∷ files) = (0 < length bytes) × Present files

-- The chunks hold the announced count of bytes, less what was delivered of them.
pub record RecordingIsValid (s : RecordingStream) : Type 0 where
  pub counted : length s.unread + length (flat s.chunk_files) ≡ s.pcm_len - (s.pos - pcm_start s)
  pub present : Present s.chunk_files

abbrev pub chunks_view : RecordingStream → List ℕ
chunks_view s = s.unread ++ (flat s.chunk_files ++ drop (s.pos - pcm_start s - s.pcm_len) s.tail)

abbrev pub recording_view : RecordingStream → List ℕ
recording_view s = drop s.pos s.head ++ (drop (s.pos - length s.head) s.wav_header ++ chunks_view s)

view-past_header : (s : RecordingStream) → pcm_start s ≤ s.pos → recording_view s ≡ chunks_view s
view-past_header s h =
    ap (λ t. t ++ (drop (s.pos - length s.head) s.wav_header ++ chunks_view s))
      (drop-all s.pos s.head (omega arith))
    ∙ ap (λ t. t ++ chunks_view s) (drop-all (s.pos - length s.head) s.wav_header (omega arith))

view-past_chunks :
    (s : RecordingStream)
    → RecordingIsValid s
    → pcm_start s + s.pcm_len ≤ s.pos
    → recording_view s ≡ drop (s.pos - pcm_start s - s.pcm_len) s.tail
view-past_chunks s v h =
    view-past_header s (omega arith)
    ∙ ap (λ t. t ++ (flat s.chunk_files ++ drop (s.pos - pcm_start s - s.pcm_len) s.tail))
        (nil_of_length s.unread (omega (arith, v.counted)))
    ∙ ap (λ t. t ++ drop (s.pos - pcm_start s - s.pcm_len) s.tail)
        (nil_of_length (flat s.chunk_files) (omega (arith, v.counted)))

abbrev taken : ℕ → RecordingStream → RecordingStream
taken n s = record s { unread = drop n s.unread; pos = s.pos + n }

-- A part of the open chunk that is taken off its front.
view-take :
    (n : ℕ) (s : RecordingStream)
    → pcm_start s ≤ s.pos
    → s.pos + n ≤ pcm_start s + s.pcm_len
    → recording_view s ≡ take n s.unread ++ recording_view (taken n s)
view-take n s lo hi =
    view-past_header s lo
    ∙ ap (λ t. t ++ (flat s.chunk_files ++ drop (s.pos - pcm_start s - s.pcm_len) s.tail))
        (sym (take-append-drop n s.unread))
    ∙ append_assoc (take n s.unread) (drop n s.unread)
        (flat s.chunk_files ++ drop (s.pos - pcm_start s - s.pcm_len) s.tail)
    ∙ ap (λ k. take n s.unread ++ (drop n s.unread ++ (flat s.chunk_files ++ drop k s.tail)))
        (omega arith)
    ∙ ap (λ t. take n s.unread ++ t) (sym (view-past_header (taken n s) (omega arith)))

abbrev pub GivesRest : ℕ → RecordingStream → Option (List ℕ) × RecordingStream → Type 0
GivesRest left s o = Gives RecordingIsValid recording_view left s o

chunk_round-gives :
    (gives : ℕ → ℕ → ℕ) (locks : ℕ → Bool)
    → Progress gives
    → (left : ℕ) (s : RecordingStream) → 0 < left
    → RecordingIsValid s
    → pcm_start s ≤ s.pos
    → s.pos < pcm_start s + s.pcm_len
    → 0 < length s.unread
    → GivesRest left s (chunk_round gives locks left s)
unfolding chunk_round
chunk_round-gives gives locks progress left s h v lo hi some_unread =
    let want = min left (length s.unread) in
    let n = read_count gives s.pos want s.unread in
    let some_read : 0 < n = omega (arith, progress s.pos want (omega arith)) in
    if-cases (GivesRest left s) (n == 0) (λ none_read. absurd (ground (arith, some_read)))
      (λ read. (
        omega (arith, length-take n s.unread, some_read),
        omega (arith, length-take n s.unread),
        view-take n s lo (omega (arith, v.counted)),
        record { counted = omega (arith, length-drop n s.unread, v.counted); present = v.present },
      ))

GivesRest-same :
    (left : ℕ) (s s1 : RecordingStream) (o : Option (List ℕ) × RecordingStream)
    → recording_view s ≡ recording_view s1
    → GivesRest left s1 o
    → GivesRest left s o
GivesRest-same left s s1 (none, s') e (empty, rest, v) = (e ∙ empty, rest, v)
GivesRest-same left s s1 (some bytes, s') e (one, short, view, v) = (one, short, e ∙ view, v)

-- A stream at its samples with no open chunk opens one, with the same bytes to deliver.
open_next_chunk-gives :
    (gives : ℕ → ℕ → ℕ) (locks : ℕ → Bool)
    → Progress gives
    → (left : ℕ) (s : RecordingStream) → 0 < left
    → RecordingIsValid s
    → pcm_start s ≤ s.pos
    → s.pos < pcm_start s + s.pcm_len
    → length s.unread ≡ 0
    → let (opened, s1) = open_next_chunk true s in
      GivesRest left s (if opened then chunk_round gives locks left s1 else (none, s1))
unfolding open_next_chunk
open_next_chunk-gives gives locks progress left s h v lo hi empty = by_files s.chunk_files refl
  where
    by_files :
        (files : List (Option (List ℕ)))
        → s.chunk_files ≡ files
        → let (opened, s1) = open_next_chunk true (record s { chunk_files = files }) in
          GivesRest left s (if opened then chunk_round gives locks left s1 else (none, s1))
    by_files [] e = absurd (omega (arith, v.counted, ap (λ f. length (flat f)) e))
    by_files (none ∷ later) e = absurd (subst Present e v.present)
    by_files (some bytes ∷ later) e =
        let there = subst Present e v.present in
        let s1 : RecordingStream = record s { chunk_files = later; unread = bytes } in
        let same_view : recording_view s ≡ recording_view s1 =
          view-past_header s lo
          ∙ ap (λ t. t ++ (flat s.chunk_files ++ drop (s.pos - pcm_start s - s.pcm_len) s.tail))
              (nil_of_length s.unread empty)
          ∙ ap (λ f. flat f ++ drop (s.pos - pcm_start s - s.pcm_len) s.tail) e
          ∙ append_assoc bytes (flat later) (drop (s.pos - pcm_start s - s.pcm_len) s.tail)
          ∙ sym (view-past_header s1 lo) in
        let v1 : RecordingIsValid s1 = record {
          counted = omega (
            arith,
            v.counted,
            ap (λ f. length (flat f)) e,
            length-append bytes (flat later),
            empty,
          );
          present = there.1;
        } in
        rw (lt→ltb 0 (length bytes) there.0) (
          GivesRest-same left s s1 _ same_view
            (chunk_round-gives gives locks progress left s1 h v1 lo hi there.0))

-- The rounds deliver the head, the header, the chunks and the tail: every lock is had, and reads
-- make progress.
pub recording_round-Gives :
    (gives : ℕ → ℕ → ℕ)
    → Progress gives
    → (left : ℕ) (s : RecordingStream) → 0 < left
    → RecordingIsValid s
    → GivesRest left s (recording_round gives (λ pos. true) left s)
unfolding recording_round
recording_round-Gives gives progress left s h v =
    if-cases (GivesRest left s) (ltb s.pos (length s.head))
      (λ in_head. in_head_gives (ltb→lt s.pos (length s.head) in_head))
      λ after_head.
        if-cases (GivesRest left s) (ltb s.pos (pcm_start s))
          (λ in_header. in_header_gives (ground arith) (ltb→lt s.pos (pcm_start s) in_header))
          λ after_header.
            if-cases (GivesRest left s) (ltb s.pos (pcm_start s + s.pcm_len))
              (λ in_chunks.
                in_chunks_gives (ground arith) (ltb→lt s.pos (pcm_start s + s.pcm_len) in_chunks))
              λ after_chunks.
                if-cases (GivesRest left s) (ltb s.pos (recording_total s))
                  (λ in_tail.
                    in_tail_gives (ground arith) (ltb→lt s.pos (recording_total s) in_tail))
                  (λ after_tail. (ended (ground arith), ended (ground arith), v))
  where
    in_head_gives :
        s.pos < length s.head
        → GivesRest left s (some (get_or s.head s.pos 0 ∷ []), record s { pos = s.pos + 1 })
    in_head_gives hi = (
      omega arith,
      h,
      byte_of_part s.pos (s.pos + 1) s.head
            (drop (s.pos - length s.head) s.wav_header ++ chunks_view s) hi refl
          ∙ ap
              (λ k.
                (get_or s.head s.pos 0 ∷ [])
                ++ (drop (s.pos + 1) s.head ++ (drop k s.wav_header ++ chunks_view s)))
              (omega arith)
          ∙ ap
              (λ k.
                (get_or s.head s.pos 0 ∷ [])
                ++ (drop (s.pos + 1) s.head
                    ++ (drop (s.pos + 1 - length s.head) s.wav_header
                        ++ (s.unread ++ (flat s.chunk_files ++ drop k s.tail)))))
              (omega arith),
      record { counted = omega (arith, v.counted); present = v.present },
    )

    in_header_gives :
        length s.head ≤ s.pos
        → s.pos < pcm_start s
        → GivesRest left s (
          some (get_or s.wav_header (s.pos - length s.head) 0 ∷ []),
          record s { pos = s.pos + 1 },
        )
    in_header_gives lo hi = (
      omega arith,
      h,
      ap (λ t. t ++ (drop (s.pos - length s.head) s.wav_header ++ chunks_view s))
            (drop-all s.pos s.head lo)
          ∙ byte_of_part (s.pos - length s.head) (s.pos + 1 - length s.head) s.wav_header
              (chunks_view s) (omega arith) (omega arith)
          ∙ ap
              (λ k.
                (get_or s.wav_header (s.pos - length s.head) 0 ∷ [])
                ++ (drop (s.pos + 1 - length s.head) s.wav_header
                    ++ (s.unread ++ (flat s.chunk_files ++ drop k s.tail))))
              (omega arith)
          ∙ ap
              (λ t.
                (get_or s.wav_header (s.pos - length s.head) 0 ∷ [])
                ++ (t
                    ++ (drop (s.pos + 1 - length s.head) s.wav_header
                        ++ chunks_view (record s { pos = s.pos + 1 }))))
              (sym (drop-all (s.pos + 1) s.head (omega arith))),
      record { counted = omega (arith, v.counted); present = v.present },
    )

    in_chunks_gives :
        pcm_start s ≤ s.pos
        → s.pos < pcm_start s + s.pcm_len
        → GivesRest left s (
            let (opened, s1) = open_next_chunk true s in
            if not (length s.unread == 0)
            then chunk_round gives (λ pos. true) left s
            else (if opened then chunk_round gives (λ pos. true) left s1 else (none, s1)))
    in_chunks_gives lo hi =
        if-cases (GivesRest left s) (not (length s.unread == 0))
          (λ open_chunk.
            chunk_round-gives gives (λ pos. true) progress left s h v lo hi (ground arith))
          (λ closed.
            open_next_chunk-gives gives (λ pos. true) progress left s h v lo hi (ground arith))

    in_tail_gives :
        pcm_start s + s.pcm_len ≤ s.pos
        → s.pos < recording_total s
        → GivesRest left s (
          some (get_or s.tail (s.pos - pcm_start s - s.pcm_len) 0 ∷ []),
          record s { pos = s.pos + 1 },
        )
    in_tail_gives lo hi =
        let v1 : RecordingIsValid (record s { pos = s.pos + 1 }) = record {
          counted = omega (arith, v.counted);
          present = v.present;
        } in
        (
          omega arith,
          h,
          view-past_chunks s v lo
              ∙ drop-get_or (s.pos - pcm_start s - s.pcm_len) s.tail 0 (omega arith)
              ∙ ap (λ k. get_or s.tail (s.pos - pcm_start s - s.pcm_len) 0 ∷ drop k s.tail)
                  (omega arith)
              ∙ ap (λ t. get_or s.tail (s.pos - pcm_start s - s.pcm_len) 0 ∷ t)
                  (sym (view-past_chunks (record s { pos = s.pos + 1 }) v1 (omega arith))),
          v1,
        )

    ended : recording_total s ≤ s.pos → recording_view s ≡ []
    ended past =
        view-past_chunks s v (omega arith)
        ∙ drop-all (s.pos - pcm_start s - s.pcm_len) s.tail (omega arith)
