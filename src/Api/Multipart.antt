-- ===== src/Api/Multipart.antt =====
-- The streams in firmware/tinyvoice/src/api_client.cpp that hand a multipart body to the HTTP client:
-- `MultipartStream` (the audio in memory), `MultipartFileStream` (in a file) and
-- `MultipartRecordingStream` (a WAV header, and chunks in a file each). Each `readBytes` is the loop
-- `read_bytes` over a round of its own.
pub mod Loop
pub mod Rounds
pub mod Chunks
pub mod Agree
mod Examples
use mathlib.Core.Option
use tiny_voice.Prelude.{
  ℕ, zero, suc, ◌+◌, ◌-◌, min, Bool, false, not, Option, none, some, List, [], ◌∷◌, ◌++◌, ltb, leb,
  ◌==◌, if◌then◌else◌, length, get_or, take, drop,
}

-- A `readBytes`: a round gives some bytes, or none where the loop breaks, and the stream after it. Every round gives a byte at
-- least, so that there are no more rounds than bytes asked for.
module _ {S : Type 0} (round : ℕ → S → Option (List ℕ) × S) where
  unfoldable pub read_loop : ℕ → ℕ → S → List ℕ × S
  read_loop zero left s = ([], s)
  read_loop (suc fuel) left s =
      let (given, s1) = round left s in
      if left == 0 then ([], s) else elim given [
        | none ↦ ([], s1)
        | some bytes ↦ let (out, s2) = read_loop fuel (left - length bytes) s1 in (bytes ++ out, s2)
      ]

  unfoldable pub read_bytes : ℕ → S → List ℕ × S
  unfolding read_loop
  read_bytes n s = read_loop n n s

  -- The reads of a client, one after the other.
  unfoldable pub read_all : List ℕ → S → List (List ℕ)
  unfolding read_bytes
  read_all [] s = []
  read_all (n ∷ ns) s = let (out, s') = read_bytes n s in out ∷ read_all ns s'

-- `MultipartStream`
pub record MemoryStream : Type 0 where
  pub head : List ℕ
  pub audio : List ℕ
  pub tail : List ℕ
  pub pos : ℕ

abbrev pub memory_total : MemoryStream → ℕ
memory_total s = length s.head + length s.audio + length s.tail

unfoldable pub memory_available : MemoryStream → ℕ
memory_available s = if leb (memory_total s) s.pos then 0 else memory_total s - s.pos

-- The byte at the position, in whichever part it lies.
unfoldable pub memory_byte : MemoryStream → ℕ
memory_byte s =
    if ltb s.pos (length s.head)
    then get_or s.head s.pos 0
    else (if ltb s.pos (length s.head + length s.audio)
        then get_or s.audio (s.pos - length s.head) 0
        else get_or s.tail (s.pos - length s.head - length s.audio) 0)

unfoldable pub memory_peek : MemoryStream → Option ℕ
unfolding memory_available memory_byte
memory_peek s = if memory_available s == 0 then none else some (memory_byte s)

unfoldable pub memory_read : MemoryStream → Option ℕ × MemoryStream
unfolding memory_available memory_byte
memory_read s =
    if memory_available s == 0
    then (none, s)
    else (some (memory_byte s), record s { pos = s.pos + 1 })

unfoldable pub memory_round : ℕ → MemoryStream → Option (List ℕ) × MemoryStream
unfolding memory_read
memory_round left s =
    let (b, s') = memory_read s in (Option.map {B = List ℕ} (λ (c : ℕ). c ∷ []) b, s')

-- `MultipartFileStream`, with the bytes of the file that are not read yet.
pub record FileStream : Type 0 where
  pub head : List ℕ
  pub unread : List ℕ
  pub file_len : ℕ
  pub tail : List ℕ
  pub pos : ℕ

abbrev pub file_total : FileStream → ℕ
file_total s = length s.head + s.file_len + length s.tail

unfoldable pub file_available : FileStream → ℕ
file_available s = if leb (file_total s) s.pos then 0 else file_total s - s.pos

-- What `File::read` gives at a position when it is asked for so many bytes is the file's choice.
module _ (gives : ℕ → ℕ → ℕ) where
  abbrev pub read_count : ℕ → ℕ → List ℕ → ℕ
  read_count pos want unread = min (gives pos want) (min want (length unread))

  unfoldable pub file_round : ℕ → FileStream → Option (List ℕ) × FileStream
  file_round left s =
      let want = min left (length s.head + s.file_len - s.pos) in
      let n = read_count s.pos want s.unread in
      if ltb s.pos (length s.head)
      then (some (get_or s.head s.pos 0 ∷ []), record s { pos = s.pos + 1 })
      else (if ltb s.pos (length s.head + s.file_len)
          then (if n == 0
              then (none, s)
              else (some (take n s.unread), record s { unread = drop n s.unread; pos = s.pos + n }))
          else (if ltb s.pos (file_total s)
              then (
                some (get_or s.tail (s.pos - length s.head - s.file_len) 0 ∷ []),
                record s { pos = s.pos + 1 },
              )
              else (none, s)))

-- `MultipartRecordingStream`: the chunk files from `_chunkIndex` up to `_chunkCount`, none where one
-- is missing, and the bytes of the open chunk that are not read yet, none where no chunk is open.
pub record RecordingStream : Type 0 where
  pub head : List ℕ
  pub wav_header : List ℕ
  pub chunk_files : List (Option (List ℕ))
  pub unread : List ℕ
  pub pcm_len : ℕ
  pub tail : List ℕ
  pub pos : ℕ

abbrev pub pcm_start : RecordingStream → ℕ
pcm_start s = length s.head + length s.wav_header

abbrev pub recording_total : RecordingStream → ℕ
recording_total s = length s.head + length s.wav_header + s.pcm_len + length s.tail

unfoldable pub recording_available : RecordingStream → ℕ
recording_available s = if leb (recording_total s) s.pos then 0 else recording_total s - s.pos

-- `openNextChunk`, with whether the mutex was had: an empty chunk is skipped and stalls the stream.
unfoldable pub open_next_chunk : Bool → RecordingStream → Bool × RecordingStream
open_next_chunk locked s = elim s.chunk_files [
  | [] ↦ (false, record s { unread = [] })
  | none ∷ later ↦ (false, record s { unread = [] })
  | some bytes ∷ later ↦
      if locked
      then (ltb 0 (length bytes), record s { chunk_files = later; unread = bytes })
      else (false, record s { unread = [] })
]

module _ (gives : ℕ → ℕ → ℕ) (locks : ℕ → Bool) where
  -- The round among the samples, once a chunk is open.
  unfoldable pub chunk_round : ℕ → RecordingStream → Option (List ℕ) × RecordingStream
  chunk_round left s =
      let want = min left (length s.unread) in
      let n = read_count gives s.pos want s.unread in
      if n == 0
      then (none, record s { unread = [] })
      else (some (take n s.unread), record s { unread = drop n s.unread; pos = s.pos + n })

  unfoldable pub recording_round : ℕ → RecordingStream → Option (List ℕ) × RecordingStream
  unfolding open_next_chunk chunk_round
  recording_round left s =
      let (opened, s1) = open_next_chunk (locks s.pos) s in
      if ltb s.pos (length s.head)
      then (some (get_or s.head s.pos 0 ∷ []), record s { pos = s.pos + 1 })
      else (if ltb s.pos (pcm_start s)
          then (
            some (get_or s.wav_header (s.pos - length s.head) 0 ∷ []),
            record s { pos = s.pos + 1 },
          )
          else (if ltb s.pos (pcm_start s + s.pcm_len)
              then (if not (length s.unread == 0)
                  then chunk_round left s
                  else (if opened then chunk_round left s1 else (none, s1)))
              else (if ltb s.pos (recording_total s)
                  then (
                    some (get_or s.tail (s.pos - pcm_start s - s.pcm_len) 0 ∷ []),
                    record s { pos = s.pos + 1 },
                  )
                  else (none, s))))
