-- ===== src/Api/Multipart/Rounds.antt =====
-- What is left to deliver of each stream, and that its rounds deliver it.
use tiny_voice.Prelude.{
  ℕ, ◌+◌, ◌-◌, ◌≤◌, ◌<◌, min, ◌≡◌, refl, sym, ap, ◌∙◌, inl, inr, true, false, none, some, List, [],
  ◌∷◌, ◌++◌, append_assoc, arith, ltb, leb, ◌==◌, if◌then◌else◌, ltb→lt, Bool-cases, if-cases,
  length, get_or, take, drop, length-append, length-take, length-drop, drop-all, take-append-drop,
  nil_of_length, drop-get_or, get_or-append_left, get_or-append_right,
}
use tiny_voice.Api.Multipart.{
  MemoryStream, memory_total, memory_available, memory_byte, memory_read, memory_round, FileStream,
  file_total, read_count, file_round,
}
use tiny_voice.Api.Multipart.Loop.{Gives}

abbrev pub Anything : MemoryStream → Type 0
Anything s = Unit

abbrev pub memory_view : MemoryStream → List ℕ
memory_view s = drop s.pos (s.head ++ (s.audio ++ s.tail))

memory_byte_lem :
    (s : MemoryStream)
    → s.pos < memory_total s
    → memory_byte s ≡ get_or (s.head ++ (s.audio ++ s.tail)) s.pos 0
unfolding memory_byte
memory_byte_lem s h =
    if-cases (λ b. b ≡ get_or (s.head ++ (s.audio ++ s.tail)) s.pos 0) (ltb s.pos (length s.head))
      (λ in_head. sym (
        get_or-append_left s.pos s.head (s.audio ++ s.tail) 0
          (ltb→lt s.pos (length s.head) in_head)))
      λ after_head.
        if-cases (λ b. b ≡ get_or (s.head ++ (s.audio ++ s.tail)) s.pos 0)
          (ltb s.pos (length s.head + length s.audio))
          (λ in_audio. sym (
            get_or-append_right s.pos s.head (s.audio ++ s.tail) 0 (ground arith)
            ∙ get_or-append_left (s.pos - length s.head) s.audio s.tail 0 (ground arith)))
          (λ after_audio. sym (
            get_or-append_right s.pos s.head (s.audio ++ s.tail) 0 (ground arith)
            ∙ get_or-append_right (s.pos - length s.head) s.audio s.tail 0 (ground arith)))

pub memory_round-Gives :
    (left : ℕ) (s : MemoryStream)
    → 0 < left
    → Anything s
    → Gives Anything memory_view left s (memory_round left s)
unfolding memory_round memory_read memory_available
memory_round-Gives left s h v = elim (Bool-cases (leb (memory_total s) s.pos)) [
  | inl ended ↦ rw ended (all_read ended, all_read ended, tt)
  | inr inside ↦ rw (inside, some_left inside) (omega arith, h, next inside, tt)
]
  where
    whole_length : length (s.head ++ (s.audio ++ s.tail)) ≡ memory_total s
    whole_length =
        omega (arith, length-append s.head (s.audio ++ s.tail), length-append s.audio s.tail)

    all_read : leb (memory_total s) s.pos ≡ true → memory_view s ≡ []
    all_read ended = drop-all s.pos (s.head ++ (s.audio ++ s.tail)) (ground (arith, whole_length))

    some_left : leb (memory_total s) s.pos ≡ false → (memory_total s - s.pos == 0) ≡ false
    some_left inside = ground arith

    next :
        leb (memory_total s) s.pos ≡ false
        → memory_view s ≡ (memory_byte s ∷ []) ++ memory_view (record s { pos = s.pos + 1 })
    next inside =
        drop-get_or s.pos (s.head ++ (s.audio ++ s.tail)) 0 (ground (arith, whole_length))
        ∙ ap (λ b. b ∷ memory_view (record s { pos = s.pos + 1 }))
            (sym (memory_byte_lem s (ground arith)))

-- A byte of a part, at an index in range.
pub byte_of_part :
    (i j : ℕ) (part rest : List ℕ)
    → i < length part
    → j ≡ i + 1
    → drop i part ++ rest ≡ (get_or part i 0 ∷ []) ++ (drop j part ++ rest)
byte_of_part i j part rest h e =
    ap (λ t. t ++ rest) (drop-get_or i part 0 h)
    ∙ ap (λ k. get_or part i 0 ∷ (drop k part ++ rest)) (sym e)

-- A file that is read from the start, by reads that give something.
abbrev pub FileIsValid : FileStream → Type 0
FileIsValid s = length s.unread ≡ s.file_len - (s.pos - length s.head)

abbrev pub file_view : FileStream → List ℕ
file_view s = drop s.pos s.head ++ (s.unread ++ drop (s.pos - length s.head - s.file_len) s.tail)

file_view-past_head :
    (s : FileStream)
    → length s.head ≤ s.pos
    → file_view s ≡ s.unread ++ drop (s.pos - length s.head - s.file_len) s.tail
file_view-past_head s h =
    ap (λ t. t ++ (s.unread ++ drop (s.pos - length s.head - s.file_len) s.tail))
      (drop-all s.pos s.head h)

file_view-past_file :
    (s : FileStream)
    → FileIsValid s
    → length s.head + s.file_len ≤ s.pos
    → file_view s ≡ drop (s.pos - length s.head - s.file_len) s.tail
file_view-past_file s v h =
    file_view-past_head s (omega arith)
    ∙ ap (λ t. t ++ drop (s.pos - length s.head - s.file_len) s.tail)
        (nil_of_length s.unread (omega arith))

-- A part of the file that is taken off its front.
file_view-take :
    (n : ℕ) (s : FileStream)
    → length s.head ≤ s.pos
    → s.pos + n ≤ length s.head + s.file_len
    → file_view s
      ≡ take n s.unread ++ file_view (record s { unread = drop n s.unread; pos = s.pos + n })
file_view-take n s lo hi =
    file_view-past_head s lo
    ∙ ap (λ t. t ++ drop (s.pos - length s.head - s.file_len) s.tail)
        (sym (take-append-drop n s.unread))
    ∙ append_assoc (take n s.unread) (drop n s.unread)
        (drop (s.pos - length s.head - s.file_len) s.tail)
    ∙ ap (λ k. take n s.unread ++ (drop n s.unread ++ drop k s.tail)) (omega arith)
    ∙ ap (λ t. take n s.unread ++ t)
        (sym (
          file_view-past_head (record s { unread = drop n s.unread; pos = s.pos + n })
            (omega arith)))

abbrev pub Progress : (ℕ → ℕ → ℕ) → Type 0
Progress gives = (pos want : ℕ) → 0 < want → 0 < gives pos want

pub file_round-Gives :
    (gives : ℕ → ℕ → ℕ)
    → Progress gives
    → (left : ℕ) (s : FileStream) → 0 < left
    → FileIsValid s
    → Gives FileIsValid file_view left s (file_round gives left s)
unfolding file_round
file_round-Gives gives progress left s h v =
    if-cases (Gives FileIsValid file_view left s) (ltb s.pos (length s.head))
      (λ in_head. (
        omega arith,
        h,
        byte_of_part s.pos (s.pos + 1) s.head
              (s.unread ++ drop (s.pos - length s.head - s.file_len) s.tail)
              (ltb→lt s.pos (length s.head) in_head) refl
            ∙ ap
                (λ k.
                  (get_or s.head s.pos 0 ∷ [])
                  ++ (drop (s.pos + 1) s.head ++ (s.unread ++ drop k s.tail)))
                (omega (arith, ltb→lt s.pos (length s.head) in_head)),
        omega (arith, v, ltb→lt s.pos (length s.head) in_head),
      ))
      λ after_head.
        if-cases (Gives FileIsValid file_view left s) (ltb s.pos (length s.head + s.file_len))
          (λ in_file.
            in_file_gives (ground arith) (ltb→lt s.pos (length s.head + s.file_len) in_file))
          λ after_file.
            if-cases (Gives FileIsValid file_view left s) (ltb s.pos (file_total s))
              (λ in_tail. (
                omega arith,
                h,
                in_tail_view (ground arith) (ltb→lt s.pos (file_total s) in_tail),
                ground arith,
              ))
              (λ after_tail. (ended_view (ground arith), ended_view (ground arith), v))
  where
    in_file_gives :
        length s.head ≤ s.pos
        → s.pos < length s.head + s.file_len
        → Gives FileIsValid file_view left s (
            let want = min left (length s.head + s.file_len - s.pos) in
            let n = read_count gives s.pos want s.unread in
            if n == 0
            then (none, s)
            else (some (take n s.unread), record s { unread = drop n s.unread; pos = s.pos + n }))
    in_file_gives lo hi =
        let want = min left (length s.head + s.file_len - s.pos) in
        let n = read_count gives s.pos want s.unread in
        let some_read : 0 < n = omega (arith, progress s.pos want (omega arith), v) in
        if-cases (Gives FileIsValid file_view left s) (n == 0)
          (λ none_read. absurd (ground (arith, some_read)))
          (λ read. (
            omega (arith, length-take n s.unread, some_read),
            omega (arith, length-take n s.unread),
            file_view-take n s lo (omega (arith, hi)),
            omega (arith, length-drop n s.unread, v),
          ))

    in_tail_view :
        length s.head + s.file_len ≤ s.pos
        → s.pos < file_total s
        → file_view s
          ≡ (get_or s.tail (s.pos - length s.head - s.file_len) 0 ∷ [])
            ++ file_view (record s { pos = s.pos + 1 })
    in_tail_view lo hi =
        file_view-past_file s v lo
        ∙ drop-get_or (s.pos - length s.head - s.file_len) s.tail 0 (omega arith)
        ∙ ap (λ k. get_or s.tail (s.pos - length s.head - s.file_len) 0 ∷ drop k s.tail)
            (omega arith)
        ∙ ap (λ t. get_or s.tail (s.pos - length s.head - s.file_len) 0 ∷ t)
            (sym
              (file_view-past_file (record s { pos = s.pos + 1 }) (omega (arith, v)) (omega arith)))

    ended_view : file_total s ≤ s.pos → file_view s ≡ []
    ended_view past =
        file_view-past_file s v (omega arith)
        ∙ drop-all (s.pos - length s.head - s.file_len) s.tail (omega arith)
