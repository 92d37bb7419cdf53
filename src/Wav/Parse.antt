-- ===== src/Wav/Parse.antt =====
-- `findWavPcmOffset` finds only a `data` chunk, and ends on chunks of a sane size.
use tiny_voice.Prelude.{
  ℕ, zero, suc, ◌+◌, ◌-◌, ◌≤◌, ◌<◌, ◌≡◌, ap, ◌⊎◌, inl, inr, Bool, true, false, not, ◌||◌, some,
  List, add-one, arith, ltb, Bool-cases, lt_or_le, word, u32,
}
use tiny_voice.Wav.{
  riff_tag, wave_tag, data_tag, at, tag_at, chunk_size_at, next_chunk, find_chunk,
  find_wav_pcm_offset,
}

-- What an offset that is not 0 means: it lies in the file, just behind a `data` tag and its size.
abbrev pub IsDataAt : List ℕ → ℕ → ℕ → Type 0
IsDataAt wav len off = (tag_at wav (off - 8) data_tag ≡ true) × (8 ≤ off) × (off ≤ len)

-- A chunk that ends in the file is followed by one that begins at its end at the latest.
next_chunk-le :
    (len body size : ℕ) → len < word - 16 → u32 (body + size) ≤ len → next_chunk body size ≤ len + 1
unfolding next_chunk
next_chunk-le len body size hl h = ground arith

find_chunk_sound :
    (fuel : ℕ) (wav : List ℕ) (len pos : ℕ) {off : ℕ}
    → len < word - 16
    → pos ≤ len + 1
    → find_chunk fuel wav len pos ≡ some off
    → (off ≡ 0) ⊎ IsDataAt wav len off
unfolding find_chunk
find_chunk_sound zero wav len pos hl hi e = cc
find_chunk_sound (suc fuel) wav len pos {off} hl hi e =
    let same : u32 (pos + 8) ≡ pos + 8 = omega arith in
    let back : u32 (pos + 8) - 8 ≡ pos = omega arith in
    ground (
      arith,
      same,
      ap (λ p. tag_at wav p data_tag) back,
      next_chunk-le len (u32 (pos + 8)) (chunk_size_at wav pos),
      find_chunk_sound fuel wav len (next_chunk (u32 (pos + 8)) (chunk_size_at wav pos)) {off = off}
          hl,
    )

-- An offset other than 0 is right: it lies in the file, and the four bytes that stand eight bytes
-- before it are `data`. The file is shorter than 2^32 - 16 bytes.
pub find_wav_pcm_offset_sound :
    (fuel : ℕ) (wav : List ℕ) (len : ℕ) {off : ℕ}
    → len < word - 16
    → find_wav_pcm_offset fuel wav len ≡ some off
    → (off ≡ 0) ⊎ IsDataAt wav len off
unfolding find_wav_pcm_offset
find_wav_pcm_offset_sound fuel wav len {off} hl e =
    ground (arith, find_chunk_sound fuel wav len 12 {off = off} hl)

-- The positions of chunks that the search looks at: the first, and behind each that is not `data`
-- the next, where that one ends in the file and the position does not wrap.
pub data Visited (wav : List ℕ) (len : ℕ) : ℕ → Type 0 where
  first : Visited wav len 12
  next :
      (pos : ℕ)
      → Visited wav len pos
      → u32 (pos + 8) ≤ len
      → tag_at wav pos data_tag ≡ false
      → pos + 8 + chunk_size_at wav pos < word
      → u32 (u32 (pos + 8) + chunk_size_at wav pos) ≤ len
      → Visited wav len (next_chunk (u32 (pos + 8)) (chunk_size_at wav pos))

-- A chunk that the search looks at, that is not `data`, and whose size carries the position past
-- 2^32.
abbrev pub Wraps : List ℕ → ℕ → Type 0
Wraps wav len =
    (pos : ℕ) × Visited wav len pos
    × (tag_at wav pos data_tag ≡ false)
    × (pos + 8 ≤ len)
    × (word ≤ pos + 8 + chunk_size_at wav pos)

-- Else the next chunk begins further on.
next_chunk-lt :
    (len pos size : ℕ)
    → len < word - 16
    → pos + 8 + size < word
    → u32 (u32 (pos + 8) + size) ≤ len
    → pos + 8 ≤ next_chunk (u32 (pos + 8)) size
unfolding next_chunk
next_chunk-lt len pos size hl hs h = ground arith

-- A chunk that is not `data` and ends in the file is skipped.
find_chunk_skip :
    (fuel : ℕ) (wav : List ℕ) (len pos : ℕ)
    → u32 (pos + 8) ≤ len
    → tag_at wav pos data_tag ≡ false
    → u32 (u32 (pos + 8) + chunk_size_at wav pos) ≤ len
    → find_chunk (suc fuel) wav len pos
      ≡ find_chunk fuel wav len (next_chunk (u32 (pos + 8)) (chunk_size_at wav pos))
unfolding find_chunk
find_chunk_skip fuel wav len pos fits other inside = ground arith

-- The three ways in which a round of the search ends, or else the round skips a chunk.
find_chunk_round :
    (fuel : ℕ) (wav : List ℕ) (len pos : ℕ)
    → len < word - 16
    → pos ≤ len + 1
    → Visited wav len pos
    → ((off : ℕ) × (find_chunk (suc fuel) wav len pos ≡ some off))
      ⊎ Wraps wav len
      ⊎ ((u32 (pos + 8) ≤ len)
          × (tag_at wav pos data_tag ≡ false)
          × (pos + 8 + chunk_size_at wav pos < word)
          × (u32 (u32 (pos + 8) + chunk_size_at wav pos) ≤ len))
find_chunk_round fuel wav len pos hl hi at = elim (lt_or_le len (u32 (pos + 8))) [
  | inl short ↦ inl (0, unfold find_chunk in ground arith)
  | inr fits ↦ elim (Bool-cases (tag_at wav pos data_tag)) [
    | inl found ↦ inl (u32 (pos + 8), unfold find_chunk in ground arith)
    | inr other ↦ elim (lt_or_le (pos + 8 + chunk_size_at wav pos) word) [
      | inr wraps ↦ inr (inl (pos, at, other, omega arith, wraps))
      | inl sane ↦ elim (lt_or_le len (u32 (u32 (pos + 8) + chunk_size_at wav pos))) [
        | inl past ↦ inl (0, unfold find_chunk in ground arith)
        | inr inside ↦ inr (inr (fits, other, sane, inside))
      ]
    ]
  ]
]

find_chunk_total :
    (fuel : ℕ) (wav : List ℕ) (len pos : ℕ)
    → len < word - 16
    → len < fuel + pos
    → pos ≤ len + 1
    → Visited wav len pos
    → ((off : ℕ) × (find_chunk (suc fuel) wav len pos ≡ some off)) ⊎ Wraps wav len
find_chunk_total zero wav len pos hl hf hi at = elim (find_chunk_round zero wav len pos hl hi at) [
  | inl done ↦ inl done
  | inr (inl w) ↦ inr w
  | inr (inr go) ↦ absurd (omega (arith, go.0))
]
find_chunk_total (suc fuel) wav len pos hl hf hi at =
    elim (find_chunk_round (suc fuel) wav len pos hl hi at) [
      | inl done ↦ inl done
      | inr (inl w) ↦ inr w
      | inr (inr (fits, other, sane, inside)) ↦
          let size : ℕ = chunk_size_at wav pos in
          let behind : ℕ = next_chunk (u32 (pos + 8)) size in
          rw (find_chunk_skip (suc fuel) wav len pos fits other inside) (
            find_chunk_total fuel wav len behind hl
              (omega (arith, next_chunk-lt len pos size hl sane inside))
              (next_chunk-le len (u32 (pos + 8)) size hl inside)
              (next pos at fits other sane inside))
    ]

-- The search ends within as many rounds as the file has bytes, unless a chunk that it looks at and
-- that is not `data` states a size that carries the position past 2^32. The file is shorter than 2^32 - 16 bytes.
pub find_wav_pcm_offset_total :
    (wav : List ℕ) (len : ℕ)
    → len < word - 16
    → ((off : ℕ) × (find_wav_pcm_offset (len + 1) wav len ≡ some off)) ⊎ Wraps wav len
find_wav_pcm_offset_total wav len hl = elim (Bool-cases refused) [
  | inl bad ↦ inl (0, unfold find_wav_pcm_offset in rw bad)
  | inr good ↦ enter good (find_chunk_total len wav len 12 hl (omega arith) (ground arith) first)
]
  where
    refused : Bool
    refused = ltb len 12 || not (tag_at wav 0 riff_tag) || not (tag_at wav 8 wave_tag)

    enter :
        refused ≡ false
        → ((off : ℕ) × (find_chunk (suc len) wav len 12 ≡ some off)) ⊎ Wraps wav len
        → ((off : ℕ) × (find_wav_pcm_offset (len + 1) wav len ≡ some off)) ⊎ Wraps wav len
    enter good (inr w) = inr w
    enter good (inl (off, e)) = inl (off, unfold find_wav_pcm_offset in rw (good, add-one) e)
