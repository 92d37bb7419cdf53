-- ===== src/Api/Download/Saved.antt =====
-- The file that a download leaves.
use mathlib.Core.Option
use tiny_voice.Prelude.{
  ℕ, ◌+◌, ◌≤◌, ◌<◌, ◌≡◌, refl, ap, Bool, true, false, not, ◌&&◌, ◌||◌, Option, none, some, List,
  arith, ltb, leb, ◌==◌, if-both, if-cases, length, take,
}
use tiny_voice.Api.Download.{
  flash_margin, min_bytes, Expected, is_below, flash_cap, download_cap, Progress, download_loop,
  settle, Request, started, run_loop, download_audio_to_file,
}
use tiny_voice.Api.Download.Kept.{Final, FinalOr, download_loop-FinalOr}

abbrev pub IsWhole : List ℕ → Expected → Type 0
IsWhole file none = Unit
IsWhole file (some len) = length file ≡ len

-- A download that succeeded left a file that is the front of the response; it keeps the margin of
-- the flash, is longer than a header, and is whole unless it is said to be trimmed, which it is then
-- to half a second at least.
abbrev pub SavedOk : List ℕ → ℕ → Expected → Bool × Bool × Option (List ℕ) → Type 0
SavedOk body free expected (false, is_trimmed, file) = Unit
SavedOk body free expected (true, is_trimmed, none) = ⊥
SavedOk body free expected (true, is_trimmed, some file) =
    (file ≡ take (length file) body)
    × (length file + flash_margin ≤ free)
    × (44 < length file)
    × (is_trimmed ≡ true → min_bytes ≤ length file)
    × (is_trimmed ≡ false → IsWhole file expected)

abbrev pub SavedOkOr : List ℕ → ℕ → Expected → Option (Bool × Bool × Option (List ℕ)) → Type 0
SavedOkOr body free expected none = Unit
SavedOkOr body free expected (some r) = SavedOk body free expected r

abbrev length_of : Expected → ℕ
length_of none = 0
length_of (some len) = len

download_cap-bounds :
    (free : ℕ) (expected : Expected)
    → flash_margin ≤ free
    → (download_cap free expected + flash_margin ≤ free)
      × ((len : ℕ) → expected ≡ some len → download_cap free expected ≤ len)
unfolding download_cap flash_cap
download_cap-bounds free none h = (omega arith, λ len e. cc)
download_cap-bounds free (some len) h =
    (ground arith, λ n e. let same : len ≡ n = ap length_of e in ground arith)

-- What a success has to show of the file.
abbrev Sound : List ℕ → ℕ → Expected → Bool → List ℕ → Type 0
Sound body free expected is_trimmed file =
    (file ≡ take (length file) body)
    × (length file + flash_margin ≤ free)
    × (44 < length file)
    × (is_trimmed ≡ true → min_bytes ≤ length file)
    × (is_trimmed ≡ false → IsWhole file expected)

SavedOk-of :
    (body : List ℕ) (free : ℕ) (expected : Expected) (is_ok is_trimmed : Bool) (file : List ℕ)
    → (is_ok ≡ true → Sound body free expected is_trimmed file)
    → SavedOk body free expected (is_ok, is_trimmed, some file)
SavedOk-of body free expected false is_trimmed file h = tt
SavedOk-of body free expected true is_trimmed file h = h refl

settle-SavedOk :
    (body : List ℕ) (free : ℕ) (expected : Expected) (d : Progress)
    → flash_margin ≤ free
    → Final body (download_cap free expected) expected d
    → SavedOk body free expected (settle (download_cap free expected) expected d)
unfolding settle
settle-SavedOk body free none d h f =
    let room = (download_cap-bounds free none h).0 in
    let fits : length d.saved + flash_margin ≤ free = omega (arith, f.at_most, room) in
    if-both (SavedOk body free none)
      (d.is_trimmed || (is_below d.received none && leb (download_cap free none) d.received))
      (SavedOk-of body free none (leb min_bytes d.received) true d.saved (λ e. (
        f.prefix,
        fits,
        grind (arith, e, f.at_least),
        (λ t. grind (arith, e, f.at_least)),
        (λ t. cc),
      )))
      (SavedOk-of body free none (ltb 44 d.received) false d.saved
        (λ e. (f.prefix, fits, grind (arith, e, f.at_least), (λ t. cc), (λ t. tt))))
settle-SavedOk body free (some len) d h f =
    let room = (download_cap-bounds free (some len) h).0 in
    let small = (download_cap-bounds free (some len) h).1 len refl in
    let fits : length d.saved + flash_margin ≤ free = omega (arith, f.at_most, room) in
    if-both (SavedOk body free (some len))
      (d.is_trimmed
        || (is_below d.received (some len) && leb (download_cap free (some len)) d.received))
      (SavedOk-of body free (some len) (leb min_bytes d.received) true d.saved (λ e. (
        f.prefix,
        fits,
        grind (arith, e, f.at_least),
        (λ t. grind (arith, e, f.at_least)),
        (λ t. cc),
      )))
      (if-cases (SavedOk body free (some len)) (not (d.received == len)) (λ e. tt)
        (λ e. SavedOk-of body free (some len) (ltb 44 d.received) false d.saved (λ e'. (
          f.prefix,
          fits,
          grind (arith, e', f.at_least),
          (λ t. cc),
          (λ t. grind (arith, e, f.at_least, f.at_most, small)),
        ))))

-- Whatever the answers are, and however many there are.
pub download_audio_to_file-SavedOkOr :
    (q : Request) (old : Option (List ℕ))
    → SavedOkOr q.response q.free_bytes q.expected (download_audio_to_file q old)
unfolding download_audio_to_file run_loop started
download_audio_to_file-SavedOkOr q old =
    let P = SavedOkOr q.response q.free_bytes q.expected in
    let cap = download_cap q.free_bytes q.expected in
    if-both P (not q.is_held || not q.begins || not (q.code == 200)) tt (
      if-cases P (leb q.free_bytes (flash_margin + min_bytes) || not q.opens) (λ e. tt)
        (λ e. by_loop (download_loop cap q.expected q.reads (started q)) (ground arith) (
          download_loop-FinalOr q.response cap q.expected q.reads (started q) (record {
            front = refl;
            back = refl;
            counted = refl;
            within = omega arith;
            whole = omega arith;
          }))))
  where
    by_loop :
        (r : Option Progress)
        → flash_margin ≤ q.free_bytes
        → FinalOr q.response (download_cap q.free_bytes q.expected) q.expected r
        → SavedOkOr q.response q.free_bytes q.expected (
            Option.map {B = Bool × Bool × Option (List ℕ)}
              (settle (download_cap q.free_bytes q.expected) q.expected)
              r)
    by_loop none h f = tt
    by_loop (some d) h f = settle-SavedOk q.response q.free_bytes q.expected d h f
