-- ===== src/Platform.antt =====
-- What the firmware calls and does not implement: the file of the take behind POSIX calls
-- (`open`, `write`, `close` on LittleFS) and the FreeRTOS mutex of the file system. The operations
-- are a parameter of the model, and what is relied on is stated in `IsPosix`.
pub mod Script
use tiny_voice.Prelude.{
  ℕ, ◌≤◌, ◌<◌, ◌≡◌, ◌≢◌, Bool, true, false, Option, none, some, List, [], ◌++◌, length, take,
}

-- `write` gives the count of bytes that were accepted (none for -1) and whether `errno` is EBADF
-- after the call. `remove_queued`, `remove_takes` and
-- `remove_inbound` delete the files of `/queue`, those of `/rec`, and the cached message, `file_size` is none where
-- the take cannot be opened. `take_bytes` is what the take file holds: no code reads it, statements do.
pub record Platform : Type 1 where
  pub World : Type 0
  pub take_bytes : World → List ℕ
  pub open_take : Bool → World → Option ℕ × World
  pub close : ℕ → World → World
  pub write : ℕ → List ℕ → World → (Option ℕ × Bool) × World
  pub mutex_take : World → Bool × World
  pub mutex_give : World → World
  pub total_bytes : World → ℕ
  pub used_bytes : World → ℕ
  pub remove_queued : World → World
  pub remove_takes : World → World
  pub remove_inbound : World → World
  pub ensure_dir : World → Bool × World
  pub file_size : World → Option ℕ

-- The bytes that a result of `write` accounts for, or the size that a file which could be opened has.
abbrev pub accepted : Option ℕ → ℕ
accepted none = 0
accepted (some n) = n

-- `write` accepts a prefix of its data, at most all of it, and appends it. Opening for append,
-- closing and the mutex leave the file alone; opening to truncate and deleting empty it, and its size
-- is the count of its bytes.
pub record IsPosix (p : Platform) : Type 0 where
  pub accepted-le :
      (fd : ℕ) (xs : List ℕ) (w : p.World) → accepted (p.write fd xs w).0.0 ≤ length xs
  pub take_bytes-write :
      (fd : ℕ) (xs : List ℕ) (w : p.World)
      → p.take_bytes (p.write fd xs w).1
        ≡ p.take_bytes w ++ take (accepted (p.write fd xs w).0.0) xs
  pub take_bytes-open_append : (w : p.World) → p.take_bytes (p.open_take true w).1 ≡ p.take_bytes w
  pub take_bytes-open_trunc :
      (w : p.World) → (p.open_take false w).0 ≢ none → p.take_bytes (p.open_take false w).1 ≡ []
  pub take_bytes-close : (fd : ℕ) (w : p.World) → p.take_bytes (p.close fd w) ≡ p.take_bytes w
  pub take_bytes-mutex_take : (w : p.World) → p.take_bytes (p.mutex_take w).1 ≡ p.take_bytes w
  pub take_bytes-mutex_give : (w : p.World) → p.take_bytes (p.mutex_give w) ≡ p.take_bytes w
  pub take_bytes-remove_takes : (w : p.World) → p.take_bytes (p.remove_takes w) ≡ []
  pub take_bytes-ensure_dir : (w : p.World) → p.take_bytes (p.ensure_dir w).1 ≡ p.take_bytes w
  pub file_size_lem : (w : p.World) {n : ℕ} → p.file_size w ≡ some n → n ≡ length (p.take_bytes w)

-- A platform on which a write that takes a part of its data never leaves EBADF in `errno`: one whose
-- writes take all of their data or none, whatever `errno` holds, is such a platform.
pub record IsSteady (p : Platform) : Type 0 where
  pub posix : IsPosix p
  pub short_write :
      (fd : ℕ) (xs : List ℕ) (w : p.World)
      → 0 < accepted (p.write fd xs w).0.0
      → accepted (p.write fd xs w).0.0 < length xs
      → (p.write fd xs w).0.1 ≡ false
