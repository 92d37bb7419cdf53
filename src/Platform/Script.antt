-- ===== src/Platform/Script.antt =====
-- A platform for tests: the file is a list of bytes, and each `write` follows a script that says
-- how much it accepts, or (none) that the descriptor was lost. Past the script all is accepted.
use tiny_voice.Prelude.{
  ℕ, ◌≤◌, ◌<◌, min, ◌≡◌, refl, sym, ap, Bool, true, false, Option, none, some, List, [], ◌∷◌, ◌++◌,
  append-nil, arith, length, take, take-all,
}
use tiny_voice.Platform.{Platform, accepted, IsPosix, IsSteady}

abbrev pub Disk : Type 0
Disk = List ℕ × List (Option ℕ)

abbrev pub write_scripted : List ℕ → Disk → (Option ℕ × Bool) × Disk
write_scripted xs (bytes, []) = ((some (length xs), false), (bytes ++ xs, []))
write_scripted xs (bytes, none ∷ rest) = ((none, true), (bytes, rest))
write_scripted xs (bytes, some n ∷ rest) =
    ((some (min n (length xs)), false), (bytes ++ take (min n (length xs)) xs, rest))

abbrev pub open_scripted : Bool → Disk → Option ℕ × Disk
open_scripted true d = (some 3, d)
open_scripted false (bytes, script) = (some 3, ([], script))

abbrev pub scripted : Platform
scripted = record {
  World = Disk;
  take_bytes = λ d. d.0;
  open_take = open_scripted;
  close = λ fd d. d;
  write = λ fd. write_scripted;
  mutex_take = λ d. (true, d);
  mutex_give = λ d. d;
  total_bytes = λ d. 600000;
  used_bytes = λ d. 0;
  remove_queued = λ d. d;
  remove_takes = λ d. ([], d.1);
  remove_inbound = λ d. d;
  ensure_dir = λ d. (true, d);
  file_size = λ d. some (length d.0);
}

accepted-le_scripted : (xs : List ℕ) (d : Disk) → accepted (write_scripted xs d).0.0 ≤ length xs
accepted-le_scripted xs (bytes, []) = omega arith
accepted-le_scripted xs (bytes, none ∷ rest) = omega arith
accepted-le_scripted xs (bytes, some n ∷ rest) = omega arith

bytes-write_scripted :
    (xs : List ℕ) (d : Disk)
    → (write_scripted xs d).1.0 ≡ d.0 ++ take (accepted (write_scripted xs d).0.0) xs
bytes-write_scripted xs (bytes, []) =
    ap (λ t. bytes ++ t) (sym (take-all (length xs) xs (omega arith)))
bytes-write_scripted xs (bytes, none ∷ rest) = sym (append-nil bytes)
bytes-write_scripted xs (bytes, some n ∷ rest) = refl

steady_scripted :
    (xs : List ℕ) (d : Disk)
    → 0 < accepted (write_scripted xs d).0.0
    → accepted (write_scripted xs d).0.0 < length xs
    → (write_scripted xs d).0.1 ≡ false
steady_scripted xs (bytes, []) h k = refl
steady_scripted xs (bytes, none ∷ rest) h k = absurd (omega (arith, h))
steady_scripted xs (bytes, some n ∷ rest) h k = refl

size_scripted : (d : Disk) {n : ℕ} → some (length d.0) ≡ some n → n ≡ length d.0
size_scripted d e = cc

-- The script keeps to what is relied on.
pub scripted-IsPosix : IsPosix scripted
scripted-IsPosix = record {
  accepted-le = λ fd. accepted-le_scripted;
  take_bytes-write = λ fd. bytes-write_scripted;
  take_bytes-open_append = λ w. refl;
  take_bytes-open_trunc = λ w h. refl;
  take_bytes-close = λ fd w. refl;
  take_bytes-mutex_take = λ w. refl;
  take_bytes-mutex_give = λ w. refl;
  take_bytes-remove_takes = λ w. refl;
  take_bytes-ensure_dir = λ w. refl;
  file_size_lem = λ w e. size_scripted w e;
}

pub scripted-IsSteady : IsSteady scripted
scripted-IsSteady = record { posix = scripted-IsPosix; short_write = λ fd. steady_scripted }

-- The same disk with a task whose `errno` stays EBADF.
abbrev pub stale : Platform
stale = record (scripted) {
  write = λ fd xs d. (((write_scripted xs d).0.0, true), (write_scripted xs d).1);
}

pub stale-IsPosix : IsPosix stale
stale-IsPosix = record {
  accepted-le = λ fd. accepted-le_scripted;
  take_bytes-write = λ fd. bytes-write_scripted;
  take_bytes-open_append = λ w. refl;
  take_bytes-open_trunc = λ w h. refl;
  take_bytes-close = λ fd w. refl;
  take_bytes-mutex_take = λ w. refl;
  take_bytes-mutex_give = λ w. refl;
  take_bytes-remove_takes = λ w. refl;
  take_bytes-ensure_dir = λ w. refl;
  file_size_lem = λ w e. size_scripted w e;
}
