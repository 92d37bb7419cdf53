-- ===== src/Queue/Copy.antt =====
-- `queueUploadFile` copies the file.
use tiny_voice.Prelude.{
  ℕ, zero, suc, ◌+◌, ◌<◌, ◌≡◌, sym, ap, ◌∙◌, Bool, true, false, not, Option, none, some, List, [],
  ◌++◌, append-nil, append_assoc, arith, ltb, ◌==◌, if-cases, length, drop, drop-all,
}
use tiny_voice.Queue.{
  LittleFs, queue_dest, Storage, ensure_storage_dirs, copy_loop, queue_upload_file,
}

-- What LittleFS documents: a read gives the next bytes, one at least before the end; a write to a
-- flash with room appends all; opening for writing empties; other files stay.
pub record IsFlash (fs : LittleFs) (path dest : List ℕ) : Type 0 where
  pub available_lem :
      (w : fs.World) (pos : ℕ) {bytes : List ℕ}
      → fs.content path w ≡ some bytes
      → fs.available path pos w ≡ ltb pos (length bytes)
  pub read_lem :
      (w : fs.World) (pos : ℕ) {bytes : List ℕ}
      → fs.content path w ≡ some bytes
      → drop pos bytes ≡ fs.read path pos w ++ drop (pos + length (fs.read path pos w)) bytes
  pub read_some :
      (w : fs.World) (pos : ℕ) {bytes : List ℕ}
      → fs.content path w ≡ some bytes
      → pos < length bytes
      → 0 < length (fs.read path pos w)
  pub write_lem :
      (w : fs.World) (xs : List ℕ) {old : List ℕ}
      → fs.content dest w ≡ some old
      → fs.content dest (fs.write dest xs w) ≡ some (old ++ xs)
  pub write_keeps :
      (w : fs.World) (xs : List ℕ) → fs.content path (fs.write dest xs w) ≡ fs.content path w
  pub open_write_lem :
      (w : fs.World)
      → (fs.open_write dest w).0 ≡ true
      → fs.content dest (fs.open_write dest w).1 ≡ some []
  pub open_write_keeps :
      (w : fs.World) → fs.content path (fs.open_write dest w).1 ≡ fs.content path w
  pub mutex_give_keeps : (w : fs.World) → fs.content dest (fs.mutex_give w) ≡ fs.content dest w

module _ (fs : LittleFs) (path dest : List ℕ) (law : IsFlash fs path dest) where
  abbrev Copied : List ℕ → List ℕ → Option fs.World → Type 0
  Copied bytes old none = ⊥
  Copied bytes old (some w) = (fs.content dest w ≡ some (old ++ bytes))

  copy_loop-Copied :
      (fuel pos : ℕ) (w : fs.World) {bytes old : List ℕ}
      → fs.content path w ≡ some bytes
      → fs.content dest w ≡ some old
      → length bytes < fuel + pos
      → 0 < fuel
      → Copied (drop pos bytes) old (copy_loop fs fuel path dest pos w)
  unfolding copy_loop
  copy_loop-Copied zero pos w src dst enough positive = absurd (omega arith)
  copy_loop-Copied (suc fuel) pos w {bytes} {old} src dst enough positive =
      if-cases (Copied (drop pos bytes) old) (not (fs.available path pos w)) {x = some w}
        (λ ended.
          dst
          ∙ ap (λ t. some t)
              (sym (
                ap (λ t. old ++ t) (drop-all pos bytes (ground (arith, ended, available)))
                ∙ append-nil old)))
        (λ more.
          if-cases (Copied (drop pos bytes) old) (length buf == 0) {x = some w}
            (λ nothing. absurd (
              let some_read = law.read_some w pos src (ground (arith, more, available)) in
              ground (arith, nothing, some_read)))
            (λ bytes_read.
              by_rest (copy_loop fs fuel path dest (pos + length buf) (fs.write dest buf w)) (
                copy_loop-Copied fuel (pos + length buf) (fs.write dest buf w)
                  (law.write_keeps w buf ∙ src) (law.write_lem w buf dst)
                  (ground (arith, bytes_read, enough)) (ground (arith, more, available, enough)))))
    where
      buf : List ℕ
      buf = fs.read path pos w

      available : fs.available path pos w ≡ ltb pos (length bytes)
      available = law.available_lem w pos src

      by_rest :
          (o : Option fs.World)
          → Copied (drop (pos + length buf) bytes) (old ++ buf) o
          → Copied (drop pos bytes) old o
      by_rest none h = h
      by_rest (some w') h =
          h
          ∙ ap (λ t. some t)
              (append_assoc old buf (drop (pos + length buf) bytes)
                ∙ ap (λ t. old ++ t) (sym (law.read_lem w pos src)))

-- The call at the time `now`.
module _ (fs : LittleFs) (path : List ℕ) (now : ℕ) (law : IsFlash fs path (queue_dest now)) where
  -- The result: refused, or the copy is there.
  abbrev pub Queued : List ℕ → Option (Bool × Storage fs) → Type 0
  Queued bytes none = ⊥
  Queued bytes (some (false, s)) = Unit
  Queued bytes (some (true, (ready, w))) = fs.content (queue_dest now) w ≡ some bytes

  -- The world in which the file is opened.
  abbrev pub before_copy : Storage fs → fs.World
  before_copy s = (fs.mutex_take (ensure_storage_dirs fs s).1).1

  -- `queueUploadFile` ends, and where it returns true the new file of the queue holds the bytes of
  -- the file: on a flash that takes whole pieces, for a file that is there once the directories are,
  -- with more fuel than it has bytes.
  pub queue_upload_file-Queued :
      (fuel : ℕ) (s : Storage fs) {bytes : List ℕ}
      → fs.content path (before_copy s) ≡ some bytes
      → length bytes < fuel
      → Queued bytes (queue_upload_file fs fuel now path s)
  unfolding queue_upload_file
  queue_upload_file-Queued fuel s {bytes} src enough =
      if-cases (Queued bytes) (not (fs.mutex_take w).0) {x = some (false, (ready, w1))} (λ busy. tt)
        (λ locked.
          if-cases (Queued bytes) (not (fs.open_read path w1))
            {x = some (false, (ready, fs.mutex_give w1))} (λ gone. tt)
            (λ there.
              if-cases (Queued bytes) (not (fs.open_write (queue_dest now) w1).0)
                {x = some (false, (ready, fs.mutex_give w2))} (λ refused. tt)
                (λ opened. by_copy (copy_loop fs fuel path (queue_dest now) 0 w2) (
                  copy_loop-Copied fs path (queue_dest now) law fuel 0 w2
                    (law.open_write_keeps w1 ∙ src) (law.open_write_lem w1 (ground (arith, opened)))
                    (omega (arith, enough)) (omega (arith, enough))))))
    where
      ready : Bool
      ready = (ensure_storage_dirs fs s).0

      w : fs.World
      w = (ensure_storage_dirs fs s).1

      w1 : fs.World
      w1 = (fs.mutex_take w).1

      w2 : fs.World
      w2 = (fs.open_write (queue_dest now) w1).1

      by_copy :
          (o : Option fs.World)
          → Copied fs path (queue_dest now) law (drop 0 bytes) [] o
          → Queued bytes (elim o [ none ↦ none | some w3 ↦ some (true, (ready, fs.mutex_give w3)) ])
      by_copy none h = h
      by_copy (some w3) h = law.mutex_give_keeps w3 ∙ h
