-- ===== src/Queue.antt =====
-- The queue of whole files in firmware/tinyvoice/src/main.cpp, and the mount of the flash:
-- `mountLittleFS`, `ensureStorageDirs`, `queueUploadFile` and `processQueue`. LittleFS, the mutex and
-- the upload are operations of a record; the log is left out.
pub mod Copy
pub mod Keep
mod Tests
use tiny_voice.Prelude.{
  ℕ, zero, suc, ◌+◌, ◌/◌, Bool, true, false, not, Option, none, some, List, [], ◌∷◌, ◌++◌, ◌==◌,
  if◌then◌else◌, length, codes,
}
use tiny_voice.Api.Post.{decimal}

-- `available` and `read` take the position in the open file; `write` appends as many bytes as the
-- flash takes, which the code does not look at. `entries` gives what `openNextFile` does: whether it is
-- a directory, and the name; none where `/queue` is no directory. `content` is what a file holds: no
-- code reads it, statements do.
pub record LittleFs : Type 1 where
  pub World : Type 0
  pub content : List ℕ → World → Option (List ℕ)
  pub begin : World → Bool × World
  pub format : World → Bool × World
  pub exists : List ℕ → World → Bool
  pub mkdir : List ℕ → World → World
  pub open_read : List ℕ → World → Bool
  pub open_write : List ℕ → World → Bool × World
  pub available : List ℕ → ℕ → World → Bool
  pub read : List ℕ → ℕ → World → List ℕ
  pub write : List ℕ → List ℕ → World → World
  pub remove : List ℕ → World → World
  pub entries : World → Option (List (Bool × List ℕ))
  pub mutex_take : World → Bool × World
  pub mutex_give : World → World
  pub upload_audio_file : List ℕ → World → Bool × World

abbrev pub queue_dir : List ℕ
queue_dir = codes "/queue"

abbrev pub rec_dir : List ℕ
rec_dir = codes "/rec"

-- `"%s/%lu.wav"`; the buffers of the code are longer than what is written to them.
unfoldable pub queue_dest : ℕ → List ℕ
queue_dest now = queue_dir ++ codes "/" ++ decimal now ++ codes ".wav"

module _ (fs : LittleFs) where
  -- `littlefsReady` and what is outside.
  abbrev pub Storage : Type 0
  Storage = Bool × fs.World

  -- `mountLittleFS`; the answers of `begin`, `format` and the second `begin` are taken in turn.
  unfoldable pub mount_little_fs : Storage → Bool × Storage
  mount_little_fs (ready, w) =
      let (mounted, w1) = fs.begin w in
      let (formatted, w2) = fs.format w1 in
      let (mounted', w3) = fs.begin w2 in
      if ready
      then (true, (ready, w))
      else (if mounted
          then (true, (true, w1))
          else (if not formatted
              then (false, (ready, w2))
              else (if not mounted' then (false, (ready, w3)) else (true, (true, w3)))))

  unfoldable pub ensure_dir : List ℕ → fs.World → fs.World
  ensure_dir path w = if fs.exists path w then w else fs.mkdir path w

  unfoldable pub ensure_storage_dirs : Storage → Storage
  ensure_storage_dirs s =
      let (mounted, (ready, w)) = mount_little_fs s in
      if mounted then (ready, ensure_dir rec_dir (ensure_dir queue_dir w)) else (ready, w)

  -- The `while` loop of `queueUploadFile`, from a position on; `none` says that the fuel ran out.
  unfoldable pub copy_loop : ℕ → List ℕ → List ℕ → ℕ → fs.World → Option fs.World
  copy_loop zero path dest pos w = none
  copy_loop (suc fuel) path dest pos w =
      let buf = fs.read path pos w in
      let rest = copy_loop fuel path dest (pos + length buf) (fs.write dest buf w) in
      if not (fs.available path pos w) then some w else (if length buf == 0 then some w else rest)

  -- `queueUploadFile`: whether the copy was made, as the code sees it.
  unfoldable pub queue_upload_file : ℕ → ℕ → List ℕ → Storage → Option (Bool × Storage)
  queue_upload_file fuel now path s =
      let (ready, w) = ensure_storage_dirs s in
      let (locked, w1) = fs.mutex_take w in
      let dest = queue_dest now in
      let (opened, w2) = fs.open_write dest w1 in
      if not locked
      then some (false, (ready, w1))
      else (if not (fs.open_read path w1)
          then some (false, (ready, fs.mutex_give w1))
          else (if not opened
              then some (false, (ready, fs.mutex_give w2))
              else elim (copy_loop fuel path dest 0 w2) [
                | none ↦ none
                | some w3 ↦ some (true, (ready, fs.mutex_give w3))
              ]))

  -- The walk over the entries: the first file is sent, and removed if that succeeded.
  unfoldable pub send_first : List (Bool × List ℕ) → fs.World → fs.World
  send_first [] w = w
  send_first ((true, name) ∷ entries) w = send_first entries w
  send_first ((false, name) ∷ entries) w =
      let path = queue_dir ++ codes "/" ++ name in
      let (sent, w1) = fs.upload_audio_file path w in if sent then fs.remove path w1 else w1

  -- `processQueue`
  unfoldable pub process_queue : Storage → Storage
  process_queue s =
      let (ready, w) = ensure_storage_dirs s in
      elim (fs.entries w) [ none ↦ (ready, w) | some entries ↦ (ready, send_first entries w) ]
