-- ===== src/Queue/Keep.antt =====
-- `processQueue` and the mount: what is not sent is kept.
use tiny_voice.Prelude.{
  ℕ, ◌≡◌, refl, ap, ◌∙◌, ◌⊎◌, inl, inr, Bool, true, false, Option, none, some, List, [], ◌∷◌, ◌++◌,
  arith, if-both, if-cases, codes,
}
use tiny_voice.Queue.{
  LittleFs, queue_dir, rec_dir, Storage, mount_little_fs, ensure_dir, ensure_storage_dirs,
  send_first, process_queue,
}

-- `mountLittleFS` returns whether the flash is ready.
pub mount_little_fs-ready :
    (fs : LittleFs) (s : Storage fs) → (mount_little_fs fs s).0 ≡ (mount_little_fs fs s).1.0
unfolding mount_little_fs
mount_little_fs-ready fs (ready, w) = ground arith

-- Making a directory and an upload change no file; a deletion changes none but its own.
pub record IsKeeping (fs : LittleFs) (file : List ℕ) : Type 0 where
  pub mkdir_keeps :
      (path : List ℕ) (w : fs.World) → fs.content file (fs.mkdir path w) ≡ fs.content file w
  pub upload_keeps :
      (path : List ℕ) (w : fs.World)
      → fs.content file (fs.upload_audio_file path w).1 ≡ fs.content file w
  pub remove_keeps :
      (path : List ℕ) (w : fs.World)
      → (fs.content file (fs.remove path w) ≡ fs.content file w) ⊎ (file ≡ path)

module _ (fs : LittleFs) (file : List ℕ) (law : IsKeeping fs file) where
  -- The file is as before, or its upload succeeded.
  abbrev pub KeptOrSent : fs.World → fs.World → Type 0
  KeptOrSent w w' =
      (fs.content file w' ≡ fs.content file w) ⊎ ((fs.upload_audio_file file w).0 ≡ true)

  ensure_dir-keeps :
      (path : List ℕ) (w : fs.World) → fs.content file (ensure_dir fs path w) ≡ fs.content file w
  unfolding ensure_dir
  ensure_dir-keeps path w =
      if-both (λ w'. fs.content file w' ≡ fs.content file w) (fs.exists path w) refl
        (law.mkdir_keeps path w)

  ensure_storage_dirs-keeps :
      (w : fs.World) → fs.content file (ensure_storage_dirs fs (true, w)).1 ≡ fs.content file w
  unfolding ensure_storage_dirs mount_little_fs
  ensure_storage_dirs-keeps w =
      ensure_dir-keeps rec_dir (ensure_dir fs queue_dir w) ∙ ensure_dir-keeps queue_dir w

  send_first-KeptOrSent :
      (entries : List (Bool × List ℕ)) (w : fs.World) → KeptOrSent w (send_first fs entries w)
  unfolding send_first
  send_first-KeptOrSent [] w = inl refl
  send_first-KeptOrSent ((true, name) ∷ entries) w = send_first-KeptOrSent entries w
  send_first-KeptOrSent ((false, name) ∷ entries) w =
      if-cases (KeptOrSent w) (fs.upload_audio_file path w).0
        {x = fs.remove path (fs.upload_audio_file path w).1}
        (λ sent. elim (law.remove_keeps path (fs.upload_audio_file path w).1) [
          | inl kept ↦ inl (kept ∙ law.upload_keeps path w)
          | inr this ↦ inr (ap (λ q. (fs.upload_audio_file q w).0) this ∙ sent)
        ])
        (λ failed. inl (law.upload_keeps path w))
    where
      path : List ℕ
      path = queue_dir ++ codes "/" ++ name

  -- `processQueue` on a mounted flash loses no file: each file is as it was before, or its upload
  -- succeeded in this call. Making a directory and an upload are taken to change no file, and a
  -- deletion none but its own.
  pub process_queue-KeptOrSent :
      (w : fs.World)
      → (fs.content file (process_queue fs (true, w)).1 ≡ fs.content file w)
        ⊎ ((fs.upload_audio_file file (ensure_storage_dirs fs (true, w)).1).0 ≡ true)
  unfolding process_queue
  process_queue-KeptOrSent w = by_entries (fs.entries w1)
    where
      w1 : fs.World
      w1 = (ensure_storage_dirs fs (true, w)).1

      by_entries :
          (o : Option (List (Bool × List ℕ)))
          → (fs.content file
                (elim o as (λ o. Storage fs) [
                  | none ↦ ((ensure_storage_dirs fs (true, w)).0, w1)
                  | some entries ↦ ((ensure_storage_dirs fs (true, w)).0, send_first fs entries w1)
                ]).1
              ≡ fs.content file w)
            ⊎ ((fs.upload_audio_file file w1).0 ≡ true)
      by_entries none = inl (ensure_storage_dirs-keeps w)
      by_entries (some entries) = elim (send_first-KeptOrSent entries w1) [
        | inl kept ↦ inl (kept ∙ ensure_storage_dirs-keeps w)
        | inr sent ↦ inr sent
      ]
