-- ===== src/Storage.antt =====
-- firmware/tinyvoice/src/storage_lock.cpp: the mutex of the file system, the free bytes, and the
-- deletions that make room for a take. The calls of LittleFS and FreeRTOS are the platform's; the
-- loops over a directory's files are one of its operations each.
use tiny_voice.Prelude.{ℕ, ◌-◌, Bool, not, ltb, leb, ◌==◌, if◌then◌else◌}
use tiny_voice.Platform.{Platform}

abbrev pub low_flash : ℕ
low_flash = 512000

module _ (p : Platform) where
  abbrev pub storage_lock : p.World → Bool × p.World
  storage_lock w = p.mutex_take w

  abbrev pub storage_unlock : p.World → p.World
  storage_unlock w = p.mutex_give w

  unfoldable pub storage_free_bytes : p.World → ℕ
  storage_free_bytes w =
      if leb (p.total_bytes w) (p.used_bytes w) then 0 else p.total_bytes w - p.used_bytes w

  -- `storagePruneForRecording`: the upload queue goes only where flash is mounted and short.
  unfoldable pub storage_prune_for_recording : p.World → p.World
  unfolding storage_free_bytes
  storage_prune_for_recording w =
      let (locked, w1) = storage_lock w in
      if not locked
      then w1
      else (if p.total_bytes w1 == 0
          then storage_unlock w1
          else (if leb low_flash (storage_free_bytes w1)
              then storage_unlock w1
              else storage_unlock (p.remove_queued w1)))

  -- `storageCleanupRecDir`
  unfoldable pub storage_cleanup_rec_dir : p.World → p.World
  storage_cleanup_rec_dir w =
      let (locked, w1) = storage_lock w in if locked then storage_unlock (p.remove_takes w1) else w1

  -- `storageReclaimForTake`
  unfoldable pub storage_reclaim_for_take : p.World → p.World
  unfolding storage_free_bytes storage_prune_for_recording
  storage_reclaim_for_take w =
      let w1 = p.remove_inbound w in
      if ltb (storage_free_bytes w1) low_flash then storage_prune_for_recording w1 else w1
