-- ===== src/Take/Tests.antt =====
-- A chunk written on a disk that accepts little at a time and loses the descriptor once.
use tiny_voice.Prelude.{ℕ, ◌≡◌, refl, true, none, some, List, [], ◌∷◌}
use tiny_voice.Platform.Script.{scripted, scripted-IsSteady, stale}
use tiny_voice.Take.{
  TakeState, close_take_fd, open_take_fd, write_fd, write_piece, write_loop, write_chunk_to_disk,
}
use tiny_voice.Take.Write.{Returns, write_chunk_to_disk_lem}

abbrev chunk : List ℕ
chunk = 1 ∷ 2 ∷ 3 ∷ 4 ∷ []

abbrev flaky : TakeState scripted
flaky = (some 3, ([], some 1 ∷ none ∷ some 2 ∷ some 1 ∷ []))

flaky_writes : write_chunk_to_disk scripted chunk flaky ≡ some (true, (some 3, (chunk, [])))
unfolding write_chunk_to_disk write_loop write_piece write_fd open_take_fd close_take_fd
flaky_writes = refl

flaky-Returns :
    Returns scripted scripted-IsSteady chunk flaky (write_chunk_to_disk scripted chunk flaky)
flaky-Returns = write_chunk_to_disk_lem scripted scripted-IsSteady chunk flaky

-- One write takes a byte only, while `errno` holds an old EBADF: the byte is written twice.
abbrev torn_take : TakeState stale
torn_take = (some 3, ([], some 1 ∷ []))

torn_chunk :
    write_chunk_to_disk stale chunk torn_take ≡ some (true, (some 3, (1 ∷ 1 ∷ 2 ∷ 3 ∷ 4 ∷ [], [])))
unfolding write_chunk_to_disk write_loop write_piece write_fd open_take_fd close_take_fd
torn_chunk = refl
