-- ===== src/Queue/Tests.antt =====
-- A flash of files by their paths, on which the laws hold.
use tiny_voice.Api.Post.{decimal}
use tiny_voice.Queue.Keep.{IsKeeping, process_queue-KeptOrSent}
use tiny_voice.Queue.Copy.{IsFlash, Queued, before_copy, queue_upload_file-Queued}
use tiny_voice.Prelude.{
  ℕ, zero, suc, ◌+◌, ◌≡◌, refl, sym, ap, ap₂, ◌∙◌, subst, ◌⊎◌, inl, inr, Bool, true, false, ◌&&◌,
  Option, none, some, List, [], ◌∷◌, ◌++◌, arith, ltb, ◌==◌, if◌then◌else◌, Bool-cases, length,
  take, drop, length-take, length-drop, drop-all, codes,
}
use tiny_voice.Queue.{
  LittleFs, queue_dest, mount_little_fs, ensure_dir, ensure_storage_dirs, queue_upload_file,
  process_queue,
}

abbrev same : List ℕ → List ℕ → Bool
same [] [] = true
same [] (y ∷ ys) = false
same (x ∷ xs) [] = false
same (x ∷ xs) (y ∷ ys) = (x == y) && same xs ys

same-eq : (xs ys : List ℕ) → same xs ys ≡ true → xs ≡ ys
same-eq [] [] h = refl
same-eq [] (y ∷ ys) h = absurd (ground arith)
same-eq (x ∷ xs) [] h = absurd (ground arith)
same-eq (x ∷ xs) (y ∷ ys) h = ap₂ (λ a b. a ∷ b) (ground arith) (same-eq xs ys (ground arith))

abbrev Files : Type 0
Files = List ℕ → Option (List ℕ)

abbrev bytes_at : Files → List ℕ → List ℕ
bytes_at w path = elim (w path) [ none ↦ [] | some bytes ↦ bytes ]

abbrev flash : LittleFs
flash = record {
  World = Files;
  content = λ path w. w path;
  begin = λ w. (true, w);
  format = λ w. (true, λ path. none);
  exists = λ path w. true;
  mkdir = λ path w. w;
  open_read = λ path w. elim (w path) [ none ↦ false | some bytes ↦ true ];
  open_write = λ path w. (true, λ q. if same q path then some [] else w q);
  available = λ path pos w. ltb pos (length (bytes_at w path));
  read = λ path pos w. take 1 (drop pos (bytes_at w path));
  write = λ path xs w. λ q. if same q path then some (bytes_at w q ++ xs) else w q;
  remove = λ path w. λ q. if same q path then none else w q;
  entries = λ w. some ((true, codes "old") ∷ ((false, codes "5.wav") ∷ []));
  mutex_take = λ w. (true, w);
  mutex_give = λ w. w;
  upload_audio_file = λ path w. (same path (codes "/queue/5.wav"), w);
}

abbrev one_file : Files
one_file = λ q. if same q (codes "/a.wav") then some (1 ∷ 2 ∷ 3 ∷ []) else none

abbrev a_wav : List ℕ
a_wav = codes "/a.wav"

one_read :
    (pos : ℕ) (bytes : List ℕ)
    → drop pos bytes
      ≡ take 1 (drop pos bytes) ++ drop (pos + length (take 1 (drop pos bytes))) bytes
one_read zero [] = refl
one_read zero (x ∷ xs) = refl
one_read (suc pos) [] = sym (drop-all (suc pos + 0) [] (omega arith))
one_read (suc pos) (x ∷ xs) =
    one_read pos xs
    ∙ ap (λ n. take 1 (drop pos xs) ++ drop n (x ∷ xs))
        {x = suc (pos + length (take 1 (drop pos xs)))}
        {y = suc pos + length (take 1 (drop pos xs))} (omega arith)

found : (w : Files) {bytes : List ℕ} → w a_wav ≡ some bytes → bytes_at w a_wav ≡ bytes
found w e = ap (λ (o : Option (List ℕ)). elim o [ none ↦ [] | some bytes ↦ bytes ]) e

flash-IsFlash : IsFlash flash a_wav (queue_dest 5)
unfolding queue_dest decimal
flash-IsFlash = record {
  available_lem = λ w pos e. ap (λ bs. ltb pos (length bs)) (found w e);
  read_lem = λ w pos {bytes} e.
      subst
        (λ bs.
          drop pos bytes ≡ take 1 (drop pos bs) ++ drop (pos + length (take 1 (drop pos bs))) bytes)
        (sym (found w e)) (one_read pos bytes);
  read_some = λ w pos {bytes} e h. omega (
    arith,
    length-take 1 (drop pos (bytes_at w a_wav)),
    length-drop pos (bytes_at w a_wav),
    ap length (found w e),
    h,
  );
  write_lem = λ w xs e.
      ap (λ (o : Option (List ℕ)). some (elim o [ none ↦ [] | some bytes ↦ bytes ] ++ xs)) e;
  write_keeps = λ w xs. refl;
  open_write_lem = λ w e. refl;
  open_write_keeps = λ w. refl;
  mutex_give_keeps = λ w. refl;
}

flash-IsKeeping : (file : List ℕ) → IsKeeping flash file
flash-IsKeeping file = record {
  mkdir_keeps = λ path w. refl;
  upload_keeps = λ path w. refl;
  remove_keeps = λ path w. elim (Bool-cases (same file path)) [
    | inl this ↦ inr (same-eq file path this)
    | inr other ↦ inl (rw other refl)
  ];
}

still_there : before_copy flash a_wav 5 flash-IsFlash (true, one_file) a_wav ≡ some (1 ∷ 2 ∷ 3 ∷ [])
unfolding ensure_storage_dirs mount_little_fs ensure_dir
still_there = refl

queue_upload_file-Queued_example :
    Queued flash a_wav 5 flash-IsFlash
      (1 ∷ 2 ∷ 3 ∷ [])
      (queue_upload_file flash 4 5 a_wav (true, one_file))
queue_upload_file-Queued_example =
    queue_upload_file-Queued flash a_wav 5 flash-IsFlash 4 (true, one_file) still_there
      (omega arith)

process_queue-KeptOrSent_example :
    ((process_queue flash (true, one_file)).1 a_wav ≡ one_file a_wav)
    ⊎ ((flash.upload_audio_file a_wav (ensure_storage_dirs flash (true, one_file)).1).0 ≡ true)
process_queue-KeptOrSent_example =
    process_queue-KeptOrSent flash a_wav (flash-IsKeeping a_wav) one_file
