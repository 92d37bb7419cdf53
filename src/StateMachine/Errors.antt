-- ===== src/StateMachine/Errors.antt =====
-- `setError` and `lastError`: the text that is kept.
use tiny_voice.Prelude.{
  ℕ, ◌+◌, ◌≡◌, refl, ap, ◌∙◌, List, [], ◌∷◌, length, take, length-append, strncpy, c_string,
  length-strncpy, c_string-strncpy,
}
use tiny_voice.StateMachine.{StateMachine, error, error_size, set_error}

-- An error is kept in 64 bytes, ends the machine in ERROR, keeps the pending flag, and reads back
-- as the first 63 bytes of the reason.
pub set_error_lem :
    (m : StateMachine) (reason : List ℕ)
    → ((set_error m reason).state ≡ error)
      × ((set_error m reason).has_pending_message ≡ m.has_pending_message)
      × (length (set_error m reason).last_error ≡ error_size)
      × (c_string (set_error m reason).last_error ≡ take 63 (c_string reason))
unfolding set_error
set_error_lem m reason = (
  refl,
  refl,
  length-append (strncpy 63 reason) (0 ∷ []) ∙ ap (λ n. n + 1) (length-strncpy 63 reason),
  c_string-strncpy 63 reason,
)
