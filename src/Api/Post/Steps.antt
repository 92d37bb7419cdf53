-- ===== src/Api/Post/Steps.antt =====
-- The steps of a body end, where each call has rounds enough for its bytes.
use tiny_voice.Api.Post.{head_text, tail_text, send_all}
use tiny_voice.Prelude.{
  ℕ, zero, suc, ◌-◌, min, ◌≡◌, refl, sym, subst, ◌≢◌, Bool, true, false, Option, none, some, List,
  [], ◌∷◌, ◌==◌, if-both, length, take, drop,
}
use tiny_voice.Api.Tls.{Call, Session, tls_write_all, and_then, body_buf_size, write_body_from_file}
use tiny_voice.Api.Tls.Writes.{at_calls, Delivered, Serves, tls_write_all_lem}

-- A call that serves this text, and calls for what comes after it.
abbrev pub Served : List ℕ → (List Call → Type 0) → List Call → Type 0
Served text After [] = ⊥
Served text After (c ∷ calls) = Serves c text × After calls

-- Reads for the file, and a call for each piece that they give, then for what comes after it. A read
-- that gives nothing ends the body.
abbrev pub Supplied : List ℕ → ℕ → List ℕ → (List Call → Type 0) → List Call → Type 0
Supplied reads zero file After calls = After calls
Supplied [] (suc left) file After calls = ⊥
Supplied (count ∷ reads) (suc left) file After [] = ⊥
Supplied (count ∷ reads) (suc left) file After (c ∷ calls) =
    let n = min (min count body_buf_size) (min (suc left) (length file)) in
    Serves c (take n file) × Supplied reads (suc left - n) (drop n file) After calls

-- A step that ends, with these calls left where it goes on.
abbrev Goes : List Call → Option (Bool × Session) → Type 0
Goes calls none = ⊥
Goes calls (some (ok, s)) = s.calls ≡ calls

tls_write_all-Goes :
    (text : List ℕ) (c : Call) (calls : List Call) (s : Session)
    → s.calls ≡ c ∷ calls
    → Serves c text
    → Goes calls (tls_write_all text s)
tls_write_all-Goes text c calls s e serves =
    subst (λ k. Goes calls (tls_write_all text (at_calls s.sent k))) (sym e)
      (by_result (tls_write_all text (at_calls s.sent (c ∷ calls)))
        (tls_write_all_lem s.sent c calls text serves))
  where
    by_result :
        (o : Option (Bool × Session))
        → Delivered (at_calls s.sent (c ∷ calls)) text calls o
        → Goes calls o
    by_result none h = h
    by_result (some (ok, s')) h = h.1

and_then-ends :
    (calls : List Call) (o : Option (Bool × Session)) (next : Session → Option (Bool × Session))
    → Goes calls o
    → ((s : Session) → s.calls ≡ calls → next s ≢ none)
    → and_then o next ≢ none
unfolding and_then
and_then-ends calls none next h k = absurd h
and_then-ends calls (some (false, s)) next h k = λ e. cc
and_then-ends calls (some (true, s)) next h k = k s h

-- What is left of the calls is enough for what comes next.
abbrev Continues : (List Call → Type 0) → (Session → Option (Bool × Session)) → Type 0
Continues After next =
    (s : Session) (calls : List Call) → s.calls ≡ calls → After calls → next s ≢ none

write-ends :
    (text : List ℕ) (After : List Call → Type 0) (calls : List Call) (s : Session)
    (next : Session → Option (Bool × Session))
    → s.calls ≡ calls
    → Served text After calls
    → Continues After next
    → and_then (tls_write_all text s) next ≢ none
write-ends text After [] s next e h k = absurd h
write-ends text After (c ∷ calls) s next e (serves, h) k =
    and_then-ends calls (tls_write_all text s) next (tls_write_all-Goes text c calls s e serves)
      (λ s' e'. k s' calls e' h)

and_then_assoc :
    (o : Option (Bool × Session)) (f g : Session → Option (Bool × Session))
    → and_then (and_then o f) g ≡ and_then o (λ s. and_then (f s) g)
unfolding and_then
and_then_assoc none f g = refl
and_then_assoc (some (false, s)) f g = refl
and_then_assoc (some (true, s)) f g = refl

body-ends :
    (reads : List ℕ) (left : ℕ) (file : List ℕ) (After : List Call → Type 0) (calls : List Call)
    (s : Session) (next : Session → Option (Bool × Session))
    → s.calls ≡ calls
    → Supplied reads left file After calls
    → Continues After next
    → and_then (write_body_from_file reads left file s) next ≢ none
unfolding write_body_from_file and_then
body-ends reads zero file After calls s next e h k = k s calls e h
body-ends [] (suc left) file After calls s next e h k = absurd h
body-ends (count ∷ reads) (suc left) file After [] s next e h k = absurd h
body-ends (count ∷ reads) (suc left) file After (c ∷ calls) s next e (serves, h) k =
    let n = min (min count body_buf_size) (min (suc left) (length file)) in
    let rest = write_body_from_file reads (suc left - n) (drop n file) in
    if-both (λ o. and_then o next ≢ none) (n == 0) {x = some (false, s)} (λ e'. cc)
      (subst (λ o. o ≢ none) (sym (and_then_assoc (tls_write_all (take n file) s) rest next))
        (and_then-ends calls (tls_write_all (take n file) s) (λ s'. and_then (rest s') next)
          (tls_write_all-Goes (take n file) c calls s e serves)
          (λ s' e'. body-ends reads (suc left - n) (drop n file) After calls s' next e' h k)))

abbrev pub Last : List Call → Type 0
Last calls = Unit

-- The calls for all steps of the body.
abbrev pub CallsFor : List ℕ → List ℕ → List ℕ → List ℕ → List Call → Type 0
CallsFor request wav_header reads pcm calls =
    Served request
      (Served head_text
        (Served wav_header (Supplied reads (length pcm) pcm (Served tail_text Last))))
      calls

tail-ends :
    (s : Session) (calls : List Call)
    → s.calls ≡ calls
    → Served tail_text Last calls
    → tls_write_all tail_text s ≢ none
tail-ends s [] e h = absurd h
tail-ends s (c ∷ calls) e (serves, h) =
    by_result (tls_write_all tail_text s) (tls_write_all-Goes tail_text c calls s e serves)
  where
    by_result : (o : Option (Bool × Session)) → Goes calls o → o ≢ none
    by_result none g = absurd g
    by_result (some (ok, s')) g = λ e'. cc

pub send_all-ends :
    (request wav_header reads pcm : List ℕ) (calls : List Call)
    → CallsFor request wav_header reads pcm calls
    → send_all request wav_header reads pcm (record { sent = []; calls = calls }) ≢ none
unfolding send_all
send_all-ends request wav_header reads pcm calls h =
    write-ends request
      (Served head_text
        (Served wav_header (Supplied reads (length pcm) pcm (Served tail_text Last))))
      calls _ _ refl h
      λ s1 calls1 e1 h1.
        write-ends head_text
          (Served wav_header (Supplied reads (length pcm) pcm (Served tail_text Last))) calls1 s1 _
          e1 h1
          λ s2 calls2 e2 h2.
            write-ends wav_header (Supplied reads (length pcm) pcm (Served tail_text Last)) calls2
              s2 _ e2 h2
              λ s3 calls3 e3 h3.
                body-ends reads (length pcm) pcm (Served tail_text Last) calls3 s3 _ e3 h3 tail-ends
