-- ===== src/Api/Download/Kept.antt =====
-- The file in the loop of a download.
use tiny_voice.Prelude.{
  ℕ, ◌+◌, ◌≤◌, min, ◌≡◌, refl, sym, ap, ap₂, ◌∙◌, Bool, true, false, not, ◌&&◌, ◌||◌, Option, none,
  some, List, [], ◌∷◌, ◌++◌, arith, ltb, leb, ◌==◌, if◌then◌else◌, if-both, if-cases, length, take,
  drop, length-append, length-take, length-drop, drop-drop, take-add,
}
use tiny_voice.Api.Download.{
  flash_margin, min_bytes, log_step, Expected, expects_more, Read, Progress, given, goes_on,
  data_round, quiet_round, download_round, download_loop,
}

module _ (body : List ℕ) (cap : ℕ) (expected : Expected) where
  -- In the loop, the file holds what was received of the response, within the cap.
  pub record Keeps (d : Progress) : Type 0 where
    pub front : d.saved ≡ take d.received body
    pub back : d.incoming ≡ drop d.received body
    pub counted : length d.saved ≡ d.received
    pub within : d.received ≤ cap
    pub whole : d.received ≤ length body

  -- After it, the file holds the front of the response, at least what was counted; it is longer only
  -- where a write failed.
  pub record Final (d : Progress) : Type 0 where
    pub prefix : d.saved ≡ take (length d.saved) body
    pub at_least : d.received ≤ length d.saved
    pub at_most : length d.saved ≤ cap

  abbrev RoundOk : Bool × Progress → Type 0
  RoundOk r = (r.0 ≡ true → Final r.1) × (r.0 ≡ false → Keeps r.1)

  abbrev grown : ℕ → Progress → List ℕ
  grown n d = d.saved ++ take n d.incoming

  grown-prefix : (n : ℕ) (d : Progress) → Keeps d → grown n d ≡ take (d.received + n) body
  grown-prefix n d k =
      ap₂ (λ x y. x ++ take n y) k.front k.back
      ∙ sym (take-add d.received n (d.received + n) body refl)

  length-grown :
      (n : ℕ) (d : Progress) → Keeps d → n ≤ length d.incoming → length (grown n d) ≡ d.received + n
  length-grown n d k h =
      omega (arith, length-append d.saved (take n d.incoming), length-take n d.incoming, k.counted)

  Keeps-Final : (d : Progress) → Keeps d → Final d
  Keeps-Final d k = record {
    prefix = k.front ∙ ap (λ n. take n body) (sym k.counted);
    at_least = omega (arith, k.counted);
    at_most = omega (arith, k.counted, k.within);
  }

  -- The variables after `n` more bytes, whatever the clock and the log are.
  abbrev moved : ℕ → ℕ → ℕ → Bool → Progress → Progress
  moved n last_data next_log is_trimmed d = record {
    incoming = drop n d.incoming;
    saved = grown n d;
    received = d.received + n;
    last_data = last_data;
    next_log = next_log;
    is_trimmed = is_trimmed;
  }

  moved-Keeps :
      (n last_data next_log : ℕ) (is_trimmed : Bool) (d : Progress)
      → Keeps d
      → n ≤ length d.incoming
      → d.received + n ≤ cap
      → Keeps (moved n last_data next_log is_trimmed d)
  moved-Keeps n last_data next_log is_trimmed d k h small = record {
    front = grown-prefix n d k;
    back = ap (drop n) k.back ∙ drop-drop d.received n (d.received + n) body refl;
    counted = length-grown n d k h;
    within = small;
    whole = omega (arith, ap length k.back, length-drop d.received body, k.whole);
  }

  -- A write that stored only a part.
  failed-Final :
      (n stored : ℕ) (is_trimmed : Bool) (d : Progress)
      → Keeps d
      → stored ≤ length d.incoming
      → d.received + stored ≤ cap
      → Final (record d {
        incoming = drop n d.incoming;
        saved = grown stored d;
        is_trimmed = is_trimmed;
      })
  failed-Final n stored is_trimmed d k h small =
      let size = length-grown stored d k h in
      record {
        prefix = grown-prefix stored d k ∙ ap (λ m. take m body) (sym size);
        at_least = omega (arith, size);
        at_most = omega (arith, size, small);
      }

  stops : (d : Progress) → Final d → RoundOk (true, d)
  stops d f = ((λ e. f), (λ e. cc))

  continues : (d : Progress) → Keeps d → RoundOk (false, d)
  continues d k = ((λ e. cc), (λ e. k))

  data_round-RoundOk : (r : Read) (d : Progress) → Keeps d → RoundOk (data_round cap expected r d)
  unfolding data_round
  data_round-RoundOk r d k =
      let n = given cap expected r d in
      let stored = min r.stored n in
      let logs = leb d.next_log (d.received + n) in
      let next_log = if logs then d.next_log + log_step else d.next_log in
      let going =
        moved-Keeps n r.now next_log d.is_trimmed d k (omega arith) (omega (arith, k.within)) in
      let trimmed = moved-Keeps n r.now next_log true d k (omega arith) (omega (arith, k.within)) in
      if-both RoundOk (not (stored == n))
        (stops _ (
          failed-Final n stored (d.is_trimmed || leb min_bytes d.received) d k (omega arith)
            (omega (arith, k.within))))
        (if-both RoundOk (logs && ltb r.flash_free flash_margin) (stops _ (Keeps-Final _ trimmed)) (
          if-both RoundOk (leb cap (d.received + n) && expects_more (d.received + n) expected)
            (stops _ (Keeps-Final _ trimmed)) (continues _ going)))

  download_round-RoundOk :
      (r : Read) (d : Progress) → Keeps d → RoundOk (download_round cap expected r d)
  unfolding download_round quiet_round
  download_round-RoundOk r d k =
      if-both RoundOk (ltb 0 (given cap expected r d)) (data_round-RoundOk r d k)
        ((λ e. Keeps-Final d k), (λ e. k))

  abbrev pub FinalOr : Option Progress → Type 0
  FinalOr none = Unit
  FinalOr (some d) = Final d

  pub download_loop-FinalOr :
      (reads : List Read) (d : Progress) → Keeps d → FinalOr (download_loop cap expected reads d)
  unfolding download_loop
  download_loop-FinalOr [] d k = if-both FinalOr (goes_on cap expected d) tt (Keeps-Final d k)
  download_loop-FinalOr (r ∷ reads) d k =
      let ok = download_round-RoundOk r d k in
      if-both FinalOr (goes_on cap expected d)
        (if-cases FinalOr (download_round cap expected r d).0
          {x = some (download_round cap expected r d).1} ok.0
          (λ e. download_loop-FinalOr reads (download_round cap expected r d).1 (ok.1 e)))
        (Keeps-Final d k)
