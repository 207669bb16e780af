-- ===== src/Tap/Framing.antt =====
-- The stream does not depend on how the text is cut into chunks.
use vortex_flow.Common.{
  ℕ, String, false, none, some, List, [], ◌∷◌, map, ◌≡◌, refl, ap, sym, ◌∙◌, ◌+s◌, inl, inr,
  Option-cases, text_append_assoc, text_append_nil,
}
use vortex_flow.Tap.{
  Json, Phase, fetching, reading, Run, Stream, Ending, goes_on, returns, throws, on_lines,
  complete_lines, unfinished,
}
use vortex_flow.Tap.Steps.{
  chunk, reads, find_run, set_phase, on_ending, on_read, on_run_read, step, after,
}
use vortex_flow.Tap.Lines.{
  with_runs, and_then, complete_lines-append, unfinished-append, find_run-set_phase,
  set_phase-set_phase, filter-set_phase, find_run-finished, on_lines-append, on_lines-with_runs,
  runs-on_lines,
}

abbrev pub concat : List String → String
concat [] = ""
concat (c ∷ cs) = c +s concat cs

module _ {V : Type 0} (json : Json V) (clock : ℕ → String) (encode : String → String) where
  on_ending-set_phase :
      (c : ℕ) (p : Phase) (rest : String) (r : Stream V × Ending)
      → on_ending c rest (with_runs (set_phase c p r.0.runs) r) ≡ on_ending c rest r
  on_ending-set_phase c p rest (u, goes_on) =
      ap (λ rs. record u { runs = rs }) (set_phase-set_phase c (reading rest) p u.runs)
  on_ending-set_phase c p rest (u, returns) =
      ap (λ rs. record u { running = false; runs = rs }) (filter-set_phase c p u.runs)
  on_ending-set_phase c p rest (u, throws message) =
      ap (λ rs. record u { error = some message; running = false; runs = rs })
        (filter-set_phase c p u.runs)

  -- Two chunks in a row, after the first of which the run stands at `r`.
  second_chunk :
      (c : ℕ) (rest b : String) {run : Run} (r : Stream V × Ending)
      → find_run c r.0.runs ≡ some run
      → step json clock encode (on_ending c rest r) (reads c (chunk b))
        ≡ on_ending c
            (unfinished (rest +s b))
            (and_then (on_lines json clock (complete_lines (rest +s b))) r)
  unfolding step on_run_read on_read
  second_chunk c rest b {run} (t, goes_on) h =
      let moved = set_phase c (reading rest) t.runs in
      let found = find_run-set_phase c (reading rest) t.runs h in
      let lines = complete_lines (rest +s b) in
      let kept = runs-on_lines json clock lines t in
      rw (found, on_lines-with_runs json clock moved lines t)
        (ap
            (λ rs.
              on_ending c (unfinished (rest +s b))
                (with_runs (set_phase c (reading rest) rs) (on_lines json clock lines t)))
            (sym kept)
          ∙ on_ending-set_phase c (reading rest) (unfinished (rest +s b))
              (on_lines json clock lines t))
  second_chunk c rest b (t, returns) h = rw (find_run-finished c t.runs) refl
  second_chunk c rest b (t, throws message) h = rw (find_run-finished c t.runs) refl

  one_chunk :
      (c : ℕ) (buf a : String) (s : Stream V) {run : Run}
      → find_run c s.runs ≡ some run
      → run.phase ≡ reading buf
      → step json clock encode s (reads c (chunk a))
        ≡ on_ending c (unfinished (buf +s a)) (on_lines json clock (complete_lines (buf +s a)) s)
  unfolding step on_run_read on_read
  one_chunk c buf a s h p = rw (h, p) refl

  no_chunk :
      (c : ℕ) (a : String) (s : Stream V)
      → find_run c s.runs ≡ none
      → step json clock encode s (reads c (chunk a)) ≡ s
  unfolding step on_run_read
  no_chunk c a s h = rw h refl

  no_read :
      (c : ℕ) (a : String) (s : Stream V) {run : Run}
      → find_run c s.runs ≡ some run
      → run.phase ≡ fetching
      → step json clock encode s (reads c (chunk a)) ≡ s
  unfolding step on_run_read
  no_read c a s h p = rw (h, p) refl

  idle_chunks :
      (c : ℕ) (a b : String) (s : Stream V)
      → ((d : String) → step json clock encode s (reads c (chunk d)) ≡ s)
      → step json clock encode (step json clock encode s (reads c (chunk a))) (reads c (chunk b))
        ≡ step json clock encode s (reads c (chunk (a +s b)))
  idle_chunks c a b s same = rw (same a, same b, same (a +s b)) refl

  chunks_joined :
      (c : ℕ) (a b : String) (s : Stream V)
      → step json clock encode (step json clock encode s (reads c (chunk a))) (reads c (chunk b))
        ≡ step json clock encode s (reads c (chunk (a +s b)))
  chunks_joined c a b s = elim (Option-cases (find_run c s.runs)) [
    | inl e ↦ idle_chunks c a b s (λ d. no_chunk c d s e)
    | inr (run, e) ↦ of_phase run e run.phase refl
  ]
    where
      of_phase :
          (run : Run)
          → find_run c s.runs ≡ some run
          → (p : Phase) → run.phase ≡ p
          → step json clock encode
              (step json clock encode s (reads c (chunk a)))
              (reads c (chunk b))
            ≡ step json clock encode s (reads c (chunk (a +s b)))
      of_phase run e fetching p = idle_chunks c a b s (λ d. no_read c d s e p)
      of_phase run e (reading buf) p =
          let first = complete_lines (buf +s a) in
          let kept = runs-on_lines json clock first s in
          let there : find_run c (on_lines json clock first s).0.runs ≡ some run =
            ap (find_run c) kept ∙ e in
          ap (λ t. step json clock encode t (reads c (chunk b))) (one_chunk c buf a s e p)
          ∙ second_chunk c (unfinished (buf +s a)) b (on_lines json clock first s) there
          ∙ sym (
              one_chunk c buf (a +s b) s e p
              ∙ rw
                  (
                    ← text_append_assoc buf a b,
                    complete_lines-append (buf +s a) b,
                    unfinished-append (buf +s a) b,
                  )
                  (ap (on_ending c (unfinished (unfinished (buf +s a) +s b))) (
                    on_lines-append json clock first (complete_lines (unfinished (buf +s a) +s b))
                      s)))

  -- However the server cuts its text into chunks, reading them one after the other leaves the stream
  -- as reading the whole text at once does.
  pub after-chunks :
      (c : ℕ) (first : String) (others : List String) (s : Stream V)
      → after json clock encode s (map (λ t. reads c (chunk t)) (first ∷ others))
        ≡ step json clock encode s (reads c (chunk (concat (first ∷ others))))
  unfolding after
  after-chunks c first [] s = rw (text_append_nil first) refl
  after-chunks c first (next ∷ others) s =
      ap (λ t. after json clock encode t (map (λ d. reads c (chunk d)) others))
        (chunks_joined c first next s)
      ∙ after-chunks c (first +s next) others s
      ∙ ap (λ d. step json clock encode s (reads c (chunk d)))
          (text_append_assoc first next (concat others))
