-- ===== src/Tap/Runs.antt =====
-- The runs of the stream and the flag that shows it as running.
use vortex_flow.Common.{
  ℕ, String, Bool, true, false, Option, none, some, List, [], ◌∷◌, ◌++◌, ◌≡◌, refl, ap, sym, ◌∙◌,
  subst, ◌⊎◌, inl, inr, starts_with, slice_text, Bool-cases, arith, ◌==◌, ◌||◌, trim, ◌+s◌,
}
use vortex_flow.Tap.Lines.{and_then, on_lines-cons, runs-on_lines}
use vortex_flow.Tap.{
  Json, Phase, fetching, reading, Run, Stream, Ending, goes_on, returns, throws, show_unless,
  on_parsed, on_json, on_line, on_lines, complete_lines, unfinished, start, abort_current,
  idle_stream,
}
use vortex_flow.Tap.Steps.{
  Response, success, failure, rejected, Read, finished, broken, chunk, Action, starts, stops,
  clears, syncs, unmounts, pauses, responds, reads, find_run, set_phase, catch_error, on_ending,
  on_read, on_response, on_run_response, on_run_read, step, after,
}

abbrev is_empty {ℓ} : {A : Type ℓ} → List A → Bool
is_empty [] = true
is_empty (x ∷ xs) = false

set_phase-is_empty : (c : ℕ) (p : Phase) (rs : List Run) → is_empty (set_phase c p rs) ≡ is_empty rs
unfolding set_phase
set_phase-is_empty c p [] = refl
set_phase-is_empty c p (r ∷ rs) = refl

append-is_empty : (rs : List Run) (r : Run) → is_empty (rs ++ (r ∷ [])) ≡ false
append-is_empty [] r = refl
append-is_empty (q ∷ rs) r = refl

module _ {V : Type 0} where
  -- Where the stream is shown as running, some run is on its way.
  abbrev pub IsBacked : Stream V → Type 0
  IsBacked s = s.running ≡ true → is_empty s.runs ≡ false

  catch_error-IsBacked :
      (c : ℕ) (name message : String) (s : Stream V) → IsBacked (catch_error c name message s)
  catch_error-IsBacked c name message s h = ground arith

  on_response-IsBacked :
      (c : ℕ) (r : Response) (s : Stream V) → IsBacked s → IsBacked (on_response c r s)
  unfolding on_response
  on_response-IsBacked c (success true) s b h = set_phase-is_empty c (reading "") s.runs ∙ b h
  on_response-IsBacked c (success false) s b h = ground arith
  on_response-IsBacked c (failure status text) s b h = ground arith
  on_response-IsBacked c (rejected name message) s b h = catch_error-IsBacked c name message s h

  abort_current-IsBacked : (o : Option ℕ) (s : Stream V) → IsBacked s → IsBacked (abort_current o s)
  abort_current-IsBacked none s b = b
  abort_current-IsBacked (some c) s b = b

  start-IsBacked :
      (encode : String → String) (instance_id component_id : String) (limit : ℕ) (s : Stream V)
      → IsBacked s
      → IsBacked (start encode instance_id component_id limit s)
  unfolding start
  start-IsBacked encode instance_id component_id limit s b =
      elim (Bool-cases (instance_id == "" || trim component_id == "")) [
        | inl e ↦ rw e b
        | inr e ↦ rw e (λ h. append-is_empty (abort_current s.abort_ref s).runs _)
      ]

module _ {V : Type 0} (json : Json V) (clock : ℕ → String) (encode : String → String) where
  running-show_unless :
      (p : Bool) (v : V) (s : Stream V) → (show_unless json clock p v s).running ≡ s.running
  running-show_unless true v s = refl
  running-show_unless false v s = refl

  running-on_line :
      (l : String) (s : Stream V) → (on_line json clock l s).0.running ≡ true → s.running ≡ true
  unfolding on_line
  running-on_line l s h = elim (Bool-cases (starts_with l "data: ")) [
    | inr e ↦ rw e at h
    | inl e ↦ of_json (json.parse (slice_text 6 l)) (rw e at h)
  ]
    where
      of_done :
          (v : V) (d : Bool ⊎ String)
          → (on_parsed json clock v d s).0.running ≡ true
          → s.running ≡ true
      of_done v (inr message) h = h
      of_done v (inl true) h = ground arith
      of_done v (inl false) h = sym (running-show_unless s.paused_ref v s) ∙ h

      of_json : (o : Option V) → (on_json json clock o s).0.running ≡ true → s.running ≡ true
      of_json none h = h
      of_json (some v) h = of_done v (json.done v) h

  running-on_lines :
      (ls : List String) (s : Stream V)
      → (on_lines json clock ls s).0.running ≡ true
      → s.running ≡ true
  unfolding on_lines
  running-on_lines [] s h = h
  running-on_lines (l ∷ ls) s h = running-on_line l s (
      of_ending (on_line json clock l s) (λ u k. running-on_lines ls u k)
        (subst (λ r. r.0.running ≡ true) (on_lines-cons json clock l ls s) h))
    where
      of_ending :
          (r : Stream V × Ending)
          → ((u : Stream V) → (on_lines json clock ls u).0.running ≡ true → u.running ≡ true)
          → (and_then (on_lines json clock ls) r).0.running ≡ true
          → r.0.running ≡ true
      of_ending (u, goes_on) ih k = ih u k
      of_ending (u, returns) ih k = k
      of_ending (u, throws message) ih k = k

  on_ending-IsBacked :
      (c : ℕ) (rest : String) (r : Stream V × Ending) → IsBacked r.0 → IsBacked (on_ending c rest r)
  on_ending-IsBacked c rest (s, goes_on) b h = set_phase-is_empty c (reading rest) s.runs ∙ b h
  on_ending-IsBacked c rest (s, returns) b h = ground arith
  on_ending-IsBacked c rest (s, throws message) b h = ground arith

  on_read-IsBacked :
      (c : ℕ) (buf : String) (r : Read) (s : Stream V)
      → IsBacked s
      → IsBacked (on_read json clock encode c buf r s)
  unfolding on_read
  on_read-IsBacked c buf finished s b h = ground arith
  on_read-IsBacked c buf (chunk text) s b h =
      let ls = complete_lines (buf +s text) in
      on_ending-IsBacked c (unfinished (buf +s text)) (on_lines json clock ls s)
        (λ k. ap is_empty (runs-on_lines json clock ls s) ∙ b (running-on_lines ls s k)) h
  on_read-IsBacked c buf (broken name message) s b h = catch_error-IsBacked c name message s h

  on_run-IsBacked :
      (o : Option Run) (c : ℕ) (s : Stream V)
      → IsBacked s
      → ((r : Response) → IsBacked (on_run_response json clock encode o c r s))
        × ((r : Read) → IsBacked (on_run_read json clock encode o c r s))
  unfolding on_run_response on_run_read
  on_run-IsBacked none c s b = (λ r. b, λ r. b)
  on_run-IsBacked (some run) c s b = of_phase run.phase refl
    where
      of_phase :
          (p : Phase)
          → run.phase ≡ p
          → ((r : Response) → IsBacked (on_run_response json clock encode (some run) c r s))
            × ((r : Read) → IsBacked (on_run_read json clock encode (some run) c r s))
      of_phase fetching e = rw e (λ r. on_response-IsBacked c r s b, λ r. b)
      of_phase (reading buf) e = rw e (λ r. b, λ r. on_read-IsBacked c buf r s b)

  step-IsBacked : (s : Stream V) (a : Action) → IsBacked s → IsBacked (step json clock encode s a)
  unfolding step
  step-IsBacked s (starts i c limit) b = start-IsBacked encode i c limit s b
  step-IsBacked s stops b = λ h. ground arith
  step-IsBacked s clears b = b
  step-IsBacked s syncs b = b
  step-IsBacked s unmounts b = abort_current-IsBacked s.abort_ref s b
  step-IsBacked s (pauses p) b = b
  step-IsBacked s (responds c r) b = (on_run-IsBacked (find_run c s.runs) c s b).0 r
  step-IsBacked s (reads c r) b = (on_run-IsBacked (find_run c s.runs) c s b).1 r

  after_keeps-IsBacked :
      (s : Stream V) (acts : List Action) → IsBacked s → IsBacked (after json clock encode s acts)
  unfolding after
  after_keeps-IsBacked s [] b = b
  after_keeps-IsBacked s (a ∷ rest) b =
      after_keeps-IsBacked (step json clock encode s a) rest (step-IsBacked s a b)

  -- Whatever the user and the server do, the stream is shown as running only while a run is on its
  -- way.
  pub after-IsBacked : (acts : List Action) → IsBacked (after json clock encode idle_stream acts)
  after-IsBacked acts = after_keeps-IsBacked idle_stream acts (λ h. ground arith)
