-- ===== src/Tap/Buffer.antt =====
-- What the buffer of events holds.
use vortex_flow.Common.{
  ℕ, zero, suc, ◌+s◌, subst, ◌+◌, ◌-◌, ◌≤◌, ◌<◌, String, Bool, true, false, Option, none, some,
  List, [], ◌∷◌, ◌++◌, ◌≡◌, refl, sym, ◌⊎◌, inl, inr, starts_with, slice_text, Bool-cases, arith,
  length, drop, length-drop, length-append, ◌==◌, ◌||◌, trim,
}
use vortex_flow.Tap.Lines.{and_then, on_lines-cons}
use vortex_flow.Tap.{
  TapEvent, Json, Phase, fetching, reading, Run, Stream, Ending, goes_on, returns, throws,
  show_unless, on_parsed, on_json, on_line, on_lines, complete_lines, unfinished, start,
  abort_current, idle_stream,
}
use vortex_flow.Tap.Steps.{
  Response, success, failure, rejected, Read, finished, broken, chunk, Action, starts, stops,
  clears, syncs, unmounts, pauses, responds, reads, find_run, finish, catch_error, on_ending,
  on_read, on_response, on_run_response, on_run_read, step, after,
}

module _ {V : Type 0} where
  -- The ids grow by one or more from an event to the next, and the last is at most `n`.
  unfoldable pub Rising : ℕ → List (TapEvent V) → ℕ → Type 0
  Rising low [] n = low ≤ n
  Rising low (e ∷ es) n = (low < e.id) × Rising e.id es n

  -- At most a thousand events, in the order of their ids, none of which is above the counter `n`.
  pub record IsBuffer (events : List (TapEvent V)) (n : ℕ) : Type 0 where
    pub bounded : length events ≤ 1000
    pub low : ℕ
    pub rising : Rising low events n

  abbrev pub HasBuffer : Stream V → Type 0
  HasBuffer s = IsBuffer s.events s.next_event

  Rising-snoc :
      (low : ℕ) (es : List (TapEvent V)) (e : TapEvent V) (n : ℕ)
      → Rising low es n
      → n < e.id
      → Rising low (es ++ (e ∷ [])) e.id
  unfolding Rising
  Rising-snoc low [] e n h k = (omega arith, omega arith)
  Rising-snoc low (d ∷ es) e n (h, r) k = (h, Rising-snoc d.id es e n r k)

  Rising-drop :
      (low k : ℕ) (es : List (TapEvent V)) (n : ℕ)
      → Rising low es n
      → (from : ℕ) × Rising from (drop k es) n
  unfolding Rising
  Rising-drop low zero es n r = (low, r)
  Rising-drop low (suc k) [] n r = (low, r)
  Rising-drop low (suc k) (e ∷ es) n (h, r) = Rising-drop e.id k es n r

  no_events : (n : ℕ) → IsBuffer [] n
  unfolding Rising
  no_events n = record { bounded = omega arith; low = 0; rising = omega arith }

  finish-HasBuffer : (c : ℕ) (s : Stream V) → HasBuffer s → HasBuffer (finish c s)
  finish-HasBuffer c s b = b

  catch_error-HasBuffer :
      (c : ℕ) (name message : String) (s : Stream V)
      → HasBuffer s
      → HasBuffer (catch_error c name message s)
  catch_error-HasBuffer c name message s b = elim (Bool-cases (name == "AbortError")) [
    | inl e ↦ rw e b
    | inr e ↦ rw e b
  ]

  on_response-HasBuffer :
      (c : ℕ) (r : Response) (s : Stream V) → HasBuffer s → HasBuffer (on_response c r s)
  unfolding on_response
  on_response-HasBuffer c (success true) s b = b
  on_response-HasBuffer c (success false) s b = b
  on_response-HasBuffer c (failure status text) s b = b
  on_response-HasBuffer c (rejected name message) s b = catch_error-HasBuffer c name message s b

  on_ending-HasBuffer :
      (c : ℕ) (rest : String) (r : Stream V × Ending)
      → HasBuffer r.0
      → HasBuffer (on_ending c rest r)
  on_ending-HasBuffer c rest (s, goes_on) b = b
  on_ending-HasBuffer c rest (s, returns) b = b
  on_ending-HasBuffer c rest (s, throws message) b = b

  abort_current-HasBuffer :
      (o : Option ℕ) (s : Stream V) → HasBuffer s → HasBuffer (abort_current o s)
  abort_current-HasBuffer none s b = b
  abort_current-HasBuffer (some c) s b = b

  start-HasBuffer :
      (encode : String → String) (instance_id component_id : String) (limit : ℕ) (s : Stream V)
      → HasBuffer s
      → HasBuffer (start encode instance_id component_id limit s)
  unfolding start
  start-HasBuffer encode instance_id component_id limit s b =
      elim (Bool-cases (instance_id == "" || trim component_id == "")) [
        | inl e ↦ rw e b
        | inr e ↦ rw e (no_events _)
      ]

module _ {V : Type 0} (json : Json V) (clock : ℕ → String) where
  show_unless-HasBuffer :
      (p : Bool) (v : V) (s : Stream V) → HasBuffer s → HasBuffer (show_unless json clock p v s)
  show_unless-HasBuffer true v s b = b
  show_unless-HasBuffer false v s b =
      let cut = length s.events - 999 in
      let ev : TapEvent V = record {
        id = s.next_event + 1;
        ts = clock (s.next_event + 1);
        raw = v;
      } in
      let (from, r) = Rising-drop b.low cut s.events s.next_event b.rising in
      let size = length-append (drop cut s.events) (ev ∷ []) in
      let left = length-drop cut s.events in
      let old = b.bounded in
      record {
        bounded = omega arith;
        low = from;
        rising = Rising-snoc from (drop cut s.events) ev s.next_event r (omega arith);
      }

  on_json-HasBuffer :
      (o : Option V) (s : Stream V) → HasBuffer s → HasBuffer (on_json json clock o s).0
  on_json-HasBuffer none s b = b
  on_json-HasBuffer (some v) s b = of_done (json.done v)
    where
      of_done : (d : Bool ⊎ String) → HasBuffer (on_parsed json clock v d s).0
      of_done (inr message) = b
      of_done (inl true) = b
      of_done (inl false) = show_unless-HasBuffer s.paused_ref v s b

  on_line-HasBuffer :
      (l : String) (s : Stream V) → HasBuffer s → HasBuffer (on_line json clock l s).0
  unfolding on_line
  on_line-HasBuffer l s b = elim (Bool-cases (starts_with l "data: ")) [
    | inl e ↦ rw e (on_json-HasBuffer (json.parse (slice_text 6 l)) s b)
    | inr e ↦ rw e b
  ]

  on_lines-HasBuffer :
      (ls : List String) (s : Stream V) → HasBuffer s → HasBuffer (on_lines json clock ls s).0
  unfolding on_lines
  on_lines-HasBuffer [] s b = b
  on_lines-HasBuffer (l ∷ ls) s b =
      subst (λ r. HasBuffer r.0) (sym (on_lines-cons json clock l ls s))
        (of_ending (on_line json clock l s) (on_line-HasBuffer l s b)
          (λ u h. on_lines-HasBuffer ls u h))
    where
      of_ending :
          (r : Stream V × Ending)
          → HasBuffer r.0
          → ((u : Stream V) → HasBuffer u → HasBuffer (on_lines json clock ls u).0)
          → HasBuffer (and_then (on_lines json clock ls) r).0
      of_ending (u, goes_on) h ih = ih u h
      of_ending (u, returns) h ih = h
      of_ending (u, throws message) h ih = h

module _ {V : Type 0} (json : Json V) (clock : ℕ → String) (encode : String → String) where
  on_read-HasBuffer :
      (c : ℕ) (buf : String) (r : Read) (s : Stream V)
      → HasBuffer s
      → HasBuffer (on_read json clock encode c buf r s)
  unfolding on_read
  on_read-HasBuffer c buf finished s b = b
  on_read-HasBuffer c buf (chunk text) s b =
      on_ending-HasBuffer c (unfinished (buf +s text)) _
        (on_lines-HasBuffer json clock (complete_lines (buf +s text)) s b)
  on_read-HasBuffer c buf (broken name message) s b = catch_error-HasBuffer c name message s b

  on_run-HasBuffer :
      (o : Option Run) (c : ℕ) (s : Stream V)
      → HasBuffer s
      → ((r : Response) → HasBuffer (on_run_response json clock encode o c r s))
        × ((r : Read) → HasBuffer (on_run_read json clock encode o c r s))
  unfolding on_run_response on_run_read
  on_run-HasBuffer none c s b = (λ r. b, λ r. b)
  on_run-HasBuffer (some run) c s b = of_phase run.phase refl
    where
      of_phase :
          (p : Phase)
          → run.phase ≡ p
          → ((r : Response) → HasBuffer (on_run_response json clock encode (some run) c r s))
            × ((r : Read) → HasBuffer (on_run_read json clock encode (some run) c r s))
      of_phase fetching e = rw e (λ r. on_response-HasBuffer c r s b, λ r. b)
      of_phase (reading buf) e = rw e (λ r. b, λ r. on_read-HasBuffer c buf r s b)

  step-HasBuffer :
      (s : Stream V) (a : Action) → HasBuffer s → HasBuffer (step json clock encode s a)
  unfolding step
  step-HasBuffer s (starts i c limit) b = start-HasBuffer encode i c limit s b
  step-HasBuffer s stops b = abort_current-HasBuffer s.abort_ref s b
  step-HasBuffer s clears b = no_events s.next_event
  step-HasBuffer s syncs b = b
  step-HasBuffer s unmounts b = abort_current-HasBuffer s.abort_ref s b
  step-HasBuffer s (pauses p) b = b
  step-HasBuffer s (responds c r) b = (on_run-HasBuffer (find_run c s.runs) c s b).0 r
  step-HasBuffer s (reads c r) b = (on_run-HasBuffer (find_run c s.runs) c s b).1 r

  after_keeps-HasBuffer :
      (s : Stream V) (acts : List Action) → HasBuffer s → HasBuffer (after json clock encode s acts)
  unfolding after
  after_keeps-HasBuffer s [] b = b
  after_keeps-HasBuffer s (a ∷ rest) b =
      after_keeps-HasBuffer (step json clock encode s a) rest (step-HasBuffer s a b)

  -- Whatever the user and the server do, the stream holds at most a thousand events, in the order of
  -- their ids, so that no id stands twice, and none of them is above the counter.
  pub after-HasBuffer : (acts : List Action) → HasBuffer (after json clock encode idle_stream acts)
  after-HasBuffer acts = after_keeps-HasBuffer idle_stream acts (no_events 0)
