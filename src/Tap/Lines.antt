-- ===== src/Tap/Lines.antt =====
-- The loop over the lines of a chunk, and the phases of the runs.
use vortex_flow.Common.{
  ℕ, String, Bool, true, false, Option, none, some, List, [], ◌∷◌, ◌++◌, filter, not, ◌≡◌, refl, ap,
  sym, ◌∙◌, nat_eq, ◌+s◌, ◌⊎◌, inl, inr, starts_with, slice_text, Bool-cases, split-append,
  init_parts-append, last_part-append, split-ne-nil, arith,
}
use vortex_flow.Tap.{
  Json, Phase, Run, Stream, Ending, goes_on, returns, throws, show_unless, on_parsed, on_json,
  on_line, on_lines, complete_lines, unfinished,
}
use vortex_flow.Tap.Steps.{find_run, set_phase}

pub complete_lines-append :
    (s t : String)
    → complete_lines (s +s t) ≡ complete_lines s ++ complete_lines (unfinished s +s t)
complete_lines-append s t =
    let (p, ps, e) = split-ne-nil "\n" (unfinished s +s t) in
    rw (split-append "\n" s t, e) (init_parts-append (complete_lines s) p ps)

pub unfinished-append : (s t : String) → unfinished (s +s t) ≡ unfinished (unfinished s +s t)
unfinished-append s t =
    let (p, ps, e) = split-ne-nil "\n" (unfinished s +s t) in
    rw (split-append "\n" s t, e) (last_part-append (complete_lines s) p ps)

pub find_run-set_phase :
    (c : ℕ) (p : Phase) (runs : List Run) {r : Run}
    → find_run c runs ≡ some r
    → find_run c (set_phase c p runs) ≡ some (record r { phase = p })
unfolding set_phase
find_run-set_phase c p [] h = ground arith
find_run-set_phase c p (q ∷ rs) {r} h = elim (Bool-cases (nat_eq q.controller c)) [
  | inl e ↦ let same : q ≡ r = ground arith in rw (e, e) (rw same refl)
  | inr e ↦ rw (e, e) (find_run-set_phase c p rs (rw e at h))
]

pub set_phase-set_phase :
    (c : ℕ) (p q : Phase) (runs : List Run)
    → set_phase c p (set_phase c q runs) ≡ set_phase c p runs
unfolding set_phase
set_phase-set_phase c p q [] = refl
set_phase-set_phase c p q (r ∷ rs) = elim (Bool-cases (nat_eq r.controller c)) [
  | inl e ↦ rw (e, e) (ap (λ l. record r { phase = p } ∷ l) (set_phase-set_phase c p q rs))
  | inr e ↦ rw (e, e) (ap (λ l. r ∷ l) (set_phase-set_phase c p q rs))
]

pub filter-set_phase :
    (c : ℕ) (p : Phase) (runs : List Run)
    → filter (λ r. not (nat_eq r.controller c)) (set_phase c p runs)
      ≡ filter (λ r. not (nat_eq r.controller c)) runs
unfolding set_phase
filter-set_phase c p [] = refl
filter-set_phase c p (r ∷ rs) = elim (Bool-cases (nat_eq r.controller c)) [
  | inl e ↦ rw (e, e) (filter-set_phase c p rs)
  | inr e ↦ rw (e, e) (ap (λ l. r ∷ l) (filter-set_phase c p rs))
]

pub find_run-finished :
    (c : ℕ) (runs : List Run) → find_run c (filter (λ r. not (nat_eq r.controller c)) runs) ≡ none
find_run-finished c [] = refl
find_run-finished c (r ∷ rs) = elim (Bool-cases (nat_eq r.controller c)) [
  | inl e ↦ rw e (find_run-finished c rs)
  | inr e ↦ rw (e, e) (find_run-finished c rs)
]

module _ {V : Type 0} where
  abbrev pub with_runs : List Run → Stream V × Ending → Stream V × Ending
  with_runs runs (s, e) = (record s { runs = runs }, e)

  abbrev pub and_then : (Stream V → Stream V × Ending) → Stream V × Ending → Stream V × Ending
  and_then k (s, goes_on) = k s
  and_then k (s, returns) = (s, returns)
  and_then k (s, throws message) = (s, throws message)

module _ {V : Type 0} (json : Json V) (clock : ℕ → String) where
  on_line-with_runs :
      (runs : List Run) (l : String) (s : Stream V)
      → on_line json clock l (record s { runs = runs }) ≡ with_runs runs (on_line json clock l s)
  unfolding on_line
  on_line-with_runs runs l s = elim (Bool-cases (starts_with l "data: ")) [
    | inr e ↦ rw e refl
    | inl e ↦ rw e (of_json (json.parse (slice_text 6 l)))
  ]
    where
      of_shown :
          (p : Bool) (v : V)
          → show_unless json clock p v (record s { runs = runs })
            ≡ record (show_unless json clock p v s) { runs = runs }
      of_shown true v = refl
      of_shown false v = refl

      of_done :
          (v : V) (d : Bool ⊎ String)
          → on_parsed json clock v d (record s { runs = runs })
            ≡ with_runs runs (on_parsed json clock v d s)
      of_done v (inr message) = refl
      of_done v (inl true) = refl
      of_done v (inl false) = ap (λ t. (t, goes_on)) (of_shown s.paused_ref v)

      of_json :
          (o : Option V)
          → on_json json clock o (record s { runs = runs })
            ≡ with_runs runs (on_json json clock o s)
      of_json none = refl
      of_json (some v) = of_done v (json.done v)

  pub on_lines-cons :
      (l : String) (ls : List String) (s : Stream V)
      → on_lines json clock (l ∷ ls) s ≡ and_then (on_lines json clock ls) (on_line json clock l s)
  unfolding on_lines
  on_lines-cons l ls s = of_ending (on_line json clock l s)
    where
      of_ending :
          (r : Stream V × Ending)
          → elim r.1 [
            | goes_on ↦ on_lines json clock ls r.0
            | returns ↦ (r.0, returns)
            | throws message ↦ (r.0, throws message)
          ]
            ≡ and_then (on_lines json clock ls) r
      of_ending (t, goes_on) = refl
      of_ending (t, returns) = refl
      of_ending (t, throws message) = refl

  pub on_lines-append :
      (xs ys : List String) (s : Stream V)
      → on_lines json clock (xs ++ ys) s
        ≡ and_then (on_lines json clock ys) (on_lines json clock xs s)
  unfolding on_lines
  on_lines-append [] ys s = refl
  on_lines-append (x ∷ xs) ys s =
      on_lines-cons x (xs ++ ys) s
      ∙ of_ending (λ u. on_lines-append xs ys u) (on_line json clock x s)
      ∙ ap (and_then (on_lines json clock ys)) (sym (on_lines-cons x xs s))
    where
      of_ending :
          ((u : Stream V)
            → on_lines json clock (xs ++ ys) u
              ≡ and_then (on_lines json clock ys) (on_lines json clock xs u))
          → (r : Stream V × Ending)
          → and_then (on_lines json clock (xs ++ ys)) r
            ≡ and_then (on_lines json clock ys) (and_then (on_lines json clock xs) r)
      of_ending ih (u, goes_on) = ih u
      of_ending ih (u, returns) = refl
      of_ending ih (u, throws message) = refl

  pub on_lines-with_runs :
      (runs : List Run) (ls : List String) (s : Stream V)
      → on_lines json clock ls (record s { runs = runs })
        ≡ with_runs runs (on_lines json clock ls s)
  unfolding on_lines
  on_lines-with_runs runs [] s = refl
  on_lines-with_runs runs (l ∷ ls) s =
      on_lines-cons l ls (record s { runs = runs })
      ∙ ap (and_then (on_lines json clock ls)) (on_line-with_runs runs l s)
      ∙ of_ending (λ u. on_lines-with_runs runs ls u) (on_line json clock l s)
      ∙ ap (with_runs runs) (sym (on_lines-cons l ls s))
    where
      of_ending :
          ((u : Stream V)
            → on_lines json clock ls (record u { runs = runs })
              ≡ with_runs runs (on_lines json clock ls u))
          → (r : Stream V × Ending)
          → and_then (on_lines json clock ls) (with_runs runs r)
            ≡ with_runs runs (and_then (on_lines json clock ls) r)
      of_ending ih (u, goes_on) = ih u
      of_ending ih (u, returns) = refl
      of_ending ih (u, throws message) = refl

  pub runs-on_lines : (ls : List String) (s : Stream V) → (on_lines json clock ls s).0.runs ≡ s.runs
  runs-on_lines ls s = ap (λ r. r.0.runs) (on_lines-with_runs s.runs ls s)
