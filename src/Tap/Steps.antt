-- ===== src/Tap/Steps.antt =====
-- frontend/src/components/shared/LiveTap.tsx: the runs of the live stream as actions, one for each
-- part between two `await`s and for each call of the user or of React.
use vortex_flow.Common.{
  ℕ, String, Bool, true, false, Option, none, some, List, [], ◌∷◌, not, find, ◌==◌, if◌then◌else◌,
  filter, ◌+s◌, nat_eq,
}
use vortex_flow.Tap.{
  Json, Phase, fetching, reading, Run, Stream, fail_with, abort_current, start, stop, clear,
  set_paused, sync_paused, Ending, goes_on, returns, throws, on_lines, complete_lines, unfinished,
}

-- How the `fetch` of a run settles: a response, with its status and text where it is no success, and
-- whether it has a body; or an error with its name and text.
pub data Response : Type 0 where
  success : Bool → Response
  failure : String → String → Response
  rejected : String → String → Response

pub data Read : Type 0 where
  finished : Read
  chunk : String → Read
  broken : String → String → Read

pub data Action : Type 0 where
  starts : String → String → ℕ → Action
  stops clears syncs unmounts : Action
  pauses : Bool → Action
  responds : ℕ → Response → Action
  reads : ℕ → Read → Action

abbrev pub find_run : ℕ → List Run → Option Run
find_run c runs = find (λ r. nat_eq r.controller c) runs

unfoldable pub set_phase : ℕ → Phase → List Run → List Run
set_phase c p [] = []
set_phase c p (r ∷ rs) =
    (if nat_eq r.controller c then record r { phase = p } else r) ∷ set_phase c p rs

module _ {V : Type 0} where
  -- The `finally` block; the run is over.
  abbrev pub finish : ℕ → Stream V → Stream V
  finish c s = record s { running = false; runs = filter (λ r. not (nat_eq r.controller c)) s.runs }

  -- The `catch` block and what follows.
  abbrev pub catch_error : ℕ → String → String → Stream V → Stream V
  catch_error c name message s =
      finish c (if name == "AbortError" then s else record s { error = some message })

  unfoldable pub on_response : ℕ → Response → Stream V → Stream V
  on_response c (success true) s = record s { runs = set_phase c (reading "") s.runs }
  on_response c (success false) s = finish c (fail_with "No response body" s)
  on_response c (failure status text) s = finish c (fail_with ("HTTP " +s status +s ": " +s text) s)
  on_response c (rejected name message) s = catch_error c name message s

  abbrev pub on_ending : ℕ → String → Stream V × Ending → Stream V
  on_ending c rest (s, goes_on) = record s { runs = set_phase c (reading rest) s.runs }
  on_ending c rest (s, returns) = finish c s
  on_ending c rest (s, throws message) = catch_error c "TypeError" message s

module _ {V : Type 0} (json : Json V) (clock : ℕ → String) (encode : String → String) where
  unfoldable pub on_read : ℕ → String → Read → Stream V → Stream V
  on_read c buf finished s = finish c s
  on_read c buf (chunk text) s =
      on_ending c (unfinished (buf +s text)) (on_lines json clock (complete_lines (buf +s text)) s)
  on_read c buf (broken name message) s = catch_error c name message s

  -- A response counts for a run at its `fetch`, a read for one that reads.
  unfoldable pub on_run_response : Option Run → ℕ → Response → Stream V → Stream V
  on_run_response none c r s = s
  on_run_response (some run) c r s = elim run.phase [
    | fetching ↦ on_response c r s
    | reading buf ↦ s
  ]

  unfoldable pub on_run_read : Option Run → ℕ → Read → Stream V → Stream V
  on_run_read none c r s = s
  on_run_read (some run) c r s = elim run.phase [ fetching ↦ s | reading buf ↦ on_read c buf r s ]

  unfoldable pub step : Stream V → Action → Stream V
  step s (starts instance_id component_id limit) = start encode instance_id component_id limit s
  step s stops = stop s
  step s clears = clear s
  step s syncs = sync_paused s
  step s unmounts = abort_current s.abort_ref s
  step s (pauses p) = set_paused p s
  step s (responds c r) = on_run_response (find_run c s.runs) c r s
  step s (reads c r) = on_run_read (find_run c s.runs) c r s

  unfoldable pub after : Stream V → List Action → Stream V
  after s [] = s
  after s (a ∷ rest) = after (step s a) rest
