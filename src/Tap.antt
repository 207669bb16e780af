-- ===== src/Tap.antt =====
-- frontend/src/components/shared/LiveTap.tsx: `useTapStream`, the live stream of events of one
-- component. Each call of `start` that passes its guard is a run; the parts of a run between two
-- `await`s are the steps `on_response` and `on_read`. The server, the user and React are the actions.
-- `Json` stands for `JSON.parse` on records of type `V`, and `clock` for the time at which an event is
-- made. What the decoder yields for a chunk is the chunk.
pub mod Steps
pub mod Lines
pub mod Framing
pub mod Buffer
pub mod Runs
pub mod Restart
pub mod Inferred
mod Tests
use vortex_flow.Common.{
  ℕ, ◌+◌, ◌-◌, String, Bool, true, false, Option, none, some, List, [], ◌∷◌, ◌++◌, map, not, find,
  ◌⊎◌, inl, inr, ◌==◌, ◌||◌, ◌&&◌, if◌then◌else◌, filter, length, split, join, trim, starts_with,
  ◌+s◌, nat_eq, show, drop, slice_text, init_parts, last_part,
}

pub record TapEvent (V : Type 0) : Type 0 where
  pub id : ℕ
  pub ts : String
  pub raw : V

-- `JSON.parse`, none where it throws, and `parsed.done` as a test or the text of what it throws.
pub record Json (V : Type 0) : Type 0 where
  pub parse : String → Option V
  pub done : V → Bool ⊎ String

-- Where a run stands: at the `fetch`, or at a `read` with the text that is left in `buf`.
pub data Phase : Type 0 where
  fetching : Phase
  reading : String → Phase

pub record Run : Type 0 where
  pub controller : ℕ
  pub url : String
  pub phase : Phase

-- `next_event` is the counter of the module, `next_controller` numbers the controllers.
pub record Stream (V : Type 0) : Type 0 where
  pub events : List (TapEvent V)
  pub running : Bool
  pub paused : Bool
  pub error : Option String
  pub abort_ref : Option ℕ
  pub paused_ref : Bool
  pub next_event : ℕ
  pub next_controller : ℕ
  pub aborted : List ℕ
  pub runs : List Run

abbrev pub idle_stream : {V : Type 0} → Stream V
idle_stream = record {
  events = [];
  running = false;
  paused = false;
  error = none;
  abort_ref = none;
  paused_ref = false;
  next_event = 0;
  next_controller = 0;
  aborted = [];
  runs = [];
}

abbrev pub last_thousand {ℓ} : {A : Type ℓ} → List A → A → List A
last_thousand prev ev = drop (length prev - 999) prev ++ (ev ∷ [])

module _ {V : Type 0} where
  abbrev pub stop_running : Stream V → Stream V
  stop_running s = record s { running = false }

  abbrev pub fail_with : String → Stream V → Stream V
  fail_with message s = record s { error = some message; running = false }

  -- `abortRef.current?.abort()`
  abbrev pub abort_current : Option ℕ → Stream V → Stream V
  abort_current none s = s
  abort_current (some c) s = record s { aborted = c ∷ s.aborted }

  -- `start` up to its `fetch`; `encode` stands for `encodeURIComponent`.
  unfoldable pub start : (String → String) → String → String → ℕ → Stream V → Stream V
  start encode instance_id component_id limit s =
      let comp = trim component_id in
      if instance_id == "" || comp == ""
      then s
      else let t = abort_current s.abort_ref s in
        record t {
          events = [];
          error = none;
          running = true;
          paused = false;
          paused_ref = false;
          abort_ref = some t.next_controller;
          next_controller = t.next_controller + 1;
          runs =
              t.runs
              ++ (record {
                controller = t.next_controller;
                url =
                    "/api/v1/instances/"
                    +s instance_id
                    +s "/tap?component_id="
                    +s encode comp
                    +s "&limit="
                    +s show limit;
                phase = fetching;
              }
                  ∷ []);
        }

  abbrev pub stop : Stream V → Stream V
  stop s = stop_running (abort_current s.abort_ref s)

  abbrev pub clear : Stream V → Stream V
  clear s = record s { events = [] }

  abbrev pub set_paused : Bool → Stream V → Stream V
  set_paused p s = record s { paused = p }

  -- The effect that copies `paused` into its reference after a render.
  abbrev pub sync_paused : Stream V → Stream V
  sync_paused s = record s { paused_ref = s.paused }

-- How the loop over the lines of a chunk ends.
pub data Ending : Type 0 where
  goes_on returns : Ending
  throws : String → Ending

module _ {V : Type 0} (json : Json V) (clock : ℕ → String) where
  -- The record is shown, unless the stream is paused.
  abbrev pub show_unless : Bool → V → Stream V → Stream V
  show_unless true v s = s
  show_unless false v s = record s {
    next_event = s.next_event + 1;
    events =
        last_thousand s.events
          (record { id = s.next_event + 1; ts = clock (s.next_event + 1); raw = v });
  }

  abbrev pub on_parsed : V → Bool ⊎ String → Stream V → Stream V × Ending
  on_parsed v (inr message) s = (s, throws message)
  on_parsed v (inl true) s = (stop_running s, returns)
  on_parsed v (inl false) s = (show_unless s.paused_ref v s, goes_on)

  abbrev pub on_json : Option V → Stream V → Stream V × Ending
  on_json none s = (s, goes_on)
  on_json (some v) s = on_parsed v (json.done v) s

  -- The body of the loop, for one line.
  unfoldable pub on_line : String → Stream V → Stream V × Ending
  on_line line s =
      if starts_with line "data: " then on_json (json.parse (slice_text 6 line)) s else (s, goes_on)

  unfoldable pub on_lines : List String → Stream V → Stream V × Ending
  on_lines [] s = (s, goes_on)
  on_lines (l ∷ ls) s =
      let r = on_line l s in
      elim r.1 [
        | goes_on ↦ on_lines ls r.0
        | returns ↦ (r.0, returns)
        | throws message ↦ (r.0, throws message)
      ]

-- The lines that are complete once a chunk is added to the buffer, and what is left in it.
abbrev pub complete_lines : String → List String
complete_lines text = init_parts (split "\n" text)

abbrev pub unfinished : String → String
unfinished text = last_part (split "\n" text)
