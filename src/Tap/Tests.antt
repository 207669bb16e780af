-- ===== src/Tap/Tests.antt =====
-- The stream on small inputs; a record is the text itself, and `end` is the last one.
use vortex_flow.Common.{
  ℕ, String, true, false, none, some, List, [], ◌∷◌, ◌≡◌, ◌≢◌, refl, In, inl, ◌==◌, ◌||◌,
  if◌then◌else◌, map, show, split, trim, init_parts, last_part, slice_text, arith,
}
use vortex_flow.Tap.{Json, Stream, idle_stream, start, reading, Run, on_lines, on_line}
use vortex_flow.Tap.Steps.{
  Action, starts, responds, reads, success, chunk, broken, step, after, find_run, on_run_response,
  on_response, on_run_read, on_read, set_phase,
}
use vortex_flow.Tap.Framing.{concat, after-chunks}
use vortex_flow.Tap.Buffer.{HasBuffer, after-HasBuffer}
use vortex_flow.Tap.Runs.{IsBacked, after-IsBacked}
use vortex_flow.Tap.Restart.{new_run, restart_stops}

abbrev json : Json String
json = record { parse = λ s. if s == "" then none else some s; done = λ v. inl (v == "end") }

abbrev clock : ℕ → String
clock n = "now"

abbrev encode : String → String
encode s = s

abbrev opened : List Action
opened = starts "i" "in" 50 ∷ responds 0 (success true) ∷ []

abbrev open_stream : Stream String
open_stream = after json clock encode idle_stream opened

two_events :
    map
      (λ e. e.raw)
      (after json clock encode open_stream (reads 0 (chunk "data: a\ndata: b\nda") ∷ [])).events
    ≡ "a" ∷ "b" ∷ []
unfolding after step start on_run_response on_response on_run_read on_read on_lines on_line
    set_phase split trim init_parts last_part slice_text
two_events = refl

after-chunks_example :
    after json clock encode open_stream
      (map (λ t. reads 0 (chunk t)) ("data: a\nda" ∷ "ta: b\n" ∷ []))
    ≡ step json clock encode open_stream (reads 0 (chunk (concat ("data: a\nda" ∷ "ta: b\n" ∷ []))))
after-chunks_example = after-chunks json clock encode 0 "data: a\nda" ("ta: b\n" ∷ []) open_stream

after-HasBuffer_example : HasBuffer (after json clock encode idle_stream opened)
after-HasBuffer_example = after-HasBuffer json clock encode opened

after-IsBacked_example : IsBacked (after json clock encode idle_stream opened)
after-IsBacked_example = after-IsBacked json clock encode opened

abbrev open_run : Run
open_run = record {
  controller = 0;
  url = "/api/v1/instances/i/tap?component_id=in&limit=50";
  phase = reading "";
}

open_run_reads : find_run 0 open_stream.runs ≡ some open_run
unfolding after step start on_run_response on_response set_phase trim show
open_run_reads = refl

one_next : open_stream.next_controller ≡ 1
unfolding after step start on_run_response on_response trim
one_next = refl

not_blank : ("i" == "" || trim "out" == "") ≡ false
unfolding trim
not_blank = refl

not_same : open_stream.next_controller ≢ 0
not_same e = ground (arith, one_next)

restart_stops_example :
    let t =
      step json clock encode
        (start encode "i" "out" 50 open_stream)
        (reads 0 (broken "AbortError" "aborted")) in
    (t.running ≡ false)
    × In (new_run json clock encode "i" "out" 50 open_stream.next_controller) t.runs
restart_stops_example =
    restart_stops json clock encode "i" "out" 50 open_stream 0 "" "aborted" not_blank open_run_reads
      refl not_same
