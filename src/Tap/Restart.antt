-- ===== src/Tap/Restart.antt =====
-- A run that `start` aborts, after the new run has begun.
use vortex_flow.Common.{
  ℕ, String, show, true, false, Option, none, some, List, [], ◌∷◌, ◌++◌, ◌≡◌, ◌≢◌, refl, ap, sym,
  ◌∙◌, subst, arith, ◌==◌, ◌||◌, trim, not, nat_eq, ◌+s◌, In, In-filter, In-append_right, at_head,
}
use vortex_flow.Tap.{Json, fetching, reading, Run, Stream, start, abort_current}
use vortex_flow.Tap.Steps.{broken, reads, find_run, on_read, on_run_read, step}

module _ {V : Type 0} (json : Json V) (clock : ℕ → String) (encode : String → String) where
  next_controller-abort_current :
      (o : Option ℕ) (s : Stream V)
      → ((abort_current o s).next_controller ≡ s.next_controller)
        × ((abort_current o s).runs ≡ s.runs)
  next_controller-abort_current none s = (refl, refl)
  next_controller-abort_current (some c) s = (refl, refl)

  -- The run that a call of `start` begins.
  abbrev pub new_run : String → String → ℕ → ℕ → Run
  new_run instance_id component_id limit n = record {
    controller = n;
    url =
        "/api/v1/instances/"
        +s instance_id
        +s "/tap?component_id="
        +s encode (trim component_id)
        +s "&limit="
        +s show limit;
    phase = fetching;
  }

  runs-start :
      (i c : String) (limit : ℕ) (s : Stream V)
      → (i == "" || trim c == "") ≡ false
      → (start encode i c limit s).runs ≡ s.runs ++ (new_run i c limit s.next_controller ∷ [])
  unfolding start
  runs-start i c limit s h =
      let same = next_controller-abort_current s.abort_ref s in rw (h, same.0, same.1) refl

  find_run-append :
      (c : ℕ) (rs qs : List Run) {r : Run} → find_run c rs ≡ some r → find_run c (rs ++ qs) ≡ some r
  find_run-append c [] qs h = ground arith
  find_run-append c (q ∷ rs) qs {r} h = ground (arith, find_run-append c rs qs {r = r})

  -- Where a run reads while a call of `start` passes its guard, the error that the abort raises in that
  -- run ends with the stream shown as stopped, although the new run is on its way.
  pub restart_stops :
      (i comp : String) (limit : ℕ) (s : Stream V) (c : ℕ) {run : Run} (buf message : String)
      → (i == "" || trim comp == "") ≡ false
      → find_run c s.runs ≡ some run
      → run.phase ≡ reading buf
      → s.next_controller ≢ c
      → let t =
          step json clock encode
            (start encode i comp limit s)
            (reads c (broken "AbortError" message)) in
        (t.running ≡ false) × In (new_run i comp limit s.next_controller) t.runs
  unfolding step on_run_read on_read
  restart_stops i comp limit s c {run} buf message given there phase fresh =
      let runs = runs-start i comp limit s given in
      let new = new_run i comp limit s.next_controller in
      let found : find_run c (start encode i comp limit s).runs ≡ some run =
        ap (find_run c) runs ∙ find_run-append c s.runs (new ∷ []) there in
      let apart : not (nat_eq s.next_controller c) ≡ true = ground arith in
      rw (found, phase)
        (
          refl,
          In-filter (λ r. not (nat_eq r.controller c)) (start encode i comp limit s).runs
              (subst (In new) (sym runs) (In-append_right s.runs (new ∷ []) (at_head refl))) apart,
        )
