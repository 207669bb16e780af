-- ===== src/Api/Tests.antt =====
-- The interceptors on short runs: two requests are refused, then the refresh is answered.
use vortex_flow.Common.{
  ℕ, ◌+◌, String, Bool, true, false, none, some, List, [], ◌∷◌, ◌≡◌, ◌↔◌, refl, In, at_head, later,
  includes_text,
}
use vortex_flow.Api.{
  Request, send, post_refresh, Event, fails, answered, granted, denied, is_401, is_auth_path,
  on_error, on_error_of, start_refresh, on_reply, answer, pick, step, run, loaded, attach_token,
  bearer,
}
use vortex_flow.Api.Flight.{Flight, run-Flight}
use vortex_flow.Api.Settled.{failed, settled, run_answered}
use vortex_flow.Api.Retry.{IsResent, run_sends}
use vortex_flow.Api.Asks.{on_error_asks}

abbrev request : ℕ → String → Bool → Request
request n url retry = record {
  caller = n;
  url = some url;
  authorization = some "Bearer old";
  retry = retry;
}

abbrev refused_401 : Request → Event
refused_401 r = fails (record { status = some 401; config = some r })

abbrev two_refused : List Event
two_refused = refused_401 (request 1 "/fleets" false) ∷ refused_401 (request 2 "/routes" false) ∷ []

login_is_auth : is_auth_path (some "/auth/login") ≡ true
unfolding is_auth_path includes_text
login_is_auth = refl

run-Flight_example : Flight (run (loaded none none) two_refused).0
run-Flight_example = run-Flight none none two_refused

run_answered_example :
    failed 2 two_refused
    ≡ settled 2 (run (loaded none none) two_refused).1
      + settled 2 (step (run (loaded none none) two_refused).0 (answered 0 (denied "gone"))).1
run_answered_example = run_answered 2 none none two_refused (denied "gone")

abbrev renewed : List Event
renewed = refused_401 (request 1 "/fleets" false) ∷ answered 0 (granted "new") ∷ []

abbrev again : Request
again = record { caller = 1; url = some "/fleets"; authorization = bearer "new"; retry = true }

again_sent : In (send again) (run (loaded none none) renewed).1
unfolding run step on_error on_error_of start_refresh answer on_reply pick attach_token is_401
    is_auth_path includes_text
again_sent = later (at_head refl)

run_sends_example : IsResent renewed again
run_sends_example = run_sends none none renewed again again_sent

on_error_asks_example :
    In post_refresh
      (on_error
        (loaded none none)
        (record { status = some 401; config = some (request 1 "/fleets" false) })).1
    ↔ ((is_401 (some 401) ≡ true)
        × (false ≡ false)
        × (is_auth_path (some "/fleets") ≡ false)
        × ((loaded none none).refreshing ≡ false))
on_error_asks_example = on_error_asks (loaded none none) (some 401) (request 1 "/fleets" false)
