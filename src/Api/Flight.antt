-- ===== src/Api/Flight.antt =====
-- At most one refresh is on its way, and requests are parked for it alone.
use vortex_flow.Common.{
  ℕ, zero, suc, String, true, false, Option, none, some, List, [], ◌∷◌, ◌++◌, ◌≡◌, refl, ap, sym,
  ◌∙◌, ◌||◌, not, Bool-cases, inl, inr,
}
use vortex_flow.Api.{
  Client, Request, AxiosError, Event, fails, answered, Reply, granted, denied, is_401, is_auth_path,
  on_error, on_error_of, start_refresh, mark_retry, on_reply, answer, pick, step, run, loaded,
}

abbrev rest {ℓ} : {A : Type ℓ} → List A → List A
rest [] = []
rest (x ∷ xs) = xs

pub data Flight (s : Client) : Type 0 where
  idle : s.refreshing ≡ false → s.awaiting ≡ [] → s.refresh_queue ≡ [] → Flight s
  busy : (p : Request × AxiosError) → s.refreshing ≡ true → s.awaiting ≡ p ∷ [] → Flight s

start_refresh-Flight :
    (s : Client) (err : AxiosError) (r : Request) → Flight s → Flight (start_refresh s err r).0
unfolding start_refresh
start_refresh-Flight s err r (idle off none_waits none_parked) =
    rw off (busy (mark_retry r, err) refl (ap (λ ws. ws ++ ((mark_retry r, err) ∷ [])) none_waits))
start_refresh-Flight s err r (busy p on one) = rw on (busy p refl one)

on_error-Flight : (s : Client) (err : AxiosError) → Flight s → Flight (on_error s err).0
unfolding on_error on_error_of
on_error-Flight s err f = of_config err.config
  where
    of_config : (c : Option Request) → Flight (on_error_of s err c).0
    of_config none = elim (Bool-cases (not (is_401 err.status))) [ inl e ↦ rw e f | inr e ↦ rw e f ]
    of_config (some r) =
        elim (Bool-cases (not (is_401 err.status) || (r.retry || is_auth_path r.url))) [
          | inl e ↦ rw e f
          | inr e ↦ rw e (start_refresh-Flight s err r f)
        ]

answer-Flight :
    (s : Client) (i : ℕ) (reply : Reply) (ws : List (Request × AxiosError))
    → s.awaiting ≡ ws
    → Flight s
    → Flight (answer s reply (pick i ws)).0
unfolding answer on_reply pick
answer-Flight s i reply [] same f = f
answer-Flight s i reply (w ∷ ws) same (idle off none_waits none_parked) = cc
answer-Flight s zero (granted token) (w ∷ ws) same (busy p on one) =
    idle refl (ap rest (sym same ∙ one)) refl
answer-Flight s zero (denied why) (w ∷ ws) same (busy p on one) =
    idle refl (ap rest (sym same ∙ one)) refl
answer-Flight s (suc i) reply (w ∷ ws) same (busy p on one) =
    rw (ap rest (sym same ∙ one)) (busy p on one)

pub step-Flight : (s : Client) (e : Event) → Flight s → Flight (step s e).0
unfolding step
step-Flight s (fails err) f = on_error-Flight s err f
step-Flight s (answered i reply) f = answer-Flight s i reply s.awaiting refl f

pub run_keeps-Flight : (s : Client) (es : List Event) → Flight s → Flight (run s es).0
unfolding run
run_keeps-Flight s [] f = f
run_keeps-Flight s (e ∷ es) f = run_keeps-Flight (step s e).0 es (step-Flight s e f)

-- However the errors and the answers of the server follow each other, the client is idle, with no
-- request parked and no call of the handler waiting, or exactly one refresh is on its way.
pub run-Flight :
    (access refresh : Option String) (es : List Event) → Flight (run (loaded access refresh) es).0
run-Flight access refresh es = run_keeps-Flight (loaded access refresh) es (idle refl refl refl)
