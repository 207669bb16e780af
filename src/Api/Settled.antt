-- ===== src/Api/Settled.antt =====
-- No request is lost: each that fails is settled once, sent again or rejected.
use vortex_flow.Common.{
  ℕ, zero, suc, ◌+◌, String, false, Option, none, some, List, [], ◌∷◌, ◌++◌, map, ◌≡◌, refl, ap,
  sym, ◌∙◌, ◌||◌, not, ◌==◌, nat_eq, if◌then◌else◌, Bool-cases, Option-cases, inl, inr, arith,
}
use vortex_flow.Api.{
  Client, Request, AxiosError, Effect, send, post_refresh, reject, go_to, Event, fails, answered,
  Reply, granted, denied, is_401, is_auth_path, on_error, on_error_of, start_refresh, on_reply,
  answer, pick, keep, step, run, loaded, attach_token, resend, refused, refresh_failed, mark_retry,
}
use vortex_flow.Api.Flight.{Flight, idle, busy, run-Flight, step-Flight}

-- One where the number of the request is `c`, else none.
abbrev pub one : ℕ → Request → ℕ
one c r = if nat_eq r.caller c then 1 else 0

abbrev pub one_of : ℕ → Option Request → ℕ
one_of c none = 0
one_of c (some r) = one c r

unfoldable pub parked : ℕ → List Request → ℕ
parked c [] = 0
parked c (r ∷ rs) = one c r + parked c rs

unfoldable pub waiting : ℕ → List (Request × AxiosError) → ℕ
waiting c [] = 0
waiting c ((r, err) ∷ ws) = one c r + waiting c ws

-- How many requests of the caller stand in the queue or have their refresh on its way.
unfoldable pub pending : ℕ → Client → ℕ
pending c s = parked c s.refresh_queue + waiting c s.awaiting

unfoldable pub settles : ℕ → Effect → ℕ
settles c (send r) = one c r
settles c post_refresh = 0
settles c (reject r why) = one_of c r
settles c (go_to path) = 0

-- How many requests of the caller are sent again or rejected.
unfoldable pub settled : ℕ → List Effect → ℕ
settled c [] = 0
settled c (e ∷ es) = settles c e + settled c es

abbrev pub failing : ℕ → Event → ℕ
failing c (fails err) = one_of c err.config
failing c (answered i reply) = 0

-- How many requests of the caller fail.
unfoldable pub failed : ℕ → List Event → ℕ
failed c [] = 0
failed c (e ∷ es) = failing c e + failed c es

parked-append : (c : ℕ) (xs ys : List Request) → parked c (xs ++ ys) ≡ parked c xs + parked c ys
unfolding parked
parked-append c [] ys = omega arith
parked-append c (x ∷ xs) ys = let ih = parked-append c xs ys in omega arith

waiting-append :
    (c : ℕ) (xs ys : List (Request × AxiosError))
    → waiting c (xs ++ ys) ≡ waiting c xs + waiting c ys
unfolding waiting
waiting-append c [] ys = omega arith
waiting-append c (x ∷ xs) ys = let ih = waiting-append c xs ys in omega arith

settled-append : (c : ℕ) (xs ys : List Effect) → settled c (xs ++ ys) ≡ settled c xs + settled c ys
unfolding settled
settled-append c [] ys = omega arith
settled-append c (x ∷ xs) ys = let ih = settled-append c xs ys in omega arith

waiting-pick :
    (c i : ℕ) (ws rest : List (Request × AxiosError)) (w : Request × AxiosError)
    → pick i ws ≡ some (w, rest)
    → waiting c ws ≡ one c w.0 + waiting c rest
unfolding waiting pick
waiting-pick c i [] rest w h = ground arith
waiting-pick c zero (x ∷ xs) rest w h =
    let both : (x ≡ w) × (xs ≡ rest) = ground arith in rw (sym both.0, sym both.1) refl
waiting-pick c (suc i) (x ∷ xs) rest w h = elim (Option-cases (pick i xs)) [
  | inl e ↦ let clash : keep x (pick i xs) ≡ none = ap (keep x) e in ground arith
  | inr ((y, ys), e) ↦
      let ih = waiting-pick c i xs ys y e in
      let both : some (y, x ∷ ys) ≡ some (w, rest) = sym (ap (keep x) e) ∙ h in
      let same : (y ≡ w) × (x ∷ ys ≡ rest) = ground arith in
      rw (sym same.0, sym same.1, ih) (omega arith)
]

settles-resend : (c : ℕ) (token : String) (r : Request) → settles c (resend token r) ≡ one c r
unfolding settles attach_token
settles-resend c token r = elim (Bool-cases (token == "")) [ inl e ↦ rw e refl | inr e ↦ rw e refl ]

settled-resend :
    (c : ℕ) (token : String) (rs : List Request) → settled c (map (resend token) rs) ≡ parked c rs
unfolding settled parked
settled-resend c token [] = refl
settled-resend c token (r ∷ rs) =
    rw (settles-resend c token r) (ap (λ n. one c r + n) (settled-resend c token rs))

settled-reject :
    (c : ℕ) (why : String) (rs : List Request)
    → settled c (map (λ q. reject (some q) (refresh_failed why)) rs) ≡ parked c rs
unfolding settled settles parked
settled-reject c why [] = refl
settled-reject c why (r ∷ rs) = ap (λ n. one c r + n) (settled-reject c why rs)

on_reply-settles :
    (c : ℕ) (s : Client) (r : Request) (err : AxiosError) (rest : List (Request × AxiosError))
    (reply : Reply)
    → one c r + (parked c s.refresh_queue + waiting c rest)
      ≡ settled c (on_reply s r err rest reply).1 + pending c (on_reply s r err rest reply).0
unfolding on_reply pending parked settled settles
on_reply-settles c s r err rest (granted token) =
    let queue = settled-resend c token s.refresh_queue in
    let last = settles-resend c token r in
    rw (settled-append c (map (resend token) s.refresh_queue) (resend token r ∷ [])) (omega arith)
on_reply-settles c s r err rest (denied why) =
    let queue = settled-reject c why s.refresh_queue in
    rw
      (settled-append c (map (λ q. reject (some q) (refresh_failed why)) s.refresh_queue)
        (go_to "/login" ∷ reject (some r) (refused err) ∷ []))
      (omega arith)

answer-settles :
    (c : ℕ) (s : Client) (i : ℕ) (reply : Reply)
    → pending c s
      ≡ settled c (answer s reply (pick i s.awaiting)).1
        + pending c (answer s reply (pick i s.awaiting)).0
unfolding answer pending settled
answer-settles c s i reply = of_pick (pick i s.awaiting) refl
  where
    of_pick :
        (o : Option ((Request × AxiosError) × List (Request × AxiosError)))
        → pick i s.awaiting ≡ o
        → pending c s ≡ settled c (answer s reply o).1 + pending c (answer s reply o).0
    of_pick none e = omega arith
    of_pick (some ((r, err), rest)) e =
        let out = on_reply-settles c s r err rest reply in
        let split = waiting-pick c i s.awaiting rest (r, err) e in omega arith

start_refresh-settles :
    (c : ℕ) (s : Client) (err : AxiosError) (r : Request)
    → one c r + pending c s
      ≡ settled c (start_refresh s err r).1 + pending c (start_refresh s err r).0
unfolding start_refresh pending settled settles parked waiting
start_refresh-settles c s err r =
    let queue = parked-append c s.refresh_queue (mark_retry r ∷ []) in
    let waits = waiting-append c s.awaiting ((mark_retry r, err) ∷ []) in
    elim (Bool-cases s.refreshing) [ inl e ↦ rw e (omega arith) | inr e ↦ rw e (omega arith) ]

on_error-settles :
    (c : ℕ) (s : Client) (err : AxiosError) (o : Option Request)
    → one_of c o + pending c s
      ≡ settled c (on_error_of s err o).1 + pending c (on_error_of s err o).0
unfolding on_error_of settled settles
on_error-settles c s err none = elim (Bool-cases (not (is_401 err.status))) [
  | inl e ↦ rw e refl
  | inr e ↦ rw e refl
]
on_error-settles c s err (some r) =
    elim (Bool-cases (not (is_401 err.status) || (r.retry || is_auth_path r.url))) [
      | inl e ↦ rw e (omega arith)
      | inr e ↦ rw e (start_refresh-settles c s err r)
    ]

step-settles :
    (c : ℕ) (s : Client) (e : Event)
    → failing c e + pending c s ≡ settled c (step s e).1 + pending c (step s e).0
unfolding step on_error
step-settles c s (fails err) = on_error-settles c s err err.config
step-settles c s (answered i reply) = let done = answer-settles c s i reply in omega arith

-- Over any run, the requests of a caller that fail and those that were pending at its start are the
-- ones that were sent again or rejected and those that are pending at its end: none is lost, and
-- none is settled twice.
pub run_settles :
    (c : ℕ) (s : Client) (es : List Event)
    → failed c es + pending c s ≡ settled c (run s es).1 + pending c (run s es).0
unfolding failed settled run
run_settles c s [] = refl
run_settles c s (e ∷ es) =
    let now = step-settles c s e in
    let later = run_settles c (step s e).0 es in
    rw (settled-append c (step s e).1 (run (step s e).0 es).1) (omega arith)

pending-idle : (c : ℕ) (s : Client) → s.refreshing ≡ false → Flight s → pending c s ≡ 0
unfolding pending parked waiting
pending-idle c s off (idle same none_waits none_parked) = rw (none_parked, none_waits) refl
pending-idle c s off (busy p on waits) = ground arith

answer_ends :
    (s : Client) (reply : Reply) → Flight s → (step s (answered 0 reply)).0.refreshing ≡ false
unfolding step answer on_reply pick
answer_ends s reply (idle off none_waits none_parked) = rw none_waits off
answer_ends s (granted token) (busy (r, err) on waits) = rw waits refl
answer_ends s (denied why) (busy (r, err) on waits) = rw waits refl

-- Once the refresh that is on its way is answered, with a token or with an error, every request that
-- failed since the page was loaded has been sent again or rejected as often as it failed: no caller
-- hangs.
pub run_answered :
    (c : ℕ) (access refresh : Option String) (es : List Event) (reply : Reply)
    → let s = (run (loaded access refresh) es).0 in
      failed c es
      ≡ settled c (run (loaded access refresh) es).1 + settled c (step s (answered 0 reply)).1
unfolding pending parked waiting
run_answered c access refresh es reply =
    let s = (run (loaded access refresh) es).0 in
    let none_yet : pending c (loaded access refresh) ≡ 0 = refl in
    let before = run_settles c (loaded access refresh) es in
    let now = step-settles c s (answered 0 reply) in
    let f = run-Flight access refresh es in
    let ended =
      pending-idle c (step s (answered 0 reply)).0 (answer_ends s reply f)
        (step-Flight s (answered 0 reply) f) in
    omega arith
