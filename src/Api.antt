-- ===== src/Api.antt =====
-- frontend/src/lib/api.ts: the interceptors of the HTTP client, which renew the access token when a
-- request is refused with 401. The handler of errors is cut at its `await`: `on_error` runs up to it,
-- `on_reply` from it to the end. `awaiting` holds the calls of the handler that stand at the `await`.
-- A request carries a number that stands for the promise of its caller. The server and the clock
-- are the events of a run.
pub mod Flight
pub mod Settled
pub mod Marks
pub mod Retry
pub mod Asks
mod Tests
use vortex_flow.Common.{
  ℕ, zero, suc, String, Bool, true, false, Option, none, some, List, [], ◌∷◌, ◌++◌, map, not, ◌==◌,
  ◌||◌, ◌&&◌, if◌then◌else◌, any, includes_text, nat_eq, ◌+s◌,
}

-- The config of a request: `_retry` is the mark the handler sets.
pub record Request : Type 0 where
  pub caller : ℕ
  pub url : Option String
  pub authorization : Option String
  pub retry : Bool

pub record AxiosError : Type 0 where
  pub status : Option ℕ
  pub config : Option Request

-- What a caller is rejected with: the error of its request, that of the refresh, or the error that
-- JavaScript throws where there is no config to mark.
pub data Reason : Type 0 where
  refused : AxiosError → Reason
  refresh_failed : String → Reason
  no_config : Reason

pub data Effect : Type 0 where
  send : Request → Effect
  post_refresh : Effect
  reject : Option Request → Reason → Effect
  go_to : String → Effect

pub record Client : Type 0 where
  pub access_token : Option String
  pub refresh_token : Option String
  pub refreshing : Bool
  pub refresh_queue : List Request
  pub awaiting : List (Request × AxiosError)

abbrev pub bearer : String → Option String
bearer token = some ("Bearer " +s token)

-- The interceptor of requests; an empty token counts as none.
unfoldable pub attach_token : Option String → Request → Request
attach_token none r = r
attach_token (some token) r =
    if token == ""
    then r
    else record { caller = r.caller; url = r.url; authorization = bearer token; retry = r.retry }

abbrev pub auth_paths : List String
auth_paths = "/auth/login" ∷ "/auth/refresh" ∷ "/auth/logout" ∷ []

unfoldable pub is_auth_path : Option String → Bool
is_auth_path none = false
is_auth_path (some url) = not (url == "") && any (λ p. includes_text p url) auth_paths

unfoldable pub is_401 : Option ℕ → Bool
is_401 none = false
is_401 (some status) = nat_eq status 401

abbrev pub mark_retry : Request → Request
mark_retry r = record {
  caller = r.caller;
  url = r.url;
  authorization = r.authorization;
  retry = true;
}

-- `Authorization` is set on the original before it is sent again.
abbrev pub authorize : String → Request → Request
authorize token r = record {
  caller = r.caller;
  url = r.url;
  authorization = bearer token;
  retry = r.retry;
}

-- `api(original)`
abbrev pub resend : String → Request → Effect
resend token r = send (attach_token (some token) (authorize token r))

-- The handler with a config at hand, from the setting of `_retry`.
unfoldable pub start_refresh : Client → AxiosError → Request → Client × List Effect
start_refresh s err original =
    let r = mark_retry original in
    if s.refreshing
    then (
      record {
        access_token = s.access_token;
        refresh_token = s.refresh_token;
        refreshing = true;
        refresh_queue = s.refresh_queue ++ (r ∷ []);
        awaiting = s.awaiting;
      },
      [],
    )
    else (
      record {
        access_token = s.access_token;
        refresh_token = s.refresh_token;
        refreshing = true;
        refresh_queue = s.refresh_queue;
        awaiting = s.awaiting ++ ((r, err) ∷ []);
      },
      post_refresh ∷ [],
    )

-- The handler by the config of the error.
unfoldable pub on_error_of : Client → AxiosError → Option Request → Client × List Effect
on_error_of s err none =
    if not (is_401 err.status)
    then (s, reject none (refused err) ∷ [])
    else (s, reject none no_config ∷ [])
on_error_of s err (some r) =
    if not (is_401 err.status) || (r.retry || is_auth_path r.url)
    then (s, reject (some r) (refused err) ∷ [])
    else start_refresh s err r

unfoldable pub on_error : Client → AxiosError → Client × List Effect
on_error s err = on_error_of s err err.config

-- The answer of the server to the refresh: a new access token, or an error.
pub data Reply : Type 0 where
  granted : String → Reply
  denied : String → Reply

-- From the `await` of the call that stands for `r` and `err`, the `finally` block included; `rest`
-- holds the other calls at their `await`.
unfoldable pub on_reply :
    Client → Request → AxiosError → List (Request × AxiosError) → Reply → Client × List Effect
on_reply s r err rest (granted token) = (
  record {
    access_token = some token;
    refresh_token = s.refresh_token;
    refreshing = false;
    refresh_queue = [];
    awaiting = rest;
  },
  map (resend token) s.refresh_queue ++ (resend token r ∷ []),
)
on_reply s r err rest (denied why) = (
  record {
    access_token = none;
    refresh_token = none;
    refreshing = false;
    refresh_queue = [];
    awaiting = rest;
  },
  map (λ q. reject (some q) (refresh_failed why)) s.refresh_queue
      ++ (go_to "/login" ∷ reject (some r) (refused err) ∷ []),
)

-- What happens to the client: a response with an error arrives, or a refresh is answered, the one
-- that the call at the given position awaits.
pub data Event : Type 0 where
  fails : AxiosError → Event
  answered : ℕ → Reply → Event

abbrev pub keep {ℓ} : {A : Type ℓ} → A → Option (A × List A) → Option (A × List A)
keep x none = none
keep x (some (y, ys)) = some (y, x ∷ ys)

-- The element at a position and the others.
unfoldable pub pick {ℓ} : {A : Type ℓ} → ℕ → List A → Option (A × List A)
pick n [] = none
pick zero (x ∷ xs) = some (x, xs)
pick (suc n) (x ∷ xs) = keep x (pick n xs)

unfoldable pub answer :
    Client
    → Reply
    → Option ((Request × AxiosError) × List (Request × AxiosError))
    → Client × List Effect
answer s reply none = (s, [])
answer s reply (some ((r, err), rest)) = on_reply s r err rest reply

unfoldable pub step : Client → Event → Client × List Effect
step s (fails err) = on_error s err
step s (answered i reply) = answer s reply (pick i s.awaiting)

unfoldable pub run : Client → List Event → Client × List Effect
run s [] = (s, [])
run s (e ∷ es) = let (s1, out) = step s e in let (s2, more) = run s1 es in (s2, out ++ more)

-- The client as the module is loaded.
abbrev pub loaded : Option String → Option String → Client
loaded access refresh = record {
  access_token = access;
  refresh_token = refresh;
  refreshing = false;
  refresh_queue = [];
  awaiting = [];
}
