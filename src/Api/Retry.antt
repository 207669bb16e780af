-- ===== src/Api/Retry.antt =====
-- What the handlers send again.
use vortex_flow.Common.{
  ℕ, String, false, Option, none, some, List, [], ◌∷◌, ◌++◌, ◌≡◌, refl, sym, subst, ◌||◌, not,
  Bool-cases, Option-cases, inl, inr, arith, In, at_head, later, not-In-nil, In-append,
}
use vortex_flow.Api.{
  Client, Request, AxiosError, Effect, Reason, send, post_refresh, reject, Event, fails, answered,
  Reply, granted, denied, is_401, is_auth_path, on_error, on_error_of, start_refresh, on_reply,
  answer, pick, step, run, loaded, mark_retry, bearer, refused, no_config,
}
use vortex_flow.Api.Marks.{
  IsMarked, HasMarked, IsRenewed, pick-In, resent-IsRenewed, not-sent, denied-sends,
}

Renews : Client → Event → Client × List Effect → Type 0
Renews s e out = HasMarked out.0 × ((q : Request) → In (send q) out.1 → IsRenewed e q)

on_reply-Renews :
    (s : Client) (i : ℕ) (r : Request) (err : AxiosError) (rest : List (Request × AxiosError))
    (reply : Reply)
    → HasMarked s
    → IsMarked r
    → ((w : Request × AxiosError) → In w rest → IsMarked w.0)
    → Renews s (answered i reply) (on_reply s r err rest reply)
unfolding Renews on_reply
on_reply-Renews s i r err rest (granted token) m mr others = (
  record { queue = λ x at. not-In-nil at; waits = others },
  λ q h. resent-IsRenewed s r q token i rest m.queue mr h,
)
on_reply-Renews s i r err rest (denied why) m mr others =
    (record { queue = λ x at. not-In-nil at; waits = others }, λ q h. denied-sends s r q err why h)

answer-Renews :
    (s : Client) (i : ℕ) (reply : Reply)
    → HasMarked s
    → Renews s (answered i reply) (answer s reply (pick i s.awaiting))
unfolding Renews answer
answer-Renews s i reply m = elim (Option-cases (pick i s.awaiting)) [
  | inl e ↦ rw e (m, λ q h. not-In-nil h)
  | inr ((w, rest), e) ↦
      let (there, others) = pick-In i s.awaiting rest w e in
      rw e (
        on_reply-Renews s i w.0 w.1 rest reply m (m.waits w there)
          (λ v at. m.waits v (others v at)))
]

with_last :
    {A : Type 0} {P : A → Type 0} (xs : List A) (x : A)
    → ((y : A) → In y xs → P y)
    → P x
    → (y : A) → In y (xs ++ (x ∷ []))
    → P y
with_last {P = P} xs x all last y h = elim (In-append xs _ h) [
  | inl k ↦ all y k
  | inr (at_head e) ↦ subst P (sym e) last
  | inr (later k) ↦ not-In-nil k
]

start_refresh-Renews :
    (s : Client) (err : AxiosError) (r : Request)
    → HasMarked s
    → is_auth_path r.url ≡ false
    → Renews s (fails err) (start_refresh s err r)
unfolding Renews start_refresh
start_refresh-Renews s err r m plain =
    let mark : IsMarked (mark_retry r) = record { marked = refl; plain = plain } in
    elim (Bool-cases s.refreshing) [
      | inl e ↦ rw e (
        record { queue = with_last s.refresh_queue (mark_retry r) m.queue mark; waits = m.waits },
        λ q h. not-In-nil h,
      )
      | inr e ↦ rw e (
        record { queue = m.queue; waits = with_last s.awaiting (mark_retry r, err) m.waits mark },
        λ q h. elim h [ at_head same ↦ not-sent q post_refresh refl same | later k ↦ not-In-nil k ],
      )
    ]

refused-Renews :
    (s : Client) (err : AxiosError) (o : Option Request) (why : Reason)
    → HasMarked s
    → Renews s (fails err) (s, reject o why ∷ [])
unfolding Renews
refused-Renews s err o why m = (
  m,
  λ q h. elim h [ at_head same ↦ not-sent q (reject o why) refl same | later k ↦ not-In-nil k ],
)

on_error-Renews :
    (s : Client) (err : AxiosError) (o : Option Request)
    → HasMarked s
    → Renews s (fails err) (on_error_of s err o)
unfolding on_error_of
on_error-Renews s err none m = elim (Bool-cases (not (is_401 err.status))) [
  | inl e ↦ rw e (refused-Renews s err none (refused err) m)
  | inr e ↦ rw e (refused-Renews s err none no_config m)
]
on_error-Renews s err (some r) m =
    elim (Bool-cases (not (is_401 err.status) || (r.retry || is_auth_path r.url))) [
      | inl e ↦ rw e (refused-Renews s err (some r) (refused err) m)
      | inr e ↦ rw e (start_refresh-Renews s err r m (ground arith))
    ]

step-Renews : (s : Client) (e : Event) → HasMarked s → Renews s e (step s e)
unfolding step on_error
step-Renews s (fails err) m = on_error-Renews s err err.config m
step-Renews s (answered i reply) m = answer-Renews s i reply m

-- The request was sent again: its mark is set, its path is none of those of authentication, and it
-- bears a token that the server granted during the run.
pub record IsResent (es : List Event) (r : Request) : Type 0 where
  pub mark : IsMarked r
  pub place : ℕ
  pub token : String
  pub came : In (answered place (granted token)) es
  pub bears : r.authorization ≡ bearer token

run-IsResent :
    (s : Client) (es : List Event) (q : Request)
    → HasMarked s
    → In (send q) (run s es).1
    → IsResent es q
unfolding run Renews
run-IsResent s [] q m h = not-In-nil h
run-IsResent s (e ∷ es) q m h =
    let (kept, sent) = step-Renews s e m in
    elim (In-append (step s e).1 _ h) [
      | inl k ↦
          let n = sent q k in
          record {
            mark = n.mark;
            place = n.place;
            token = n.token;
            came = at_head (sym n.came);
            bears = n.bears;
          }
      | inr k ↦
          let n = run-IsResent (step s e).0 es q kept k in
          record {
            mark = n.mark;
            place = n.place;
            token = n.token;
            came = later n.came;
            bears = n.bears;
          }
    ]

-- In a run of the client, every request that the handlers send again is marked as retried, its path
-- is none of those of authentication, and it bears a token that the server granted in this run.
pub run_sends :
    (access refresh : Option String) (es : List Event) (q : Request)
    → In (send q) (run (loaded access refresh) es).1
    → IsResent es q
run_sends access refresh es q h =
    run-IsResent (loaded access refresh) es q
      (record { queue = λ r at. not-In-nil at; waits = λ w at. not-In-nil at }) h
