-- ===== src/Api/Marks.antt =====
-- Marks on requests: what is parked is marked, and what is sent again was renewed.
use vortex_flow.Common.{
  ℕ, zero, suc, String, true, false, Option, none, some, List, [], ◌∷◌, ◌++◌, map, ◌≡◌, refl, ap,
  sym, ◌∙◌, subst, ◌==◌, Bool-cases, Option-cases, inl, inr, arith, In, at_head, later, not-In-nil,
  In-append, map-In,
}
use vortex_flow.Api.{
  Client, Request, AxiosError, Effect, send, post_refresh, reject, go_to, Event, answered, granted,
  is_auth_path, pick, keep, attach_token, authorize, resend, bearer, refused, refresh_failed,
}

-- The request was marked, and its path is none of those of authentication.
pub record IsMarked (r : Request) : Type 0 where
  pub marked : r.retry ≡ true
  pub plain : is_auth_path r.url ≡ false

pub record HasMarked (s : Client) : Type 0 where
  pub queue : (r : Request) → In r s.refresh_queue → IsMarked r
  pub waits : (w : Request × AxiosError) → In w s.awaiting → IsMarked w.0

-- What is known of a request that is sent again in a step: an answer with the token came.
pub record IsRenewed (e : Event) (r : Request) : Type 0 where
  pub mark : IsMarked r
  pub place : ℕ
  pub token : String
  pub came : e ≡ answered place (granted token)
  pub bears : r.authorization ≡ bearer token

abbrev pub send_of : Effect → Option Request
send_of (send r) = some r
send_of post_refresh = none
send_of (reject r why) = none
send_of (go_to path) = none

pub resend-sends :
    (token : String) (q r : Request)
    → send r ≡ resend token q
    → IsMarked q
    → IsMarked r × (r.authorization ≡ bearer token)
unfolding attach_token
resend-sends token q r same m =
    let back : some r ≡ some (attach_token (some token) (authorize token q)) = ap send_of same in
    elim (Bool-cases (token == "")) [
      | inl e ↦
          of_same (authorize token q) (ground (arith, rw e at back))
            (record { marked = m.marked; plain = m.plain }) refl
      | inr e ↦
          of_same (authorize token q) (ground (arith, rw e at back))
            (record { marked = m.marked; plain = m.plain }) refl
    ]
  where
    of_same :
        (q : Request)
        → r ≡ q
        → IsMarked q
        → q.authorization ≡ bearer token
        → IsMarked r × (r.authorization ≡ bearer token)
    of_same q e m bears = (rw e m, rw e bears)

pub pick-In :
    (i : ℕ) (ws rest : List (Request × AxiosError)) (w : Request × AxiosError)
    → pick i ws ≡ some (w, rest)
    → In w ws × ((v : Request × AxiosError) → In v rest → In v ws)
unfolding pick
pick-In i [] rest w h = ground arith
pick-In zero (x ∷ xs) rest w h =
    let both : (x ≡ w) × (xs ≡ rest) = ground arith in
    (at_head (sym both.0), λ v at. later (rw both.1 at))
pick-In (suc i) (x ∷ xs) rest w h = elim (Option-cases (pick i xs)) [
  | inl e ↦ let clash : keep x (pick i xs) ≡ none = ap (keep x) e in ground arith
  | inr ((y, ys), e) ↦
      let (there, others) = pick-In i xs ys y e in
      let both : some (y, x ∷ ys) ≡ some (w, rest) = sym (ap (keep x) e) ∙ h in
      let same : (y ≡ w) × (x ∷ ys ≡ rest) = ground arith in
      (later (rw (sym same.0) there), λ v at. kept others v (subst (λ l. In v l) (sym same.1) at))
]
  where
    kept :
        {ys zs : List (Request × AxiosError)}
        → ((v : Request × AxiosError) → In v ys → In v zs)
        → (v : Request × AxiosError) → In v (x ∷ ys)
        → In v (x ∷ zs)
    kept others v (at_head e) = at_head e
    kept others v (later h) = later (others v h)

pub resent-IsRenewed :
    (s : Client) (r q : Request) (token : String) (i : ℕ) (rest : List (Request × AxiosError))
    → ((x : Request) → In x s.refresh_queue → IsMarked x)
    → IsMarked r
    → In (send q) (map (resend token) s.refresh_queue ++ (resend token r ∷ []))
    → IsRenewed (answered i (granted token)) q
resent-IsRenewed s r q token i rest parked m h =
    elim (In-append (map (resend token) s.refresh_queue) _ h) [
      | inl k ↦
          let (x, at, same) = map-In (resend token) s.refresh_queue k in
          of_sent (resend-sends token x q same (parked x at))
      | inr (at_head same) ↦ of_sent (resend-sends token r q same m)
      | inr (later k) ↦ not-In-nil k
    ]
  where
    of_sent :
        IsMarked q × (q.authorization ≡ bearer token) → IsRenewed (answered i (granted token)) q
    of_sent (mark, bears) = record {
      mark = mark;
      place = i;
      token = token;
      came = refl;
      bears = bears;
    }

pub not-sent {κ} : {B : Type κ} (q : Request) (f : Effect) → send_of f ≡ none → send q ≡ f → B
not-sent q f none_sent same =
    let clash : some q ≡ none = ap send_of same ∙ none_sent in ground arith

pub denied-sends :
    {B : Type 0} (s : Client) (r q : Request) (err : AxiosError) (why : String)
    → In (send q) (
        map (λ x. reject (some x) (refresh_failed why)) s.refresh_queue
        ++ (go_to "/login" ∷ reject (some r) (refused err) ∷ []))
    → B
denied-sends s r q err why h =
    elim (In-append (map (λ x. reject (some x) (refresh_failed why)) s.refresh_queue) _ h) [
      | inl k ↦
          let (x, at, same) =
            map-In (λ x. reject (some x) (refresh_failed why)) s.refresh_queue k in
          not-sent q _ refl same
      | inr (at_head same) ↦ not-sent q _ refl same
      | inr (later (at_head same)) ↦ not-sent q _ refl same
      | inr (later (later k)) ↦ not-In-nil k
    ]
