-- ===== src/Api/Asks.antt =====
-- When a refresh is asked for.
use vortex_flow.Common.{
  ℕ, true, false, Bool, Option, some, [], ◌∷◌, ◌≡◌, refl, ap, ◌||◌, not, Bool-cases, inl, inr, ◌↔◌,
  arith, In, at_head, later, not-In-nil,
}
use vortex_flow.Api.{
  Client, Request, AxiosError, Effect, Reason, send, post_refresh, reject, go_to, is_401,
  is_auth_path, on_error, on_error_of, start_refresh, refused,
}

abbrev is_post : Effect → Bool
is_post (send r) = false
is_post post_refresh = true
is_post (reject r why) = false
is_post (go_to path) = false

only_reject :
    {B : Type 0} (o : Option Request) (why : Reason) → In post_refresh (reject o why ∷ []) → B
only_reject o why (at_head same) = let clash : true ≡ false = ap is_post same in ground arith
only_reject o why (later k) = not-In-nil k

start_refresh_asks :
    (s : Client) (err : AxiosError) (r : Request)
    → In post_refresh (start_refresh s err r).1 ↔ (s.refreshing ≡ false)
unfolding start_refresh
start_refresh_asks s err r = elim (Bool-cases s.refreshing) [
  | inl e ↦ rw e (λ h. not-In-nil h, λ off. ground arith)
  | inr e ↦ rw e (λ h. refl, λ h. at_head refl)
]

-- A failed request asks for a refresh just where the server said 401, the request is not yet marked
-- and its path is none of those of authentication, and no refresh is on its way.
pub on_error_asks :
    (s : Client) (status : Option ℕ) (r : Request)
    → let err : AxiosError = record { status = status; config = some r } in
      In post_refresh (on_error s err).1 ↔ (
        (is_401 status ≡ true)
        × (r.retry ≡ false)
        × (is_auth_path r.url ≡ false)
        × (s.refreshing ≡ false))
unfolding on_error on_error_of
on_error_asks s status r =
    let err : AxiosError = record { status = status; config = some r } in
    elim (Bool-cases (not (is_401 status) || (r.retry || is_auth_path r.url))) [
      | inl e ↦ rw e (λ h. only_reject (some r) (refused err) h, λ h. ground arith)
      | inr e ↦
          let (there, back) = start_refresh_asks s err r in
          rw e (
            λ h. let off = there h in ground arith,
            λ h. let (code, fresh, plain, off) = h in back off,
          )
    ]
