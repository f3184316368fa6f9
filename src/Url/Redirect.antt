-- ===== src/Url/Redirect.antt =====
-- urlpolicy.go: `redirectGuardedClient`, and what its client contacts.
use wechat_bot.Base.{
  ℕ, suc, ◌≤◌, ◌<◌, Option, none, some, List, [], ◌∷◌, ◌++◌, ◌⊎◌, inl, inr, length, leb, Str, All,
  ◌≡◌, arith, Bool-cases,
}
use wechat_bot.Errors.{Error}
use wechat_bot.Http.{Http, HttpRequest, HttpResponse}
use wechat_bot.Listener.Env.{Action}
use wechat_bot.Url.Policy.{
  Url, Net, UrlPolicy, max_server_redirects, check, check_string, check_redirect,
}

-- The copy of a client: the transport, cookie jar and timeout are those of `base`, and
-- `CheckRedirect` is its own. It is given the URL of the next request and the number of those made.
pub record GuardedClient : Type 0 where
  pub base : Option ℕ
  pub check_redirect : Url → ℕ → Option Error

unfoldable pub redirect_guarded_client : Net → UrlPolicy → Option ℕ → GuardedClient
redirect_guarded_client net p base = record { base = base; check_redirect = check_redirect net p }

-- `net/http`: `NewRequestWithContext`, `Do` of a client, and `errors.As` for a `*url.Error`.
pub record NetHttp (W : Type 0) : Type 0 where
  pub request_error : Str → Option Error
  pub client_do : GuardedClient → HttpRequest → Action W (Error ⊎ HttpResponse)
  pub url_cause : Error → Option Error

abbrev pub http_of : {W : Type 0} → NetHttp W → GuardedClient → Http W
http_of go client = record {
  request_error = go.request_error;
  send = go.client_do client;
  url_cause = go.url_cause;
}

-- The URLs that one call of `Do` contacts, the last one first: the first is the request's own, and
-- each further one is that of a redirect that `CheckRedirect` let pass.
abbrev pub IsTrail : Net → (Url → ℕ → Option Error) → Str → List Str → Type 0
IsTrail net passes start [] = Unit
IsTrail net passes start (url ∷ []) = url ≡ start
IsTrail net passes start (url ∷ previous ∷ earlier) =
    ((u : Url) × (net.parse_url url ≡ some u) × (passes u (suc (length earlier)) ≡ none))
    × IsTrail net passes start (previous ∷ earlier)

-- What `net/http` says of `Do`.
pub record DoLaws {W : Type 0} (net : Net) (go : NetHttp W) (contacted : W → List Str)
    : Type 0 where
  pub do_follows :
      (client : GuardedClient) (r : HttpRequest) (w : W)
      → (trail : List Str) × (contacted (go.client_do client r w).1 ≡ trail ++ contacted w)
        × IsTrail net client.check_redirect r.url trail

pub check_redirect_inversion :
    (net : Net) (p : UrlPolicy) (u : Url) (via : ℕ)
    → check_redirect net p u via ≡ none
    → (check net p u ≡ none) × (via < max_server_redirects)
unfolding check_redirect
check_redirect_inversion net p u via h = elim (Bool-cases (leb max_server_redirects via)) [
  | inl many ↦ absurd (ground arith)
  | inr few ↦ (ground arith, ground arith)
]

-- A request to a URL that the policy lets pass contacts, through the guarded client, at most five URLs,
-- and the policy lets each of them pass.
pub trail-passes :
    (net : Net) (p : UrlPolicy) (start : Str) (trail : List Str)
    → check_string net p start ≡ none
    → IsTrail net (check_redirect net p) start trail
    → All (λ url. check_string net p url ≡ none) trail × (length trail ≤ max_server_redirects)
unfolding check_string
trail-passes net p start [] h t = (tt, omega arith)
trail-passes net p start (url ∷ []) h t = ((rw t h, tt), omega arith)
trail-passes net p start (url ∷ previous ∷ earlier) h ((u, parsed, passed), t) =
    let (fine, few) = check_redirect_inversion net p u (suc (length earlier)) passed in
    let (rest, short) = trail-passes net p start (previous ∷ earlier) h t in
    ((rw (parsed, check_string) fine, rest), omega (arith, few))
