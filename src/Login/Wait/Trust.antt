-- ===== src/Login/Wait/Trust.antt =====
-- login.go: where the credentials of a login come from.
use wechat_bot.Base.{
  ℕ, zero, suc, true, ◌||◌, none, some, [], ◌++◌, ◌⊎◌, inl, inr, length, leb, Str, codes, str_eq,
  str_eq_iff, is_empty, is_empty_iff, trim_space, ℤ, pos, leb_ℤ, ◌≡◌, ◌≢◌, refl, subst, arith,
  if_intro, Bool-cases, Option-cases, Sum-cases,
}
use wechat_bot.Login.Options.{LoginOptions}
use wechat_bot.Login.Request.{QrStatusResult, check_qr_status}
use wechat_bot.Login.Status.{
  qr_redirect_url, retry_qr_request, was_visited, status_confirmed, status_expired,
  status_need_verify_code, status_verify_code_blocked, status_bound_redirect, status_redirect,
  status_scanned, status_wait,
}
use wechat_bot.Login.Wait.{
  WaitEnv, WaitVars, Verdict, finish, redirect, pause, WaitNext, again, return, WaitNext-cases,
  ask_code, credentials_of, follow_redirect, handle_status, report_status, poll_once, settle,
  iterate_wait, poll_qr, wait_start, poll_interval, wait_for_qr_confirmation,
}
use wechat_bot.Storage.File.{Credentials}
use wechat_bot.Url.Policy.{Url, Net, UrlPolicy, new_url_policy, check}

qr_redirect_url_inversion :
    (net : Net) (host : Str) (policy : UrlPolicy) (url : Str)
    → qr_redirect_url net host policy ≡ inr url
    → (u : Url) × (net.parse_url (codes "https://" ++ host) ≡ some u)
      × (check net policy u ≡ none)
      × (url ≡ net.url_string u)
unfolding qr_redirect_url
qr_redirect_url_inversion net host policy url h =
    elim (Option-cases (net.parse_url (codes "https://" ++ host))) [
      | inl bad ↦ absurd (ground arith)
      | inr (u, parsed) ↦ elim (Option-cases (check net policy u)) [
        | inr (e, refused) ↦ absurd (ground arith)
        | inl passed ↦ (u, parsed, passed, ground arith)
      ]
    ]

module _ {W : Type 0} (env : WaitEnv W) (lo : LoginOptions W) (policy : UrlPolicy)
    (qrcode : Str) where
  -- The configured base URL, or one over `https` whose host the policy lets pass.
  abbrev pub IsTrusted : Str → Type 0
  IsTrusted base_url =
      (base_url ≡ lo.base_url)
      ⊎ ((host : Str) × (u : Url) × (env.codec.net.parse_url (codes "https://" ++ host) ≡ some u)
          × (check env.codec.net policy u ≡ none)
          × (base_url ≡ env.codec.net.url_string u))

  -- The poll at these variables brought a confirmation that carries the credentials.
  pub record Confirmed (v : WaitVars) (w : W) (c : Credentials) : Type 0 where
    pub response : QrStatusResult
    pub polled :
        (check_qr_status env.codec
          (record lo { base_url = v.base_url })
          qrcode
          v.verify_code
          (env.ctx_err w).1).0
        ≡ inr response
    pub confirmed : response.status ≡ status_confirmed
    pub token : (c.bot_token ≡ response.bot_token) × (c.bot_token ≢ [])
    pub bot : (c.ilink_bot_id ≡ response.ilink_bot_id) × (c.ilink_bot_id ≢ [])
    pub base : c.base_url ≡ response.base_url
    pub user : c.ilink_user_id ≡ response.ilink_user_id

  -- An end with credentials has its confirmation, and a poll that follows goes to a trusted host.
  abbrev Fine : WaitVars → W → Verdict × W → Type 0
  Fine v w (finish (inl _), _) = Unit {0}
  Fine v w (finish (inr c), _) = Confirmed v w c
  Fine v w (redirect v', _) = IsTrusted v'.base_url
  Fine v w (pause v', _) = IsTrusted v'.base_url

  module _ (v : WaitVars) (w0 : W) (v' : WaitVars) (w : W) (trusted : IsTrusted v'.base_url) where
    ask_code-Fine : Fine v w0 (ask_code env lo policy v' w)
    unfolding ask_code
    ask_code-Fine = elim (Option-cases lo.verification_code_handler) [
      | inl missing ↦ rw (missing, ask_code) tt
      | inr (handler, held) ↦
          elim (Bool-cases (leb_ℤ lo.max_verify_attempts (pos v'.verify_attempts))) [
            | inl spent ↦ rw (held, spent, ask_code) tt
            | inr left ↦
                let asked = handler w in
                elim (Option-cases (env.ctx_err asked.1).0) [
                  | inr (e, cancelled) ↦ rw (held, left, cancelled, ask_code) tt
                  | inl live ↦ elim (Option-cases asked.0.1) [
                    | inr (e, failed) ↦ rw (held, left, live, failed, ask_code) tt
                    | inl fine ↦ elim (Bool-cases (is_empty (trim_space asked.0.0))) [
                      | inl blank ↦ rw (held, left, live, fine, blank, ask_code) tt
                      | inr given ↦ rw (held, left, live, fine, given, ask_code) trusted
                    ]
                  ]
                ]
          ]
    ]

    follow_redirect-Fine : (host : Str) → Fine v w0 (follow_redirect env lo policy host v', w)
    unfolding follow_redirect
    follow_redirect-Fine host = elim (Sum-cases (qr_redirect_url env.codec.net host policy)) [
      | inl (e, bad) ↦ rw (bad, follow_redirect) tt
      | inr (url, good) ↦
          elim (Bool-cases (leb 5 (length v'.redirects) || was_visited url v'.redirects)) [
            | inl stop ↦ rw (good, stop, follow_redirect) tt
            | inr on ↦
                let i = qr_redirect_url_inversion env.codec.net host policy url good in
                rw (good, on, follow_redirect) (inr (host, i.0, i.1, i.2, i.3))
          ]
    ]

    module _ (res : QrStatusResult)
        (polled : (check_qr_status env.codec
            (record lo { base_url = v.base_url })
            qrcode
            v.verify_code
            (env.ctx_err w0).1).0
          ≡ inr res) where
      credentials-Fine :
          str_eq res.status status_confirmed ≡ true
          → Fine v w0 (finish (credentials_of env lo policy res), w)
      unfolding credentials_of
      credentials-Fine status =
          elim (Bool-cases (is_empty res.bot_token || is_empty res.ilink_bot_id)) [
            | inl missing ↦ rw (missing, credentials_of) tt
            | inr given ↦
                let token : res.bot_token ≢ [] = λ e. ground (arith, is_empty_iff res.bot_token) in
                let bot : res.ilink_bot_id ≢ [] =
                  λ e. ground (arith, is_empty_iff res.ilink_bot_id) in
                rw (given, credentials_of)
                  (record {
                    response = res;
                    polled = polled;
                    confirmed = (str_eq_iff res.status status_confirmed).0 status;
                    token = (refl, token);
                    bot = (refl, bot);
                    base = refl;
                    user = refl;
                  })
          ]

      handle_status-Fine : Fine v w0 (handle_status env lo policy res v' w)
      unfolding handle_status
      handle_status-Fine = elim (Bool-cases (str_eq res.status status_confirmed)) [
        | inl yes_status ↦ rw (yes_status, handle_status) (credentials-Fine yes_status)
        | inr other ↦
            rw (other, handle_status)
              (if_intro (Fine v w0) (str_eq res.status status_expired) tt (
                if_intro (Fine v w0) (str_eq res.status status_need_verify_code) ask_code-Fine (
                  if_intro (Fine v w0) (str_eq res.status status_verify_code_blocked) tt (
                    if_intro (Fine v w0) (str_eq res.status status_bound_redirect) tt (
                      if_intro (Fine v w0) (str_eq res.status status_redirect)
                        (follow_redirect-Fine res.redirect_host)
                        (if_intro (Fine v w0) (str_eq res.status status_scanned) trusted (
                          if_intro (Fine v w0) (str_eq res.status status_wait) trusted
                            (if_intro (Fine v w0) (is_empty res.status) tt trusted))))))))
      ]

  report_status-same :
      (status : Str) (v : WaitVars) (w : W)
      → (report_status env lo policy status v w).0.base_url ≡ v.base_url
  unfolding report_status
  report_status-same status v w = elim (Bool-cases (str_eq status v.last_status)) [
    | inl same ↦ rw (same, report_status)
    | inr new ↦ rw (new, report_status)
  ]

  poll_once-Fine :
      (v : WaitVars) (w : W) → IsTrusted v.base_url → Fine v w (poll_once env lo policy qrcode v w)
  unfolding poll_once
  poll_once-Fine v w trusted =
      let checked = env.ctx_err w in
      let polled =
        check_qr_status env.codec (record lo { base_url = v.base_url }) qrcode v.verify_code
          checked.1 in
      elim (Option-cases checked.0) [
        | inr (e, cancelled) ↦ rw (cancelled, poll_once) tt
        | inl live ↦ elim (Sum-cases polled.0) [
          | inl (e, failed) ↦ elim (Option-cases (env.ctx_err polled.1).0) [
            | inr (e', over) ↦ rw (live, failed, over, poll_once) tt
            | inl on ↦
                rw (live, failed, on, poll_once)
                  (if_intro (Fine v w) (retry_qr_request env.is_timeout e) trusted tt)
          ]
          | inr (res, got) ↦
              let told = report_status env lo policy res.status v polled.1 in
              let late = env.ctx_err told.1 in
              elim (Option-cases late.0) [
                | inr (e', over) ↦ rw (live, got, over, poll_once) tt
                | inl on ↦
                    rw (live, got, on, poll_once)
                      (handle_status-Fine v w told.0 late.1
                        (rw (report_status-same res.status v polled.1) trusted) res got)
              ]
        ]
      ]

  -- The same of a whole iteration.
  abbrev Sound : WaitVars → W → WaitNext × W → Type 0
  Sound v w (return (inl _), _) = Unit {0}
  Sound v w (return (inr c), _) = Confirmed v w c
  Sound v w (again v', _) = IsTrusted v'.base_url

  settle-Sound :
      (interval : ℕ) (v : WaitVars) (w : W) (verdict : Verdict) (w1 : W)
      → Fine v w (verdict, w1)
      → Sound v w (settle env lo policy interval verdict w1)
  unfolding settle
  settle-Sound interval v w (finish (inl e)) w1 f = tt
  settle-Sound interval v w (finish (inr c)) w1 f = f
  settle-Sound interval v w (redirect v') w1 f = f
  settle-Sound interval v w (pause v') w1 f = elim (Option-cases (env.wait interval w1).0) [
    | inr (e, stopped) ↦ rw (stopped, settle) tt
    | inl on ↦ rw (on, settle) f
  ]

  iterate_wait-Sound :
      (interval : ℕ) (v : WaitVars) (w : W)
      → IsTrusted v.base_url
      → Sound v w (iterate_wait env lo policy qrcode interval v w)
  unfolding iterate_wait
  iterate_wait-Sound interval v w trusted =
      let r = poll_once env lo policy qrcode v w in
      settle-Sound interval v w r.0 r.1 (poll_once-Fine v w trusted)

  -- A poll of a trusted host that brought the credentials.
  abbrev pub Source : Credentials → Type 0
  Source c = (v : WaitVars) × (w : W) × IsTrusted v.base_url × Confirmed v w c

  poll_qr-Source :
      (fuel interval : ℕ) (v : WaitVars) (w : W) (c : Credentials)
      → IsTrusted v.base_url
      → (poll_qr env lo policy fuel qrcode interval v w).0 ≡ some (inr c)
      → Source c
  unfolding poll_qr
  poll_qr-Source zero interval v w c trusted h = absurd (ground arith)
  poll_qr-Source (suc fuel) interval v w c trusted h =
      let it = iterate_wait env lo policy qrcode interval v w in
      let s = iterate_wait-Sound interval v w trusted in
      elim (WaitNext-cases it.0) [
        | inl (inl e, over) ↦ absurd (ground arith)
        | inl (inr d, over) ↦
            let same : d ≡ c = ground arith in
            (
              v,
              w,
              trusted,
              subst (λ x. Confirmed v w x) same (subst (λ n. Sound v w (n, it.1)) over s),
            )
        | inr (v', on) ↦
            poll_qr-Source fuel interval v' it.1 c (subst (λ n. Sound v w (n, it.1)) on s)
              (rw (on, poll_qr) at h)
      ]

-- If a login returns credentials, then they were carried, with a token and a bot that are not empty,
-- by a confirmation that answered a poll at the configured base URL, or at one over `https` whose host
-- passes the policy of the configured base URL and hosts, wherever redirects led before.
pub trusted_credentials :
    {W : Type 0} (env : WaitEnv W) (lo : LoginOptions W) (fuel : ℕ) (qrcode : Str) (interval : ℤ)
    (w : W) (c : Credentials)
    → (wait_for_qr_confirmation env lo fuel qrcode interval w).0 ≡ some (inr c)
    → Source env lo (new_url_policy env.codec.net lo.base_url lo.hosts) qrcode c
unfolding wait_for_qr_confirmation
trusted_credentials env lo fuel qrcode interval w c h =
    poll_qr-Source env lo (new_url_policy env.codec.net lo.base_url lo.hosts) qrcode fuel
      (poll_interval interval) (wait_start lo.base_url) w c (inl refl) h
