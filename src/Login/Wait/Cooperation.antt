-- ===== src/Login/Wait/Cooperation.antt =====
-- login.go: the polls of a login at a server that confirms in the end.
use wechat_bot.Base.{
  ℕ, suc, false, true, ◌||◌, none, some, [], ◌⊎◌, inl, inr, Str, codes, str_eq, is_empty,
  is_empty_iff, ◌≡◌, ◌≢◌, refl, ap, ◌∙◌, arith, Bool-cases, Option-cases, Sum-cases,
}
use wechat_bot.Errors.{Error, wrapped}
use wechat_bot.Http.{HttpRequest, HttpResponse, app_headers, transport_error}
use wechat_bot.Login.Options.{LoginOptions}
use wechat_bot.Login.Request.{
  QrStatusResult, login_endpoint, read_json, do_json, status_query, default_qr_status_path,
  check_qr_status,
}
use wechat_bot.Login.Status.{status_wait, status_scanned, status_confirmed, retry_qr_request}
use wechat_bot.Login.Wait.{
  WaitEnv, WaitVars, finish, pause, credentials_of, handle_status, report_status, poll_once,
}
use wechat_bot.Storage.File.{Credentials}
use wechat_bot.Url.Policy.{UrlPolicy}

module _ {W : Type 0} (env : WaitEnv W) (lo : LoginOptions W) (qrcode : Str) where
  -- The request of a poll without a verification code.
  abbrev pub poll_request : Str → HttpRequest
  poll_request endpoint = record {
    method = codes "GET";
    url = endpoint;
    headers = app_headers;
    body = [];
  }

  -- The server's answer to a poll in this world says `res`.
  pub record Says (endpoint : Str) (w : W) (res : QrStatusResult) : Type 0 where
    pub response : HttpResponse
    pub sent : (lo.http_client.send (poll_request endpoint) w).0 ≡ inr response
    pub read :
        read_json lo.http_client.url_cause env.codec.decode_status default_qr_status_path response
        ≡ inr res

  -- The poll asks for patience: the status is that of waiting or of a scanned code, or the exchange
  -- failed in a way that is worth another attempt.
  abbrev pub Pends : Str → W → Type 0
  Pends endpoint w =
      ((res : QrStatusResult) × Says endpoint w res
        × ((res.status ≡ status_wait) ⊎ (res.status ≡ status_scanned)))
      ⊎ ((e : Error) × ((lo.http_client.send (poll_request endpoint) w).0 ≡ inl e)
          × (retry_qr_request env.is_timeout
                (wrapped (codes "login request") (transport_error lo.http_client.url_cause e))
              ≡ true))

  abbrev pub Grants : Credentials → QrStatusResult → Type 0
  Grants c res =
      (res.status ≡ status_confirmed)
      × (res.bot_token ≡ c.bot_token)
      × (res.ilink_bot_id ≡ c.ilink_bot_id)
      × (res.base_url ≡ c.base_url)
      × (res.ilink_user_id ≡ c.ilink_user_id)

  -- The user confirms after so many polls as `rounds` counts, and each poll counts one round. `Alive k`
  -- says that the context lives for `k` more exchanges and waits for the interval, such a wait running
  -- to its end; neither a look at the context nor a report takes of them.
  pub record Cooperates (interval : ℕ) (Alive : ℕ → W → Type 0) (rounds : W → ℕ) (c : Credentials)
      : Type 0 where
    pub given : qrcode ≢ []
    pub endpoint : Str
    pub found :
        login_endpoint env.codec lo.base_url default_qr_status_path (status_query qrcode [])
        ≡ inr endpoint
    pub made : lo.http_client.request_error endpoint ≡ none
    pub live : (k : ℕ) (w : W) → Alive k w → (env.ctx_err w).0 ≡ none
    pub ctx_lives : (k : ℕ) (w : W) → Alive k w → Alive k (env.ctx_err w).1
    pub ctx_keeps : (w : W) → rounds (env.ctx_err w).1 ≡ rounds w
    pub waits : (k : ℕ) (w : W) → Alive (suc k) w → (env.wait interval w).0 ≡ none
    pub wait_lives : (k : ℕ) (w : W) → Alive (suc k) w → Alive k (env.wait interval w).1
    pub wait_keeps : (w : W) → rounds (env.wait interval w).1 ≡ rounds w
    pub report_lives :
        (notify : Str → W → W) (status : Str) (k : ℕ) (w : W)
        → env.on_status ≡ some notify
        → Alive k w
        → Alive k (notify status w)
    pub send_lives :
        (k : ℕ) (w : W)
        → Alive (suc k) w
        → Alive k (lo.http_client.send (poll_request endpoint) w).1
    pub report_keeps :
        (notify : Str → W → W) (status : Str) (w : W)
        → env.on_status ≡ some notify
        → rounds (notify status w) ≡ rounds w
    pub token : c.bot_token ≢ []
    pub bot : c.ilink_bot_id ≢ []
    pub confirms :
        (w : W) → rounds w ≡ 0 → (res : QrStatusResult) × Says endpoint w res × Grants c res
    pub pends :
        (n : ℕ) (w : W)
        → rounds w ≡ suc n
        → (rounds (lo.http_client.send (poll_request endpoint) w).1 ≡ n) × Pends endpoint w

  module _ {interval : ℕ} {Alive : ℕ → W → Type 0} (rounds : W → ℕ) (c : Credentials)
      (co : Cooperates interval Alive rounds c) (policy : UrlPolicy) where
    -- The variables of a login that was neither redirected nor asked for a code.
    pub record IsPlain (v : WaitVars) : Type 0 where
      pub here : v.base_url ≡ lo.base_url
      pub codeless : v.verify_code ≡ []

    -- A poll is one exchange with the server.
    poll-sends :
        (v : WaitVars) (w : W)
        → IsPlain v
        → check_qr_status env.codec (record lo { base_url = v.base_url }) qrcode v.verify_code w
          ≡ do_json lo.http_client env.codec.decode_status default_qr_status_path
              (poll_request co.endpoint)
              w
    unfolding check_qr_status
    poll-sends v w p = elim (Bool-cases (is_empty qrcode)) [
      | inl blank ↦ absurd (co.given ((is_empty_iff qrcode).0 blank))
      | inr some_code ↦ rw (p.here, p.codeless, some_code, co.found, co.made, check_qr_status)
    ]

    poll-world :
        (v : WaitVars) (w : W)
        → IsPlain v
        → (check_qr_status env.codec (record lo { base_url = v.base_url }) qrcode v.verify_code w).1
          ≡ (lo.http_client.send (poll_request co.endpoint) w).1
    unfolding do_json
    poll-world v w p =
        ap (λ r. r.1) (poll-sends v w p)
        ∙ elim (Sum-cases (lo.http_client.send (poll_request co.endpoint) w).0) [
          | inl (e, failed) ↦ rw (failed, do_json)
          | inr (resp, sent) ↦ rw (sent, do_json)
        ]

    poll-Says :
        (v : WaitVars) (w : W) (res : QrStatusResult)
        → IsPlain v
        → Says co.endpoint w res
        → check_qr_status env.codec (record lo { base_url = v.base_url }) qrcode v.verify_code w
          ≡ (inr res, (lo.http_client.send (poll_request co.endpoint) w).1)
    unfolding do_json
    poll-Says v w res p says = poll-sends v w p ∙ rw (says.sent, says.read, do_json)

    poll-fails :
        (v : WaitVars) (w : W) (e : Error)
        → IsPlain v
        → (lo.http_client.send (poll_request co.endpoint) w).0 ≡ inl e
        → check_qr_status env.codec (record lo { base_url = v.base_url }) qrcode v.verify_code w ≡ (
          inl (wrapped (codes "login request") (transport_error lo.http_client.url_cause e)),
          (lo.http_client.send (poll_request co.endpoint) w).1,
        )
    unfolding do_json
    poll-fails v w e p failed = poll-sends v w p ∙ rw (failed, do_json)

    pub report_status-IsPlain :
        (status : Str) (v : WaitVars) (w : W)
        → IsPlain v
        → IsPlain (report_status env lo policy status v w).0
    unfolding report_status
    report_status-IsPlain status v w p = elim (Bool-cases (str_eq status v.last_status)) [
      | inl same ↦ rw (same, report_status) p
      | inr new ↦ rw (new, report_status) (record { here = p.here; codeless = p.codeless })
    ]

    pub report_status-rounds :
        (status : Str) (v : WaitVars) (w : W)
        → rounds (report_status env lo policy status v w).1 ≡ rounds w
    unfolding report_status
    report_status-rounds status v w = elim (Bool-cases (str_eq status v.last_status)) [
      | inl same ↦ rw (same, report_status)
      | inr new ↦ elim (Option-cases env.on_status) [
        | inl silent ↦ rw (new, silent, report_status)
        | inr (notify, held) ↦ rw (new, held, report_status) (co.report_keeps notify status w held)
      ]
    ]

    pub report_status-Alive :
        (status : Str) (v : WaitVars) (k : ℕ) (w : W)
        → Alive k w
        → Alive k (report_status env lo policy status v w).1
    unfolding report_status
    report_status-Alive status v k w h = elim (Bool-cases (str_eq status v.last_status)) [
      | inl same ↦ rw (same, report_status) h
      | inr new ↦ elim (Option-cases env.on_status) [
        | inl silent ↦ rw (new, silent, report_status) h
        | inr (notify, held) ↦
            rw (new, held, report_status) (co.report_lives notify status k w held h)
      ]
    ]

    -- An answer is reported, then its status decides.
    pub poll_once-Says :
        (v : WaitVars) (k : ℕ) (w : W) (res : QrStatusResult)
        → IsPlain v
        → Alive (suc k) w
        → Says co.endpoint (env.ctx_err w).1 res
        → poll_once env lo policy qrcode v w ≡ (
            let w2 = (lo.http_client.send (poll_request co.endpoint) (env.ctx_err w).1).1 in
            let reported = report_status env lo policy res.status v w2 in
            handle_status env lo policy res reported.0 (env.ctx_err reported.1).1)
    unfolding poll_once
    poll_once-Says v k w res p lives says =
        let w1 = (env.ctx_err w).1 in
        let w2 = (lo.http_client.send (poll_request co.endpoint) w1).1 in
        let sent = co.send_lives k w1 (co.ctx_lives (suc k) w lives) in
        rw (
          co.live (suc k) w lives,
          poll-Says v w1 res p says,
          poll-world v w1 p,
          co.live k (report_status env lo policy res.status v w2).1
              (report_status-Alive res.status v k w2 sent),
          poll_once,
          poll-world v w1 p,
        )

    pub poll_once-fails :
        (v : WaitVars) (k : ℕ) (w : W) (e : Error)
        → IsPlain v
        → Alive (suc k) w
        → (lo.http_client.send (poll_request co.endpoint) (env.ctx_err w).1).0 ≡ inl e
        → retry_qr_request env.is_timeout
            (wrapped (codes "login request") (transport_error lo.http_client.url_cause e))
          ≡ true
        → poll_once env lo policy qrcode v w ≡ (
          pause v,
          (env.ctx_err (lo.http_client.send (poll_request co.endpoint) (env.ctx_err w).1).1).1,
        )
    unfolding poll_once
    poll_once-fails v k w e p lives failed again_later =
        let w1 = (env.ctx_err w).1 in
        let w2 = (lo.http_client.send (poll_request co.endpoint) w1).1 in
        let sent = co.send_lives k w1 (co.ctx_lives (suc k) w lives) in
        rw (
          co.live (suc k) w lives,
          poll-fails v w1 e p failed,
          poll-world v w1 p,
          co.live k w2 sent,
          again_later,
          poll_once,
          poll-world v w1 p,
        )

    pub handle_status-pends :
        (res : QrStatusResult) (v : WaitVars) (w : W)
        → IsPlain v
        → (res.status ≡ status_wait) ⊎ (res.status ≡ status_scanned)
        → (v' : WaitVars) × IsPlain v' × (handle_status env lo policy res v w ≡ (pause v', w))
    unfolding handle_status str_eq
    handle_status-pends res v w p (inl waiting) = (v, p, rw (waiting, handle_status, str_eq))
    handle_status-pends res v w p (inr scanned) = (
      record v { verify_code = [] },
      record { here = p.here; codeless = refl },
      rw (scanned, handle_status, str_eq),
    )

    pub handle_status-confirms :
        (res : QrStatusResult) (v : WaitVars) (w : W)
        → Grants c res
        → handle_status env lo policy res v w ≡ (finish (inr c), w)
    unfolding handle_status credentials_of str_eq
    handle_status-confirms res v w (confirmed, token, bot, base, user) =
        let given : is_empty c.bot_token || is_empty c.ilink_bot_id ≡ false =
          elim (Bool-cases (is_empty c.bot_token || is_empty c.ilink_bot_id)) [
            | inr whole ↦ whole
            | inl missing ↦ absurd (
                ground
                  (arith, is_empty_iff c.bot_token, is_empty_iff c.ilink_bot_id, co.token, co.bot))
          ] in
        rw (confirmed, token, bot, base, user, given, handle_status, str_eq, credentials_of)
