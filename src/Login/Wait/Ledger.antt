-- ===== src/Login/Wait/Ledger.antt =====
-- login.go: what one iteration of the wait costs: polls, waits and codes asked for.
pub mod Iteration
use wechat_bot.Base.{
  ℕ, ◌+◌, ◌≤◌, ◌<◌, Bool, true, false, not, ◌||◌, ◌&&◌, Option, none, some, List, [], ◌∷◌, ◌⊎◌, inl,
  inr, length, leb, Str, str_eq, is_empty, trim_space, pos, pos_part, leb_ℤ, if◌then◌else◌, ◌≡◌,
  ◌≢◌, refl, sym, ap, ◌∙◌, arith, if_intro, Bool-cases, Option-cases, Sum-cases,
}
use wechat_bot.Errors.{Error}
use wechat_bot.Http.{Http, HttpRequest}
use wechat_bot.Listener.Env.{Action}
use wechat_bot.Login.Options.{LoginOptions}
use wechat_bot.Login.Request.{
  LoginCodec, QrStatusResult, login_endpoint, status_query, default_qr_status_path, do_json,
  check_qr_status,
}
use wechat_bot.Login.Status.{
  qr_redirect_url, retry_qr_request, was_visited, status_confirmed, status_expired,
  status_need_verify_code, status_verify_code_blocked, status_bound_redirect, status_redirect,
  status_scanned, status_wait,
}
use wechat_bot.Login.Wait.Counting.{Tally, CountsAt}
use wechat_bot.Login.Wait.{
  WaitEnv, WaitVars, Verdict, finish, redirect, pause, WaitNext, again, return, ask_code,
  follow_redirect, handle_status, report_status, poll_once, settle, iterate_wait,
}
use wechat_bot.Storage.File.{Credentials}
use wechat_bot.Url.Policy.{UrlPolicy}

module _ {W : Type 0} {interval : ℕ} (env : WaitEnv W) (lo : LoginOptions W) (policy : UrlPolicy)
    (tally : W → Tally) (counts : CountsAt interval env lo tally) where
  abbrev pub limit : ℕ
  limit = pos_part lo.max_verify_attempts

  -- After the exchange at most one poll more is counted.
  abbrev Polled : W → W → Type 0
  Polled w w1 =
      ((tally w1).polls ≤ (tally w).polls + 1)
      × ((tally w1).waits ≡ (tally w).waits)
      × ((tally w1).asks ≡ (tally w).asks)

  do_json-Polled :
      {A : Type 0} (decode : Str → Error ⊎ A) (endpoint : Str) (req : HttpRequest) (w : W)
      → Polled w (do_json lo.http_client decode endpoint req w).1
  unfolding do_json
  do_json-Polled decode endpoint req w =
      let sent = lo.http_client.send req w in
      let one = counts.send_counts req w in
      elim (Sum-cases sent.0) [
        | inl (e, failed) ↦ rw (failed, do_json) (rw one (omega arith, refl, refl))
        | inr (r, done) ↦ rw (done, do_json) (rw one (omega arith, refl, refl))
      ]

  check_qr_status-Polled :
      (base_url qrcode code : Str) (w : W)
      → Polled w (check_qr_status env.codec (record lo { base_url = base_url }) qrcode code w).1
  unfolding check_qr_status
  check_qr_status-Polled base_url qrcode code w =
      let endpoint =
        login_endpoint env.codec base_url default_qr_status_path (status_query qrcode code) in
      elim (Bool-cases (is_empty qrcode)) [
        | inl blank ↦ rw (blank, check_qr_status) (omega arith, refl, refl)
        | inr given ↦ elim (Sum-cases endpoint) [
          | inl (e, bad) ↦ rw (given, bad, check_qr_status) (omega arith, refl, refl)
          | inr (url, good) ↦ elim (Option-cases (lo.http_client.request_error url)) [
            | inr (e, refused) ↦
                rw (given, good, refused, check_qr_status) (omega arith, refl, refl)
            | inl made ↦
                rw (given, good, made, check_qr_status)
                  (do_json-Polled env.codec.decode_status default_qr_status_path _ w)
          ]
        ]
      ]

  -- What a verdict costs, counted from the loop's variables on.
  abbrev pub Costs : WaitVars → W → Verdict × W → Type 0
  Costs v w (finish _, w1) =
      ((tally w1).polls ≤ (tally w).polls + 1)
      × ((tally w1).waits ≡ (tally w).waits)
      × ((tally w1).asks + v.verify_attempts ≤ (tally w).asks + limit)
  Costs v w (redirect v', w1) =
      ((tally w1).polls ≤ (tally w).polls + 1)
      × ((tally w1).waits ≡ (tally w).waits)
      × ((tally w1).asks ≡ (tally w).asks)
      × (v'.verify_attempts ≡ v.verify_attempts)
      × (length v'.redirects ≡ length v.redirects + 1)
      × (length v'.redirects ≤ 5)
  Costs v w (pause v', w1) =
      ((tally w1).polls ≤ (tally w).polls + 1)
      × ((tally w1).waits ≡ (tally w).waits)
      × ((tally w1).asks + v.verify_attempts ≡ (tally w).asks + v'.verify_attempts)
      × (v'.verify_attempts ≤ limit)
      × (length v'.redirects ≡ length v.redirects)

  module _ (v : WaitVars) (w0 w : W) (polled : Polled w0 w) (few : v.verify_attempts ≤ limit) where
    ended :
        ((tally w).polls ≤ (tally w0).polls + 1)
        × ((tally w).waits ≡ (tally w0).waits)
        × ((tally w).asks + v.verify_attempts ≤ (tally w0).asks + limit)
    ended = (polled.0, polled.1, omega (arith, polled.2, few))

    ask_code-Costs : Costs v w0 (ask_code env lo policy v w)
    unfolding ask_code
    ask_code-Costs = elim (Option-cases lo.verification_code_handler) [
      | inl missing ↦ rw (missing, ask_code) ended
      | inr (handler, held) ↦
          elim (Bool-cases (leb_ℤ lo.max_verify_attempts (pos v.verify_attempts))) [
            | inl spent ↦ rw (held, spent, ask_code) ended
            | inr left ↦
                let asked = handler w in
                let checked = env.ctx_err asked.1 in
                let now : tally checked.1 ≡ record (tally w) { asks = (tally w).asks + 1 } =
                  counts.ctx_keeps asked.1 ∙ counts.ask_counts handler w held in
                let p : (tally checked.1).polls ≤ (tally w0).polls + 1 =
                  omega (arith, ap (λ t. t.polls) now, polled.0) in
                let q : (tally checked.1).waits ≡ (tally w0).waits =
                  ap (λ t. t.waits) now ∙ polled.1 in
                let a : (tally checked.1).asks ≡ (tally w0).asks + 1 =
                  omega (arith, ap (λ t. t.asks) now, polled.2) in
                let room : v.verify_attempts + 1 ≤ limit = ground arith in
                elim (Option-cases checked.0) [
                  | inr (e, cancelled) ↦
                      rw (held, left, cancelled, ask_code) (p, q, omega (arith, a, room))
                  | inl live ↦ elim (Option-cases asked.0.1) [
                    | inr (e, failed) ↦
                        rw (held, left, live, failed, ask_code) (p, q, omega (arith, a, room))
                    | inl fine ↦ elim (Bool-cases (is_empty (trim_space asked.0.0))) [
                      | inl blank ↦
                          rw (held, left, live, fine, blank, ask_code)
                            (p, q, omega (arith, a, room))
                      | inr given ↦
                          rw (held, left, live, fine, given, ask_code)
                            (p, q, omega (arith, a), room, refl)
                    ]
                  ]
                ]
          ]
    ]

    follow_redirect-Costs : (host : Str) → Costs v w0 (follow_redirect env lo policy host v, w)
    unfolding follow_redirect
    follow_redirect-Costs host = elim (Sum-cases (qr_redirect_url env.codec.net host policy)) [
      | inl (e, bad) ↦ rw (bad, follow_redirect) ended
      | inr (url, good) ↦
          elim (Bool-cases (leb 5 (length v.redirects) || was_visited url v.redirects)) [
            | inl stop ↦ rw (good, stop, follow_redirect) ended
            | inr on ↦
                let room : length v.redirects + 1 ≤ 5 = ground arith in
                rw (good, on, follow_redirect)
                  (polled.0, polled.1, polled.2, refl, omega arith, omega (arith, room))
          ]
    ]

    pause-Costs :
        (v' : WaitVars)
        → v'.verify_attempts ≡ v.verify_attempts
        → v'.redirects ≡ v.redirects
        → Costs v w0 (pause v', w)
    pause-Costs v' same kept =
        (polled.0, polled.1, omega (arith, polled.2, same), omega (arith, same), ap length kept)

    handle_status-Costs : (res : QrStatusResult) → Costs v w0 (handle_status env lo policy res v w)
    unfolding handle_status
    handle_status-Costs res = if_intro (Costs v w0) (str_eq res.status status_confirmed) ended (
        if_intro (Costs v w0) (str_eq res.status status_expired) ended (
          if_intro (Costs v w0) (str_eq res.status status_need_verify_code) ask_code-Costs (
            if_intro (Costs v w0) (str_eq res.status status_verify_code_blocked) ended (
              if_intro (Costs v w0) (str_eq res.status status_bound_redirect) ended (
                if_intro (Costs v w0) (str_eq res.status status_redirect)
                  (follow_redirect-Costs res.redirect_host)
                  (if_intro (Costs v w0) (str_eq res.status status_scanned)
                    (pause-Costs (record v { verify_code = [] }) refl refl)
                    (if_intro (Costs v w0) (str_eq res.status status_wait) (pause-Costs v refl refl)
                      (if_intro (Costs v w0) (is_empty res.status) ended
                        (pause-Costs v refl refl)))))))))

  report_status-keeps :
      (status : Str) (v : WaitVars) (w : W)
      → (tally (report_status env lo policy status v w).1 ≡ tally w)
        × ((report_status env lo policy status v w).0.redirects ≡ v.redirects)
        × ((report_status env lo policy status v w).0.verify_attempts ≡ v.verify_attempts)
  unfolding report_status
  report_status-keeps status v w = elim (Bool-cases (str_eq status v.last_status)) [
    | inl same ↦ rw (same, report_status) (refl, refl, refl)
    | inr new ↦ elim (Option-cases env.on_status) [
      | inl silent ↦ rw (new, silent, report_status) (refl, refl, refl)
      | inr (notify, heard) ↦
          rw (new, heard, report_status) (counts.report_keeps notify status w heard, refl, refl)
    ]
  ]

  -- The costs do not depend on the last status.
  Costs-report :
      (v v' : WaitVars) (w : W) (r : Verdict × W)
      → v'.redirects ≡ v.redirects
      → v'.verify_attempts ≡ v.verify_attempts
      → Costs v' w r
      → Costs v w r
  Costs-report v v' w (finish _, w1) kept same c = (c.0, c.1, omega (arith, c.2, same))
  Costs-report v v' w (redirect u, w1) kept same c =
      (c.0, c.1, c.2, c.3 ∙ same, omega (arith, c.4, ap length kept), c.5)
  Costs-report v v' w (pause u, w1) kept same c =
      (c.0, c.1, omega (arith, c.2, same), c.3, omega (arith, c.4, ap length kept))

  Polled-same : (w w1 w2 : W) → Polled w w1 → tally w2 ≡ tally w1 → Polled w w2
  Polled-same w w1 w2 p e = rw e p

  pub poll_once-Costs :
      (qrcode : Str) (v : WaitVars) (w : W)
      → v.verify_attempts ≤ limit
      → Costs v w (poll_once env lo policy qrcode v w)
  unfolding poll_once
  poll_once-Costs qrcode v w few =
      let checked = env.ctx_err w in
      let at_start : Polled w checked.1 =
        Polled-same w w checked.1 (omega arith, refl, refl) (counts.ctx_keeps w) in
      let polled =
        check_qr_status env.codec (record lo { base_url = v.base_url }) qrcode v.verify_code
          checked.1 in
      let p : Polled w polled.1 =
        rw (← counts.ctx_keeps w)
          (check_qr_status-Polled v.base_url qrcode v.verify_code checked.1) in
      elim (Option-cases checked.0) [
        | inr (e, cancelled) ↦ rw (cancelled, poll_once) (ended v w checked.1 at_start few)
        | inl live ↦ elim (Sum-cases polled.0) [
          | inl (e, failed) ↦
              let late = env.ctx_err polled.1 in
              let q : Polled w late.1 =
                Polled-same w polled.1 late.1 p (counts.ctx_keeps polled.1) in
              elim (Option-cases late.0) [
                | inr (e', over) ↦ rw (live, failed, over, poll_once) (ended v w late.1 q few)
                | inl on ↦
                    rw (live, failed, on, poll_once)
                      (if_intro (Costs v w) (retry_qr_request env.is_timeout e)
                        (pause-Costs v w late.1 q few v refl refl) (ended v w late.1 q few))
              ]
          | inr (res, got) ↦
              let told = report_status env lo policy res.status v polled.1 in
              let kept = report_status-keeps res.status v polled.1 in
              let late = env.ctx_err told.1 in
              let q : Polled w late.1 =
                Polled-same w polled.1 late.1 p (counts.ctx_keeps told.1 ∙ kept.0) in
              elim (Option-cases late.0) [
                | inr (e', over) ↦ rw (live, got, over, poll_once) (ended v w late.1 q few)
                | inl on ↦
                    rw (live, got, on, poll_once)
                      (Costs-report v told.0 w (handle_status env lo policy res told.0 late.1)
                        kept.1 kept.2
                        (handle_status-Costs told.0 w late.1 q (omega (arith, kept.2, few)) res))
              ]
        ]
      ]
