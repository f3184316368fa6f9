-- ===== src/Login/Wait.antt =====
-- login.go: `WaitForQRConfirmation`. One iteration of its loop is a function of the loop's variables
-- and the world; the loop itself takes fuel. The deadline of `WithTimeout` is part of when
-- `ctx_err` and `wait` report an error.
pub mod Cooperation
pub mod Counting
pub mod Ledger
pub mod Limits
pub mod Progress
pub mod Trust
use wechat_bot.Base.{
  ◌≡◌, refl, ℕ, zero, suc, ◌+◌, ◌*◌, Bool, true, false, not, ◌&&◌, ◌||◌, Option, none, some, List,
  [], ◌∷◌, ◌++◌, ◌⊎◌, inl, inr, length, leb, ltb, if◌then◌else◌, Str, codes, str_eq, is_empty,
  trim_space, ℤ, pos, pos_part, leb_ℤ, eqb_ℤ,
}
use wechat_bot.Config.{second}
use wechat_bot.Errors.{
  Error, err_qr_confirmed_no_creds, err_qr_expired, err_verification_required,
  err_verification_blocked, err_verification_attempts_exhausted, err_qr_already_bound, message,
  wrapped, http_status,
}
use wechat_bot.Listener.Env.{Action}
use wechat_bot.Login.Options.{LoginOptions}
use wechat_bot.Login.Request.{LoginCodec, QrStatusResult, check_qr_status}
use wechat_bot.Login.Status.{
  status_wait, status_scanned, status_confirmed, status_expired, status_need_verify_code,
  status_verify_code_blocked, status_redirect, status_bound_redirect, max_qr_redirects,
  qr_redirect_url, retry_qr_request, was_visited,
}
use wechat_bot.Storage.File.{Credentials}
use wechat_bot.Url.Policy.{Net, UrlPolicy, new_url_policy, check}

-- The world around the wait: `ctx.Err()`, the timer of the interval against the context, and the
-- status callback, if there is one.
pub record WaitEnv (W : Type 0) : Type 0 where
  pub codec : LoginCodec
  pub ctx_err : Action W (Option Error)
  pub wait : ℕ → Action W (Option Error)
  pub on_status : Option (Str → W → W)
  pub is_timeout : Error → Bool

-- The variables of the loop; `redirects` are the keys of the map.
pub record WaitVars : Type 0 where
  pub base_url : Str
  pub last_status : Str
  pub verify_code : Str
  pub redirects : List Str
  pub verify_attempts : ℕ

-- What a status asks for: an end, another poll at once, or another poll after the interval.
pub data Verdict : Type 0 where
  finish : Error ⊎ Credentials → Verdict
  redirect : WaitVars → Verdict
  pause : WaitVars → Verdict

-- What an iteration leads to.
pub data WaitNext : Type 0 where
  again : WaitVars → WaitNext
  return : Error ⊎ Credentials → WaitNext

pub WaitNext-cases :
    (n : WaitNext) → ((r : Error ⊎ Credentials) × (n ≡ return r)) ⊎ ((v : WaitVars) × (n ≡ again v))
WaitNext-cases (return r) = inl (r, refl)
WaitNext-cases (again v) = inr (v, refl)

module _ {W : Type 0} (env : WaitEnv W) (lo : LoginOptions W) (policy : UrlPolicy) where
  -- `case QRStatusNeedVerifyCode`
  unfoldable pub ask_code : WaitVars → Action W Verdict
  ask_code v w = elim lo.verification_code_handler [
    | none ↦ (finish (inl err_verification_required), w)
    | some handler ↦
        if leb_ℤ lo.max_verify_attempts (pos v.verify_attempts)
        then (finish (inl err_verification_attempts_exhausted), w)
        else let ((code, failed), w1) = handler w in
          let (cancelled, w2) = env.ctx_err w1 in
          elim cancelled [
            | some e ↦ (finish (inl e), w2)
            | none ↦ elim failed [
              | some e ↦ (finish (inl (wrapped (codes "get verification code") e)), w2)
              | none ↦
                  let trimmed = trim_space code in
                  if is_empty trimmed then (finish (inl err_verification_required), w2) else (
                    pause (record v {
                      verify_code = trimmed;
                      verify_attempts = v.verify_attempts + 1;
                    }),
                    w2,
                  )
            ]
          ]
  ]

  -- `case QRStatusConfirmed`
  unfoldable pub credentials_of : QrStatusResult → Error ⊎ Credentials
  credentials_of res =
      if is_empty res.bot_token || is_empty res.ilink_bot_id
      then inl err_qr_confirmed_no_creds
      else inr (record {
        bot_token = res.bot_token;
        ilink_bot_id = res.ilink_bot_id;
        base_url = res.base_url;
        ilink_user_id = res.ilink_user_id;
      })

  -- `case QRStatusRedirect`
  unfoldable pub follow_redirect : Str → WaitVars → Verdict
  unfolding qr_redirect_url was_visited
  follow_redirect host v = elim (qr_redirect_url env.codec.net host policy) [
    | inl e ↦ finish (inl e)
    | inr base_url ↦
        if leb max_qr_redirects (length v.redirects) || was_visited base_url v.redirects
        then finish (inl (message (codes "wechat: qr redirect limit or loop detected")))
        else redirect (record v { base_url = base_url; redirects = base_url ∷ v.redirects })
  ]

  -- The `switch` on the status.
  unfoldable pub handle_status : QrStatusResult → WaitVars → Action W Verdict
  handle_status res v w =
      if str_eq res.status status_confirmed
      then (finish (credentials_of res), w)
      else if str_eq res.status status_expired
      then (finish (inl err_qr_expired), w)
      else if str_eq res.status status_need_verify_code
      then ask_code v w
      else if str_eq res.status status_verify_code_blocked
      then (finish (inl err_verification_blocked), w)
      else if str_eq res.status status_bound_redirect
      then (finish (inl err_qr_already_bound), w)
      else if str_eq res.status status_redirect
      then (follow_redirect res.redirect_host v, w)
      else if str_eq res.status status_scanned
      then (pause (record v { verify_code = [] }), w)
      else if str_eq res.status status_wait
      then (pause v, w)
      else if is_empty res.status
      then (finish (inl (message (codes "wechat: qr status response has no status"))), w)
      else (pause v, w)

  -- The report of a status that is not the last one.
  unfoldable pub report_status : Str → WaitVars → Action W WaitVars
  report_status status v w = if str_eq status v.last_status then (v, w) else (
    record v { last_status = status },
    elim env.on_status [ none ↦ w | some notify ↦ notify status w ],
  )

  -- An iteration up to the timer.
  unfoldable pub poll_once : Str → WaitVars → Action W Verdict
  poll_once qrcode v w =
      let (cancelled, w1) = env.ctx_err w in
      elim cancelled [
        | some e ↦ (finish (inl e), w1)
        | none ↦
            let (polled, w2) =
              check_qr_status env.codec (record lo { base_url = v.base_url }) qrcode v.verify_code
                w1 in
            elim polled [
              | inl e ↦
                  let (late, w3) = env.ctx_err w2 in
                  elim late [
                    | some e' ↦ (finish (inl e'), w3)
                    | none ↦
                        if retry_qr_request env.is_timeout e
                        then (pause v, w3)
                        else (finish (inl e), w3)
                  ]
              | inr res ↦
                  let (v', w3) = report_status res.status v w2 in
                  let (late, w4) = env.ctx_err w3 in
                  elim late [ some e ↦ (finish (inl e), w4) | none ↦ handle_status res v' w4 ]
            ]
      ]

  -- The timer behind a poll.
  unfoldable pub settle : ℕ → Verdict → Action W WaitNext
  settle interval (finish r) w = (return r, w)
  settle interval (redirect v) w = (again v, w)
  settle interval (pause v) w =
      let (stopped, w1) = env.wait interval w in
      elim stopped [ some e ↦ (return (inl e), w1) | none ↦ (again v, w1) ]

  unfoldable pub iterate_wait : Str → ℕ → WaitVars → Action W WaitNext
  iterate_wait qrcode interval v w =
      let (verdict, w1) = poll_once qrcode v w in settle interval verdict w1

  -- `none` means that the fuel ran out.
  unfoldable pub poll_qr : ℕ → Str → ℕ → WaitVars → Action W (Option (Error ⊎ Credentials))
  poll_qr zero qrcode interval v w = (none, w)
  poll_qr (suc fuel) qrcode interval v w =
      let (next, w1) = iterate_wait qrcode interval v w in
      elim next [ return r ↦ (some r, w1) | again v' ↦ poll_qr fuel qrcode interval v' w1 ]

abbrev pub wait_start : Str → WaitVars
wait_start base_url = record {
  base_url = base_url;
  last_status = [];
  verify_code = [];
  redirects = [];
  verify_attempts = 0;
}

-- `if interval <= 0 { interval = 3 * time.Second }`
abbrev pub poll_interval : ℤ → ℕ
poll_interval interval = if leb_ℤ interval (pos 0) then 3 * second else pos_part interval

-- `WaitForQRConfirmation` with the options resolved and the timeout in the context.
unfoldable pub wait_for_qr_confirmation :
    {W : Type 0}
    → WaitEnv W
    → LoginOptions W
    → ℕ
    → Str
    → ℤ
    → Action W (Option (Error ⊎ Credentials))
wait_for_qr_confirmation env lo fuel qrcode interval w =
    poll_qr env lo (new_url_policy env.codec.net lo.base_url lo.hosts) fuel qrcode
      (poll_interval interval) (wait_start lo.base_url) w
