-- ===== src/Example/Complete.antt =====
-- examples/basic/main.go: credentials that the program goes on with are complete.
use wechat_bot.Base.{
  ℕ, ◌*◌, not, codes, pos, ◌||◌, Bool, true, false, some, [], inl, inr, Str, is_empty, is_empty_iff,
  ◌≡◌, ◌≢◌, ap, subst, ◌∙◌, arith, Bool-cases, Option-cases, Sum-cases,
}
use wechat_bot.Config.{second}
use wechat_bot.Example.Login.{
  Process, environment_credentials, known_credentials, keep_credentials, scan_login, confirm_login,
  prompt, credentials, login_env, login_options,
}
use wechat_bot.Login.Options.{resolve_login_options}
use wechat_bot.Login.Request.{QrCodeResult, get_qr_code}
use wechat_bot.Login.Wait.{wait_for_qr_confirmation}
use wechat_bot.Storage.File.{Credentials, is_incomplete, save_credentials, load_credentials}

module _ {W : Type 0} (process : Process W) (path : Str) where
  -- Both the token and the account are given.
  abbrev pub IsComplete : Credentials → Type 0
  IsComplete c = (c.bot_token ≢ []) × (c.ilink_bot_id ≢ [])

  is_incomplete-IsComplete :
      (c : Credentials) → is_incomplete process.files c ≡ false → IsComplete c
  is_incomplete-IsComplete c h = (
    λ e. absurd (ground (arith, is_empty_iff c.bot_token)),
    λ e. absurd (ground (arith, is_empty_iff c.ilink_bot_id)),
  )

  pub keep_credentials_inversion :
      (c c' : Credentials) (w : W)
      → (keep_credentials process path c w).0 ≡ inr c'
      → (c ≡ c') × (is_incomplete process.files c ≡ false)
  unfolding keep_credentials save_credentials
  keep_credentials_inversion c c' w h = elim (Bool-cases (is_incomplete process.files c)) [
    | inl bad ↦ absurd (ground arith)
    | inr good ↦ elim (Option-cases (save_credentials process.files path (some c) w).0) [
      | inr (e, failed) ↦ absurd (ground arith)
      | inl saved ↦ (ground arith, good)
    ]
  ]

  confirm_login_inversion :
      (fuel : ℕ) (code : QrCodeResult) (c : Credentials) (w : W)
      → (confirm_login process fuel path code w).0 ≡ some (inr c)
      → (w' : W) × ((keep_credentials process path c w').0 ≡ inr c)
        × ((confirm_login process fuel path code w).1 ≡ (keep_credentials process path c w').1)
  unfolding confirm_login
  confirm_login_inversion fuel code c w h =
      let waited =
        wait_for_qr_confirmation (login_env process) (login_options process) fuel code.qr_code
          (pos (2 * second)) w in
      elim (Option-cases waited.0) [
        | inl running ↦ absurd (ground arith)
        | inr (r, ended) ↦ elim (Sum-cases r) [
          | inl (e, failed) ↦ absurd (ground arith)
          | inr (c', confirmed) ↦
              let kept : (keep_credentials process path c' waited.1).0 ≡ inr c = ground arith in
              let same : c' ≡ c = (keep_credentials_inversion c' c waited.1 kept).0 in
              let left : (confirm_login process fuel path code w).1
                  ≡ (keep_credentials process path c' waited.1).1 =
                rw (ended, confirmed, confirm_login) in
              (
                waited.1,
                subst (λ x. (keep_credentials process path x waited.1).0 ≡ inr c) same kept,
                left ∙ ap (λ x. (keep_credentials process path x waited.1).1) same,
              )
        ]
      ]

  -- A login by QR code that ends with credentials has kept them.
  pub scan_login_inversion :
      (fuel : ℕ) (c : Credentials) (w : W)
      → (scan_login process fuel path w).0 ≡ some (inr c)
      → (w' : W) × ((keep_credentials process path c w').0 ≡ inr c)
        × ((scan_login process fuel path w).1 ≡ (keep_credentials process path c w').1)
  unfolding scan_login
  scan_login_inversion fuel c w h =
      let qr =
        get_qr_code process.codec process.generate_uin
          (resolve_login_options process.login_client []) w in
      elim (Sum-cases qr.0) [
        | inl (e, failed) ↦ absurd (ground arith)
        | inr (code, got) ↦
            let ended : (confirm_login process fuel path code (prompt process code qr.1)).0
                ≡ some (inr c) =
              ground arith in
            let found = confirm_login_inversion fuel code c (prompt process code qr.1) ended in
            (found.0, found.1, rw (got, scan_login) found.2)
      ]

  load_credentials_inversion :
      (c : Credentials) (w : W)
      → (load_credentials process.files path w).0 ≡ inr (some c)
      → IsComplete c
  unfolding load_credentials
  load_credentials_inversion c w h = elim (Sum-cases (process.files.read_file path w).0) [
    | inl (e, unread) ↦ elim (Bool-cases (process.files.is_not_exist e)) [
      | inl missing ↦ absurd (ground arith)
      | inr failed ↦ absurd (ground arith)
    ]
    | inr (bytes, read) ↦ elim (Sum-cases (process.files.decode_credentials bytes)) [
      | inl (e, bad) ↦ absurd (ground arith)
      | inr (c', decoded) ↦ elim (Bool-cases (is_incomplete process.files c')) [
        | inl missing ↦ absurd (ground arith)
        | inr whole ↦
            let same : c' ≡ c = ground arith in rw (← same) (is_incomplete-IsComplete c' whole)
      ]
    ]
  ]

  environment_credentials_inversion :
      (c : Credentials) → environment_credentials process ≡ inr (some c) → IsComplete c
  unfolding environment_credentials
  environment_credentials_inversion c h =
      let token = process.getenv (codes "WECHAT_BOT_TOKEN") in
      let bot_id = process.getenv (codes "WECHAT_BOT_ID") in
      elim (Bool-cases (not (is_empty token) || not (is_empty bot_id))) [
        | inr unset ↦ absurd (ground arith)
        | inl set ↦ elim (Bool-cases (is_empty token || is_empty bot_id)) [
          | inl half ↦ absurd (ground arith)
          | inr both ↦ (
            λ e. absurd (ground (arith, is_empty_iff token)),
            λ e. absurd (ground (arith, is_empty_iff bot_id)),
          )
        ]
      ]

  known_credentials_inversion :
      (c : Credentials) (w : W) → (known_credentials process path w).0 ≡ inr (some c) → IsComplete c
  unfolding known_credentials
  known_credentials_inversion c w h = elim (Sum-cases (load_credentials process.files path w).0) [
    | inl (e, failed) ↦ absurd (ground arith)
    | inr (stored, loaded) ↦ elim (Option-cases stored) [
      | inr (c', there) ↦
          let same : c' ≡ c = ground arith in
          subst IsComplete same (load_credentials_inversion c' w (loaded ∙ ap inr there))
      | inl missing ↦ environment_credentials_inversion c (ground arith)
    ]
  ]

  kept-IsComplete :
      (c : Credentials) (w : W) → (keep_credentials process path c w).0 ≡ inr c → IsComplete c
  kept-IsComplete c w h = is_incomplete-IsComplete c (keep_credentials_inversion c c w h).1

  -- Credentials that the program goes on with, from its file, the environment or a login, name a token
  -- and an account.
  pub credentials-IsComplete :
      (fuel : ℕ) (force_login : Bool) (c : Credentials) (w : W)
      → (credentials process fuel path force_login w).0 ≡ some (inr c)
      → IsComplete c
  unfolding credentials
  credentials-IsComplete fuel true c w h =
      let found = scan_login_inversion fuel c w h in kept-IsComplete c found.0 found.1
  credentials-IsComplete fuel false c w h =
      let known = known_credentials process path w in
      elim (Sum-cases known.0) [
        | inl (e, failed) ↦ absurd (ground arith)
        | inr (o, got) ↦ elim (Option-cases o) [
          | inr (c', there) ↦
              let same : c' ≡ c = ground arith in
              subst IsComplete same (known_credentials_inversion c' w (got ∙ ap inr there))
          | inl missing ↦
              let found = scan_login_inversion fuel c known.1 (ground arith) in
              kept-IsComplete c found.0 found.1
        ]
      ]
