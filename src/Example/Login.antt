-- ===== src/Example/Login.antt =====
-- examples/basic/main.go: `credentials`. The loop of the login takes fuel.
use wechat_bot.Base.{
  ℕ, ◌*◌, not, ◌||◌, Option, none, some, [], ◌∷◌, ◌++◌, ◌⊎◌, inl, inr, Bool, if◌then◌else◌, Str,
  codes, utf8, str_eq, is_empty, pos,
}
use wechat_bot.Config.{second}
use wechat_bot.Errors.{Error, message, wrapped}
use wechat_bot.Http.{Http}
use wechat_bot.Io.{Io, ◌>>=◌, give, lift, explaining}
use wechat_bot.Listener.Env.{Action}
use wechat_bot.Login.Options.{LoginOptions, resolve_login_options, with_verification_code_handler}
use wechat_bot.Login.Request.{LoginCodec, QrCodeResult, get_qr_code, terminal_content}
use wechat_bot.Login.Status.{status_scanned}
use wechat_bot.Login.Wait.{WaitEnv, wait_for_qr_confirmation}
use wechat_bot.Storage.File.{Files, Credentials, load_credentials, save_credentials}

-- The process around the program: the files, `os.Getenv`, the terminal, and what a login takes from
-- its surroundings. `print_qr` is `PrintTerminalQR`, `scan` is `fmt.Scanln`.
pub record Process (W : Type 0) : Type 0 where
  pub files : Files W
  pub getenv : Str → Str
  pub print : Str → W → W
  pub print_qr : Str → W → W
  pub scan : Action W (Str × Option Error)
  pub codec : LoginCodec
  pub generate_uin : Action W Str
  pub login_client : Http W
  pub ctx_err : Action W (Option Error)
  pub wait : ℕ → Action W (Option Error)
  pub is_timeout : Error → Bool

module _ {W : Type 0} (process : Process W) where
  -- The credentials of the environment, if it has any.
  unfoldable pub environment_credentials : Error ⊎ Option Credentials
  environment_credentials =
      let token = process.getenv (codes "WECHAT_BOT_TOKEN") in
      let bot_id = process.getenv (codes "WECHAT_BOT_ID") in
      if not (is_empty token) || not (is_empty bot_id)
      then if is_empty token || is_empty bot_id
        then inl (message (utf8 "请同时设置 WECHAT_BOT_TOKEN 和 WECHAT_BOT_ID"))
        else inr (
            some (record {
              bot_token = token;
              ilink_bot_id = bot_id;
              base_url = process.getenv (codes "WECHAT_BASE_URL");
              ilink_user_id = [];
            }))
      else inr none

  -- `if !forceLogin`
  unfoldable pub known_credentials : Str → Io W (Option Credentials)
  known_credentials filename = do
    stored ← explaining (utf8 "读取凭据（使用 --login 可重新扫码）") (load_credentials process.files filename)
    elim stored [ some c ↦ give (some c) | none ↦ lift environment_credentials ]

  -- The status callback
  abbrev pub notice : Str → W → W
  notice status w =
      if str_eq status status_scanned then process.print (utf8 "二维码已扫描，请在微信确认登录。") w else w

  -- The verification code from the terminal
  unfoldable pub scan_code : Action W (Str × Option Error)
  scan_code w =
      let ((code, failed), w1) = process.scan (process.print (utf8 "微信要求输入验证码，请输入后回车：") w) in
      (elim failed [ some e ↦ ([], some (wrapped (utf8 "读取验证码") e)) | none ↦ (code, none) ], w1)

  abbrev pub login_env : WaitEnv W
  login_env = record {
    codec = process.codec;
    ctx_err = process.ctx_err;
    wait = process.wait;
    on_status = some notice;
    is_timeout = process.is_timeout;
  }

  abbrev pub login_options : LoginOptions W
  login_options =
      resolve_login_options process.login_client
        (with_verification_code_handler (some scan_code) ∷ [])

  -- `SaveCredentials` of what a login brought
  unfoldable pub keep_credentials : Str → Credentials → Io W Credentials
  unfolding save_credentials
  keep_credentials filename c w =
      let (failed, w1) = save_credentials process.files filename (some c) w in
      elim failed [
        | some e ↦ (inl (wrapped (utf8 "保存凭据") e), w1)
        | none ↦ (inr c, process.print (utf8 "凭据已保存至 " ++ filename ++ utf8 "。请勿提交或分享该文件。") w1)
      ]

  -- The wait for the confirmation of a code; `none` means that the fuel ran out.
  unfoldable pub confirm_login : ℕ → Str → QrCodeResult → Action W (Option (Error ⊎ Credentials))
  unfolding wait_for_qr_confirmation
  confirm_login fuel filename code w =
      let (ended, w1) =
        wait_for_qr_confirmation login_env login_options fuel code.qr_code (pos (2 * second)) w in
      elim ended [
        | none ↦ (none, w1)
        | some (inl e) ↦ (some (inl (wrapped (utf8 "扫码登录") e)), w1)
        | some (inr c) ↦ let (kept, w2) = keep_credentials filename c w1 in (some kept, w2)
      ]

  abbrev pub prompt : QrCodeResult → W → W
  prompt code w =
      process.print_qr (terminal_content code) (process.print (utf8 "请使用微信扫描二维码并确认登录：") w)

  -- The login by QR code
  unfoldable pub scan_login : ℕ → Str → Action W (Option (Error ⊎ Credentials))
  unfolding get_qr_code
  scan_login fuel filename w =
      let (qr, w1) =
        get_qr_code process.codec process.generate_uin
          (resolve_login_options process.login_client []) w in
      elim qr [
        | inl e ↦ (some (inl (wrapped (utf8 "获取登录二维码") e)), w1)
        | inr code ↦ confirm_login fuel filename code (prompt code w1)
      ]

  unfoldable pub credentials : ℕ → Str → Bool → Action W (Option (Error ⊎ Credentials))
  credentials fuel filename force_login w =
      if force_login
      then scan_login fuel filename w
      else let (known, w1) = known_credentials filename w in
        elim known [
          | inl e ↦ (some (inl e), w1)
          | inr (some c) ↦ (some (inr c), w1)
          | inr none ↦ scan_login fuel filename w1
        ]
