-- ===== src/Login/Options.antt =====
-- login.go: `loginOptions` and its options.
use wechat_bot.Base.{
  Option, none, some, List, [], ◌∷◌, if◌then◌else◌, Str, codes, is_empty, ℤ, pos, ltb_ℤ,
}
use wechat_bot.Errors.{Error}
use wechat_bot.Http.{Http}
use wechat_bot.Listener.Env.{Action}

-- The verification code handler returns a code and an error.
pub record LoginOptions (W : Type 0) : Type 0 where
  pub base_url : Str
  pub http_client : Http W
  pub verification_code_handler : Option (Action W (Str × Option Error))
  pub hosts : List Str
  pub max_verify_attempts : ℤ

-- `DefaultBaseURL`
abbrev pub default_base_url : Str
default_base_url = codes "https://ilinkai.weixin.qq.com"

-- `DefaultVerificationAttempts`
abbrev pub default_verification_attempts : ℤ
default_verification_attempts = pos 3

abbrev pub LoginOption : Type 0 → Type 0
LoginOption W = LoginOptions W → LoginOptions W

module _ {W : Type 0} where
  -- `client` is `&http.Client{Timeout: 45 * time.Second}`.
  unfoldable pub default_login_options : Http W → LoginOptions W
  default_login_options client = record {
    base_url = default_base_url;
    http_client = client;
    verification_code_handler = none;
    hosts = [];
    max_verify_attempts = default_verification_attempts;
  }

  abbrev pub apply_login_options : List (LoginOption W) → LoginOptions W → LoginOptions W
  apply_login_options [] lo = lo
  apply_login_options (opt ∷ opts) lo = apply_login_options opts (opt lo)

  unfoldable pub resolve_login_options : Http W → List (LoginOption W) → LoginOptions W
  unfolding default_login_options
  resolve_login_options client opts = apply_login_options opts (default_login_options client)

  unfoldable pub with_login_base_url : Str → LoginOption W
  with_login_base_url base_url o = if is_empty base_url then o else record o { base_url = base_url }

  unfoldable pub with_login_http_client : Option (Http W) → LoginOption W
  with_login_http_client none o = o
  with_login_http_client (some client) o = record o { http_client = client }

  unfoldable pub with_verification_code_handler :
      Option (Action W (Str × Option Error)) → LoginOption W
  with_verification_code_handler handler o = record o { verification_code_handler = handler }

  unfoldable pub with_login_hosts : List Str → LoginOption W
  with_login_hosts hosts o = record o { hosts = hosts }

  unfoldable pub with_verification_attempts : ℤ → LoginOption W
  with_verification_attempts n o = record o {
    max_verify_attempts = if ltb_ℤ n (pos 1) then default_verification_attempts else n;
  }
