-- ===== src/Client.antt =====
-- client.go: `Client`, `NewClient` and the accessors. `uin` is the result of `GenerateUIN`; `jitter`, as
-- `NewClient` sets it, is `equalJitter`, which the backoff uses.
pub mod Ready
use wechat_bot.Base.{
  ℕ, Option, Bool, true, false, ◌||◌, List, [], ◌∷◌, ◌⊎◌, inl, inr, if◌then◌else◌, Str, is_empty, ℤ,
  pos_part,
}
use wechat_bot.Config.{Config, Fresh, set_defaults, validate}
use wechat_bot.Config.Options.{ConfigOption}
use wechat_bot.Errors.{Error, err_credentials_required}
use wechat_bot.TokenCache.{TokenCache}
use wechat_bot.Url.Policy.{Net, UrlPolicy, new_url_policy}
use wechat_bot.Url.Redirect.{GuardedClient, redirect_guarded_client}

pub record Client : Type 0 where
  pub cfg : Config
  pub wechat_uin : Str
  pub tokens : TokenCache
  pub media_policy : UrlPolicy
  pub media_client : GuardedClient
  pub running : Bool

-- `for _, opt := range opts`
unfoldable pub apply_options : List ConfigOption → Config → Config
apply_options [] cfg = cfg
apply_options (opt ∷ opts) cfg = apply_options opts (opt cfg)

-- `make(map[string]*list.Element)` and `list.New()`
abbrev pub no_tokens : Config → TokenCache
no_tokens cfg = record {
  ctx_tokens = [];
  ctx_token_lru = [];
  next = 0;
  max_context_tokens = pos_part cfg.max_context_tokens;
}

-- `&Client{…}`
abbrev pub client_of : Net → Str → Config → Client
client_of net uin cfg =
    let policy = new_url_policy net cfg.cdn_base_url cfg.media_hosts in
    record {
      cfg = cfg;
      wechat_uin = uin;
      tokens = no_tokens cfg;
      media_policy = policy;
      media_client = redirect_guarded_client net policy cfg.http_client;
      running = false;
    }

unfoldable pub new_client : Net → Fresh → Str → Config → List ConfigOption → Error ⊎ Client
unfolding apply_options
new_client net fresh uin cfg opts =
    let settled = set_defaults fresh (apply_options opts cfg) in
    if is_empty settled.bot_token || is_empty settled.ilink_bot_id
    then inl err_credentials_required
    else elim (validate net settled) [
      | inl e ↦ inl e
      | inr accepted ↦ inr (client_of net uin accepted)
    ]

-- `BotID`, `BaseURL` and `Logger`
unfoldable pub bot_id : Client → Str
bot_id c = c.cfg.ilink_bot_id

unfoldable pub base_url : Client → Str
base_url c = c.cfg.base_url

unfoldable pub logger : Client → Option ℕ
logger c = c.cfg.logger
