-- ===== src/Config/Options.antt =====
-- config.go: the options of `NewClient`; `new_config` is what `NewClient` makes of its configuration.
use wechat_bot.Base.{List, Option, Str, ℤ, ℕ}
use wechat_bot.Config.{Config}

-- `Option`
abbrev pub ConfigOption : Type 0
ConfigOption = Config → Config

unfoldable pub with_handler_concurrency : ℤ → ConfigOption
with_handler_concurrency n c = record c { handler_concurrency = n }

unfoldable pub with_backoff : ℤ → ℤ → ConfigOption
with_backoff initial maximum c = record c { backoff_initial = initial; backoff_max = maximum }

unfoldable pub with_media_hosts : List Str → ConfigOption
with_media_hosts hosts c = record c { media_hosts = hosts }

unfoldable pub with_base_url : Str → ConfigOption
with_base_url base_url c = record c { base_url = base_url }

unfoldable pub with_cdn_base_url : Str → ConfigOption
with_cdn_base_url cdn_base_url c = record c { cdn_base_url = cdn_base_url }

unfoldable pub with_http_client : Option ℕ → ConfigOption
with_http_client client c = record c { http_client = client }

unfoldable pub with_storage : Option ℕ → ConfigOption
with_storage storage c = record c { storage = storage }

unfoldable pub with_logger : Option ℕ → ConfigOption
with_logger logger c = record c { logger = logger }

unfoldable pub with_user_id : Str → ConfigOption
with_user_id user_id c = record c { ilink_user_id = user_id }

unfoldable pub with_send_timeout : ℤ → ConfigOption
with_send_timeout t c = record c { send_timeout = t }

unfoldable pub with_media_timeout : ℤ → ConfigOption
with_media_timeout t c = record c { media_timeout = t }

unfoldable pub with_long_poll_timeout : ℤ → ConfigOption
with_long_poll_timeout t c = record c { long_poll_timeout = t }

unfoldable pub with_expired_threshold : ℤ → ConfigOption
with_expired_threshold threshold c = record c { empty_buf_expired_threshold = threshold }
