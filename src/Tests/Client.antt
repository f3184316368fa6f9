-- ===== src/Tests/Client.antt =====
-- config.go, client.go and urlpolicy.go: the theorems at a small configuration, with a URL parser
-- that gives the same URL for every text.
use wechat_bot.Base.{true, false, none, some, [], ◌∷◌, inr, ◌↔◌, ◌≡◌, ◌≢◌, refl, codes, str_eq, pos}
use wechat_bot.Client.{apply_options, client_of, new_client}
use wechat_bot.Client.Ready.{IsReady, new_client-IsReady}
use wechat_bot.Config.{Config, Fresh, set_defaults, trim_slashes, check_base, validate}
use wechat_bot.Config.Options.{with_handler_concurrency}
use wechat_bot.Url.Policy.{Url, Net, UrlPolicy, to_lower, check}
use wechat_bot.Url.Rules.{IsSecure, IsKnown, check_iff}

abbrev pub home : Url
home = record {
  scheme = codes "https";
  has_user = false;
  host = codes "h";
  hostname = codes "h";
  path = [];
  raw_path = [];
  raw_query = [];
  force_query = false;
  fragment = [];
}

abbrev pub net : Net
net = record {
  parse_url = λ s. some home;
  url_string = λ u. codes "https://h/";
  parse_ip = λ s. none;
}

abbrev pub policy : UrlPolicy
policy = record { require_tls = true; configured = codes "h"; allowed = [] }

check_iff_example : (check net policy home ≡ none) ↔ (
    IsSecure policy home
    × (home.has_user ≡ false)
    × (to_lower home.hostname ≢ [])
    × IsKnown net policy (to_lower home.hostname))
check_iff_example = check_iff net policy home

abbrev fresh : Fresh
fresh = record { http_client = 1; storage = 2; logger = 3 }

abbrev blank : Config
blank = record {
  bot_token = codes "token";
  ilink_bot_id = codes "bot";
  ilink_user_id = [];
  base_url = [];
  cdn_base_url = [];
  http_client = none;
  storage = none;
  logger = none;
  send_timeout = pos 0;
  media_timeout = pos 0;
  typing_timeout = pos 0;
  long_poll_timeout = pos 0;
  handler_concurrency = pos 0;
  backoff_initial = pos 0;
  backoff_max = pos 0;
  media_hosts = [];
  max_response_bytes = pos 0;
  max_media_bytes = pos 0;
  max_context_tokens = pos 0;
  empty_buf_expired_threshold = pos 0;
}

-- The defaults, with the base URLs as they are printed.
abbrev default_config : Config
default_config = record (set_defaults fresh blank) {
  base_url = codes "https://h";
  cdn_base_url = codes "https://h";
}

abbrev four_workers : Config
four_workers = record default_config { handler_concurrency = pos 4 }

client_returned :
    new_client net fresh (codes "u") blank (with_handler_concurrency (pos 4) ∷ [])
    ≡ inr (client_of net (codes "u") four_workers)
unfolding new_client validate set_defaults check_base trim_slashes str_eq apply_options
    with_handler_concurrency
client_returned = refl

new_client-IsReady_example :
    IsReady net (client_of net (codes "u") four_workers)
    × ((client_of net (codes "u") four_workers).tokens.ctx_token_lru ≡ [])
new_client-IsReady_example =
    new_client-IsReady net fresh (codes "u") blank (with_handler_concurrency (pos 4) ∷ [])
      (client_of net (codes "u") four_workers) client_returned
