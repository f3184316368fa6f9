-- ===== src/Config.antt =====
-- config.go: `Config`, its options, `setDefaults` and `validate`. Durations are in nanoseconds. A
-- pointer or an interface that may be nil is an optional reference.
pub mod Options
pub mod Valid
use wechat_bot.Base.{
  ℕ, ◌+◌, ◌-◌, ◌*◌, ◌^◌, Bool, true, false, not, ◌&&◌, ◌||◌, Option, none, some, List, [], ◌∷◌, ◌⊎◌,
  inl, inr, if◌then◌else◌, Str, codes, str_eq, is_empty, ℤ, pos, negsuc, leb_ℤ, ltb_ℤ, eqb_ℤ, ◌==◌,
}
use wechat_bot.Errors.{Error, message}
use wechat_bot.Url.Policy.{Url, Net}

pub record Config : Type 0 where
  pub bot_token : Str
  pub ilink_bot_id : Str
  pub ilink_user_id : Str
  pub base_url : Str
  pub cdn_base_url : Str
  pub http_client : Option ℕ
  pub storage : Option ℕ
  pub logger : Option ℕ
  pub send_timeout : ℤ
  pub media_timeout : ℤ
  pub typing_timeout : ℤ
  pub long_poll_timeout : ℤ
  pub handler_concurrency : ℤ
  pub backoff_initial : ℤ
  pub backoff_max : ℤ
  pub media_hosts : List Str
  pub max_response_bytes : ℤ
  pub max_media_bytes : ℤ
  pub max_context_tokens : ℤ
  pub empty_buf_expired_threshold : ℤ

-- `time.Second`
abbrev pub second : ℕ
second = 1_000_000_000

-- `math.MaxInt64`
abbrev pub max_int64 : ℕ
max_int64 = 2 ^ 63 - 1

-- The references that the defaults bring in: a new HTTP client, a new memory storage, and
-- `slog.Default()`.
pub record Fresh : Type 0 where
  pub http_client : ℕ
  pub storage : ℕ
  pub logger : ℕ

abbrev pub or_text : Str → Str → Str
or_text given fallback = if is_empty given then fallback else given

abbrev pub or_ref : Option ℕ → ℕ → Option ℕ
or_ref none fallback = some fallback
or_ref (some r) fallback = some r

-- `if v <= 0 { v = fallback }`
abbrev pub or_positive : ℤ → ℕ → ℤ
or_positive v fallback = if leb_ℤ v (pos 0) then pos fallback else v

-- `if v == 0 { v = fallback }`
abbrev pub or_nonzero : ℤ → ℕ → ℤ
or_nonzero v fallback = if eqb_ℤ v (pos 0) then pos fallback else v

unfoldable pub set_defaults : Fresh → Config → Config
set_defaults fresh c = record c {
  base_url = or_text c.base_url (codes "https://ilinkai.weixin.qq.com");
  cdn_base_url = or_text c.cdn_base_url (codes "https://novac2c.cdn.weixin.qq.com/c2c");
  http_client = or_ref c.http_client fresh.http_client;
  storage = or_ref c.storage fresh.storage;
  logger = or_ref c.logger fresh.logger;
  send_timeout = or_positive c.send_timeout (15 * second);
  media_timeout = or_positive c.media_timeout (90 * second);
  typing_timeout = or_positive c.typing_timeout (8 * second);
  long_poll_timeout = or_positive c.long_poll_timeout (35 * second);
  empty_buf_expired_threshold = or_positive c.empty_buf_expired_threshold 20;
  handler_concurrency = or_nonzero c.handler_concurrency 1;
  backoff_initial = or_nonzero c.backoff_initial (3 * second);
  backoff_max = or_nonzero c.backoff_max (60 * second);
  max_response_bytes = or_nonzero c.max_response_bytes (2 ^ 20);
  max_media_bytes = or_nonzero c.max_media_bytes (32 * 2 ^ 20);
  max_context_tokens = or_nonzero c.max_context_tokens 1024;
}

-- `strings.TrimRight(s, "/")`
unfoldable pub trim_slashes : Str → Str
trim_slashes [] = []
trim_slashes (c ∷ s) =
    let rest = trim_slashes s in if c == b'/' && is_empty rest then [] else c ∷ rest

-- The rejection of a base URL, and the URL that is kept.
unfoldable pub check_base : Net → Str → Error ⊎ Str
unfolding trim_slashes
check_base net base =
    let bad : Error ⊎ Str = inl (
      message (
        codes
          "wechat: base URLs require http(s), a host, and no credentials, query, or fragment")) in
    elim (net.parse_url base) [
      | none ↦ bad
      | some u ↦
          if is_empty u.hostname
            || not (str_eq u.scheme (codes "https")) && not (str_eq u.scheme (codes "http"))
            || u.has_user
            || not (is_empty u.raw_query)
            || u.force_query
            || not (is_empty u.fragment)
          then bad
          else inr (trim_slashes (net.url_string u))
    ]

abbrev pub bounds_invalid : Config → Bool
bounds_invalid c =
    ltb_ℤ c.handler_concurrency (pos 1)
    || ltb_ℤ c.max_context_tokens (pos 1)
    || leb_ℤ c.backoff_initial (pos 0)
    || ltb_ℤ c.backoff_max c.backoff_initial

abbrev pub limits_invalid : Config → Bool
limits_invalid c =
    ltb_ℤ c.max_response_bytes (pos 1)
    || eqb_ℤ c.max_response_bytes (pos max_int64)
    || ltb_ℤ c.max_media_bytes (pos 1)
    || ltb_ℤ (pos (max_int64 - 32)) c.max_media_bytes

-- The configuration with its base URLs replaced, or the error.
unfoldable pub validate : Net → Config → Error ⊎ Config
unfolding check_base
validate net c =
    if bounds_invalid c
    then inl (message (codes "wechat: invalid concurrency, cache capacity, or backoff bounds"))
    else if limits_invalid c
    then inl (message (codes "wechat: invalid response or media byte limit"))
    else if ltb_ℤ (pos (max_int64 - 5 * second)) c.long_poll_timeout
    then inl (message (codes "wechat: long-poll timeout is too large"))
    else elim (check_base net c.base_url) [
      | inl e ↦ inl e
      | inr base ↦ elim (check_base net c.cdn_base_url) [
        | inl e ↦ inl e
        | inr cdn_base ↦ inr (record c { base_url = base; cdn_base_url = cdn_base })
      ]
    ]
