-- ===== src/Url/Policy.antt =====
-- urlpolicy.go: `urlPolicy` and its checks.
use wechat_bot.Base.{
  ℕ, ◌+◌, Bool, true, false, not, ◌&&◌, Option, none, some, List, [], ◌∷◌, map, leb, if◌then◌else◌,
  Str, codes, str_eq, is_empty, length, ltb,
}
use wechat_bot.Errors.{Error, wrapped, err_blocked_url}

-- The parts of a `url.URL` that the program reads.
pub record Url : Type 0 where
  pub scheme : Str
  pub has_user : Bool
  pub host : Str
  pub hostname : Str
  pub path : Str
  pub raw_path : Str
  pub raw_query : Str
  pub force_query : Bool
  pub fragment : Str

-- The answers of `net.IP` about an address.
pub record Ip : Type 0 where
  pub is_global_unicast : Bool
  pub is_private : Bool
  pub is_link_local_unicast : Bool

-- `net/url` and `net`: parsing and printing.
pub record Net : Type 0 where
  pub parse_url : Str → Option Url
  pub url_string : Url → Str
  pub parse_ip : Str → Option Ip

-- `strings.ToLower` on the bytes of a host name in ASCII
unfoldable pub to_lower : Str → Str
to_lower = map (λ c. if leb b'A' c && leb c b'Z' then 32 + c else c)

pub record UrlPolicy : Type 0 where
  pub require_tls : Bool
  pub configured : Str
  pub allowed : List Str

-- `maxServerRedirects`
abbrev pub max_server_redirects : ℕ
max_server_redirects = 5

unfoldable pub is_public_ip : Ip → Bool
is_public_ip ip = ip.is_global_unicast && not ip.is_private && not ip.is_link_local_unicast

-- `fmt.Errorf("%w: …", ErrBlockedURL)`
abbrev pub blocked : Str → Option Error
blocked why = some (wrapped why err_blocked_url)

-- `for _, candidate := range p.allowed`
unfoldable pub is_allowed : Str → List Str → Bool
is_allowed host [] = false
is_allowed host (candidate ∷ rest) =
    let later = is_allowed host rest in if str_eq host (to_lower candidate) then true else later

unfoldable pub new_url_policy : Net → Str → List Str → UrlPolicy
unfolding to_lower
new_url_policy net base_url allowed = elim (net.parse_url base_url) [
  | none ↦ record { require_tls = true; configured = []; allowed = allowed }
  | some u ↦ record {
    require_tls = not (str_eq u.scheme (codes "http"));
    configured = to_lower u.hostname;
    allowed = allowed;
  }
]

-- What `check` does once the scheme has been accepted.
unfoldable pub check_host : Net → UrlPolicy → Url → Option Error
unfolding to_lower is_allowed is_public_ip
check_host net p u =
    if u.has_user
    then blocked (codes "URL carries credentials")
    else let host = to_lower u.hostname in
      if is_empty host
      then blocked (codes "URL has no host")
      else if str_eq host p.configured
      then none
      else if ltb 0 (length p.allowed)
      then if is_allowed host p.allowed
        then none
        else blocked (codes "host is not in the configured allowlist")
      else elim (net.parse_ip host) [
        | none ↦ none
        | some ip ↦
            if not (is_public_ip ip) then blocked (codes "refusing a non-public address") else none
      ]

unfoldable pub check : Net → UrlPolicy → Url → Option Error
unfolding check_host
check net p u =
    if str_eq u.scheme (codes "https")
    then check_host net p u
    else if str_eq u.scheme (codes "http")
    then if p.require_tls then blocked (codes "refusing plaintext http") else check_host net p u
    else blocked (codes "unsupported URL scheme")

unfoldable pub check_string : Net → UrlPolicy → Str → Option Error
unfolding check
check_string net p raw = elim (net.parse_url raw) [
  | none ↦ blocked (codes "malformed URL")
  | some u ↦ check net p u
]

-- `via` is the number of requests made already.
unfoldable pub check_redirect : Net → UrlPolicy → Url → ℕ → Option Error
unfolding check
check_redirect net p u via =
    if leb max_server_redirects via then blocked (codes "too many redirects") else check net p u
