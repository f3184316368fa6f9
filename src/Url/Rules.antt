-- ===== src/Url/Rules.antt =====
-- urlpolicy.go: exactly which URLs the policy lets the client contact.
use wechat_bot.Base.{
  Bool, true, false, none, some, List, [], ◌∷◌, ◌⊎◌, ◌↔◌, ◌≡◌, ◌≢◌, arith, Str, codes, str_eq_iff,
  is_empty_iff, length, ltb,
}
use wechat_bot.Url.Policy.{
  Url, Net, to_lower, UrlPolicy, is_public_ip, is_allowed, check_host, check,
}

-- An encrypted connection, or a plaintext one where the configured base URL is plaintext itself.
abbrev pub IsSecure : UrlPolicy → Url → Type 0
IsSecure p u = (u.scheme ≡ codes "https") ⊎ ((u.scheme ≡ codes "http") × (p.require_tls ≡ false))

-- A host name, or the address of a public host.
abbrev pub is_open : Net → Str → Bool
is_open net host = elim (net.parse_ip host) [ none ↦ true | some ip ↦ is_public_ip ip ]

-- The configured host, a host of the list, or any open host where there is no list.
abbrev pub IsKnown : Net → UrlPolicy → Str → Type 0
IsKnown net p host =
    (host ≡ p.configured)
    ⊎ (is_allowed host p.allowed ≡ true)
    ⊎ ((p.allowed ≡ []) × (is_open net host ≡ true))

no_list_iff : (l : List Str) → (ltb 0 (length l) ≡ false) ↔ (l ≡ [])
no_list_iff [] = ground arith
no_list_iff (x ∷ l) = ground arith

listed : (host : Str) (l : List Str) → is_allowed host l ≡ true → ltb 0 (length l) ≡ true
unfolding is_allowed
listed host [] h = ground arith
listed host (x ∷ l) h = ground arith

check_host_iff :
    (net : Net) (p : UrlPolicy) (u : Url)
    → (check_host net p u ≡ none)
      ↔ ((u.has_user ≡ false) × (to_lower u.hostname ≢ []) × IsKnown net p (to_lower u.hostname))
unfolding check_host
check_host_iff net p u = ground (
  arith,
  is_empty_iff (to_lower u.hostname),
  str_eq_iff (to_lower u.hostname) p.configured,
  no_list_iff p.allowed,
  listed (to_lower u.hostname) p.allowed,
)

-- `check` lets a URL pass exactly when its connection is secure, it carries no credentials, its
-- host is not empty, and the host is known.
pub check_iff :
    (net : Net) (p : UrlPolicy) (u : Url)
    → (check net p u ≡ none) ↔ (
        IsSecure p u
        × (u.has_user ≡ false)
        × (to_lower u.hostname ≢ [])
        × IsKnown net p (to_lower u.hostname))
unfolding check
check_iff net p u = ground (
  arith,
  check_host_iff net p u,
  str_eq_iff u.scheme (codes "https"),
  str_eq_iff u.scheme (codes "http"),
)
