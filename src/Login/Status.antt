-- ===== src/Login/Status.antt =====
-- login.go and types.go: the statuses of a QR code, the redirects to another host, and the errors that
-- are polled through.
use wechat_bot.Base.{
  ℕ, Bool, false, not, ◌||◌, none, some, List, [], ◌∷◌, ◌++◌, ◌⊎◌, inl, inr, if◌then◌else◌, Str,
  codes, str_eq, is_empty, pos, leb_ℤ, eqb_ℤ,
}
use wechat_bot.Errors.{Error, message, http_status}
use wechat_bot.Url.Policy.{Net, UrlPolicy, check}

-- The status values that the server is known to send.
abbrev pub status_wait : Str
status_wait = codes "wait"

abbrev pub status_scanned : Str
status_scanned = codes "scaned"

abbrev pub status_confirmed : Str
status_confirmed = codes "confirmed"

abbrev pub status_expired : Str
status_expired = codes "expired"

abbrev pub status_need_verify_code : Str
status_need_verify_code = codes "need_verifycode"

abbrev pub status_verify_code_blocked : Str
status_verify_code_blocked = codes "verify_code_blocked"

abbrev pub status_redirect : Str
status_redirect = codes "scaned_but_redirect"

abbrev pub status_bound_redirect : Str
status_bound_redirect = codes "binded_redirect"

-- `maxQRRedirects`
abbrev pub max_qr_redirects : ℕ
max_qr_redirects = 5

-- `qrRedirectURL`
unfoldable pub qr_redirect_url : Net → Str → UrlPolicy → Error ⊎ Str
unfolding check
qr_redirect_url net host policy =
    let invalid : Error ⊎ Str = inl (message (codes "wechat: invalid qr redirect host")) in
    elim (net.parse_url (codes "https://" ++ host)) [
      | none ↦ invalid
      | some u ↦
          if is_empty u.hostname
            || not (str_eq u.host host)
            || u.has_user
            || not (is_empty u.path)
            || not (is_empty u.raw_query)
            || u.force_query
            || not (is_empty u.fragment)
          then invalid
          else elim (check net policy u) [ some e ↦ inl e | none ↦ inr (net.url_string u) ]
    ]

-- `retryQRRequest`; `is_timeout` tells of a `net.Error` that `errors.As` finds and its `Timeout()`.
unfoldable pub retry_qr_request : (Error → Bool) → Error → Bool
unfolding http_status
retry_qr_request is_timeout e = elim (http_status e) [
  | some status ↦ eqb_ℤ status (pos 408) || eqb_ℤ status (pos 429) || leb_ℤ (pos 500) status
  | none ↦ is_timeout e
]

-- `redirects[baseURL]`
unfoldable pub was_visited : Str → List Str → Bool
was_visited url [] = false
was_visited url (seen ∷ rest) = let later = was_visited url rest in str_eq seen url || later
