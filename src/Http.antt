-- ===== src/Http.antt =====
-- client.go: the HTTP exchange of the client: headers, limited bodies, transport errors and `doPost`.
-- `net/http` and `encoding/json` are parameters; logging has no effect and is left out.
use wechat_bot.Base.{
  ℕ, ◌+◌, ◌*◌, ◌%◌, ◌^◌, not, ◌||◌, Option, none, some, List, [], ◌∷◌, ◌++◌, ◌⊎◌, inl, inr, length,
  take, ltb, ◌==◌, if◌then◌else◌, Str, codes, ℤ, pos, eqb_ℤ, ◌-◌, format_uint, split_on,
}
use wechat_bot.Errors.{Error, err_response_too_large, http_error, wrapped}
use wechat_bot.Listener.Env.{Action}

pub record HttpRequest : Type 0 where
  pub method : Str
  pub url : Str
  pub headers : List (Str × Str)
  pub body : Str

-- `header` is `Header.Get`; `body` is what `io.ReadAll` would return for the whole body.
pub record HttpResponse : Type 0 where
  pub status_code : ℤ
  pub header : Str → Str
  pub content_length : ℤ
  pub body : Error ⊎ Str

-- An `http.Client` with its context: the error of `NewRequestWithContext` for a URL, `Do`, and the
-- cause in a `*url.Error` that `errors.As` finds.
pub record Http (W : Type 0) : Type 0 where
  pub request_error : Str → Option Error
  pub send : HttpRequest → Action W (Error ⊎ HttpResponse)
  pub url_cause : Error → Option Error

-- `Version`
abbrev pub version : Str
version = codes "0.1.0"

-- `strconv.ParseUint(field, 10, 8)`
unfoldable pub parse_digits : Str → ℕ → Option ℕ
parse_digits [] n = some n
parse_digits (c ∷ s) n =
    let rest = parse_digits s (n * 10 + (c - b'0')) in
    if ltb c b'0' || ltb b'9' c then none else rest

unfoldable pub parse_uint8 : Str → Option ℕ
unfolding parse_digits
parse_uint8 [] = none
parse_uint8 (c ∷ s) = elim (parse_digits (c ∷ s) 0) [
  | none ↦ none
  | some n ↦ if ltb 255 n then none else some n
]

-- The loop over the fields; `encoded` is a `uint64`.
unfoldable pub encode_fields : List Str → ℕ → Option ℕ
unfolding parse_uint8
encode_fields [] encoded = some encoded
encode_fields (field ∷ fields) encoded = elim (parse_uint8 field) [
  | none ↦ none
  | some part ↦ encode_fields fields (encoded * 2 ^ 8 % 2 ^ 64 + part)
]

unfoldable pub encode_client_version : Str → Str
unfolding encode_fields
encode_client_version v =
    let fields = split_on b'.' v in
    if not (length fields == 3)
    then codes "0"
    else elim (encode_fields fields 0) [ none ↦ codes "0" | some encoded ↦ format_uint encoded ]

-- `setAppHeaders`
unfoldable pub app_headers : List (Str × Str)
unfolding encode_client_version
app_headers =
    (codes "iLink-App-Id", codes "bot")
    ∷ (codes "iLink-App-ClientVersion", encode_client_version version)
    ∷ []

-- The count `limit+1` that `LimitReader` is given is an `int64`, which wraps around behind the largest
-- one; a reader of a negative count is at its end.
abbrev pub read_count : ℕ → ℕ
read_count limit = if ltb limit (2 ^ 63 - 1) then limit + 1 else 0

unfoldable pub read_limited_body : Error ⊎ Str → ℕ → Error ⊎ Str
read_limited_body (inl e) limit = inl e
read_limited_body (inr body) limit =
    let read = take (read_count limit) body in
    if ltb limit (length read) then inl err_response_too_large else inr read

-- `transportError`, for the `errors.As` that is given.
unfoldable pub transport_error : (Error → Option Error) → Error → Error
transport_error url_cause e =
    wrapped (codes "wechat: HTTP transport failed")
      (elim (url_cause e) [ none ↦ e | some cause ↦ cause ])

-- What `doPost` makes of a response, by the decoder for the result.
unfoldable pub read_result :
    {A : Type 0} → (Error → Option Error) → (Str → Error ⊎ A) → Str → ℕ → HttpResponse → Error ⊎ A
unfolding read_limited_body transport_error
read_result url_cause decode path limit resp =
    if not (eqb_ℤ resp.status_code (pos 200))
    then inl (http_error path resp.status_code)
    else elim (read_limited_body resp.body limit) [
      | inl e ↦ inl (wrapped (codes "read response") (transport_error url_cause e))
      | inr body ↦ elim (decode body) [
        | inl e ↦ inl (wrapped (codes "wechat: invalid JSON response") e)
        | inr result ↦ inr result
      ]
    ]

-- What `doPost` takes from its client: `cfg.BaseURL`, `cfg.BotToken`, `wechatUIN` and
-- `cfg.MaxResponseBytes`.
pub record Account : Type 0 where
  pub base_url : Str
  pub bot_token : Str
  pub wechat_uin : Str
  pub max_response_bytes : ℕ

unfoldable pub post_headers : Account → List (Str × Str)
unfolding app_headers
post_headers a =
    (codes "Content-Type", codes "application/json")
    ∷ (codes "AuthorizationType", codes "ilink_bot_token")
    ∷ (codes "Authorization", codes "Bearer " ++ a.bot_token)
    ∷ (codes "X-WECHAT-UIN", a.wechat_uin)
    ∷ app_headers

-- `doPost` with the body as `json.Marshal` gives it.
unfoldable pub do_post :
    {W A : Type 0} → Http W → Account → Str → Error ⊎ Str → (Str → Error ⊎ A) → Action W (Error ⊎ A)
unfolding read_result
do_post http a path (inl e) decode w = (inl (wrapped (codes "marshal request") e), w)
do_post http a path (inr encoded) decode w = elim (http.request_error (a.base_url ++ path)) [
  | some e ↦ (inl (wrapped (codes "create request") e), w)
  | none ↦
      let (answered, w1) =
        http.send
          (record {
            method = codes "POST";
            url = a.base_url ++ path;
            headers = post_headers a;
            body = encoded;
          })
          w in
      elim answered [
        | inl e ↦ (inl (transport_error http.url_cause e), w1)
        | inr resp ↦ (read_result http.url_cause decode path a.max_response_bytes resp, w1)
      ]
]
