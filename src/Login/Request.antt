-- ===== src/Login/Request.antt =====
-- login.go: `GetQRCode`, `CheckQRStatus` and what they are made of.
use wechat_bot.Base.{
  ℕ, ◌^◌, not, ◌&&◌, ◌||◌, Option, none, some, List, [], ◌∷◌, ◌++◌, ◌⊎◌, inl, inr, if◌then◌else◌,
  Str, codes, str_eq, is_empty, pos, eqb_ℤ,
}
use wechat_bot.Config.{trim_slashes}
use wechat_bot.Errors.{Error, err_empty_qr_code, http_error, message, wrapped}
use wechat_bot.Http.{
  Http, HttpRequest, HttpResponse, app_headers, read_limited_body, transport_error,
}
use wechat_bot.Listener.Env.{Action}
use wechat_bot.Login.Options.{LoginOptions, LoginOption, resolve_login_options}
use wechat_bot.Url.Policy.{Net}

-- `QRCodeResult`
pub record QrCodeResult : Type 0 where
  pub qr_code : Str
  pub qr_code_img_content : Str

-- `QRStatusResult`
pub record QrStatusResult : Type 0 where
  pub status : Str
  pub redirect_host : Str
  pub bot_token : Str
  pub ilink_bot_id : Str
  pub base_url : Str
  pub ilink_user_id : Str

-- `encoding/json`, `url.Values.Encode` and `GenerateUIN`
pub record LoginCodec : Type 0 where
  pub net : Net
  pub encode_query : List (Str × Str) → Str
  pub decode_code : Str → Error ⊎ QrCodeResult
  pub decode_status : Str → Error ⊎ QrStatusResult

-- `DefaultMaxResponseBytes`
abbrev pub default_max_response_bytes : ℕ
default_max_response_bytes = 2 ^ 20

unfoldable pub login_endpoint : LoginCodec → Str → Str → List (Str × Str) → Error ⊎ Str
unfolding trim_slashes
login_endpoint codec base_url path query =
    let invalid : Error ⊎ Str = inl (message (codes "wechat: invalid login base URL")) in
    elim (codec.net.parse_url base_url) [
      | none ↦ invalid
      | some u ↦
          if not (str_eq u.scheme (codes "https")) && not (str_eq u.scheme (codes "http"))
            || is_empty u.hostname
            || u.has_user
            || not (is_empty u.raw_query)
            || u.force_query
            || not (is_empty u.fragment)
          then invalid
          else inr (
              codec.net.url_string (record u {
                path = trim_slashes u.path ++ path;
                raw_path = [];
                raw_query = codec.encode_query query;
              }))
    ]

-- What `doJSON` makes of a response; a JSON error is not repeated.
unfoldable pub read_json :
    {A : Type 0} → (Error → Option Error) → (Str → Error ⊎ A) → Str → HttpResponse → Error ⊎ A
unfolding read_limited_body transport_error
read_json url_cause decode endpoint resp =
    if not (eqb_ℤ resp.status_code (pos 200))
    then inl (http_error endpoint resp.status_code)
    else elim (read_limited_body resp.body default_max_response_bytes) [
      | inl e ↦ inl (wrapped (codes "read login response") (transport_error url_cause e))
      | inr body ↦ elim (decode body) [
        | inl e ↦ inl (message (codes "wechat: invalid login response JSON"))
        | inr out ↦ inr out
      ]
    ]

unfoldable pub do_json :
    {W A : Type 0} → Http W → (Str → Error ⊎ A) → Str → HttpRequest → Action W (Error ⊎ A)
unfolding read_json
do_json http decode endpoint req w =
    let (answered, w1) = http.send req w in
    elim answered [
      | inl e ↦ (inl (wrapped (codes "login request") (transport_error http.url_cause e)), w1)
      | inr resp ↦ (read_json http.url_cause decode endpoint resp, w1)
    ]

-- `defaultQRCodePath` and `defaultQRStatusPath`
abbrev pub default_qr_code_path : Str
default_qr_code_path = codes "/ilink/bot/get_bot_qrcode"

abbrev pub default_qr_status_path : Str
default_qr_status_path = codes "/ilink/bot/get_qrcode_status"

abbrev pub status_query : Str → Str → List (Str × Str)
status_query qrcode verify_code =
    if is_empty verify_code
    then (codes "qrcode", qrcode) ∷ []
    else (codes "qrcode", qrcode) ∷ (codes "verify_code", verify_code) ∷ []

-- The content that `QRCodeResult.PrintTerminal` prints: the login URL, or the code.
unfoldable pub terminal_content : QrCodeResult → Str
terminal_content q = if is_empty q.qr_code_img_content then q.qr_code else q.qr_code_img_content

module _ {W : Type 0} (codec : LoginCodec) where
  -- `GetQRCode` with the options resolved; `generate_uin` is `GenerateUIN`.
  unfoldable pub get_qr_code : Action W Str → LoginOptions W → Action W (Error ⊎ QrCodeResult)
  unfolding login_endpoint do_json
  get_qr_code generate_uin lo w =
      elim (login_endpoint codec lo.base_url default_qr_code_path
        ((codes "bot_type", codes "3") ∷ [])) [
          | inl e ↦ (inl e, w)
          | inr endpoint ↦ elim (lo.http_client.request_error endpoint) [
            | some e ↦ (
              inl (
                  wrapped (codes "create qrcode request")
                    (transport_error lo.http_client.url_cause e)),
              w,
            )
            | none ↦
                let (uin, w1) = generate_uin w in
                let (out, w2) =
                  do_json lo.http_client codec.decode_code default_qr_code_path
                    (record {
                      method = codes "POST";
                      url = endpoint;
                      headers =
                          (codes "Content-Type", codes "application/json")
                          ∷ (codes "AuthorizationType", codes "ilink_bot_token")
                          ∷ (codes "X-WECHAT-UIN", uin)
                          ∷ app_headers;
                      body = codes "{\"local_token_list\":[]}";
                    })
                    w1 in
                elim out [
                  | inl e ↦ (inl e, w2)
                  | inr r ↦ (if is_empty r.qr_code then inl err_empty_qr_code else inr r, w2)
                ]
          ]
        ]

  -- `loginOptions.checkQRStatus`
  unfoldable pub check_qr_status : LoginOptions W → Str → Str → Action W (Error ⊎ QrStatusResult)
  check_qr_status lo qrcode verify_code w =
      if is_empty qrcode
      then (inl err_empty_qr_code, w)
      else elim (login_endpoint codec lo.base_url default_qr_status_path
          (status_query qrcode verify_code)) [
            | inl e ↦ (inl e, w)
            | inr endpoint ↦ elim (lo.http_client.request_error endpoint) [
              | some e ↦ (
                inl (
                    wrapped (codes "create qr status request")
                      (transport_error lo.http_client.url_cause e)),
                w,
              )
              | none ↦
                  do_json lo.http_client codec.decode_status default_qr_status_path
                    (record {
                      method = codes "GET";
                      url = endpoint;
                      headers = app_headers;
                      body = [];
                    })
                    w
            ]
          ]

  -- `CheckQRStatus`; `client` is that of the default options.
  unfoldable pub check_status :
      Http W → List (LoginOption W) → Str → Action W (Error ⊎ QrStatusResult)
  unfolding check_qr_status resolve_login_options
  check_status client opts qrcode = check_qr_status (resolve_login_options client opts) qrcode []
