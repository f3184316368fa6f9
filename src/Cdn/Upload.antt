-- ===== src/Cdn/Upload.antt =====
-- cdn.go: `uploadCDNBytes` and `uploadCDNBytesOnce`. The exchange, the context and the timer are
-- operations of a world `W`.
pub mod Attempts
use wechat_bot.Base.{
  ℕ, zero, suc, ◌+◌, ◌*◌, ◌^◌, Bool, true, false, not, ◌&&◌, ◌||◌, Option, none, some, [], ◌∷◌, ◌⊎◌,
  inl, inr, ltb, if◌then◌else◌, Str, codes, is_empty, pos, leb_ℤ, ltb_ℤ, eqb_ℤ,
}
use wechat_bot.Errors.{
  Error, http_error, message, errors_is, response_too_large, Sentinel, http_status,
}
use wechat_bot.Http.{Http, HttpResponse, read_limited_body, transport_error}
use wechat_bot.Listener.Env.{Action}

-- `wait` is a timer of that many nanoseconds against the context; `client` is `mediaClient`.
pub record CdnEnv (W : Type 0) : Type 0 where
  pub ctx_err : Action W (Option Error)
  pub wait : ℕ → Action W (Option Error)
  pub client : Http W

-- The errors after which no further attempt is made.
unfoldable pub is_permanent : Error → Bool
unfolding http_status
is_permanent e =
    (elim (http_status e) [
      | none ↦ false
      | some status ↦ leb_ℤ (pos 400) status && ltb_ℤ status (pos 500)
    ])
    || errors_is e response_too_large
    || errors_is e Sentinel.canceled
    || errors_is e Sentinel.deadline_exceeded

-- What is made of a response.
unfoldable pub param_of : (Error → Option Error) → ℕ → HttpResponse → Error ⊎ Str
param_of url_cause limit r =
    if not (eqb_ℤ r.status_code (pos 200))
    then inl (http_error (codes "cdn upload") r.status_code)
    else elim (read_limited_body r.body limit) [
      | inl e ↦ inl (transport_error url_cause e)
      | inr _ ↦
          let download_param = r.header (codes "X-Encrypted-Param") in
          if is_empty download_param
          then inl (message (codes "missing X-Encrypted-Param header in CDN response"))
          else inr download_param
    ]

module _ {W : Type 0} (env : CdnEnv W) (limit : ℕ) (encrypted cdn_url : Str) where
  unfoldable pub upload_cdn_bytes_once : Action W (Error ⊎ Str)
  upload_cdn_bytes_once w = elim (env.client.request_error cdn_url) [
    | some e ↦ (inl (transport_error env.client.url_cause e), w)
    | none ↦
        let (answered, w1) =
          env.client.send
            (record {
              method = codes "POST";
              url = cdn_url;
              headers = (codes "Content-Type", codes "application/octet-stream") ∷ [];
              body = encrypted;
            })
            w in
        elim answered [
          | inl e ↦ (inl (transport_error env.client.url_cause e), w1)
          | inr r ↦ (param_of env.client.url_cause limit r, w1)
        ]
  ]

  -- The loop from an attempt on, with the attempts left and `lastErr`.
  unfoldable pub upload_from : ℕ → ℕ → Option Error → Action W (Error ⊎ Str)
  upload_from zero attempt last_err w =
      (elim last_err [ none ↦ inr (codes "") | some e ↦ inl e ], w)
  upload_from (suc left) attempt last_err w =
      let (cancelled, w1) = env.ctx_err w in
      elim cancelled [
        | some e ↦ (inl e, w1)
        | none ↦
            let (tried, w2) = upload_cdn_bytes_once w1 in
            elim tried [
              | inr param ↦ (inr param, w2)
              | inl e ↦
                  if is_permanent e
                  then (inl e, w2)
                  else if ltb attempt 2
                  then (let (stopped, w3) = env.wait (2 ^ attempt * 100_000_000) w2 in
                      elim stopped [
                        | some e' ↦ (inl e', w3)
                        | none ↦ upload_from left (attempt + 1) (some e) w3
                      ])
                  else upload_from left (attempt + 1) (some e) w2
            ]
      ]

  unfoldable pub upload_cdn_bytes : Action W (Error ⊎ Str)
  unfolding upload_from
  upload_cdn_bytes = upload_from 3 0 none
