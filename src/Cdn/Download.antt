-- ===== src/Cdn/Download.antt =====
-- cdn.go and types.go: `downloadAndDecryptImage` and what it is made of.
use wechat_bot.Base.{
  ℕ, ◌+◌, ◌*◌, ◌-◌, ◌^◌, not, ◌&&◌, Option, none, some, [], ◌++◌, ◌⊎◌, inl, inr, length, ltb, leb,
  ◌==◌, if◌then◌else◌, Str, codes, is_empty, trim_space, pos, ltb_ℤ, eqb_ℤ,
}
use wechat_bot.Config.{trim_slashes}
use wechat_bot.Crypto.Ecb.{aes_ecb_decrypt}
use wechat_bot.Crypto.Hex.{hex_decode}
use wechat_bot.Crypto.Padding.{aes_block_size}
use wechat_bot.Errors.{
  Error, http_error, message, wrapped, err_media_too_large, err_no_media_info, errors_is,
  response_too_large,
}
use wechat_bot.Http.{HttpResponse, read_limited_body, transport_error}
use wechat_bot.Io.{Io, ◌>>=◌, ◌>>◌, give, lift, refuse, explain}
use wechat_bot.Types.{InboundMessage, MediaInfo, ImageItem}
use wechat_bot.Url.Policy.{check_string}
use wechat_bot.Cdn.Transfer.{MediaEnv, of_crypto}

module _ {W : Type 0} (env : MediaEnv W) where
  -- `imageAESKey` where `img.Media` is not nil; no key is an empty one.
  unfoldable pub image_aes_key : ImageItem → MediaInfo → Error ⊎ Str
  image_aes_key img media =
      if not (is_empty img.aes_key)
      then (let bad : Error ⊎ Str =
            inl (message (codes "invalid image aeskey: expected a 32-character hexadecimal key")) in
          elim (hex_decode img.aes_key) [
            | none ↦ bad
            | some key ↦ if not (length key == aes_block_size) then bad else inr key
          ])
      else if is_empty media.aes_key
      then inr []
      else elim (env.base64_decode media.aes_key) [
        | none ↦ inl (message (codes "invalid media aes_key: expected base64"))
        | some decoded ↦
            let bad : Error ⊎ Str = inl (
              message (
                codes
                  "invalid media aes_key: expected 16 raw bytes or 32 hexadecimal characters")) in
            if length decoded == aes_block_size
            then inr decoded
            else if length decoded == 2 * aes_block_size
            then elim (hex_decode decoded) [ none ↦ bad | some key ↦ inr key ]
            else bad
      ]

  -- Where an image is fetched.
  unfoldable pub download_url : MediaInfo → Error ⊎ Str
  unfolding trim_slashes
  download_url media =
      let full_url = trim_space media.full_url in
      if not (is_empty full_url)
      then inr full_url
      else if is_empty media.encrypt_query_param
      then inl err_no_media_info
      else inr (
          trim_slashes env.cdn_base_url
          ++ codes "/download?encrypted_query_param="
          ++ env.query_escape media.encrypt_query_param)

  -- `bodyLimit`
  unfoldable pub body_limit : Str → ℕ
  body_limit aes_key =
      if not (is_empty aes_key) && leb env.max_media_bytes (2 ^ 63 - 1 - aes_block_size)
      then env.max_media_bytes + aes_block_size
      else env.max_media_bytes

  -- What is made of the body that was read.
  unfoldable pub decrypt_media : Str → Str → Error ⊎ Str
  unfolding of_crypto
  decrypt_media aes_key body =
      if is_empty aes_key
      then inr body
      else explain (codes "decrypt media") (of_crypto (aes_ecb_decrypt env.aes body aes_key))

  -- What is made of a response.
  unfoldable pub open_media : Str → HttpResponse → Error ⊎ (Str × Str)
  unfolding body_limit read_limited_body
  open_media aes_key resp =
      if not (eqb_ℤ resp.status_code (pos 200))
      then inl (http_error (codes "cdn download") resp.status_code)
      else if ltb_ℤ (pos (body_limit aes_key)) resp.content_length
      then inl err_media_too_large
      else elim (read_limited_body resp.body (body_limit aes_key)) [
        | inl e ↦
            if errors_is e response_too_large
            then inl err_media_too_large
            else inl
                (wrapped (codes "read CDN response") (transport_error env.cdn.client.url_cause e))
        | inr body ↦ elim (decrypt_media aes_key body) [
          | inl e ↦ inl e
          | inr content ↦
              if ltb env.max_media_bytes (length content)
              then inl err_media_too_large
              else inr (content, env.detect_content_type content)
        ]
      ]

  -- The exchange with the server.
  unfoldable pub fetch : Str → Io W HttpResponse
  unfolding transport_error
  fetch cdn_url w = elim (env.cdn.client.request_error cdn_url) [
    | some e ↦ (inl (transport_error env.cdn.client.url_cause e), w)
    | none ↦
        let (answered, w1) =
          env.cdn.client.send
            (record { method = codes "GET"; url = cdn_url; headers = []; body = [] }) w in
        elim answered [
          | inl e ↦ (inl (transport_error env.cdn.client.url_cause e), w1)
          | inr resp ↦ (inr resp, w1)
        ]
  ]

  -- The `nil` checks on the item and its media.
  unfoldable pub media_of : Option ImageItem → Error ⊎ (ImageItem × MediaInfo)
  media_of none = inl err_no_media_info
  media_of (some img) = elim img.media [
    | none ↦ inl err_no_media_info
    | some media ↦ inr (img, media)
  ]

  -- `downloadAndDecryptImage`
  unfoldable pub download_and_decrypt_image : Option ImageItem → Io W (Str × Str)
  unfolding media_of fetch
  download_and_decrypt_image item = do
    found ← lift (media_of item)
    cdn_url ← lift (download_url found.1)
    refuse (check_string env.net env.media_policy cdn_url)
    aes_key ← lift (image_aes_key found.0 found.1)
    resp ← fetch cdn_url
    lift (open_media aes_key resp)

  -- `downloadAndDecryptImageDataURL`
  unfoldable pub download_and_decrypt_image_data_url : Option ImageItem → Io W Str
  download_and_decrypt_image_data_url item = do
    opened ← download_and_decrypt_image item
    give (codes "data:" ++ opened.1 ++ codes ";base64," ++ env.base64_encode opened.0)

-- `InboundMessage.DownloadDecryptedImage`; `client` is the client of the message, which may be nil.
unfoldable pub download_decrypted_image :
    {W : Type 0} → Option (MediaEnv W) → InboundMessage → Io W (Str × Str)
download_decrypted_image none m w = (inl err_no_media_info, w)
download_decrypted_image (some env) m w = elim m.image_item [
  | none ↦ (inl err_no_media_info, w)
  | some img ↦ download_and_decrypt_image env (some img) w
]

-- `InboundMessage.DownloadDecryptedImageDataURL`
unfoldable pub download_decrypted_image_data_url :
    {W : Type 0} → Option (MediaEnv W) → InboundMessage → Io W Str
download_decrypted_image_data_url none m w = (inl err_no_media_info, w)
download_decrypted_image_data_url (some env) m w = elim m.image_item [
  | none ↦ (inl err_no_media_info, w)
  | some img ↦ download_and_decrypt_image_data_url env (some img) w
]
