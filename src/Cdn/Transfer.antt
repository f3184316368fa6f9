-- ===== src/Cdn/Transfer.antt =====
-- cdn.go: `UploadToCDN` and what it is made of. A context with a timeout
-- differs from its parent only in when an operation of the world fails.
pub mod Keeps
pub mod Keys
pub mod Sharing
pub mod Trusted
pub mod Uploaded
use wechat_bot.Base.{
  ℕ, ◌+◌, ◌*◌, ◌-◌, ◌^◌, Bool, true, false, not, ◌&&◌, Option, none, some, List, [], ◌∷◌, ◌++◌, ◌⊎◌,
  inl, inr, length, ltb, leb, ◌==◌, if◌then◌else◌, Str, codes, is_empty, trim_space, ℤ, pos, ltb_ℤ,
  eqb_ℤ,
}
use wechat_bot.Cdn.Upload.{CdnEnv, upload_cdn_bytes}
use wechat_bot.Config.{trim_slashes}
use wechat_bot.Crypto.Ecb.{Aes, aes_ecb_encrypt, aes_ecb_decrypt}
use wechat_bot.Crypto.Hex.{hex_encode, hex_decode}
use wechat_bot.Crypto.Padding.{
  CryptoError, invalid_block_size, invalid_padding, invalid_key_size, Result, ok, err,
  aes_block_size, aes_ecb_padded_size,
}
use wechat_bot.Crypto.Random.{generate_random_bytes}
use wechat_bot.Errors.{
  Error, api_error, http_error, message, wrapped, err_invalid_block_size, err_invalid_padding,
  err_media_too_large, err_no_media_info, errors_is, response_too_large,
}
use wechat_bot.Http.{
  Http, HttpResponse, Account, version, read_limited_body, transport_error, do_post,
}
use wechat_bot.Io.{Io, ◌>>=◌, ◌>>◌, give, lift, reject_if, refuse, explain, explaining}
use wechat_bot.Listener.Env.{Action}
use wechat_bot.Types.{
  InboundMessage, encrypt_type_aes128_ecb, MediaInfo, ImageItem, GetUploadUrlRequest,
  GetUploadUrlResponse, UploadedFile,
}
use wechat_bot.Url.Policy.{Net, UrlPolicy, check_string}

-- What a client transfers media with: `cfg.HTTPClient`, `mediaClient`, its policy and limits, the
-- random source, and the packages crypto/aes, crypto/md5, encoding/base64, encoding/json, net/url and
-- net/http.
pub record MediaEnv (W : Type 0) : Type 0 where
  pub api : Http W
  pub account : Account
  pub cdn : CdnEnv W
  pub cdn_base_url : Str
  pub max_media_bytes : ℕ
  pub media_policy : UrlPolicy
  pub net : Net
  pub read_full : ℕ → Action W (Str × Option Error)
  pub aes : Aes
  pub md5 : Str → Str
  pub query_escape : Str → Str
  pub base64_encode : Str → Str
  pub base64_decode : Str → Option Str
  pub detect_content_type : Str → Str
  pub encode_upload : GetUploadUrlRequest → Error ⊎ Str
  pub decode_upload : Str → Error ⊎ GetUploadUrlResponse

-- The errors of crypto.go and of `aes.NewCipher` among those of the program.
unfoldable pub of_crypto : {A : Type 0} → Result A → Error ⊎ A
of_crypto (ok a) = inr a
of_crypto (err invalid_block_size) = inl err_invalid_block_size
of_crypto (err invalid_padding) = inl err_invalid_padding
of_crypto (err invalid_key_size) = inl (message (codes "crypto/aes: invalid key size"))

abbrev pub upload_endpoint : Str
upload_endpoint = codes "/ilink/bot/getuploadurl"

-- The reference to an upload that `SendImage`, `SendFile` and `SendVideo` put into a message.
unfoldable pub media_info : (Str → Str) → UploadedFile → MediaInfo
media_info base64_encode uploaded = record {
  encrypt_query_param = uploaded.download_param;
  aes_key = base64_encode uploaded.aes_key_hex;
  full_url = [];
  encrypt_type = encrypt_type_aes128_ecb;
}

module _ {W : Type 0} (env : MediaEnv W) where
  -- The URL that the encrypted bytes go to.
  unfoldable pub upload_url : Str → GetUploadUrlResponse → Error ⊎ Str
  unfolding trim_slashes
  upload_url filekey_hex resp =
      let full_url = trim_space resp.upload_full_url in
      if not (is_empty full_url)
      then inr full_url
      else if is_empty resp.upload_param
      then inl (message (codes "getuploadurl returned empty upload URL"))
      else inr (
          trim_slashes env.cdn_base_url
          ++ codes "/upload?encrypted_query_param="
          ++ env.query_escape resp.upload_param
          ++ codes "&filekey="
          ++ env.query_escape filekey_hex)

  -- The request for an upload URL, and the test of `Ret`.
  unfoldable pub request_upload : GetUploadUrlRequest → Io W GetUploadUrlResponse
  request_upload req = do
    resp ←
        explaining (codes "getuploadurl")
          (do_post env.api env.account upload_endpoint (env.encode_upload req) env.decode_upload)
    reject_if (not (eqb_ℤ resp.ret (pos 0)))
        (api_error upload_endpoint resp.ret (pos 0) resp.err_msg)
    give resp

  -- The encryption, and the upload to a URL that is vetted first.
  unfoldable pub upload_encrypted : Str → Str → Str → GetUploadUrlResponse → Io W Str
  upload_encrypted filekey_hex aeskey content resp = do
    encrypted ←
        lift (explain (codes "encrypt media") (of_crypto (aes_ecb_encrypt env.aes content aeskey)))
    cdn_url ← lift (upload_url filekey_hex resp)
    refuse (check_string env.net env.media_policy cdn_url)
    explaining (codes "upload to cdn")
        (upload_cdn_bytes env.cdn env.account.max_response_bytes encrypted cdn_url)

  -- `UploadToCDN`
  unfoldable pub upload_to_cdn : Str → Str → ℤ → Io W UploadedFile
  unfolding request_upload upload_encrypted
  upload_to_cdn to_user_id content media_type = do
    reject_if (ltb env.max_media_bytes (length content)) err_media_too_large
    filekey ← explaining (codes "generate filekey") (generate_random_bytes env.read_full (pos 16))
    aeskey ← explaining (codes "generate aeskey") (generate_random_bytes env.read_full (pos 16))
    resp ← request_upload (record {
      file_key = hex_encode filekey;
      media_type = media_type;
      to_user_id = to_user_id;
      raw_size = length content;
      raw_file_md5 = hex_encode (env.md5 content);
      file_size = aes_ecb_padded_size (length content);
      no_need_thumb = true;
      aes_key = hex_encode aeskey;
      channel_version = version;
    })
    download_param ← upload_encrypted (hex_encode filekey) aeskey content resp
    give (record {
      download_param = download_param;
      aes_key_hex = hex_encode aeskey;
      file_size = length content;
      cipher_size = aes_ecb_padded_size (length content);
    })
