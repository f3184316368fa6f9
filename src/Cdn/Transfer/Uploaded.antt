-- ===== src/Cdn/Transfer/Uploaded.antt =====
-- cdn.go: what an upload has done if it returns.
use wechat_bot.Base.{
  ℕ, ◌≤◌, true, none, some, [], inl, inr, length, ltb, Str, ℤ, pos, ◌≡◌, ap, subst, ◌∙◌, arith,
  Bool-cases, Option-cases, Sum-cases,
}
use wechat_bot.Cdn.Transfer.{
  MediaEnv, of_crypto, upload_to_cdn, upload_encrypted, upload_url, request_upload,
}
use wechat_bot.Cdn.Upload.{upload_cdn_bytes}
use wechat_bot.Crypto.Ecb.{AesLaws, IsBytes, aes_ecb_encrypt}
use wechat_bot.Crypto.Hex.{hex_encode}
use wechat_bot.Crypto.Padding.{
  Result, ok, err, invalid_block_size, invalid_padding, invalid_key_size, aes_block_size,
  aes_ecb_padded_size,
}
use wechat_bot.Crypto.Random.{generate_random_bytes}
use wechat_bot.Http.{version}
use wechat_bot.Types.{GetUploadUrlRequest, GetUploadUrlResponse, UploadedFile}
use wechat_bot.Url.Policy.{check_string}

-- What the documentation of the packages promises: `cipher.Block` and `aes.NewCipher`, `io.ReadFull`,
-- and `base64.StdEncoding`.
pub record MediaLaws {W : Type 0} (env : MediaEnv W) : Type 0 where
  pub aes_laws : AesLaws env.aes
  pub accepts : (key : Str) → length key ≡ aes_block_size → env.aes.accepts key ≡ true
  pub fills :
      (n : ℕ) (w : W)
      → (env.read_full n w).0.1 ≡ none
      → (length (env.read_full n w).0.0 ≡ n) × IsBytes (env.read_full n w).0.0
  pub base64_empty : env.base64_decode [] ≡ some []
  pub base64_inverse : (s : Str) → IsBytes s → env.base64_decode (env.base64_encode s) ≡ some s

module _ {W : Type 0} (env : MediaEnv W) (laws : MediaLaws env) where
  -- An upload that returns did so with a key and a ciphertext.
  pub record Shared (content : Str) (uploaded : UploadedFile) : Type 0 where
    pub key : Str
    pub ciphertext : Str
    pub hex : uploaded.aes_key_hex ≡ hex_encode key
    pub long : length key ≡ aes_block_size
    pub bytes : IsBytes key
    pub sealed : aes_ecb_encrypt env.aes content key ≡ ok ciphertext
    pub size : uploaded.cipher_size ≡ aes_ecb_padded_size (length content)
    pub small : length content ≤ env.max_media_bytes
    pub posted :
        (url : Str) × (w : W) × (check_string env.net env.media_policy url ≡ none)
        × ((upload_cdn_bytes env.cdn env.account.max_response_bytes ciphertext url w).0
            ≡ inr uploaded.download_param)

  of_crypto-returns : {A : Type 0} (r : Result A) (a : A) → of_crypto r ≡ inr a → r ≡ ok a
  unfolding of_crypto
  of_crypto-returns (ok a') a h = ground arith
  of_crypto-returns (err invalid_block_size) a h = absurd (ground arith)
  of_crypto-returns (err invalid_padding) a h = absurd (ground arith)
  of_crypto-returns (err invalid_key_size) a h = absurd (ground arith)

  random-returns :
      (w : W) (key : Str)
      → (generate_random_bytes env.read_full (pos 16) w).0 ≡ inr key
      → (length key ≡ 16) × IsBytes key
  unfolding generate_random_bytes
  random-returns w key h = elim (Option-cases (env.read_full 16 w).0.1) [
    | inr (e, failed) ↦ absurd (ground arith)
    | inl fine ↦
        let full = laws.fills 16 w fine in
        let same : (env.read_full 16 w).0.0 ≡ key = ground arith in
        subst (λ x. (length x ≡ 16) × IsBytes x) same full
  ]

  upload_encrypted-returns :
      (filekey_hex key content : Str) (resp : GetUploadUrlResponse) (w : W) (param : Str)
      → (upload_encrypted env filekey_hex key content resp w).0 ≡ inr param
      → (c : Str) × (aes_ecb_encrypt env.aes content key ≡ ok c)
        × (url : Str) × (check_string env.net env.media_policy url ≡ none)
        × ((upload_cdn_bytes env.cdn env.account.max_response_bytes c url w).0 ≡ inr param)
  unfolding upload_encrypted
  upload_encrypted-returns filekey_hex key content resp w param h =
      elim (Sum-cases (of_crypto (aes_ecb_encrypt env.aes content key))) [
        | inl (e, bad) ↦ absurd (ground arith)
        | inr (c, sealed) ↦ elim (Sum-cases (upload_url env filekey_hex resp)) [
          | inl (e, bad) ↦ absurd (ground arith)
          | inr (url, chosen) ↦ elim (Option-cases (check_string env.net env.media_policy url)) [
            | inr (e, refused) ↦ absurd (ground arith)
            | inl passes ↦
                elim (Sum-cases
                  (upload_cdn_bytes env.cdn env.account.max_response_bytes c url w).0) [
                    | inl (e, failed) ↦ absurd (ground arith)
                    | inr (p, posted) ↦
                        let same : p ≡ param = ground arith in
                        (
                          c,
                          of_crypto-returns (aes_ecb_encrypt env.aes content key) c sealed,
                          url,
                          passes,
                          posted ∙ ap inr same,
                        )
                  ]
          ]
        ]
      ]

  pub upload_to_cdn-Shared :
      (to_user_id content : Str) (media_type : ℤ) (w : W) (uploaded : UploadedFile)
      → (upload_to_cdn env to_user_id content media_type w).0 ≡ inr uploaded
      → Shared content uploaded
  unfolding upload_to_cdn
  upload_to_cdn-Shared to_user_id content media_type w uploaded h =
      let r1 = generate_random_bytes env.read_full (pos 16) w in
      let r2 = generate_random_bytes env.read_full (pos 16) r1.1 in
      elim (Bool-cases (ltb env.max_media_bytes (length content))) [
        | inl big ↦ absurd (ground arith)
        | inr fits ↦ elim (Sum-cases r1.0) [
          | inl (e, failed) ↦ absurd (ground arith)
          | inr (filekey, drawn) ↦ elim (Sum-cases r2.0) [
            | inl (e, failed) ↦ absurd (ground arith)
            | inr (key, drawn2) ↦
                let full = random-returns r1.1 key drawn2 in
                let req : GetUploadUrlRequest = record {
                  file_key = hex_encode filekey;
                  media_type = media_type;
                  to_user_id = to_user_id;
                  raw_size = length content;
                  raw_file_md5 = hex_encode (env.md5 content);
                  file_size = aes_ecb_padded_size (length content);
                  no_need_thumb = true;
                  aes_key = hex_encode key;
                  channel_version = version;
                } in
                let r3 = request_upload env req r2.1 in
                elim (Sum-cases r3.0) [
                  | inl (e, failed) ↦ absurd (ground arith)
                  | inr (resp, asked) ↦
                      let r4 = upload_encrypted env (hex_encode filekey) key content resp r3.1 in
                      elim (Sum-cases r4.0) [
                        | inl (e, failed) ↦ absurd (ground arith)
                        | inr (param, stored) ↦
                            let posted =
                              upload_encrypted-returns (hex_encode filekey) key content resp r3.1
                                param stored in
                            let same : param ≡ uploaded.download_param = ground arith in
                            record {
                              key = key;
                              ciphertext = posted.0;
                              hex = ground arith;
                              long = full.0;
                              bytes = full.1;
                              sealed = posted.1;
                              size = ground arith;
                              small = ground arith;
                              posted = (posted.2, r3.1, posted.3, posted.4 ∙ ap inr same);
                            }
                      ]
                ]
          ]
        ]
      ]
