-- ===== src/Cdn/Transfer/Keeps.antt =====
-- cdn.go: what transfers keep true of the world.
use wechat_bot.Base.{
  ℕ, zero, suc, ◌+◌, ◌*◌, ◌^◌, Option, none, some, [], ◌⊎◌, inl, inr, ltb, Str, ℤ, pos, pos_part,
  ltb_ℤ, ◌≡◌, refl, Bool-cases, Option-cases, Sum-cases, ◌++◌, codes,
}
use wechat_bot.Cdn.Download.{
  download_url, download_and_decrypt_image, fetch, media_of, image_aes_key, open_media,
}
use wechat_bot.Cdn.Transfer.{
  MediaEnv, upload_endpoint, upload_to_cdn, request_upload, upload_encrypted, upload_url, of_crypto,
}
use wechat_bot.Cdn.Upload.{is_permanent, upload_cdn_bytes_once, upload_from, upload_cdn_bytes}
use wechat_bot.Crypto.Random.{generate_random_bytes}
use wechat_bot.Errors.{Error}
use wechat_bot.Http.{HttpRequest, do_post}
use wechat_bot.Crypto.Ecb.{aes_ecb_encrypt}
use wechat_bot.Io.{explain}
use wechat_bot.Io.Keeps.{
  Keeps, either-kept, bind-Keeps, reject_if-Keeps, refuse-Keeps, explaining-Keeps, lift-Keeps,
  give-Keeps,
}
use wechat_bot.Types.{ImageItem, GetUploadUrlRequest, GetUploadUrlResponse}
use wechat_bot.Url.Policy.{check_string}

-- `P` is kept by the operations of the world, by the request for an upload URL, and by requests of the
-- media client to URLs that the media policy lets pass.
pub record Safe {W : Type 0} (env : MediaEnv W) (P : W → Type 0) : Type 0 where
  pub read : (n : ℕ) (w : W) → P w → P (env.read_full n w).1
  pub ctx : (w : W) → P w → P (env.cdn.ctx_err w).1
  pub wait : (d : ℕ) (w : W) → P w → P (env.cdn.wait d w).1
  pub api :
      (r : HttpRequest) (w : W)
      → r.url ≡ env.account.base_url ++ upload_endpoint
      → P w
      → P (env.api.send r w).1
  pub media :
      (r : HttpRequest) (w : W)
      → check_string env.net env.media_policy r.url ≡ none
      → P w
      → P (env.cdn.client.send r w).1

module _ {W : Type 0} (env : MediaEnv W) (P : W → Type 0) (safe : Safe env P) where
  random-kept : (n : ℤ) → (w : W) → P w → P (generate_random_bytes env.read_full n w).1
  unfolding generate_random_bytes
  random-kept n w h = elim (Bool-cases (ltb_ℤ n (pos 0))) [
    | inl negative ↦ rw (negative, generate_random_bytes) h
    | inr good ↦
        let kept : P (env.read_full (pos_part n) w).1 = safe.read (pos_part n) w h in
        elim (Option-cases (env.read_full (pos_part n) w).0.1) [
          | inr (e, failed) ↦ rw (good, failed, generate_random_bytes) kept
          | inl fine ↦ rw (good, fine, generate_random_bytes) kept
        ]
  ]

  do_post-kept :
      {A : Type 0} (body : Error ⊎ Str) (decode : Str → Error ⊎ A)
      → (w : W) → P w
      → P (do_post env.api env.account upload_endpoint body decode w).1
  unfolding do_post
  do_post-kept (inl e) decode w h = h
  do_post-kept (inr encoded) decode w h =
      elim (Option-cases (env.api.request_error (env.account.base_url ++ upload_endpoint))) [
        | inr (e, refused) ↦ rw (refused, do_post) h
        | inl made ↦ rw (made, do_post) (either-kept P _ _ _ _ (safe.api _ w refl h))
      ]

  module _ (limit : ℕ) (encrypted cdn_url : Str)
      (passes : check_string env.net env.media_policy cdn_url ≡ none) where
    media-kept : (r : HttpRequest) (w : W) → r.url ≡ cdn_url → P w → P (env.cdn.client.send r w).1
    media-kept r w same h = safe.media r w (rw same passes) h

    once-kept : (w : W) → P w → P (upload_cdn_bytes_once env.cdn limit encrypted cdn_url w).1
    unfolding upload_cdn_bytes_once
    once-kept w h = elim (Option-cases (env.cdn.client.request_error cdn_url)) [
      | inr (e, refused) ↦ rw (refused, upload_cdn_bytes_once) h
      | inl made ↦ rw (made, upload_cdn_bytes_once) (either-kept P _ _ _ _ (media-kept _ w refl h))
    ]

    upload_from-kept :
        (left attempt : ℕ) (last_err : Option Error)
        → (w : W) → P w
        → P (upload_from env.cdn limit encrypted cdn_url left attempt last_err w).1
    unfolding upload_from
    upload_from-kept zero attempt last_err w h = h
    upload_from-kept (suc left) attempt last_err w h =
        let w1 = (env.cdn.ctx_err w).1 in
        let h1 : P w1 = safe.ctx w h in
        let tried = upload_cdn_bytes_once env.cdn limit encrypted cdn_url w1 in
        let h2 : P tried.1 = once-kept w1 h1 in
        elim (Option-cases (env.cdn.ctx_err w).0) [
          | inr (e, cancelled) ↦ rw (cancelled, upload_from) h1
          | inl live ↦ elim (Sum-cases tried.0) [
            | inr (param, done) ↦ rw (live, done, upload_from) h2
            | inl (e, failed) ↦ elim (Bool-cases (is_permanent e)) [
              | inl final ↦ rw (live, failed, final, upload_from) h2
              | inr passing ↦ elim (Bool-cases (ltb attempt 2)) [
                | inr spent ↦
                    rw (live, failed, passing, spent, upload_from)
                      (upload_from-kept left (attempt + 1) (some e) tried.1 h2)
                | inl early ↦
                    let pause = env.cdn.wait (2 ^ attempt * 100_000_000) tried.1 in
                    let h3 : P pause.1 = safe.wait (2 ^ attempt * 100_000_000) tried.1 h2 in
                    elim (Option-cases pause.0) [
                      | inr (e', stopped) ↦
                          rw (live, failed, passing, early, stopped, upload_from) h3
                      | inl on ↦
                          rw (live, failed, passing, early, on, upload_from)
                            (upload_from-kept left (attempt + 1) (some e) pause.1 h3)
                    ]
              ]
            ]
          ]
        ]

    fetch-kept : (w : W) → P w → P (fetch env cdn_url w).1
    unfolding fetch
    fetch-kept w h = elim (Option-cases (env.cdn.client.request_error cdn_url)) [
      | inr (e, refused) ↦ rw (refused, fetch) h
      | inl made ↦ rw (made, fetch) (either-kept P _ _ _ _ (media-kept _ w refl h))
    ]

  random-Keeps : (n : ℤ) → Keeps P (generate_random_bytes env.read_full n)
  random-Keeps n = record { run = random-kept n }

  do_post-Keeps :
      {A : Type 0} (body : Error ⊎ Str) (decode : Str → Error ⊎ A)
      → Keeps P (do_post env.api env.account upload_endpoint body decode)
  do_post-Keeps body decode = record { run = do_post-kept body decode }

  upload_cdn_bytes-Keeps :
      (limit : ℕ) (encrypted cdn_url : Str)
      → check_string env.net env.media_policy cdn_url ≡ none
      → Keeps P (upload_cdn_bytes env.cdn limit encrypted cdn_url)
  unfolding upload_cdn_bytes
  upload_cdn_bytes-Keeps limit encrypted cdn_url passes = record {
    run = upload_from-kept limit encrypted cdn_url passes 3 0 none;
  }

  fetch-Keeps :
      (cdn_url : Str)
      → check_string env.net env.media_policy cdn_url ≡ none
      → Keeps P (fetch env cdn_url)
  fetch-Keeps cdn_url passes = record { run = fetch-kept 0 [] cdn_url passes }

  request_upload-Keeps : (req : GetUploadUrlRequest) → Keeps P (request_upload env req)
  unfolding request_upload
  request_upload-Keeps req =
      bind-Keeps (explaining-Keeps _ (do_post-Keeps _ _)) (λ resp. reject_if-Keeps _ _ give-Keeps)

  upload_encrypted-Keeps :
      (filekey_hex aeskey content : Str) (resp : GetUploadUrlResponse)
      → Keeps P (upload_encrypted env filekey_hex aeskey content resp)
  unfolding upload_encrypted
  upload_encrypted-Keeps filekey_hex aeskey content resp =
      let sealed =
        explain (codes "encrypt media") (of_crypto (aes_ecb_encrypt env.aes content aeskey)) in
      bind-Keeps (lift-Keeps {r = sealed}) (λ encrypted.
        bind-Keeps (lift-Keeps {r = upload_url env filekey_hex resp}) (λ cdn_url.
          refuse-Keeps (λ passes.
            explaining-Keeps (codes "upload to cdn")
              (upload_cdn_bytes-Keeps env.account.max_response_bytes encrypted cdn_url passes))))

  pub upload_to_cdn-Keeps :
      (to_user_id content : Str) (media_type : ℤ)
      → Keeps P (upload_to_cdn env to_user_id content media_type)
  unfolding upload_to_cdn
  upload_to_cdn-Keeps to_user_id content media_type = reject_if-Keeps _ _ (
      bind-Keeps (explaining-Keeps _ (random-Keeps (pos 16))) (λ filekey.
        bind-Keeps (explaining-Keeps _ (random-Keeps (pos 16))) (λ aeskey.
          bind-Keeps (request_upload-Keeps _)
            (λ resp. bind-Keeps (upload_encrypted-Keeps _ _ _ _) (λ param. give-Keeps)))))

  pub download-Keeps : (item : Option ImageItem) → Keeps P (download_and_decrypt_image env item)
  unfolding download_and_decrypt_image
  download-Keeps item = bind-Keeps (lift-Keeps {r = media_of env item}) (λ found.
      bind-Keeps (lift-Keeps {r = download_url env found.1}) (λ cdn_url. refuse-Keeps (λ passes.
        bind-Keeps (lift-Keeps {r = image_aes_key env found.0 found.1}) (λ aes_key.
          bind-Keeps (fetch-Keeps cdn_url passes)
            (λ resp. lift-Keeps {r = open_media env aes_key resp})))))
