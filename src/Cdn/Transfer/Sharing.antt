-- ===== src/Cdn/Transfer/Sharing.antt =====
-- cdn.go: what is uploaded can be opened again.
use wechat_bot.Base.{
  ℕ, ◌+◌, ◌-◌, ◌^◌, ◌<◌, ◌≤◌, true, false, none, some, [], inl, inr, length, take_of_length-le, ltb,
  leb, ◌==◌, Str, is_empty, is_empty_iff, ℤ, pos, ltb_ℤ, ◌≡◌, sym, ap, subst, ◌∙◌, arith,
  Bool-cases,
}
use wechat_bot.Cdn.Download.{image_aes_key, body_limit, decrypt_media, open_media}
use wechat_bot.Cdn.Transfer.{MediaEnv, of_crypto, media_info, upload_to_cdn}
use wechat_bot.Cdn.Transfer.Uploaded.{MediaLaws, upload_to_cdn-Shared}
use wechat_bot.Cdn.Upload.{upload_cdn_bytes}
use wechat_bot.Crypto.Ecb.{IsBytes, aes_ecb_encrypt, aes_ecb_decrypt}
use wechat_bot.Crypto.Ecb.RoundTrip.{decrypt-encrypt, length-encrypt}
use wechat_bot.Crypto.Hex.{hex_encode, hex_decode-hex_encode, hex_encode-All, length-hex_encode}
use wechat_bot.Crypto.Padding.{ok, aes_block_size, aes_ecb_padded_size}
use wechat_bot.Http.{HttpResponse, read_limited_body}
use wechat_bot.Types.{ImageItem, UploadedFile}
use wechat_bot.Url.Policy.{check_string}

-- The response that serves a whole text.
abbrev pub served : Str → HttpResponse
served body = record {
  status_code = pos 200;
  header = λ name. [];
  content_length = pos (length body);
  body = inr body;
}

read_limited_body-whole :
    (body : Str) (limit : ℕ)
    → length body ≤ limit
    → limit < 2 ^ 63 - 1
    → read_limited_body (inr body) limit ≡ inr body
unfolding read_limited_body
read_limited_body-whole body limit h room =
    let count : ltb limit (2 ^ 63 - 1) ≡ true = ground (arith, room) in
    let fits : ltb limit (length body) ≡ false = ground (arith, h) in
    rw (count, take_of_length-le (limit + 1) body (omega (arith, h)), fits, read_limited_body)

module _ {W : Type 0} (env : MediaEnv W) (laws : MediaLaws env) where
  -- The reference carries the key.
  image_aes_key-media_info :
      (img : ImageItem) (uploaded : UploadedFile) (key : Str)
      → img.aes_key ≡ []
      → uploaded.aes_key_hex ≡ hex_encode key
      → length key ≡ aes_block_size
      → IsBytes key
      → image_aes_key env img (media_info env.base64_encode uploaded) ≡ inr key
  unfolding image_aes_key media_info
  image_aes_key-media_info img uploaded key bare hex long bytes =
      let text = length-hex_encode key in
      let present : is_empty (env.base64_encode (hex_encode key)) ≡ false =
        elim (Bool-cases (is_empty (env.base64_encode (hex_encode key)))) [
          | inr full ↦ full
          | inl blank ↦
              let nothing = (is_empty_iff (env.base64_encode (hex_encode key))).0 blank in
              let same : some (hex_encode key) ≡ some [] =
                sym (laws.base64_inverse (hex_encode key) (hex_encode-All key bytes))
                ∙ ap env.base64_decode nothing
                ∙ laws.base64_empty in
              absurd (ground (arith, text, long, same))
        ] in
      let short : (length (hex_encode key) == 16) ≡ false = ground (arith, text, long) in
      let whole : (length (hex_encode key) == 32) ≡ true = ground (arith, text, long) in
      rw (
        bare,
        hex,
        present,
        laws.base64_inverse (hex_encode key) (hex_encode-All key bytes),
        short,
        whole,
        hex_decode-hex_encode key bytes,
        image_aes_key,
      )

  -- A whole ciphertext is opened.
  open_media-served :
      (content key c : Str)
      → aes_ecb_encrypt env.aes content key ≡ ok c
      → length key ≡ aes_block_size
      → IsBytes content
      → length content ≤ env.max_media_bytes
      → env.max_media_bytes + 17 < 2 ^ 63
      → open_media env key (served c) ≡ inr (content, env.detect_content_type content)
  unfolding open_media body_limit decrypt_media of_crypto
  open_media-served content key c sealed long bytes small room =
      let accepted = laws.accepts key long in
      let size = length-encrypt env.aes laws.aes_laws key accepted content bytes in
      let same : size.0 ≡ c = ground (arith, sealed, size.1) in
      let short : length c ≤ length content + 16 =
        subst (λ x. length x ≤ length content + 16) same size.5 in
      let opened : aes_ecb_decrypt env.aes c key ≡ ok content =
        rw sealed at (decrypt-encrypt env.aes laws.aes_laws key accepted content bytes) in
      let keyed : is_empty key ≡ false = ground (arith, long) in
      let limit : body_limit env key ≡ env.max_media_bytes + 16 =
        let wide : leb env.max_media_bytes (2 ^ 63 - 1 - 16) ≡ true = ground (arith, room) in
        rw (keyed, wide, body_limit) in
      let fits : ltb_ℤ (pos (env.max_media_bytes + 16)) (pos (length c)) ≡ false =
        ground (arith, short, small) in
      let whole =
        read_limited_body-whole c (env.max_media_bytes + 16) (omega (arith, short, small))
          (omega (arith, room)) in
      let within : ltb env.max_media_bytes (length content) ≡ false = ground (arith, small) in
      rw (limit, fits, whole, keyed, opened, within, decrypt_media, open_media)

  -- If an upload returns, then it has posted a ciphertext of the announced size, to a URL that the media
  -- policy lets pass; and whoever gets the reference that a message carries, and is served this
  -- ciphertext, reads the key out of the reference and opens the ciphertext to the bytes that were
  -- uploaded. The source of random bytes, the block cipher and base64 do as documented, the reference
  -- has no key of its own, the contents are bytes, and the limit on media is more than 17 below 2 ^ 63.
  pub upload_opens :
      (to_user_id content : Str) (media_type : ℤ) (w : W) (uploaded : UploadedFile)
      (img : ImageItem)
      → IsBytes content
      → env.max_media_bytes + 17 < 2 ^ 63
      → img.aes_key ≡ []
      → (upload_to_cdn env to_user_id content media_type w).0 ≡ inr uploaded
      → (c : Str) × (key : Str) × (url : Str) × (w' : W) × (check_string env.net env.media_policy
            url
          ≡ none)
        × ((upload_cdn_bytes env.cdn env.account.max_response_bytes c url w').0
            ≡ inr uploaded.download_param)
        × (length c ≡ uploaded.cipher_size)
        × (image_aes_key env img (media_info env.base64_encode uploaded) ≡ inr key)
        × (open_media env key (served c) ≡ inr (content, env.detect_content_type content))
  upload_opens to_user_id content media_type w uploaded img bytes room bare h =
      let s = upload_to_cdn-Shared env laws to_user_id content media_type w uploaded h in
      let size =
        length-encrypt env.aes laws.aes_laws s.key (laws.accepts s.key s.long) content bytes in
      let same : size.0 ≡ s.ciphertext = ground (arith, s.sealed, size.1) in
      let long : length s.ciphertext ≡ aes_ecb_padded_size (length content) =
        sym (ap length same) ∙ size.2 in
      (
        s.ciphertext,
        s.key,
        s.posted.0,
        s.posted.1,
        s.posted.2,
        s.posted.3,
        long ∙ sym s.size,
        image_aes_key-media_info img uploaded s.key bare s.hex s.long s.bytes,
        open_media-served content s.key s.ciphertext s.sealed s.long bytes s.small room,
      )
