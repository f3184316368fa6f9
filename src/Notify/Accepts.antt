-- ===== src/Notify/Accepts.antt =====
-- notify.go: what the server has accepted when a send operation returns.
use wechat_bot.Base.{
  ◌+◌, ◌^◌, ◌<◌, false, Option, none, [], ◌∷◌, inl, inr, length, ◌==◌, Str, is_empty, trim_space,
  pos, eqb_ℤ, eqb_ℤ_iff, ◌≡◌, ◌≢◌, refl, arith, Bool-cases, Sum-cases,
}
use wechat_bot.Cdn.Download.{image_aes_key, open_media}
use wechat_bot.Cdn.Upload.{upload_cdn_bytes}
use wechat_bot.Url.Policy.{check_string}
use wechat_bot.Cdn.Transfer.{media_info, upload_to_cdn}
use wechat_bot.Cdn.Transfer.Uploaded.{MediaLaws}
use wechat_bot.Cdn.Transfer.Sharing.{served, upload_opens}
use wechat_bot.Crypto.Ecb.{IsBytes}
use wechat_bot.Crypto.Random.{generate_uuid}
use wechat_bot.Http.{version, do_post}
use wechat_bot.Listener.Env.{Sys}
use wechat_bot.Notify.{
  SendEnv, send_endpoint, text_item_of, image_of, image_item_of, conversation_token, client_id,
  send_single_item, send_text, send_markdown, send_upload, send_image,
}
use wechat_bot.Markdown.{format_for_wechat}
use wechat_bot.TokenCache.{ConversationContext, context_token_for}
use wechat_bot.Types.{
  Item, SendRequest, SendResponse, UploadedFile, msg_type_bot, msg_state_finish,
  cdn_media_type_image,
}

module _ {W : Type 0} (env : SendEnv W) (ctx : Option ConversationContext) (to_user_id : Str) where
  -- The server has accepted a message to the user that holds this item alone, under the token of the
  -- conversation.
  pub record Accepted (item : Item) (s : Sys W) : Type 0 where
    pub request : SendRequest
    pub response : SendResponse
    pub before : W
    pub recipient : request.msg.to_user_id ≡ to_user_id
    pub items : request.msg.item_list ≡ item ∷ []
    pub token : request.msg.context_token ≡ (context_token_for s.tokens ctx to_user_id).0
    pub answered :
        (do_post env.media.api env.media.account send_endpoint
          (env.encode_send request)
          env.decode_send
          before).0
        ≡ inr response
    pub accepted : response.ret ≡ pos 0

  send_single_item-Accepted :
      (item : Item) (s : Sys W)
      → (send_single_item env ctx to_user_id item s).0 ≡ inr tt
      → Accepted item s
  unfolding send_single_item conversation_token client_id
  send_single_item-Accepted item s h =
      let drawn = generate_uuid env.media.read_full s.world in
      let req : SendRequest = record {
        msg = record {
          from_user_id = env.ilink_bot_id;
          to_user_id = to_user_id;
          client_id = drawn.0;
          message_type = msg_type_bot;
          message_state = msg_state_finish;
          item_list = item ∷ [];
          context_token = (context_token_for s.tokens ctx to_user_id).0;
        };
        channel_version = version;
      } in
      let answer =
        do_post env.media.api env.media.account send_endpoint (env.encode_send req) env.decode_send
          drawn.1 in
      elim (Sum-cases answer.0) [
        | inl (e, failed) ↦ absurd (ground arith)
        | inr (resp, answered) ↦ elim (Bool-cases (eqb_ℤ resp.ret (pos 0))) [
          | inr rejected ↦ absurd (ground arith)
          | inl zero_ret ↦ record {
            request = req;
            response = resp;
            before = drawn.1;
            recipient = refl;
            items = refl;
            token = refl;
            answered = answered;
            accepted = (eqb_ℤ_iff resp.ret (pos 0)).0 zero_ret;
          }
        ]
      ]

  -- If a text is reported as sent, then it was not blank, and the server has accepted a message with
  -- this text alone, to this user and under the token of the conversation.
  pub send_text-Accepted :
      (text : Str) (s : Sys W)
      → (send_text env ctx to_user_id text s).0 ≡ inr tt
      → (is_empty (trim_space text) ≡ false) × Accepted (text_item_of text) s
  unfolding send_text
  send_text-Accepted text s h = elim (Bool-cases (is_empty (trim_space text))) [
    | inl blank ↦ absurd (ground arith)
    | inr given ↦
        (given, send_single_item-Accepted (text_item_of text) s (rw (given, send_text) at h))
  ]

  -- Sending Markdown is sending its formatted text: errors, requests and changes of the state are the
  -- same.
  pub send_markdown_lem :
      (markdown : Str) (s : Sys W)
      → send_markdown env ctx to_user_id markdown s
        ≡ send_text env ctx to_user_id (format_for_wechat markdown) s
  unfolding send_markdown send_text
  send_markdown_lem markdown s =
      elim (Bool-cases (is_empty (trim_space (format_for_wechat markdown)))) [
        | inl blank ↦ ground arith
        | inr given ↦ ground arith
      ]

  -- If an image is reported as sent, then it was not empty, and the server has accepted a message with
  -- one image to this user; an accepted URL has taken a ciphertext and answered with the download
  -- parameter that the image carries, and this ciphertext opens, with the key that a recipient reads
  -- out of this image, to the bytes that were sent. The source of random bytes, the
  -- block cipher and base64 do as documented, and the limit on media is more than 17 below 2 ^ 63.
  pub send_image-Accepted :
      (laws : MediaLaws env.media) (content : Str) (s : Sys W)
      → IsBytes content
      → env.media.max_media_bytes + 17 < 2 ^ 63
      → (send_image env ctx to_user_id content s).0 ≡ inr tt
      → (content ≢ [])
        × (uploaded : UploadedFile) × (s1 : Sys W) × (c : Str) × (key : Str) × (url : Str)
        × (w' : W) × Accepted (image_item_of env.media.base64_encode uploaded) s1
        × (s1.tokens ≡ s.tokens)
        × (check_string env.media.net env.media.media_policy url ≡ none)
        × ((upload_cdn_bytes env.media.cdn env.media.account.max_response_bytes c url w').0
            ≡ inr uploaded.download_param)
        × (length c ≡ uploaded.cipher_size)
        × (image_aes_key env.media
              (image_of env.media.base64_encode uploaded)
              (media_info env.media.base64_encode uploaded)
            ≡ inr key)
        × (open_media env.media key (served c)
            ≡ inr (content, env.media.detect_content_type content))
  unfolding send_image send_upload
  send_image-Accepted laws content s bytes room h =
      let stored = upload_to_cdn env.media to_user_id content cdn_media_type_image s.world in
      let s1 : Sys W = record s { world = stored.1 } in
      elim (Bool-cases (length content == 0)) [
        | inl blank ↦ absurd (ground arith)
        | inr given ↦ elim (Sum-cases stored.0) [
          | inl (e, failed) ↦ absurd (ground arith)
          | inr (uploaded, done) ↦
              let item = image_item_of env.media.base64_encode uploaded in
              let sent : (send_single_item env ctx to_user_id item s1).0 ≡ inr tt = ground arith in
              let opens =
                upload_opens env.media laws to_user_id content cdn_media_type_image s.world uploaded
                  (image_of env.media.base64_encode uploaded) bytes room refl done in
              let some_content : content ≢ [] = λ e. ground (arith, given, e) in
              (
                some_content,
                uploaded,
                s1,
                opens.0,
                opens.1,
                opens.2,
                opens.3,
                send_single_item-Accepted item s1 sent,
                refl,
                opens.4,
                opens.5,
                opens.6,
                opens.7,
                opens.8,
              )
        ]
      ]
