-- ===== src/Notify.antt =====
-- notify.go: sending. The operations run on the state that the client shares with its listener, for the
-- conversation that their context carries. A context with a timeout differs from its parent only in
-- when an operation of the world fails.
pub mod Accepts
pub mod Posts
use wechat_bot.Base.{
  ℕ, Bool, true, false, not, Option, none, some, List, [], ◌∷◌, ◌++◌, ◌⊎◌, inl, inr, length, ◌==◌,
  if◌then◌else◌, Str, codes, is_empty, trim_space, ℤ, pos, eqb_ℤ, format_uint,
}
use wechat_bot.Cdn.Transfer.{MediaEnv, media_info, upload_to_cdn}
use wechat_bot.Crypto.Random.{generate_uuid}
use wechat_bot.Errors.{Error, api_error, err_empty_message}
use wechat_bot.Http.{version, do_post}
use wechat_bot.Io.{Io, ◌>>=◌, ◌>>◌, give, lift, reject_if, explaining}
use wechat_bot.Listener.Env.{Action, Sys, on_world}
use wechat_bot.Markdown.{format_for_wechat}
use wechat_bot.TokenCache.{ConversationContext, context_token_for}
use wechat_bot.Types.{
  MediaInfo, ImageItem, VideoItem, FileItem, TextItem, Item, SendMsg, SendRequest, SendResponse,
  GetConfigRequest, GetConfigResponse, SendTypingRequest, UploadedFile, item_type_text,
  item_type_image, item_type_file, item_type_video, msg_type_bot, msg_state_finish,
  cdn_media_type_image, cdn_media_type_video, cdn_media_type_file, typing_status_typing,
}

-- What a client sends with: its means of transfer, its account and encoding/json.
pub record SendEnv (W : Type 0) : Type 0 where
  pub media : MediaEnv W
  pub ilink_bot_id : Str
  pub encode_send : SendRequest → Error ⊎ Str
  pub decode_send : Str → Error ⊎ SendResponse
  pub encode_config : GetConfigRequest → Error ⊎ Str
  pub decode_config : Str → Error ⊎ GetConfigResponse
  pub encode_typing : SendTypingRequest → Error ⊎ Str

abbrev pub send_endpoint : Str
send_endpoint = codes "/ilink/bot/sendmessage"

abbrev pub config_endpoint : Str
config_endpoint = codes "/ilink/bot/getconfig"

abbrev pub typing_endpoint : Str
typing_endpoint = codes "/ilink/bot/sendtyping"

-- An item with nothing in it yet
abbrev pub bare_item : ℤ → Item
bare_item type = record {
  type = type;
  text_item = none;
  image_item = none;
  voice_item = none;
  video_item = none;
  file_item = none;
}

unfoldable pub text_item_of : Str → Item
text_item_of text = record (bare_item item_type_text) { text_item = some (record { text = text }) }

abbrev pub image_of : (Str → Str) → UploadedFile → ImageItem
image_of base64_encode uploaded = record {
  aes_key = [];
  url = [];
  media = some (media_info base64_encode uploaded);
  mid_size = pos uploaded.cipher_size;
}

unfoldable pub image_item_of : (Str → Str) → UploadedFile → Item
image_item_of base64_encode uploaded = record (bare_item item_type_image) {
  image_item = some (image_of base64_encode uploaded);
}

unfoldable pub file_item_of : (Str → Str) → Str → UploadedFile → Item
unfolding media_info
file_item_of base64_encode filename uploaded = record (bare_item item_type_file) {
  file_item = some (record {
    media = some (media_info base64_encode uploaded);
    file_name = filename;
    len = format_uint uploaded.file_size;
  });
}

unfoldable pub video_item_of : (Str → Str) → UploadedFile → Item
unfolding media_info
video_item_of base64_encode uploaded = record (bare_item item_type_video) {
  video_item = some (record {
    media = some (media_info base64_encode uploaded);
    video_size = pos uploaded.cipher_size;
  });
}

-- The test of `Ret` behind an exchange.
abbrev pub accept_reply : {S : Type 0} → Str → SendResponse → Io S (Unit {0})
accept_reply endpoint resp =
    reject_if (not (eqb_ℤ resp.ret (pos 0))) (api_error endpoint resp.ret (pos 0) resp.err_msg)

module _ {W : Type 0} (env : SendEnv W) (ctx : Option ConversationContext) where
  -- `contextTokenFor`, which moves the entry of the user in the token cache.
  unfoldable pub conversation_token : Str → Io (Sys W) Str
  unfolding context_token_for
  conversation_token to_user_id s =
      let (token, tokens) = context_token_for s.tokens ctx to_user_id in
      (inr token, record s { tokens = tokens })

  -- `GenerateUUID`, on the world
  unfoldable pub client_id : Io (Sys W) Str
  unfolding generate_uuid
  client_id s = let (id, s1) = on_world (generate_uuid env.media.read_full) s in (inr id, s1)

  -- `sendSingleItem`
  unfoldable pub send_single_item : Str → Item → Io (Sys W) (Unit {0})
  unfolding do_post
  send_single_item to_user_id item = do
    context_token ← conversation_token to_user_id
    id ← client_id
    resp ← explaining (codes "sendmessage") (
        on_world (
          do_post env.media.api env.media.account send_endpoint
            (env.encode_send (record {
              msg = record {
                from_user_id = env.ilink_bot_id;
                to_user_id = to_user_id;
                client_id = id;
                message_type = msg_type_bot;
                message_state = msg_state_finish;
                item_list = item ∷ [];
                context_token = context_token;
              };
              channel_version = version;
            }))
            env.decode_send))
    accept_reply send_endpoint resp

  -- `SendText`
  unfoldable pub send_text : Str → Str → Io (Sys W) (Unit {0})
  send_text to_user_id text = do
    reject_if (is_empty (trim_space text)) err_empty_message
    send_single_item to_user_id (text_item_of text)

  -- `SendMarkdown`
  unfoldable pub send_markdown : Str → Str → Io (Sys W) (Unit {0})
  send_markdown to_user_id markdown = do
    reject_if (is_empty (trim_space (format_for_wechat markdown))) err_empty_message
    send_text to_user_id (format_for_wechat markdown)

  -- An upload and the message that refers to it.
  unfoldable pub send_upload : Str → ℤ → (UploadedFile → Item) → Str → Str → Io (Sys W) (Unit {0})
  send_upload why media_type item_of to_user_id content = do
    uploaded ← explaining why (on_world (upload_to_cdn env.media to_user_id content media_type))
    send_single_item to_user_id (item_of uploaded)

  -- `SendImage`
  unfoldable pub send_image : Str → Str → Io (Sys W) (Unit {0})
  send_image to_user_id content = do
    reject_if (length content == 0) err_empty_message
    send_upload (codes "upload image") cdn_media_type_image (image_item_of env.media.base64_encode)
        to_user_id content

  -- `SendFile`
  unfoldable pub send_file : Str → Str → Str → Io (Sys W) (Unit {0})
  send_file to_user_id filename =
      let name = if is_empty filename then codes "file" else filename in
      send_upload (codes "upload file") cdn_media_type_file
        (file_item_of env.media.base64_encode name) to_user_id

  -- `SendVideo`
  unfoldable pub send_video : Str → Str → Io (Sys W) (Unit {0})
  send_video to_user_id content = do
    reject_if (length content == 0) err_empty_message
    send_upload (codes "upload video") cdn_media_type_video (video_item_of env.media.base64_encode)
        to_user_id content

  -- The request for a typing ticket, and the test of `Ret`.
  unfoldable pub get_config : Str → Str → Io (Sys W) GetConfigResponse
  get_config to_user_id context_token = do
    resp ← explaining (codes "getconfig") (
        on_world (
          do_post env.media.api env.media.account config_endpoint
            (env.encode_config (record {
              ilink_user_id = to_user_id;
              context_token = context_token;
              channel_version = version;
            }))
            env.decode_config))
    reject_if (not (eqb_ℤ resp.ret (pos 0)))
        (api_error config_endpoint resp.ret (pos 0) resp.err_msg)
    give resp

  -- The typing indicator for a ticket.
  unfoldable pub post_typing : Str → Str → Io (Sys W) (Unit {0})
  post_typing to_user_id typing_ticket = do
    resp ← explaining (codes "sendtyping") (
        on_world (
          do_post env.media.api env.media.account typing_endpoint
            (env.encode_typing (record {
              ilink_user_id = to_user_id;
              typing_ticket = typing_ticket;
              status = typing_status_typing;
              channel_version = version;
            }))
            env.decode_send))
    accept_reply typing_endpoint resp

  -- `SendTyping`
  unfoldable pub send_typing : Str → Io (Sys W) (Unit {0})
  unfolding get_config post_typing
  send_typing to_user_id s =
      if is_empty to_user_id
      then (inr tt, s)
      else (do
        context_token ← conversation_token to_user_id
        resp ← get_config to_user_id context_token
        if is_empty resp.typing_ticket then give tt else post_typing to_user_id resp.typing_ticket)
          s
