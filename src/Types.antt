-- ===== src/Types.antt =====
-- types.go and wire.go: the items and messages that the server sends and the handler receives.
use wechat_bot.Base.{
  ℕ, Bool, ◌&&◌, not, Option, List, Str, is_empty, ℤ, pos, negsuc, eqb_ℤ, ◌⊎◌, inl, inr,
}
use wechat_bot.Errors.{Error}

-- `ErrCodeSessionExpired`, -14
abbrev pub err_code_session_expired : ℤ
err_code_session_expired = negsuc 13

abbrev pub msg_type_user : ℤ
msg_type_user = pos 1

abbrev pub msg_type_bot : ℤ
msg_type_bot = pos 2

abbrev pub msg_state_finish : ℤ
msg_state_finish = pos 2

abbrev pub item_type_text : ℤ
item_type_text = pos 1

abbrev pub item_type_image : ℤ
item_type_image = pos 2

abbrev pub item_type_voice : ℤ
item_type_voice = pos 3

abbrev pub item_type_file : ℤ
item_type_file = pos 4

abbrev pub item_type_video : ℤ
item_type_video = pos 5

abbrev pub cdn_media_type_image : ℤ
cdn_media_type_image = pos 1

abbrev pub cdn_media_type_video : ℤ
cdn_media_type_video = pos 2

abbrev pub cdn_media_type_file : ℤ
cdn_media_type_file = pos 3

-- `EncryptTypeAES128ECB`
abbrev pub encrypt_type_aes128_ecb : ℤ
encrypt_type_aes128_ecb = pos 1

abbrev pub typing_status_typing : ℤ
typing_status_typing = pos 1

pub record MediaInfo : Type 0 where
  pub encrypt_query_param : Str
  pub aes_key : Str
  pub full_url : Str
  pub encrypt_type : ℤ

pub record ImageItem : Type 0 where
  pub aes_key : Str
  pub url : Str
  pub media : Option MediaInfo
  pub mid_size : ℤ

pub record VoiceItem : Type 0 where
  pub media : Option MediaInfo
  pub text : Str
  pub playtime : ℤ

pub record FileItem : Type 0 where
  pub media : Option MediaInfo
  pub file_name : Str
  pub len : Str

pub record VideoItem : Type 0 where
  pub media : Option MediaInfo
  pub video_size : ℤ

-- `wechatTextItem`
pub record TextItem : Type 0 where
  pub text : Str

-- `wechatItem`; a pointer that may be nil is an `Option`.
pub record Item : Type 0 where
  pub type : ℤ
  pub text_item : Option TextItem
  pub image_item : Option ImageItem
  pub voice_item : Option VoiceItem
  pub video_item : Option VideoItem
  pub file_item : Option FileItem

-- `wechatMessage`
pub record Message : Type 0 where
  pub raw : Str
  pub seq : ℕ
  pub message_id : ℕ
  pub create_time_ms : ℤ
  pub from_user_id : Str
  pub to_user_id : Str
  pub message_type : ℤ
  pub message_state : ℤ
  pub item_list : List Item
  pub context_token : Str

-- `wechatGetUpdatesRequest`, its base info being the channel version alone
pub record GetUpdatesRequest : Type 0 where
  pub get_updates_buf : Str
  pub channel_version : Str

-- `wechatGetUpdatesResponse`
pub record GetUpdatesResponse : Type 0 where
  pub ret : ℤ
  pub err_code : ℤ
  pub err_msg : Str
  pub msgs : List Message
  pub get_updates_buf : Str

-- `wechatSendMsg`
pub record SendMsg : Type 0 where
  pub from_user_id : Str
  pub to_user_id : Str
  pub client_id : Str
  pub message_type : ℤ
  pub message_state : ℤ
  pub item_list : List Item
  pub context_token : Str

-- `wechatSendRequest`; in this and the requests below the base info is the channel version alone.
pub record SendRequest : Type 0 where
  pub msg : SendMsg
  pub channel_version : Str

-- `wechatSendResponse` and `wechatSendTypingResponse`
pub record SendResponse : Type 0 where
  pub ret : ℤ
  pub err_msg : Str

-- `wechatGetConfigRequest`
pub record GetConfigRequest : Type 0 where
  pub ilink_user_id : Str
  pub context_token : Str
  pub channel_version : Str

-- `wechatGetConfigResponse`
pub record GetConfigResponse : Type 0 where
  pub ret : ℤ
  pub err_msg : Str
  pub typing_ticket : Str

-- `wechatSendTypingRequest`
pub record SendTypingRequest : Type 0 where
  pub ilink_user_id : Str
  pub typing_ticket : Str
  pub status : ℤ
  pub channel_version : Str

-- `wechatGetUploadURLRequest`
pub record GetUploadUrlRequest : Type 0 where
  pub file_key : Str
  pub media_type : ℤ
  pub to_user_id : Str
  pub raw_size : ℕ
  pub raw_file_md5 : Str
  pub file_size : ℕ
  pub no_need_thumb : Bool
  pub aes_key : Str
  pub channel_version : Str

-- `wechatGetUploadURLResponse`
pub record GetUploadUrlResponse : Type 0 where
  pub ret : ℤ
  pub err_msg : Str
  pub upload_param : Str
  pub upload_full_url : Str

pub record UploadedFile : Type 0 where
  pub download_param : Str
  pub aes_key_hex : Str
  pub file_size : ℕ
  pub cipher_size : ℕ

-- `wechatMessage.UnmarshalJSON`, for the decoding of the plain fields: the message keeps its own text.
unfoldable pub unmarshal_message : (Str → Error ⊎ Message) → Str → Error ⊎ Message
unmarshal_message decode bytes = elim (decode bytes) [
  | inl e ↦ inl e
  | inr m ↦ inr (record m { raw = bytes })
]

-- `InboundMessage`, less the pointer to its client
pub record InboundMessage : Type 0 where
  pub message_id : Str
  pub from_user_id : Str
  pub to_user_id : Str
  pub text : Str
  pub item_type : ℤ
  pub voice_text : Str
  pub image_item : Option ImageItem
  pub voice_item : Option VoiceItem
  pub file_item : Option FileItem
  pub video_item : Option VideoItem
  pub raw_message : Str
  pub context_token : Str

unfoldable pub is_text : InboundMessage → Bool
is_text m = not (is_empty m.text) && eqb_ℤ m.item_type item_type_text

unfoldable pub is_image : InboundMessage → Bool
is_image m = eqb_ℤ m.item_type item_type_image

unfoldable pub is_voice : InboundMessage → Bool
is_voice m = eqb_ℤ m.item_type item_type_voice
