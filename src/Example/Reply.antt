-- ===== src/Example/Reply.antt =====
-- examples/basic/main.go: `reply`, with its texts in UTF-8. Log lines are not modelled.
use wechat_bot.Base.{
  ◌++◌, Option, some, ◌∷◌, if◌then◌else◌, length, Str, codes, utf8, str_eq, is_empty, format_uint,
}
use wechat_bot.Cdn.Download.{download_decrypted_image}
use wechat_bot.Io.{Io, ◌>>=◌, explaining}
use wechat_bot.Listener.Env.{Sys, on_world}
use wechat_bot.Notify.{SendEnv, send_text, send_markdown}
use wechat_bot.TokenCache.{ConversationContext}
use wechat_bot.Types.{InboundMessage, is_image, is_voice}

-- The table of `report`
abbrev pub report_text : Str
report_text =
    utf8 "## 示例监控报表"
    ++ b'\n' ∷ utf8 "| 服务 | 状态 | 延迟 |"
    ++ b'\n' ∷ codes "| --- | --- | --- |"
    ++ b'\n' ∷ utf8 "| API | 正常 | 22ms |"
    ++ b'\n' ∷ utf8 "| 缓存 | 正常 | 3ms |"

-- `fmt.Sprintf("已接收图片：%s，%d 字节", contentType, len(data))`
abbrev pub image_reply : Str × Str → Str
image_reply (content, content_type) =
    utf8 "已接收图片：" ++ content_type ++ utf8 "，" ++ format_uint (length content) ++ utf8 " 字节"

module _ {W : Type 0} (env : SendEnv W) (ctx : Option ConversationContext) where
  -- `switch msg.Text`
  unfoldable pub reply_text : InboundMessage → Io (Sys W) (Unit {0})
  reply_text m =
      if str_eq m.text (codes "ping")
      then send_text env ctx m.from_user_id (codes "pong")
      else if str_eq m.text (codes "help")
      then send_text env ctx m.from_user_id (utf8 "发送 ping 测试连接，report 查看表格排版，图片测试解密，或发送文本获取回复。")
      else if str_eq m.text (codes "report")
      then send_markdown env ctx m.from_user_id report_text
      else if is_empty m.text
      then send_text env ctx m.from_user_id (utf8 "收到消息；此示例只处理文本、图片和语音转写。")
      else send_text env ctx m.from_user_id (utf8 "收到：" ++ m.text)

  -- `if msg.IsImage()`
  unfoldable pub reply_image : InboundMessage → Io (Sys W) (Unit {0})
  unfolding download_decrypted_image
  reply_image m = do
    opened ← explaining (utf8 "下载图片") (on_world (download_decrypted_image (some env.media) m))
    send_text env ctx m.from_user_id (image_reply opened)

  -- `if msg.IsVoice()`
  unfoldable pub reply_voice : InboundMessage → Io (Sys W) (Unit {0})
  reply_voice m =
      if is_empty m.voice_text
      then send_text env ctx m.from_user_id (utf8 "收到语音，服务端未提供转写文本。")
      else send_text env ctx m.from_user_id (utf8 "语音转写：" ++ m.voice_text)

  unfoldable pub reply : InboundMessage → Io (Sys W) (Unit {0})
  unfolding is_image is_voice reply_image reply_voice reply_text
  reply m = if is_image m then reply_image m else if is_voice m then reply_voice m else reply_text m
