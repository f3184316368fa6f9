-- ===== src/Example/Handler.antt =====
-- examples/basic/main.go: the message handler that `run` registers.
use wechat_bot.Base.{◌++◌, Option, none, some, inl, inr, Str, utf8, if◌then◌else◌}
use wechat_bot.Errors.{Error, wrapped}
use wechat_bot.Example.Record.{Ledger, permanent, record_message}
use wechat_bot.Example.Reply.{reply}
use wechat_bot.Listener.Env.{Sys, Action, Handler, returned, on_world}
use wechat_bot.Notify.{SendEnv}
use wechat_bot.TokenCache.{ConversationContext}
use wechat_bot.Types.{InboundMessage}

-- What the handler works with: the client's means of sending, the context, the ledger of messages
-- that cannot be handled, and its file.
pub record Bot (W : Type 0) : Type 0 where
  pub send : SendEnv W
  pub ctx_err : Action W (Option Error)
  pub ledger : Ledger W
  pub dead_letter : Str

module _ {W : Type 0} (bot : Bot W) where
  -- `case permanent(err)`; the log line is not modelled.
  unfoldable pub give_up : InboundMessage → Error → Action (Sys W) (Option Error)
  give_up m e s =
      let (recorded, s1) = on_world (record_message bot.ledger bot.dead_letter m e) s in
      elim recorded [
        | inl rec ↦ (some (wrapped (utf8 "记录失败消息 " ++ m.message_id) rec), s1)
        | inr _ ↦ (none, s1)
      ]

  -- The `switch` behind a reply that failed.
  unfoldable pub sort_failure : InboundMessage → Error → Action (Sys W) (Option Error)
  sort_failure m e s =
      let (cancelled, s1) = on_world bot.ctx_err s in
      elim cancelled [
        | some _ ↦ (some e, s1)
        | none ↦
            if permanent e
            then give_up m e s1
            else (some (wrapped (utf8 "处理消息 " ++ m.message_id) e), s1)
      ]

  unfoldable pub handle :
      Option ConversationContext → InboundMessage → Action (Sys W) (Option Error)
  handle ctx m s =
      let (replied, s1) = reply bot.send ctx m s in
      elim replied [ inr _ ↦ (none, s1) | inl e ↦ sort_failure m e s1 ]

  -- The handler as the listener calls it.
  unfoldable pub handler : Handler W
  handler ctx m s = let (r, s1) = handle ctx m s in (returned r, s1)
