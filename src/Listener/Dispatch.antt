-- ===== src/Listener/Dispatch.antt =====
-- listener.go: `dispatchInbound`. Log lines are not modelled.
pub mod Order
use wechat_bot.Base.{
  ℕ, Bool, true, false, not, ◌&&◌, ◌||◌, Option, none, some, List, [], ◌∷◌, ◌++◌, ◌==◌, ◌⊎◌, inl,
  inr, length, if◌then◌else◌, Str, codes, is_empty, eqb_ℤ, format_uint,
}
use wechat_bot.Errors.{Error, wrapped}
use wechat_bot.Listener.Env.{Sys, Action, Handler, Env, on_world, invoke_handler}
use wechat_bot.TokenCache.{TokenCache, ConversationContext, set_context_token}
use wechat_bot.Types.{
  Item, Message, InboundMessage, msg_type_user, msg_state_finish, item_type_text, item_type_image,
  item_type_voice,
}

-- `Text` and `VoiceText` of an item, by its type.
unfoldable pub item_texts : Item → Str × Str
item_texts item =
    if eqb_ℤ item.type item_type_text
    then (elim item.text_item [ none ↦ [] | some t ↦ t.text ], [])
    else if eqb_ℤ item.type item_type_image
    then (elim item.image_item [ none ↦ [] | some _ ↦ codes "[image]" ], [])
    else if eqb_ℤ item.type item_type_voice
    then (
      elim item.voice_item [ none ↦ [] | some v ↦ v.text ],
      elim item.voice_item [ none ↦ [] | some v ↦ v.text ],
    )
    else ([], [])

-- The `InboundMessage` of one item.
unfoldable pub inbound_message : Message → Str → Item → InboundMessage
unfolding item_texts
inbound_message m raw item = record {
  message_id = format_uint m.message_id;
  from_user_id = m.from_user_id;
  to_user_id = m.to_user_id;
  text = (item_texts item).0;
  item_type = item.type;
  voice_text = (item_texts item).1;
  image_item = item.image_item;
  voice_item = item.voice_item;
  file_item = item.file_item;
  video_item = item.video_item;
  raw_message = raw;
  context_token = m.context_token;
}

-- A finished message of a user: what the listener hands to its handler.
unfoldable pub is_deliverable : Message → Bool
is_deliverable m = eqb_ℤ m.message_type msg_type_user && eqb_ℤ m.message_state msg_state_finish

-- `m.FromUserID != "" && m.ContextToken != ""`
unfoldable pub has_conversation : Message → Bool
has_conversation m = not (is_empty m.from_user_id) && not (is_empty m.context_token)

-- `saveContextToken`, and the conversation that the handler's context carries.
unfoldable pub remember_token : {W : Type 0} → Message → Sys W → Option ConversationContext × Sys W
unfolding set_context_token has_conversation
remember_token m s =
    if has_conversation m
    then (
      some (record { user_id = m.from_user_id; token = m.context_token }),
      record s { tokens = set_context_token s.tokens m.from_user_id m.context_token },
    )
    else (none, s)

-- `m.Raw`, or the message encoded again.
unfoldable pub raw_of : {W : Type 0} → Env W → Message → Error ⊎ Str
raw_of env m =
    if length m.raw == 0
    then (elim (env.marshal m) [
      | inl e ↦ inl (wrapped (codes "encode inbound message") e)
      | inr raw ↦ inr raw
    ])
    else inr m.raw

-- `fmt.Errorf("process message %s: %w", …)`
abbrev pub process_error : Message → Error → Error
process_error m e = wrapped (codes "process message " ++ format_uint m.message_id) e

module _ {W : Type 0} (env : Env W) (handler : Handler W)
    (ctx_err : Action (Sys W) (Option Error)) where
  -- `for _, item := range m.ItemList`
  unfoldable pub deliver_items :
      Message → Str → Option ConversationContext → List Item → Action (Sys W) (Option Error)
  deliver_items m raw ctx [] s = (none, s)
  deliver_items m raw ctx (item ∷ items) s =
      let (cancelled, s1) = ctx_err s in
      elim cancelled [
        | some e ↦ (some e, s1)
        | none ↦
            let (failed, s2) = invoke_handler handler ctx (inbound_message m raw item) s1 in
            elim failed [
              | some e ↦ (some (process_error m e), s2)
              | none ↦ deliver_items m raw ctx items s2
            ]
      ]

  unfoldable pub dispatch_inbound : Message → Action (Sys W) (Option Error)
  unfolding deliver_items
  dispatch_inbound m s =
      let (cancelled, s1) = ctx_err s in
      elim cancelled [
        | some e ↦ (some e, s1)
        | none ↦
            if not (is_deliverable m)
            then (none, s1)
            else let (ctx, s2) = remember_token m s1 in
              elim (raw_of env m) [
                | inl e ↦ (some e, s2)
                | inr raw ↦ deliver_items m raw ctx m.item_list s2
              ]
      ]
