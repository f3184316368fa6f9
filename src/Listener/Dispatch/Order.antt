-- ===== src/Listener/Dispatch/Order.antt =====
-- listener.go: what the handler is called with for one message.
use wechat_bot.Base.{
  Option, none, some, List, [], ◌∷◌, ◌++◌, map, ◌⊎◌, inl, inr, if◌then◌else◌, Str, ◌≡◌, refl, sym,
  ap, ◌∙◌, append_assoc, append-nil, Option-cases, Sum-cases, Bool-cases,
}
use wechat_bot.Errors.{Error}
use wechat_bot.TokenCache.{TokenCache, ConversationContext, set_context_token}
use wechat_bot.Listener.Env.{Sys, Action, Handler, Env, recovered, invoke_handler}
use wechat_bot.Listener.Dispatch.{
  inbound_message, is_deliverable, has_conversation, remember_token, raw_of, process_error,
  deliver_items, dispatch_inbound,
}
use wechat_bot.Types.{Item, Message, InboundMessage}

-- `observed` lists what the handler was called with: a call adds its argument, unless it fails and
-- only what was handled without an error is listed. Nothing else that the listener does between two
-- calls changes the list.
pub record Observes {W : Type 0} (handler : Handler W) (ctx_err : Action (Sys W) (Option Error))
    (observed : Sys W → List InboundMessage) : Type 0 where
  pub called :
      (ctx : Option ConversationContext) (m : InboundMessage) (s : Sys W)
      → (observed (handler ctx m s).1 ≡ observed s ++ m ∷ [])
        ⊎ ((e : Error) × (recovered (handler ctx m s).0 ≡ some e)
            × (observed (handler ctx m s).1 ≡ observed s))
  pub checked : (s : Sys W) → observed (ctx_err s).1 ≡ observed s
  pub stored : (s : Sys W) (t : TokenCache) → observed (record s { tokens = t }) ≡ observed s

-- A run added a first part of `expected` to what was observed; it ended with an error, or added all
-- of it.
pub record Adds {W : Type 0} (observed : Sys W → List InboundMessage)
    (expected : List InboundMessage) (before : Sys W) (after : Option Error × Sys W) : Type 0 where
  pub done : List InboundMessage
  pub rest : List InboundMessage
  pub splits : expected ≡ done ++ rest
  pub adds : observed after.1 ≡ observed before ++ done
  pub ended : ((e : Error) × (after.0 ≡ some e)) ⊎ (rest ≡ [])

-- What the handler is called with for one message, if nothing fails.
abbrev pub deliveries : {W : Type 0} → Env W → Message → List InboundMessage
deliveries env m =
    if is_deliverable m
    then (elim (raw_of env m) [ inl _ ↦ [] | inr raw ↦ map (inbound_message m raw) m.item_list ])
    else []

module _ {W : Type 0} (env : Env W) (handler : Handler W) (ctx_err : Action (Sys W) (Option Error))
    (observed : Sys W → List InboundMessage) (o : Observes handler ctx_err observed) where
  Adds-nothing :
      (expected : List InboundMessage) (before : Sys W) (e : Error) (after : Sys W)
      → observed after ≡ observed before
      → Adds observed expected before (some e, after)
  Adds-nothing expected before e after h = record {
    done = [];
    rest = expected;
    splits = refl;
    adds = h ∙ sym (append-nil _);
    ended = inl (e, refl);
  }

  pub Adds-none : (s s' : Sys W) → observed s' ≡ observed s → Adds observed [] s (none, s')
  Adds-none s s' h = record {
    done = [];
    rest = [];
    splits = refl;
    adds = h ∙ sym (append-nil _);
    ended = inr refl;
  }

  pub Adds-stop :
      (xs ys : List InboundMessage) (s s' : Sys W) (e : Error)
      → Adds observed xs s (some e, s')
      → Adds observed (xs ++ ys) s (some e, s')
  Adds-stop xs ys s s' e a = record {
    done = a.done;
    rest = a.rest ++ ys;
    splits = ap (λ l. l ++ ys) a.splits ∙ append_assoc a.done a.rest ys;
    adds = a.adds;
    ended = inl (e, refl);
  }

  pub Adds-append :
      (xs ys : List InboundMessage) (s s1 : Sys W) (r : Option Error × Sys W)
      → Adds observed xs s (none, s1)
      → Adds observed ys s1 r
      → Adds observed (xs ++ ys) s r
  Adds-append xs ys s s1 r a b =
      let nothing_left : a.rest ≡ [] = elim a.ended [ inl (e, h) ↦ absurd (cc) | inr h ↦ h ] in
      let whole : xs ≡ a.done = a.splits ∙ rw nothing_left (append-nil a.done) in
      record {
        done = xs ++ b.done;
        rest = b.rest;
        splits = ap (λ l. xs ++ l) b.splits ∙ sym (append_assoc xs b.done b.rest);
        adds =
            b.adds
            ∙ ap (λ l. l ++ b.done) (a.adds ∙ ap (λ l. observed s ++ l) (sym whole))
            ∙ append_assoc (observed s) xs b.done;
        ended = b.ended;
      }

  -- The same from another state at which as much was observed.
  Adds-from :
      (xs : List InboundMessage) (s s1 : Sys W) (r : Option Error × Sys W)
      → observed s1 ≡ observed s
      → Adds observed xs s1 r
      → Adds observed xs s r
  Adds-from xs s s1 r h a = record {
    done = a.done;
    rest = a.rest;
    splits = a.splits;
    adds = a.adds ∙ ap (λ l. l ++ a.done) h;
    ended = a.ended;
  }

  Adds-cons :
      (m : InboundMessage) (ms : List InboundMessage) (s s1 : Sys W) (r : Option Error × Sys W)
      → observed s1 ≡ observed s ++ m ∷ []
      → Adds observed ms s1 r
      → Adds observed (m ∷ ms) s r
  Adds-cons m ms s s1 r h a = record {
    done = m ∷ a.done;
    rest = a.rest;
    splits = ap (◌∷◌ m) a.splits;
    adds = a.adds ∙ ap (λ l. l ++ a.done) h ∙ append_assoc (observed s) (m ∷ []) a.done;
    ended = a.ended;
  }

  deliver_items-Adds :
      (m : Message) (raw : Str) (ctx : Option ConversationContext) (items : List Item) (s : Sys W)
      → Adds observed
          (map (inbound_message m raw) items)
          s
          (deliver_items env handler ctx_err m raw ctx items s)
  unfolding deliver_items invoke_handler
  deliver_items-Adds m raw ctx [] s = record {
    done = [];
    rest = [];
    splits = refl;
    adds = sym (append-nil _);
    ended = inr refl;
  }
  deliver_items-Adds m raw ctx (item ∷ items) s =
      let s1 = (ctx_err s).1 in
      let inbound = inbound_message m raw item in
      let called = invoke_handler handler ctx inbound s1 in
      elim (Option-cases (ctx_err s).0) [
        | inr (e, stop) ↦ rw (stop, deliver_items) (Adds-nothing _ s e s1 (o.checked s))
        | inl go ↦ elim (o.called ctx inbound s1) [
          | inr (e, failed, same) ↦
              rw (go, failed, deliver_items)
                (Adds-nothing _ s (process_error m e) called.1 (same ∙ o.checked s))
          | inl added ↦
              let logged = added ∙ ap (λ l. l ++ inbound ∷ []) (o.checked s) in
              elim (Option-cases called.0) [
                | inr (e, failed) ↦
                    rw (go, failed, deliver_items)
                      (Adds-cons inbound _ s called.1 (some (process_error m e), called.1) logged
                        (Adds-nothing _ called.1 (process_error m e) called.1 refl))
                | inl done ↦
                    rw (go, done, deliver_items)
                      (Adds-cons inbound _ s called.1 _ logged
                        (deliver_items-Adds m raw ctx items called.1))
              ]
        ]
      ]

  remember_token-observed : (m : Message) (s : Sys W) → observed (remember_token m s).1 ≡ observed s
  unfolding remember_token
  remember_token-observed m s = elim (Bool-cases (has_conversation m)) [
    | inl held ↦
        rw (held, remember_token)
          (o.stored s (set_context_token s.tokens m.from_user_id m.context_token))
    | inr bare ↦ rw (bare, remember_token)
  ]

  pub dispatch_inbound-Adds :
      (m : Message) (s : Sys W)
      → Adds observed (deliveries env m) s (dispatch_inbound env handler ctx_err m s)
  unfolding dispatch_inbound
  dispatch_inbound-Adds m s =
      let s1 = (ctx_err s).1 in
      elim (Option-cases (ctx_err s).0) [
        | inr (e, stop) ↦ rw (stop, dispatch_inbound) (Adds-nothing _ s e s1 (o.checked s))
        | inl go ↦ elim (Bool-cases (is_deliverable m)) [
          | inr skip ↦ rw (go, skip, dispatch_inbound) (Adds-none s s1 (o.checked s))
          | inl mine ↦
              let ctx = (remember_token m s1).0 in
              let s2 = (remember_token m s1).1 in
              let same = remember_token-observed m s1 ∙ o.checked s in
              elim (Sum-cases (raw_of env m)) [
                | inl (e, bad) ↦ rw (go, mine, bad, dispatch_inbound) (Adds-nothing [] s e s2 same)
                | inr (raw, good) ↦
                    rw (go, mine, good, dispatch_inbound)
                      (Adds-from _ s s2 _ same (deliver_items-Adds m raw ctx m.item_list s2))
              ]
        ]
      ]
